-- ===== src/Tests/Stores.antt =====
-- Runs of the event store over the database of Tests/Memory.antt.
use holonightd.Prelude.{
  sym, ◌∙◌, if◌then◌else◌, ◌*◌, ℕ, String, ◌≡◌, refl, ap, ◌≢◌, inl, inr, Bool, true, false, Option,
  none, some, List, [], ◌∷◌, map, arith, Bool-cases, length, keep_if, ◌==◌, nat_eq, text_eq,
}
use holonightd.Prelude.Text.{pos, decimal_ℤ}
use holonightd.Prelude.Rearrange.{Rearranged}
use holonightd.Observation.{
  Severity, warning, debug, critical, severity_to_string, value, unexpected, integer,
  ObservationEvent,
}
use holonightd.Store.{begin, StoredRow, row_of, parse_row, c_str, to_int64}
use holonightd.Store.Rows.{parse_row-row_of}
use holonightd.Store.Laws.{Descending}
use holonightd.Store.Operations.{EventQuery, query, insert_batch, commit_batch}
use holonightd.Store.Operations.Atomic.{
  IsAtomic, insert_batch-IsAtomic, insert_batches, insert_batch-stuck, stuck_message, busy_message,
  accepted,
}
use holonightd.Store.Operations.Selection.{matches, at_most_limit, query-matches}
use holonightd.Store.Capacity.{prune_events_by_capacity, get_size_bytes}
use holonightd.Store.Capacity.Retention.{Retained, prune_events_by_capacity-Retained}
use holonightd.Store.Capacity.Vacuum.{Emptied, prune_events_by_capacity-Emptied}
use Prim.Native.String.{◌++◌ as append}
use holonightd.Prelude.Map.{lookup, assign, erase, lookup-assign, lookup-erase}
use holonightd.Store.Operations.{prune_events}
use holonightd.Store.Export.{Disk, export_to_jsonl}
use holonightd.Store.Export.Replaced.{DiskLaws, IsReplaced, export_to_jsonl-IsReplaced}
use holonightd.Config.{DatabaseConfig}
use holonightd.Daemon.{cutoff_of, keep_store}
use holonightd.Daemon.Iteration.{ExpiryLaws, Kept, keep_store-Kept}
use holonightd.Tests.Memory.{
  memory, memory_rows, memory-DeletionLaws, memory-Countable, memory-NoVacuum, memory-SelectionLaws,
  memory-SqliteLaws, memory-Counted, memory-FileSize,
}
use holonightd.Tests.Samples.{sample_std, sample_json, Document, real_document}

abbrev event : ℕ → String → Severity → ObservationEvent ℕ
event time source severity = record {
  id = pos 0;
  timestamp = pos (time * 1000);
  source = source;
  category = "unit";
  subject = "nginx.service";
  signal = "failed";
  value = integer (pos 7);
  severity = severity;
  attributes_json = "";
}

-- An event between two microseconds.
abbrev between : ObservationEvent ℕ
between = record (event 3 "s" warning) { timestamp = pos 3999 }

parse_row-row_of_example :
    parse_row sample_std (record { id = pos 4; columns = row_of sample_std between })
    ≡ record (event 3 "s" warning) { id = pos 4; attributes_json = "{}" }
unfolding c_str decimal_ℤ
parse_row-row_of_example = parse_row-row_of sample_std (pos 4) between refl

empty : Bool → memory.Db
unfolding memory
empty busy = record { table = []; saved = none; next_id = 1; page_number = 3; is_busy = busy }

abbrev batch : List (ObservationEvent ℕ)
batch = event 1 "s" warning ∷ event 2 "s" critical ∷ event 3 "s" debug ∷ []

insert_batch-IsAtomic_example :
    IsAtomic sample_std memory memory-SqliteLaws
      (memory-SqliteLaws.committed (empty false))
      (map (row_of sample_std) batch)
      3
      (insert_batch sample_std memory batch (empty false))
insert_batch-IsAtomic_example =
    insert_batch-IsAtomic sample_std memory memory-SqliteLaws batch (empty false)

abbrev or_else : {A : Type 0} → Option A → A → A
or_else none a = a
or_else (some b) a = b

-- A batch before its COMMIT, which is then refused.
full : memory.Db
unfolding accepted empty
full =
    or_else
      (accepted sample_std memory memory-SqliteLaws (map (row_of sample_std) batch)
        (memory.exec begin (empty true)).0)
      (empty true)

insert_batch-stuck_example :
    let (failed, result) = insert_batch sample_std memory batch (empty true) in
    let later = insert_batches sample_std memory memory-SqliteLaws (batch ∷ []) failed in
    (result ≡ unexpected busy_message)
    × ((insert_batch sample_std memory batch later).1 ≡ unexpected stuck_message)
    × (memory-SqliteLaws.committed later ≡ memory-SqliteLaws.committed (empty true))
unfolding full accepted memory memory-SqliteLaws empty row_of
insert_batch-stuck_example =
    insert_batch-stuck sample_std memory memory-SqliteLaws batch (batch ∷ []) batch (empty true)
      full refl refl refl refl

filled : memory.Db
unfolding insert_batch empty
filled = (insert_batch sample_std memory batch (empty false)).0

abbrev newest : EventQuery
newest = record {
  start_time = some (pos 1500);
  end_time = none;
  source = some "s";
  category = none;
  subject = none;
  min_severity = some warning;
  limit = some 1;
}

-- The database holds the batch.
filled_lem :
    (length (memory_rows filled) ≡ 3)
    × (query sample_std memory newest filled
        ≡ value (record (event 2 "s" critical) { id = pos 2; attributes_json = "{}" } ∷ []))
unfolding filled memory memory_rows query row_of commit_batch to_int64 severity_to_string decimal_ℤ
filled_lem = (refl, refl)

query-matches_example :
    (found : List StoredRow) × (Rearranged
        (keep_if (λ r. matches newest r.columns) (memory_rows filled))
        found
      × Descending found
      × (query sample_std memory newest filled
          ≡ value (map (parse_row sample_std) (at_most_limit (some 1) found))))
unfolding memory
query-matches_example =
    query-matches sample_std memory memory_rows memory-SelectionLaws newest filled refl refl

prune_events_by_capacity-Retained_example :
    Retained memory memory_rows memory-DeletionLaws memory-Counted memory-FileSize 0 2 filled
      (prune_events_by_capacity memory 4 0 2 filled)
unfolding filled memory memory_rows row_of commit_batch
prune_events_by_capacity-Retained_example =
    prune_events_by_capacity-Retained memory memory_rows memory-DeletionLaws memory-Counted
      memory-FileSize 4 0 2 filled (omega arith) (omega arith)

prune_events_by_capacity-Emptied_example :
    Emptied memory memory_rows memory-DeletionLaws memory-Countable memory-NoVacuum filled
      (prune_events_by_capacity memory 4 10000 0 filled)
unfolding filled memory memory_rows row_of commit_batch get_size_bytes
prune_events_by_capacity-Emptied_example =
    prune_events_by_capacity-Emptied memory memory_rows memory-DeletionLaws memory-Countable
      memory-NoVacuum 4 10000 0 filled (omega arith) (omega arith) (omega arith) (omega arith) refl

memory-ExpiryLaws : ExpiryLaws memory memory_rows
unfolding memory memory_rows
memory-ExpiryLaws = record { delete_before_lem = λ m t k e. refl }

-- A day of retention, and two events.
abbrev database : DatabaseConfig
database = record {
  path = none;
  retention_days = some (pos 1);
  max_bytes = some 0;
  max_events = some 2;
}

keep_store-Kept_example :
    Kept sample_std memory memory_rows memory-DeletionLaws memory-Counted memory-FileSize
      memory-ExpiryLaws
      (pos 86_400_000_002_500)
      database
      (keep_store sample_std memory 4 true (pos 86_400_000_002_500) database batch (empty false))
unfolding memory memory_rows empty insert_batch row_of commit_batch prune_events cutoff_of
keep_store-Kept_example =
    keep_store-Kept sample_std memory memory_rows memory-DeletionLaws memory-Counted memory-FileSize
      memory-ExpiryLaws 4 true (pos 86_400_000_002_500) database batch (empty false) (omega arith)
      (omega arith)

-- A disk of files, each with the text written to its stream. Two paths name the file of the export.
record File : Type 0 where
  content : String
  pending : String

abbrev Files : Type 0
Files = List (String × File)

abbrev place : String → String
place path = if path == "./out.jsonl" then "out.jsonl" else path

abbrev of_file : Option File → Option String
of_file none = none
of_file (some f) = some f.content

abbrev content_of : Files → String → Option String
content_of fs path = of_file (lookup (place path) fs)

abbrev written_to : Option File → String
written_to none = ""
written_to (some f) = f.pending

abbrev pending_of : Files → String → String
pending_of fs path = written_to (lookup (place path) fs)

-- What rename makes of the file that it finds.
move : String → Option File → Files → Files × Option String
unfolding assign
move q none fs = (fs, some "no such file")
move q (some f) fs = (assign (place q) f fs, none)

disk : Disk
unfolding move lookup assign erase
disk = record {
  Fs = Files;
  parent_path = λ p. none;
  create_directories = λ p fs. (fs, true);
  open_out = λ p fs. (assign (place p) (record { content = ""; pending = "" }) fs, true);
  write = λ p s fs.
      (assign (place p) (record { content = ""; pending = append (pending_of fs p) s }) fs, true);
  close = λ p fs.
      (assign (place p) (record { content = pending_of fs p; pending = pending_of fs p }) fs, true);
  remove = λ p fs. (erase (place p) fs, true);
  rename = λ p q fs. move q (lookup (place p) fs) fs;
}

same_path : (p : String) → (p == p) ≡ true
same_path p = (text_eq.test_iff p p).1 refl

other_path : (p q : String) → p ≢ q → (p == q) ≡ false
other_path p q differ = elim (Bool-cases (p == q)) [
  | inl e ↦ elim (differ ((text_eq.test_iff p q).0 e)) [ ]
  | inr e ↦ e
]

lookup_other :
    (p q : String) (f : File) (fs : Files) → p ≢ q → lookup q (assign p f fs) ≡ lookup q fs
lookup_other p q f fs differ = rw (lookup-assign p q f fs, other_path p q differ) refl

content_other :
    (p q : String) (f : File) (fs : Files)
    → place p ≢ place q
    → content_of (assign (place p) f fs) q ≡ content_of fs q
content_other p q f fs differ = ap of_file (lookup_other (place p) (place q) f fs differ)

lookup_put : (p : String) (f : File) (fs : Files) → lookup p (assign p f fs) ≡ some f
lookup_put p f fs = rw (lookup-assign p p f fs, same_path p) refl

lookup_removed : (p q : String) (fs : Files) → p ≢ q → lookup q (erase p fs) ≡ lookup q fs
lookup_removed p q fs differ = rw (lookup-erase p q fs, other_path p q differ) refl

moved-move :
    (p q : String) (found : Option File) (fs : Files)
    → lookup (place p) fs ≡ found
    → let (moved, message) = move q found fs in
      (message ≡ none → content_of moved q ≡ content_of fs p)
      × ((m : String)
          → message ≡ some m
          → ◌≡◌ {A = Files × Option String} (moved, message) (fs, some m))
unfolding move
moved-move p q none fs e =
    ((λ h. cc), λ m h. ap {A = Option String} {B = Files × Option String} (λ x. (fs, x)) h)
moved-move p q (some f) fs e = ((λ h. ap of_file (lookup_put (place q) f fs ∙ sym e)), λ m h. cc)

disk-DiskLaws : DiskLaws disk
unfolding disk move
disk-DiskLaws = record {
  content = λ fs p. content_of fs p;
  pending = λ fs p. pending_of fs p;
  Apart = λ fs p q. place p ≢ place q;
  create_lem = λ p q fs. refl;
  create-Apart = λ d p q fs h. h;
  open_other = λ p q fs differ. (content_other p q _ fs differ, differ);
  open_ok = λ p fs h. ap written_to (lookup_put (place p) _ fs);
  write_other = λ p q s fs differ. (content_other p q _ fs differ, differ);
  write_ok = λ p s fs h. ap written_to (lookup_put (place p) _ fs);
  close_other = λ p q fs differ. (content_other p q _ fs differ, differ);
  close_ok = λ p fs h. ap of_file (lookup_put (place p) _ fs);
  remove_other = λ p q fs differ. ap of_file (lookup_removed (place p) (place q) fs differ);
  rename_ok = λ p q fs h. (moved-move p q (lookup (place p) fs) fs refl).0 h;
  rename_refused = λ p q message fs h. (moved-move p q (lookup (place p) fs) fs refl).1 message h;
}

old_disk : disk.Fs
unfolding disk
old_disk = ("out.jsonl", record { content = "old"; pending = "" }) ∷ []

as_real : Document → Option ℕ
as_real (real_document n) = some n
as_real _ = none

temporary_differs : disk-DiskLaws.Apart old_disk (append "./out.jsonl" ".tmp") "./out.jsonl"
unfolding disk-DiskLaws old_disk disk
temporary_differs same =
    let h = (text_eq.test_iff (append "./out.jsonl" ".tmp") "out.jsonl").1 same in cc

export_to_jsonl-IsReplaced_example :
    IsReplaced sample_std sample_json real_document as_real memory disk disk-DiskLaws "./out.jsonl"
      (query sample_std memory newest filled)
      old_disk
      (export_to_jsonl sample_std sample_json real_document as_real memory disk "./out.jsonl" newest
        filled old_disk)
export_to_jsonl-IsReplaced_example =
    export_to_jsonl-IsReplaced sample_std sample_json real_document as_real memory disk
      disk-DiskLaws "./out.jsonl" newest filled old_disk temporary_differs
