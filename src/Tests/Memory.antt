-- ===== src/Tests/Memory.antt =====
-- A database in memory that meets what the event store relies on, with its COMMIT refused while it
-- is busy, and a file of a fixed number of pages.
use holonightd.Prelude.{
  length-take, ℕ, ◌+◌, ◌-◌, ◌*◌, ◌%◌, min, ◌≡◌, refl, sym, ap, ◌∙◌, subst, Bool, true, false,
  Option, none, some, List, [], ◌∷◌, ◌++◌, arith, ltb, if◌then◌else◌, length, take, keep_if, ◌==◌,
  nat_eq, text_eq,
}
use holonightd.Prelude.Text.{ℤ, pos, negsuc}
use holonightd.Prelude.Rearrange.{Rearranged, length-Rearranged}
use holonightd.Observation.{Expected, value, unexpected}
use holonightd.Store.{
  Row, StoredRow, Script, begin, commit, rollback, wal_checkpoint, Executed, ok, refused, Sqlite,
}
use holonightd.Store.Laws.{
  at_most, severity_case, goes_first, all_hold, cut, Descending, SqliteLaws, SelectionLaws,
  DeletionLaws, Counted, FileSize, Countable,
}
use holonightd.Store.Capacity.Vacuum.{NoVacuum, some-injective}
use holonightd.Tests.Sorting.{
  drop_first, IsOrder, sort, sort-Rearranged, IsSorted, sort-IsSorted, take-below, take-drop_first,
}

pub record Memory : Type 0 where
  pub table : List StoredRow
  pub saved : Option (List StoredRow)
  pub next_id : ℕ
  pub page_number : ℕ
  pub is_busy : Bool

abbrev committed_of : Option (List StoredRow) → List StoredRow → List StoredRow
committed_of none table = table
committed_of (some t) table = t

run : Script → Memory → Memory × Executed
run begin m = elim m.saved [
  | none ↦ (record m { saved = some m.table }, ok)
  | some t ↦ (m, refused (some "cannot start a transaction within a transaction"))
]
run commit m =
    if m.is_busy then (m, refused (some "database is locked")) else (record m { saved = none }, ok)
run rollback m = (record m { saved = none; table = committed_of m.saved m.table }, ok)
run wal_checkpoint m = (m, ok)

-- A row without a source is refused.
insert_into : Row → Memory → Memory × Expected ℤ
insert_into row m = if row.source == "" then (m, unexpected "refused") else (
  record m {
    table = m.table ++ (record { id = pos m.next_id; columns = row } ∷ []);
    next_id = m.next_id + 1;
  },
  value (pos m.next_id),
)

newer : StoredRow → StoredRow → Bool
unfolding at_most
newer a b = at_most b.columns.timestamp_us a.columns.timestamp_us

lowest : ℤ → Memory → Memory × Expected ℕ
unfolding goes_first
lowest (pos n) m =
    let ordered = sort goes_first m.table in
    (record m { table = drop_first n ordered }, value (length (take n ordered)))
lowest (negsuc n) m = (record m { table = [] }, value (length m.table))

before : ℤ → Memory → Memory × Expected ℕ
unfolding at_most
before t m =
    let kept = keep_if (λ r. at_most t r.columns.timestamp_us) m.table in
    (record m { table = kept }, value (length m.table - length kept))

unfoldable pub memory : Sqlite
unfolding run insert_into newer all_hold cut lowest before
memory = record {
  Db = Memory;
  errmsg = λ m. "not an error";
  exec = run;
  prepare = λ s. λ m. none;
  step_insert = insert_into;
  step_select = λ cs. λ limited. λ vs.
      λ m. (cut limited cs vs (sort newer (keep_if (λ r. all_hold cs vs r.columns) m.table)), true);
  step_delete_before = before;
  step_delete_lowest = lowest;
  step_count = λ m. some (pos (length m.table));
  step_page_count = λ m. some (pos (m.page_number % 1073741824));
  step_page_size = λ m. some (pos 4096);
}

at_most_lem : IsOrder ℤ at_most
unfolding at_most
at_most_lem = record { total = λ a b. by_sign a b; le-trans = λ a b c. by_signs a b c }
  where
    by_sign : (a b : ℤ) → at_most a b ≡ false → at_most b a ≡ true
    by_sign (pos a) (pos b) h = ground arith
    by_sign (pos a) (negsuc b) h = refl
    by_sign (negsuc a) (pos b) h = cc
    by_sign (negsuc a) (negsuc b) h = ground arith

    by_signs : (a b c : ℤ) → at_most a b ≡ true → at_most b c ≡ true → at_most a c ≡ true
    by_signs (pos a) (pos b) (pos c) h g = ground arith
    by_signs (pos a) (pos b) (negsuc c) h g = cc
    by_signs (pos a) (negsuc b) c h g = cc
    by_signs (negsuc a) (pos b) (pos c) h g = refl
    by_signs (negsuc a) (pos b) (negsuc c) h g = cc
    by_signs (negsuc a) (negsuc b) (pos c) h g = refl
    by_signs (negsuc a) (negsuc b) (negsuc c) h g = ground arith

newer_lem : IsOrder StoredRow newer
unfolding newer
newer_lem = record {
  total = λ a b. at_most_lem.total b.columns.timestamp_us a.columns.timestamp_us;
  le-trans = λ a b c h g.
      at_most_lem.le-trans c.columns.timestamp_us b.columns.timestamp_us a.columns.timestamp_us g h;
}

abbrev lexicographic : ℕ → ℕ → Bool → Bool
lexicographic a b later = if ltb a b then true else if ltb b a then false else later

lexicographic_trans :
    (a b c : ℕ) (p q r : Bool)
    → (p ≡ true → q ≡ true → r ≡ true)
    → lexicographic a b p ≡ true
    → lexicographic b c q ≡ true
    → lexicographic a c r ≡ true
lexicographic_trans a b c p q r h first second = ground (arith, h)

lexicographic-total :
    (a b : ℕ) (p q : Bool)
    → (p ≡ false → q ≡ true)
    → lexicographic a b p ≡ false
    → lexicographic b a q ≡ true
lexicographic-total a b p q h first = ground (arith, h)

goes_first_lem : IsOrder StoredRow goes_first
unfolding goes_first
goes_first_lem = record {
  total = λ a b.
      lexicographic-total (severity_case a.columns.severity) (severity_case b.columns.severity) _ _
        (at_most_lem.total a.columns.timestamp_us b.columns.timestamp_us);
  le-trans = λ a b c.
      lexicographic_trans (severity_case a.columns.severity) (severity_case b.columns.severity)
        (severity_case c.columns.severity) _ _ _
        (at_most_lem.le-trans a.columns.timestamp_us b.columns.timestamp_us c.columns.timestamp_us);
}

value-injective : {m n : ℕ} → value m ≡ value n → n ≡ m
value-injective h = cc

unfoldable pub memory_rows : memory.Db → List StoredRow
unfolding memory
memory_rows m = m.table

pub memory-DeletionLaws : DeletionLaws memory memory_rows
unfolding memory memory_rows lowest
memory-DeletionLaws = record {
  delete_lowest_lem = λ m n k small e.
      let ordered = sort goes_first m.table in
      let count = value-injective e in
      (
        take n ordered,
        (
          subst (Rearranged m.table) (sym (take-drop_first n ordered))
              (sort-Rearranged goes_first m.table),
          count,
          count
              ∙ length-take n ordered
              ∙ ap (min n) (sym (length-Rearranged (sort-Rearranged goes_first m.table))),
          take-below goes_first n ordered (sort-IsSorted goes_first goes_first_lem m.table),
        ),
      );
}

pub memory-Counted : Counted memory memory_rows
unfolding memory memory_rows
memory-Counted = record { count_lem = λ m n prepared read. some-injective read }

pub memory-FileSize : FileSize memory
unfolding memory
memory-FileSize = record {
  file_bytes = λ m. m.page_number % 1073741824 * 4096;
  file_bytes-small = λ m. omega arith;
  size_lem = λ m a b h1 h2 h3 h4.
      (m.page_number % 1073741824, (4096, (some-injective h2, some-injective h4, refl)));
}

pub memory-Countable : Countable memory memory_rows
unfolding memory memory_rows
memory-Countable = record { prepare-count = λ m. refl; count_lem = λ m. refl }

pub memory-NoVacuum : NoVacuum memory
unfolding memory lowest
memory-NoVacuum = record {
  prepare_kept = λ m n s. refl;
  page_count_kept = pages_of;
  page_size_kept = λ m n. refl;
}
  where
    pages_of :
        (m : Memory) (n : ℤ)
        → memory.step_page_count (memory.step_delete_lowest n m).0 ≡ memory.step_page_count m
    pages_of m (pos n) = refl
    pages_of m (negsuc n) = refl

IsSorted-Descending : (rs : List StoredRow) → IsSorted newer rs → Descending rs
unfolding newer
IsSorted-Descending [] h = tt
IsSorted-Descending (r ∷ rs) h = (h.0, IsSorted-Descending rs h.1)

pub memory-SelectionLaws : SelectionLaws memory memory_rows
unfolding memory memory_rows
memory-SelectionLaws = record {
  select_lem = λ cs limited vs m h.
      let asked = keep_if (λ r. all_hold cs vs r.columns) m.table in
      (
        sort newer asked,
        (
          sort-Rearranged newer asked,
          IsSorted-Descending (sort newer asked) (sort-IsSorted newer newer_lem asked),
          refl,
        ),
      );
}

abbrev in_transaction_of : Option (List StoredRow) → Bool
in_transaction_of none = false
in_transaction_of (some t) = true

unfoldable pub memory-SqliteLaws : SqliteLaws memory
unfolding memory memory_rows run insert_into
memory-SqliteLaws = record {
  committed = λ m. committed_of m.saved m.table;
  in_transaction = λ m. in_transaction_of m.saved;
  rows = memory_rows;
  outside = λ m h. ground arith;
  begin-ok = λ m h. ground arith;
  begin-refused = λ m e h. ground arith;
  begin_nested = λ m h. ground arith;
  insert-ok = λ m row id h e. ground arith;
  insert_failed = λ m row e h. ground arith;
  commit-ok = λ m h. ground arith;
  commit-refused = λ m e h. ground arith;
  commit_busy = λ m h e. ground arith;
  rollback_lem = λ m. refl;
}
