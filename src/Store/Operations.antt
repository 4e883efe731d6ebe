-- ===== src/Store/Operations.antt =====
-- The operations of libs/storage/EventStore.cpp but for the pruning by capacity. Each returns the
-- connection it leaves. The mutex makes every operation run alone.
pub mod Atomic
pub mod Selection
use holonightd.Prelude.{
  any-none, All-map, ℕ, zero, suc, ◌+◌, ◌-◌, ◌*◌, ◌/◌, ◌%◌, ◌^◌, ◌≤◌, ◌<◌, min, String, ◌≡◌, refl,
  sym, ap, ◌∙◌, subst, ◌≢◌, ◌↔◌, ◌⊎◌, inl, inr, Bool, true, false, not, ◌&&◌, ◌||◌, Option, none,
  some, List, [], ◌∷◌, ◌++◌, map, arith, eq_iff, ltb, leb, if◌then◌else◌, Bool-cases, Option-cases,
  length, take, is_empty, length-take-le, length-append, keep_if, any, All, All-append, Eq, ◌==◌,
  nat_eq, text_eq, is_some, Some, any-Some, Some-any, is_empty-append, is_empty-keep_if, nat_eqb,
  nat_eqb_iff,
}
use holonightd.Prelude.Text.{ℤ, pos}
use holonightd.Std.{StdLib}
use holonightd.Observation.{
  micros, nanos, Severity, rank, Expected, value, unexpected, ObservationEvent,
}
use Prim.Native.String.{◌++◌ as append}
use holonightd.Store.{
  Row, StoredRow, Condition, from_time, until_time, source_is, category_is, subject_is,
  severity_from, Bound, number, name, begin, commit, rollback, wal_checkpoint, insert_row,
  delete_before, select_rows, Executed, ok, refused, Sqlite, to_int64, row_of, parse_row, c_str,
}

pub record EventQuery : Type 0 where
  pub start_time : Option ℤ
  pub end_time : Option ℤ
  pub source : Option String
  pub category : Option String
  pub subject : Option String
  pub min_severity : Option Severity
  pub limit : Option ℕ

abbrev pub when : {A : Type 0} → Option A → Condition → List Condition
when none c = []
when (some a) c = c ∷ []

abbrev pub bound : {A : Type 0} → (A → Bound) → Option A → List Bound
bound f none = []
bound f (some a) = f a ∷ []

-- The conditions of the text of the query, and below the values bound to its question marks.
unfoldable pub conditions : EventQuery → List Condition
conditions filter =
    when filter.start_time from_time
    ++ (when filter.end_time until_time
        ++ (when filter.source source_is
            ++ (when filter.category category_is
                ++ (when filter.subject subject_is ++ (when filter.min_severity severity_from)))))

unfoldable pub bindings : EventQuery → List Bound
bindings filter =
    bound (λ t. number (micros t)) filter.start_time
    ++ (bound (λ t. number (micros t)) filter.end_time
        ++ (bound (λ s. name (c_str s)) filter.source
            ++ (bound (λ s. name (c_str s)) filter.category
                ++ (bound (λ s. name (c_str s)) filter.subject
                    ++ (bound (λ s. number (pos (rank s))) filter.min_severity
                        ++ (bound (λ n. number (to_int64 n)) filter.limit))))))

-- The message of sqlite3_exec, or the text used where there is none.
abbrev pub or_text : Option String → String → String
or_text none fallback = fallback
or_text (some message) fallback = message

module _ (std : StdLib) (sql : Sqlite) where
  unfoldable pub insert : ObservationEvent std.Double → sql.Db → sql.Db × Expected ℤ
  unfolding row_of
  insert event db = elim (sql.prepare insert_row db) [
    | some e ↦ (db, unexpected (append "Failed to prepare INSERT statement: " e))
    | none ↦
        let (db', result) = (sql.step_insert (row_of std event) db) in
        elim result [
          | unexpected e ↦ (db', unexpected (append "Failed to execute INSERT: " e))
          | value id ↦ (db', value id)
        ]
  ]

  unfoldable pub roll_back : sql.Db → sql.Db
  roll_back db = (sql.exec rollback db).0

  unfoldable pub commit_batch : ℕ → sql.Db → sql.Db × Expected ℕ
  commit_batch inserted_count db =
      let (db', result) = (sql.exec commit db) in
      elim result [
        | ok ↦ (db', value inserted_count)
        | refused e ↦
            (db', unexpected (append "Failed to commit transaction: " (or_text e "Commit error")))
      ]

  unfoldable pub insert_each : List (ObservationEvent std.Double) → ℕ → sql.Db → sql.Db × Expected ℕ
  insert_each [] inserted_count db = commit_batch inserted_count db
  insert_each (event ∷ events) inserted_count db =
      let (db', result) = (sql.step_insert (row_of std event) db) in
      elim result [
        | unexpected e ↦
            let after = roll_back db' in
            (after, unexpected (append "Failed batch insert step: " (sql.errmsg after)))
        | value id ↦ insert_each events (inserted_count + 1) db'
      ]

  unfoldable pub insert_batch : List (ObservationEvent std.Double) → sql.Db → sql.Db × Expected ℕ
  unfolding insert_each
  insert_batch events db =
      let (db', result) = (sql.exec begin db) in
      elim result [
        | refused e ↦ (
          db',
          unexpected (append "Failed to begin transaction: " (or_text e "Transaction start error")),
        )
        | ok ↦ elim (sql.prepare insert_row db') [
          | some e ↦
              let after = roll_back db' in
              (after, unexpected (append "Failed to prepare INSERT statement: " (sql.errmsg after)))
          | none ↦ insert_each events 0 db'
        ]
      ]

  unfoldable pub query : EventQuery → sql.Db → Expected (List (ObservationEvent std.Double))
  unfolding conditions bindings parse_row
  query filter db =
      let limited = is_some filter.limit in
      elim (sql.prepare (select_rows (conditions filter) limited) db) [
        | some e ↦ unexpected (append "Failed to prepare query statement: " e)
        | none ↦ value (
            map (parse_row std)
              (sql.step_select (conditions filter) limited (bindings filter) db).0)
      ]

module _ (sql : Sqlite) where
  unfoldable pub prune_events : ℤ → sql.Db → sql.Db × Expected ℕ
  prune_events older_than db = elim (sql.prepare delete_before db) [
    | some e ↦ (db, unexpected (append "Failed to prepare DELETE statement: " e))
    | none ↦
        let (db', result) = (sql.step_delete_before (micros older_than) db) in
        elim result [
          | unexpected e ↦ (db', unexpected (append "Failed to prune events: " e))
          | value changes ↦ (db', value changes)
        ]
  ]

  unfoldable pub prune_events_by_age : ℤ → sql.Db → sql.Db × Expected ℕ
  unfolding prune_events
  prune_events_by_age older_than db = prune_events older_than db

  unfoldable pub checkpoint_wal : sql.Db → sql.Db × Expected {0} Unit
  checkpoint_wal db =
      let (db', result) = (sql.exec wal_checkpoint db) in
      elim result [
        | ok ↦ (db', value tt)
        | refused e ↦
            (db', unexpected (append "Failed WAL checkpoint: " (or_text e "WAL checkpoint error")))
      ]
