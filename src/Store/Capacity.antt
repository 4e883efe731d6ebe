-- ===== src/Store/Capacity.antt =====
-- EventStore::pruneEventsByCapacity of libs/storage/EventStore.cpp.
pub mod Reading
pub mod Retention
pub mod Vacuum
use holonightd.Prelude.{
  any-none, All-map, ℕ, zero, suc, ◌+◌, ◌-◌, ◌*◌, ◌/◌, ◌%◌, ◌^◌, ◌≤◌, ◌<◌, min, String, ◌≡◌, refl,
  sym, ap, ◌∙◌, subst, ◌≢◌, ◌↔◌, ◌⊎◌, inl, inr, Bool, true, false, not, ◌&&◌, ◌||◌, Option, none,
  some, List, [], ◌∷◌, ◌++◌, map, arith, eq_iff, ltb, leb, if◌then◌else◌, Bool-cases, Option-cases,
  length, take, is_empty, length-take-le, length-append, keep_if, any, All, All-append, Eq, ◌==◌,
  nat_eq, text_eq, is_some, Some, any-Some, Some-any, is_empty-append, is_empty-keep_if, nat_eqb,
  nat_eqb_iff,
}
use holonightd.Prelude.Text.{ℤ}
use holonightd.Observation.{Expected, value, unexpected}
use Prim.Native.String.{◌++◌ as append}
use holonightd.Store.{
  delete_lowest, count_rows, page_count, page_size, Sqlite, to_int64, from_column,
}

-- The limits and what the loop aims at.
pub record Targets : Type 0 where
  pub max_bytes : ℕ
  pub max_events : ℕ
  pub target_count : ℕ
  pub target_bytes : ℕ

-- limit * 9 / 10 on 64 bits
unfoldable pub nine_tenths : ℕ → ℕ
nine_tenths n = n * 9 % 18446744073709551616 / 10

unfoldable pub targets : ℕ → ℕ → ℕ → ℕ → Targets
unfolding nine_tenths
targets max_bytes max_events current_count current_bytes = record {
  max_bytes = max_bytes;
  max_events = max_events;
  target_count = if ltb 0 max_events then nine_tenths max_events else current_count;
  target_bytes = if ltb 0 max_bytes then nine_tenths max_bytes else current_bytes;
}

unfoldable pub rows_to_delete : Targets → ℕ → ℕ → ℕ
rows_to_delete t current_count current_bytes =
    if ltb 0 t.max_events && ltb t.target_count current_count
    then current_count - t.target_count
    else if ltb 0 t.max_bytes && ltb t.target_bytes current_bytes
    then min 100 current_count
    else 0

-- The number that a statement reads, 0 where it cannot be prepared.
unfoldable pub read_column : Option String → Option ℤ → ℕ
unfolding from_column
read_column (some e) column = 0
read_column none column = from_column column

module _ (sql : Sqlite) where
  unfoldable pub get_count : sql.Db → ℕ
  unfolding read_column
  get_count db = read_column (sql.prepare count_rows db) (sql.step_count db)

  unfoldable pub pages : sql.Db → ℕ
  unfolding read_column
  pages db = read_column (sql.prepare page_count db) (sql.step_page_count db)

  unfoldable pub bytes_per_page : sql.Db → ℕ
  unfolding read_column
  bytes_per_page db = read_column (sql.prepare page_size db) (sql.step_page_size db)

  unfoldable pub get_size_bytes : sql.Db → ℕ
  unfolding pages bytes_per_page
  get_size_bytes db = pages db * bytes_per_page db % 18446744073709551616

  -- The end of a round, and then the rounds that follow.
  unfoldable pub after_deletion :
      (sql.Db → ℕ → Option (sql.Db × Expected ℕ))
      → ℕ
      → sql.Db
      → Expected ℕ
      → Option (sql.Db × Expected ℕ)
  after_deletion rounds total_deleted db (unexpected e) =
      some (db, unexpected (append "Failed to execute capacity prune deletion: " e))
  after_deletion rounds total_deleted db (value zero) = some (db, value total_deleted)
  after_deletion rounds total_deleted db (value (suc changes)) =
      rounds db ((total_deleted + suc changes) % 18446744073709551616)

  -- The loop, with at most `fuel` rounds; none: they were not enough.
  unfoldable pub prune_rounds : ℕ → Targets → sql.Db → ℕ → Option (sql.Db × Expected ℕ)
  unfolding get_count get_size_bytes rows_to_delete to_int64 after_deletion
  prune_rounds zero t db total_deleted = none
  prune_rounds (suc fuel) t db total_deleted =
      let to_delete = rows_to_delete t (get_count db) (get_size_bytes db) in
      elim (nat_eqb (get_count db) 0 || nat_eqb to_delete 0) [
        | true ↦ some (db, value total_deleted)
        | false ↦
            let (db', result) = sql.step_delete_lowest (to_int64 to_delete) db in
            after_deletion (prune_rounds fuel t) total_deleted db' result
      ]

  unfoldable pub prune_events_by_capacity : ℕ → ℕ → ℕ → sql.Db → Option (sql.Db × Expected ℕ)
  unfolding prune_rounds targets
  prune_events_by_capacity fuel max_bytes max_events db =
      let count = get_count db in
      let bytes = get_size_bytes db in
      if not (ltb 0 max_events && ltb max_events count)
        && not (ltb 0 max_bytes && ltb max_bytes bytes)
      then some (db, value 0)
      else elim (sql.prepare delete_lowest db) [
        | some e ↦ some (db, unexpected (append "Failed to prepare capacity prune statement: " e))
        | none ↦ prune_rounds fuel (targets max_bytes max_events count bytes) db 0
      ]
