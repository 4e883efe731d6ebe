-- ===== src/Store/Capacity/Vacuum.antt =====
-- The pruning by capacity on a database file that does not shrink: what DELETE frees stays in the
-- file, unless the file is vacuumed, which the program never does.
use holonightd.Prelude.{
  ℕ, zero, suc, ◌*◌, ◌%◌, ◌<◌, ◌≡◌, refl, sym, ap, ◌∙◌, subst, inl, inr, false, not, ◌&&◌, ◌||◌,
  Option, none, some, List, arith, ltb, Bool-cases, length, nat_eq, text_eq, nat_eqb,
}
use holonightd.Prelude.Text.{ℤ}
use holonightd.Observation.{Expected, value, unexpected}
use holonightd.Store.{StoredRow, Sqlite, Statement, page_count, page_size, delete_lowest, to_int64}
use holonightd.Store.Laws.{DeletionLaws, Counted, Countable}
use holonightd.Store.Capacity.{
  Targets, targets, rows_to_delete, read_column, get_count, get_size_bytes, pages, bytes_per_page,
  prune_rounds, after_deletion, prune_events_by_capacity,
}
use holonightd.Store.Capacity.Retention.{
  Pruned, length-Deleted, nine_tenths-le, prune_rounds-Pruned,
}
use holonightd.Store.Capacity.Reading.{counts, get_count_lem}

-- PRAGMA page_count and PRAGMA page_size give the same before and after a DELETE, as SQLite
-- documents it for auto_vacuum = NONE, the default.
pub record NoVacuum (sql : Sqlite) : Type 0 where
  pub prepare_kept :
      (db : sql.Db) (n : ℤ) (s : Statement)
      → sql.prepare s (sql.step_delete_lowest n db).0 ≡ sql.prepare s db
  pub page_count_kept :
      (db : sql.Db) (n : ℤ)
      → sql.step_page_count (sql.step_delete_lowest n db).0 ≡ sql.step_page_count db
  pub page_size_kept :
      (db : sql.Db) (n : ℤ)
      → sql.step_page_size (sql.step_delete_lowest n db).0 ≡ sql.step_page_size db

module _ (sql : Sqlite) (kept : NoVacuum sql) where
  size_kept :
      (db : sql.Db) (n : ℤ)
      → get_size_bytes sql (sql.step_delete_lowest n db).0 ≡ get_size_bytes sql db
  unfolding get_size_bytes pages bytes_per_page
  size_kept db n =
      let db' = (sql.step_delete_lowest n db).0 in
      let first : pages sql db' ≡ pages sql db =
        ap (λ p. read_column p (sql.step_page_count db')) (kept.prepare_kept db n page_count)
        ∙ ap (read_column (sql.prepare page_count db)) (kept.page_count_kept db n) in
      let second : bytes_per_page sql db' ≡ bytes_per_page sql db =
        ap (λ p. read_column p (sql.step_page_size db')) (kept.prepare_kept db n page_size)
        ∙ ap (read_column (sql.prepare page_size db)) (kept.page_size_kept db n) in
      ap (λ a. a * bytes_per_page sql db' % 18446744073709551616) first
      ∙ ap (λ b. pages sql db * b % 18446744073709551616) second

  abbrev SameSize : ℕ → Option (sql.Db × Expected ℕ) → Type 0
  SameSize bytes none = Unit
  SameSize bytes (some (after, r)) = get_size_bytes sql after ≡ bytes

  after_deletion-SameSize :
      (rounds : sql.Db → ℕ → Option (sql.Db × Expected ℕ)) (total : ℕ) (db : sql.Db)
      → ((total' : ℕ) → SameSize (get_size_bytes sql db) (rounds db total'))
      → (r : Expected ℕ) → SameSize (get_size_bytes sql db) (after_deletion sql rounds total db r)
  unfolding after_deletion
  after_deletion-SameSize rounds total db later (unexpected e) = refl
  after_deletion-SameSize rounds total db later (value zero) = refl
  after_deletion-SameSize rounds total db later (value (suc k)) = later _

  prune_rounds-SameSize :
      (t : Targets) (fuel : ℕ) (db : sql.Db) (total : ℕ)
      → SameSize (get_size_bytes sql db) (prune_rounds sql fuel t db total)
  unfolding prune_rounds
  prune_rounds-SameSize t zero db total = tt
  prune_rounds-SameSize t (suc fuel) db total =
      let n = rows_to_delete t (get_count sql db) (get_size_bytes sql db) in
      let (db', r) = sql.step_delete_lowest (to_int64 n) db in
      elim (Bool-cases (nat_eqb (get_count sql db) 0 || nat_eqb n 0)) [
        | inl e ↦ rw (e, prune_rounds) refl
        | inr e ↦
            rw (e, prune_rounds)
              (subst (λ b. SameSize b (after_deletion sql (prune_rounds sql fuel t) total db' r))
                (size_kept db (to_int64 n))
                (after_deletion-SameSize (prune_rounds sql fuel t) total db'
                  (prune_rounds-SameSize t fuel db') r))
      ]

pub some-injective : {m n : ℤ} → some m ≡ some n → n ≡ m
some-injective h = cc

module _ (sql : Sqlite) (rows : sql.Db → List StoredRow) (deletion : DeletionLaws sql rows)
    (countable : Countable sql rows) (kept : NoVacuum sql) where
  abbrev counted : Counted sql rows
  counted = record {
    count_lem = λ db n prepared read. some-injective (sym (countable.count_lem db) ∙ read);
  }

  seen : (db : sql.Db) → get_count sql db ≡ length (rows db)
  unfolding counts
  seen db =
      get_count_lem sql rows counted db
        (rw (countable.prepare-count db, countable.count_lem db) refl)

  abbrev pub Emptied : sql.Db → Option (sql.Db × Expected ℕ) → Type 0
  Emptied before none = ⊥
  Emptied before (some (after, unexpected e)) = Unit
  Emptied before (some (after, value n)) = (length (rows after) ≡ 0) × (n ≡ length (rows before))

  Pruned-Emptied :
      (max_bytes max_events count : ℕ) (before : sql.Db) (o : Option (sql.Db × Expected ℕ))
      → 0 < max_bytes
      → max_bytes < get_size_bytes sql before
      → Pruned sql rows deletion counted
          (targets max_bytes max_events count (get_size_bytes sql before))
          0
          before
          o
      → SameSize sql kept (get_size_bytes sql before) o
      → Emptied before o
  unfolding targets rows_to_delete
  Pruned-Emptied max_bytes max_events count before none some_limit big h same = h
  Pruned-Emptied max_bytes max_events count before (some (after, unexpected e)) some_limit big h
        same =
      tt
  Pruned-Emptied max_bytes max_events count before (some (after, value n)) some_limit big
        (settled, (k, (e, d))) same =
      let bound = nine_tenths-le max_bytes in
      let total = length-Deleted sql rows deletion counted before after k d in
      let left = seen after in ground (arith, settled)

  -- Where the file is larger than a byte limit that is set, the pruning by capacity deletes every
  -- row, whatever its severity: deleting frees no pages of the file, so the loop stops only at the
  -- empty table. It holds with more rounds than rows, of which there are fewer than 2 ^ 31, and
  -- where no statement fails.
  pub prune_events_by_capacity-Emptied :
      (fuel max_bytes max_events : ℕ) (db : sql.Db)
      → length (rows db) < fuel
      → length (rows db) < 2147483648
      → 0 < max_bytes
      → max_bytes < get_size_bytes sql db
      → sql.prepare delete_lowest db ≡ none
      → Emptied db (prune_events_by_capacity sql fuel max_bytes max_events db)
  unfolding prune_events_by_capacity
  prune_events_by_capacity-Emptied fuel max_bytes max_events db enough small some_limit big p =
      let count = get_count sql db in
      let bytes = get_size_bytes sql db in
      let t = targets max_bytes max_events count bytes in
      let over : (not (ltb 0 max_events && ltb max_events count)
            && not (ltb 0 max_bytes && ltb max_bytes bytes))
          ≡ false =
        ground arith in
      rw (over, prune_events_by_capacity, p)
        (Pruned-Emptied max_bytes max_events count db _ some_limit big
          (prune_rounds-Pruned sql rows deletion counted t fuel db 0 enough (omega arith))
          (prune_rounds-SameSize sql kept t fuel db 0))
