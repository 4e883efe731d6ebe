-- ===== src/Store/Operations/Atomic.antt =====
-- The transaction of EventStore::insertBatch.
use holonightd.Prelude.{
  add_zero, zero_add, add_suc, ℕ, ◌+◌, String, ◌≡◌, refl, sym, ap, ◌∙◌, ◌⊎◌, inl, inr, true, subst,
  Option, none, some, List, [], ◌∷◌, ◌++◌, map, Option-cases, length, nat_eq, text_eq,
}
use mathlib.Core.List.{append_assoc, append-nil, map-append}
use holonightd.Std.{StdLib}
use holonightd.Observation.{Expected-cases, Expected, value, unexpected, ObservationEvent}
use holonightd.Store.{
  Row, StoredRow, Sqlite, Executed, ok, refused, begin, commit, insert_row, row_of,
}
use holonightd.Store.Laws.{SqliteLaws}
use holonightd.Store.Operations.{insert_batch, insert_each, commit_batch, roll_back}

Executed-cases : (x : Executed) → (x ≡ ok) ⊎ ((e : Option String) × (x ≡ refused e))
Executed-cases ok = inl refl
Executed-cases (refused e) = inr (e, refl)

abbrev pub stuck_message : String
stuck_message = "Failed to begin transaction: cannot start a transaction within a transaction"

abbrev pub busy_message : String
busy_message = "Failed to commit transaction: database is locked"

module _ (std : StdLib) (sql : Sqlite) (laws : SqliteLaws sql) where
  -- What a batch does to the committed table, from the `base` it starts at: all of its rows or none.
  abbrev AllOrNone : List StoredRow → List Row → ℕ → sql.Db → Expected ℕ → Type 0
  AllOrNone base batch n db (unexpected e) = laws.committed db ≡ base
  AllOrNone base batch n db (value count) =
      (count ≡ n)
      × ((added : List StoredRow) × ((laws.committed db ≡ base ++ added)
            × (map (λ r. r.columns) added ≡ batch)))

  abbrev pub IsAtomic : List StoredRow → List Row → ℕ → sql.Db × Expected ℕ → Type 0
  IsAtomic base batch n outcome = AllOrNone base batch n outcome.0 outcome.1

  commit_batch-IsAtomic :
      (base added : List StoredRow) (n : ℕ) (db : sql.Db)
      → laws.rows db ≡ base ++ added
      → laws.committed db ≡ base
      → IsAtomic base (map (λ r. r.columns) added) n (commit_batch std sql n db)
  unfolding commit_batch
  commit_batch-IsAtomic base added n db seen kept = elim (Executed-cases (sql.exec commit db).1) [
    | inl e ↦ rw (e, commit_batch) (refl, (added, (laws.commit-ok db e ∙ seen, refl)))
    | inr (m, e) ↦ rw (e, commit_batch) (laws.commit-refused db m e ∙ kept)
  ]

  insert_each-IsAtomic :
      (base added : List StoredRow) (events : List (ObservationEvent std.Double)) (n : ℕ)
      (db : sql.Db)
      → laws.in_transaction db ≡ true
      → laws.rows db ≡ base ++ added
      → laws.committed db ≡ base
      → IsAtomic base
          (map (λ r. r.columns) added ++ map (row_of std) events)
          (n + length events)
          (insert_each std sql events n db)
  unfolding insert_each roll_back
  insert_each-IsAtomic base added [] n db started seen kept =
      rw (append-nil, add_zero n) (commit_batch-IsAtomic base added n db seen kept)
  insert_each-IsAtomic base added (event ∷ events) n db started seen kept =
      elim (Expected-cases (sql.step_insert (row_of std event) db).1) [
        | inl (id, e) ↦
            let new : StoredRow = record { id = id; columns = row_of std event } in
            let (seen', kept', started') = laws.insert-ok db (row_of std event) id started e in
            let rest =
              insert_each-IsAtomic base (added ++ (new ∷ [])) events (n + 1) _ started'
                (seen' ∙ ap (λ l. l ++ (new ∷ [])) seen ∙ append_assoc base added (new ∷ []))
                (kept' ∙ kept) in
            rw (e, insert_each, add_suc n (length events)) (rw (map-append, append_assoc) at rest)
        | inr (m, e) ↦
            rw (e, insert_each)
              (laws.rollback_lem _ ∙ laws.insert_failed db (row_of std event) m e ∙ kept)
      ]

  -- A batch is inserted completely, or the committed table is what it was: where it returns a
  -- count, that is the length of the batch, and the committed table has the rows of the batch
  -- appended in order; where it returns an error, no row of the batch is committed.
  pub insert_batch-IsAtomic :
      (events : List (ObservationEvent std.Double)) (db : sql.Db)
      → IsAtomic
          (laws.committed db)
          (map (row_of std) events)
          (length events)
          (insert_batch std sql events db)
  unfolding insert_batch roll_back
  insert_batch-IsAtomic events db = elim (Executed-cases (sql.exec begin db).1) [
    | inl e ↦
        let db' = (sql.exec begin db).0 in
        let (seen, kept, started) = laws.begin-ok db e in
        elim (Option-cases (sql.prepare insert_row db')) [
          | inl p ↦
              rw (e, insert_batch, p)
                (rw (zero_add (length events)) at (
                  insert_each-IsAtomic (laws.committed db) [] events 0 db' started
                    (seen ∙ sym (append-nil _)) kept))
          | inr (m, p) ↦ rw (e, insert_batch, p) (laws.rollback_lem _ ∙ kept)
        ]
    | inr (m, e) ↦ rw (e, insert_batch) (laws.begin-refused db m e)
  ]

  -- The database after SQLite has accepted every row; none: it refuses one.
  unfoldable pub accepted : List Row → sql.Db → Option sql.Db
  accepted [] db = some db
  accepted (row ∷ rows) db = elim (sql.step_insert row db).1 [
    | unexpected e ↦ none
    | value id ↦ accepted rows (sql.step_insert row db).0
  ]

  -- The batches that the daemon inserts one after the other.
  pub insert_batches : List (List (ObservationEvent std.Double)) → sql.Db → sql.Db
  unfolding insert_batch
  insert_batches [] db = db
  insert_batches (batch ∷ batches) db = insert_batches batches (insert_batch std sql batch db).0

  insert_each-busy :
      (events : List (ObservationEvent std.Double)) (n : ℕ) (db full : sql.Db)
      → laws.in_transaction db ≡ true
      → accepted (map (row_of std) events) db ≡ some full
      → (sql.exec commit full).1 ≡ refused (some "database is locked")
      → let (after, result) = insert_each std sql events n db in
        (result ≡ unexpected busy_message) × (laws.in_transaction after ≡ true)
  unfolding insert_each commit_batch accepted
  insert_each-busy [] n db full started all busy =
      let same = full_is all in
      let busy' =
        subst (λ d. (sql.exec commit d).1 ≡ refused (some "database is locked")) same busy in
      rw (busy', commit_batch) (refl, laws.commit_busy db started busy')
    where
      full_is : {a b : sql.Db} → some a ≡ some b → b ≡ a
      full_is h = cc
  insert_each-busy (event ∷ events) n db full started all busy =
      elim (Expected-cases (sql.step_insert (row_of std event) db).1) [
        | inl (id, e) ↦
            let (seen, kept, started') = laws.insert-ok db (row_of std event) id started e in
            rw (e, insert_each) (insert_each-busy events (n + 1) _ full started' (rw e at all) busy)
        | inr (m, e) ↦ cc (rw e at all)
      ]

  -- A batch in an open transaction.
  refused_lem :
      (batch : List (ObservationEvent std.Double)) (db : sql.Db)
      → laws.in_transaction db ≡ true
      → let (after, result) = insert_batch std sql batch db in
        (result ≡ unexpected stuck_message)
        × (laws.in_transaction after ≡ true)
        × (laws.committed after ≡ laws.committed db)
  unfolding insert_batch
  refused_lem batch db started =
      let (nested, still, kept) = laws.begin_nested db started in
      rw (nested, insert_batch) (refl, still, kept)

  all_refused :
      (batches : List (List (ObservationEvent std.Double))) (db : sql.Db)
      → laws.in_transaction db ≡ true
      → (laws.in_transaction (insert_batches batches db) ≡ true)
        × (laws.committed (insert_batches batches db) ≡ laws.committed db)
  unfolding insert_batches
  all_refused [] db started = (started, refl)
  all_refused (batch ∷ batches) db started =
      let (result, still, kept) = refused_lem batch db started in
      let (last, same) = all_refused batches _ still in (last, same ∙ kept)

  -- Where SQLite accepts every row of a batch and then refuses its COMMIT because the database is
  -- locked, the batch is reported as failed, and its transaction stays open: after any further
  -- batches, whatever they hold, every batch is refused at its BEGIN, and the committed table is
  -- what it was before the first.
  pub insert_batch-stuck :
      (first : List (ObservationEvent std.Double))
      (batches : List (List (ObservationEvent std.Double)))
      (events : List (ObservationEvent std.Double)) (db full : sql.Db)
      → (sql.exec begin db).1 ≡ ok
      → sql.prepare insert_row (sql.exec begin db).0 ≡ none
      → accepted (map (row_of std) first) (sql.exec begin db).0 ≡ some full
      → (sql.exec commit full).1 ≡ refused (some "database is locked")
      → let (failed, result) = insert_batch std sql first db in
        let later = insert_batches batches failed in
        (result ≡ unexpected busy_message)
        × ((insert_batch std sql events later).1 ≡ unexpected stuck_message)
        × (laws.committed later ≡ laws.committed db)
  unfolding insert_batch
  insert_batch-stuck first batches events db full begun prepared all busy =
      let db' = (sql.exec begin db).0 in
      let (seen, kept, started) = laws.begin-ok db begun in
      let (result, still) = insert_each-busy first 0 db' full started all busy in
      let whole : insert_batch std sql first db ≡ insert_each std sql first 0 db' =
        rw (begun, insert_batch, prepared) refl in
      let reported : (insert_batch std sql first db).1 ≡ unexpected busy_message =
        ap (λ o. o.1) whole ∙ result in
      let still_open : laws.in_transaction (insert_batch std sql first db).0 ≡ true =
        ap (λ o. laws.in_transaction o.0) whole ∙ still in
      let (last, same) = all_refused batches _ still_open in
      let atomic = insert_batch-IsAtomic first db in
      (
        reported,
        (refused_lem events _ last).0,
        same
            ∙ undone (laws.committed db) (map (row_of std) first) (length first) _ _ reported
                atomic,
      )
    where
      undone :
          (base : List StoredRow) (batch : List Row) (n : ℕ) (after : sql.Db) (r : Expected ℕ)
          → r ≡ unexpected busy_message
          → AllOrNone base batch n after r
          → laws.committed after ≡ base
      undone base batch n after (unexpected e) h a = a
      undone base batch n after (value k) h a = cc
