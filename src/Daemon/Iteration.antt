-- ===== src/Daemon/Iteration.antt =====
-- What an iteration leaves in the event store.
use holonightd.Prelude.{
  any-append, ℕ, ◌<◌, ◌≡◌, refl, ◌∙◌, ◌⊎◌, inl, inr, Bool, true, false, ◌||◌, Option, none, some,
  List, [], ◌∷◌, ◌++◌, arith, Bool-cases, Option-cases, length, keep_if, any, All, nat_eq, text_eq,
}
use holonightd.Prelude.Text.{ℤ, pos}
use holonightd.Config.{DatabaseConfig}
use holonightd.Prelude.Rearrange.{All-Rearranged, All-append_back}
use holonightd.Std.{StdLib}
use holonightd.Logger.{LogLevel, error}
use holonightd.Observation.{micros, Expected-cases, Expected, value, unexpected, ObservationEvent}
use holonightd.Store.{StoredRow, Sqlite, delete_before}
use holonightd.Store.Laws.{at_most, DeletionLaws, Counted, FileSize}
use holonightd.Store.Operations.{insert_batch, prune_events}
use holonightd.Store.Capacity.Retention.{HasRoom, Retained, prune_events_by_capacity-Retained}
use holonightd.Daemon.{
  Line, value_or, cutoff_of, inserted_lines, pruned_lines, capacity_lines, keep_store,
}

-- DELETE ... WHERE timestamp_us < ?
pub record ExpiryLaws (sql : Sqlite) (rows : sql.Db → List StoredRow) : Type 0 where
  pub delete_before_lem :
      (db : sql.Db) (t : ℤ) (k : ℕ)
      → (sql.step_delete_before t db).1 ≡ value k
      → rows (sql.step_delete_before t db).0
        ≡ keep_if (λ r. at_most t r.columns.timestamp_us) (rows db)

abbrev is_error : LogLevel → Bool
is_error error = true
is_error _ = false

-- The log tells of a failure.
abbrev pub tells : List Line → Bool
tells lines = any (λ line. is_error line.0) lines

All-keep_if : {A : Type 0} (p : A → Bool) (xs : List A) → All (λ x. p x ≡ true) (keep_if p xs)
All-keep_if p [] = tt
All-keep_if p (x ∷ xs) = elim (Bool-cases (p x)) [
  | inl e ↦ rw e (e, All-keep_if p xs)
  | inr e ↦ rw e (All-keep_if p xs)
]

module _ (std : StdLib) (sql : Sqlite) (rows : sql.Db → List StoredRow)
    (deletion : DeletionLaws sql rows) (counted : Counted sql rows) (size : FileSize sql)
    (expiry : ExpiryLaws sql rows) where
  -- No row is older than a time, cut to whole microseconds.
  abbrev pub IsRecent : ℤ → sql.Db → Type 0
  IsRecent cutoff db = All (λ r. at_most (micros cutoff) r.columns.timestamp_us ≡ true) (rows db)

  prune_events-IsRecent :
      (cutoff : ℤ) (db : sql.Db)
      → (tells (pruned_lines (prune_events sql cutoff db).1) ≡ true)
        ⊎ IsRecent cutoff (prune_events sql cutoff db).0
  unfolding prune_events pruned_lines
  prune_events-IsRecent cutoff db = elim (Option-cases (sql.prepare delete_before db)) [
    | inr (m, e) ↦ rw (e, prune_events) (inl refl)
    | inl e ↦ elim (Expected-cases (sql.step_delete_before (micros cutoff) db).1) [
      | inr (m, f) ↦ rw (e, prune_events, f) (inl refl)
      | inl (k, f) ↦
          rw (e, prune_events, f)
            (inr (rw (expiry.delete_before_lem db (micros cutoff) k f) (All-keep_if _ (rows db))))
    ]
  ]

  -- What an iteration leaves at a time, with the defaults of 30 days, 50 MB and 100000 events.
  abbrev pub Kept : ℤ → DatabaseConfig → Option (sql.Db × List Line) → Type 0
  Kept now database none = ⊥
  Kept now database (some (after, lines)) =
      (tells lines ≡ true)
      ⊎ (IsRecent (cutoff_of now (value_or database.retention_days (pos 30))) after
          × HasRoom sql rows deletion counted size (value_or database.max_bytes 52428800)
              (value_or database.max_events 100000) after)

  tells-append : (xs ys : List Line) → tells (xs ++ ys) ≡ (tells xs || tells ys)
  tells-append xs ys = any-append _ xs ys ∙ ground arith

  pub keep_store-Kept :
      (fuel : ℕ) (verbose : Bool) (now : ℤ) (database : DatabaseConfig)
      (events : List (ObservationEvent std.Double)) (db : sql.Db)
      → let cutoff = cutoff_of now (value_or database.retention_days (pos 30)) in
        let pruned = (prune_events sql cutoff (insert_batch std sql events db).0).0 in
        length (rows pruned) < fuel
        → length (rows pruned) < 2147483648
        → Kept now database (keep_store std sql fuel verbose now database events db)
  unfolding keep_store capacity_lines
  keep_store-Kept fuel verbose now database events db enough small =
      let inserted = insert_batch std sql events db in
      let cutoff = cutoff_of now (value_or database.retention_days (pos 30)) in
      let pruned = prune_events sql cutoff inserted.0 in
      let room =
        prune_events_by_capacity-Retained sql rows deletion counted size fuel
          (value_or database.max_bytes 52428800) (value_or database.max_events 100000) pruned.0
          enough small in
      finish (inserted_lines verbose inserted.1) pruned (prune_events-IsRecent cutoff inserted.0) _
        room
    where
      finish :
          (first : List Line) (pruned : sql.Db × Expected ℕ)
          → (tells (pruned_lines pruned.1) ≡ true)
            ⊎ IsRecent (cutoff_of now (value_or database.retention_days (pos 30))) pruned.0
          → (o : Option (sql.Db × Expected ℕ))
          → Retained sql rows deletion counted size
              (value_or database.max_bytes 52428800)
              (value_or database.max_events 100000)
              pruned.0
              o
          → Kept now database (elim o [
            | none ↦ none
            | some outcome ↦
                some (outcome.0, first ++ (pruned_lines pruned.1 ++ capacity_lines outcome.1))
          ])
      finish first pruned recent none h = h
      finish first pruned (inl told) (some (after, r)) h =
          let a = tells-append first (pruned_lines pruned.1 ++ capacity_lines r) in
          let b = tells-append (pruned_lines pruned.1) (capacity_lines r) in
          inl (a ∙ rw (b, told) (ground arith))
      finish first pruned (inr recent) (some (after, unexpected e)) h =
          let a = tells-append first (pruned_lines pruned.1 ++ capacity_lines (unexpected e)) in
          let b = tells-append (pruned_lines pruned.1) (capacity_lines (unexpected e)) in
          inl (a ∙ rw b (ground arith))
      finish first pruned (inr recent) (some (after, value n)) (room, (deleted, (p, size, order))) =
          inr (All-append_back _ deleted (rows after) (All-Rearranged _ p recent), room)
