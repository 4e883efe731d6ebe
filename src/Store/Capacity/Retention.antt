-- ===== src/Store/Capacity/Retention.antt =====
-- The loop of EventStore::pruneEventsByCapacity: that it ends, and what it leaves.
use holonightd.Prelude.{
  All-map, ℕ, zero, suc, ◌+◌, ◌≤◌, ◌<◌, min, ◌≡◌, refl, false, subst, ◌⊎◌, inl, inr, true, not,
  ◌&&◌, ◌||◌, Option, none, some, List, [], ◌++◌, arith, ltb, Bool-cases, Option-cases, length,
  length-append, All-append, nat_eq, text_eq, nat_eqb,
}
use holonightd.Prelude.Text.{pos}
use holonightd.Prelude.Rearrange.{
  Rearranged, Rearranged-refl, Rearranged-twice, length-Rearranged, All-Rearranged, All-append_back,
}
use holonightd.Observation.{Expected, value, unexpected}
use holonightd.Store.{StoredRow, Sqlite, to_int64, delete_lowest}
use holonightd.Store.Laws.{Precedes, DeletionLaws, Counted, FileSize}
use holonightd.Store.Capacity.{
  Targets, nine_tenths, targets, rows_to_delete, get_count, get_size_bytes, prune_rounds,
  after_deletion, prune_events_by_capacity,
}
use holonightd.Store.Capacity.Reading.{
  no_wrap, counts, sizes, get_size_bytes_lem, get_count_lem, get_count-counts,
}

pub nine_tenths-le : (n : ℕ) → nine_tenths n ≤ n
unfolding nine_tenths
nine_tenths-le n = omega arith

rows_to_delete-le : (t : Targets) (count bytes : ℕ) → rows_to_delete t count bytes ≤ count
unfolding rows_to_delete
rows_to_delete-le t count bytes = ground arith

to_int64-pos : (n : ℕ) → n < 9223372036854775808 → to_int64 n ≡ pos n
unfolding to_int64
to_int64-pos n h = ground arith

-- What goes before a list goes before what is left of it.
Precedes-Rearranged :
    (first second kept : List StoredRow) {all : List StoredRow}
    → Rearranged all (second ++ kept)
    → Precedes first all
    → Precedes first kept
Precedes-Rearranged first second kept p =
    All-map (λ r h. All-append_back _ second kept (All-Rearranged _ p h)) first

module _ (sql : Sqlite) (rows : sql.Db → List StoredRow) (deletion : DeletionLaws sql rows)
    (counted : Counted sql rows) where
  -- The loop finds nothing more to delete.
  abbrev pub Settled : Targets → sql.Db → Type 0
  Settled t db =
      (get_count sql db ≡ 0) ⊎ (rows_to_delete t (get_count sql db) (get_size_bytes sql db) ≡ 0)

  -- The rows deleted between two states, with their number.
  abbrev pub Deleted : sql.Db → sql.Db → ℕ → Type 0
  Deleted before after n =
      (deleted : List StoredRow) × (Rearranged (rows before) (deleted ++ rows after)
        × (n ≡ length deleted)
        × Precedes deleted (rows after))

  abbrev pub Pruned : Targets → ℕ → sql.Db → Option (sql.Db × Expected ℕ) → Type 0
  Pruned t total before none = ⊥
  Pruned t total before (some (after, unexpected e)) = Unit
  Pruned t total before (some (after, value n)) =
      Settled t after × ((k : ℕ) × ((n ≡ total + k) × Deleted before after k))

  nothing : (db : sql.Db) → Deleted db db 0
  nothing db = ([], (Rearranged-refl (rows db), refl, tt))

  Deleted-trans : (a b c : sql.Db) (m n : ℕ) → Deleted a b m → Deleted b c n → Deleted a c (m + n)
  Deleted-trans a b c m n (first, (p, e, before)) (second, (q, f, after)) = (
    first ++ second,
    (
      Rearranged-twice first second (rows c) p q,
      omega (arith, length-append first second),
      All-append _ first second (Precedes-Rearranged first second (rows c) q before) after,
    ),
  )

  rows_gone :
      (db : sql.Db) (n k : ℕ)
      → length (rows db) < 2147483648
      → (sql.step_delete_lowest (pos n) db).1 ≡ value k
      → (k ≡ min n (length (rows db))) × Deleted db (sql.step_delete_lowest (pos n) db).0 k
  rows_gone db n k small e =
      let (deleted, (p, size, count, before)) = deletion.delete_lowest_lem db n k small e in
      (count, (deleted, (p, size, before)))

  pub length-Deleted :
      (a b : sql.Db) (n : ℕ) → Deleted a b n → length (rows a) ≡ n + length (rows b)
  length-Deleted a b n (deleted, (p, e, before)) =
      omega (arith, length-Rearranged p, length-append deleted (rows b))

  Pruned-shift :
      (t : Targets) (total k : ℕ) (a b : sql.Db) (o : Option (sql.Db × Expected ℕ))
      → Deleted a b k
      → Pruned t (total + k) b o
      → Pruned t total a o
  Pruned-shift t total k a b none d h = h
  Pruned-shift t total k a b (some (c, unexpected e)) d h = h
  Pruned-shift t total k a b (some (c, value n)) d (settled, (j, (e, rest))) =
      (settled, (k + j, (omega arith, Deleted-trans a b c k j d rest)))

  settled :
      (t : Targets) (db : sql.Db)
      → (nat_eqb (get_count sql db) 0
          || nat_eqb (rows_to_delete t (get_count sql db) (get_size_bytes sql db)) 0)
        ≡ true
      → Settled t db
  settled t db h = ground arith

  -- The rounds prune, from every state with fewer rows than the fuel.
  abbrev AllPruned : Targets → ℕ → (sql.Db → ℕ → Option (sql.Db × Expected ℕ)) → Type 0
  AllPruned t fuel rounds =
      (db : sql.Db) (total : ℕ)
      → length (rows db) < fuel
      → total + length (rows db) < 2147483648
      → Pruned t total db (rounds db total)

  after_deletion-Pruned :
      (t : Targets) (fuel : ℕ) (rounds : sql.Db → ℕ → Option (sql.Db × Expected ℕ))
      → AllPruned t fuel rounds
      → (db db' : sql.Db) (total m : ℕ) → 0 < m
      → length (rows db) < suc fuel
      → total + length (rows db) < 2147483648
      → (r : Expected ℕ) → ((k : ℕ) → r ≡ value k → (k ≡ m) × Deleted db db' k)
      → Pruned t total db (after_deletion sql rounds total db' r)
  unfolding after_deletion
  after_deletion-Pruned t fuel rounds later db db' total m some_rows enough small (unexpected e)
        gone =
      tt
  after_deletion-Pruned t fuel rounds later db db' total m some_rows enough small (value zero)
        gone =
      absurd (omega (arith, (gone 0 refl).0))
  after_deletion-Pruned t fuel rounds later db db' total m some_rows enough small (value (suc k))
        gone =
      let (_, d) = gone (suc k) refl in
      let fewer = length-Deleted db db' (suc k) d in
      let same = no_wrap (total + suc k) (omega arith) in
      rw same (
        Pruned-shift t total (suc k) db db' _ d
          (later db' (total + suc k) (omega arith) (omega arith)))

  pub prune_rounds-Pruned : (t : Targets) (fuel : ℕ) → AllPruned t fuel (prune_rounds sql fuel t)
  unfolding prune_rounds
  prune_rounds-Pruned t zero db total enough small = absurd (omega arith)
  prune_rounds-Pruned t (suc fuel) db total enough small =
      let count = get_count sql db in
      let n = rows_to_delete t count (get_size_bytes sql db) in
      let few = rows_to_delete-le t count (get_size_bytes sql db) in
      elim (Bool-cases (nat_eqb count 0 || nat_eqb n 0)) [
        | inl e ↦ rw (e, prune_rounds) (settled t db e, (0, (omega arith, nothing db)))
        | inr e ↦
            let seen = get_count-counts sql rows counted db (ground (arith, e)) in
            rw (e, prune_rounds, to_int64-pos n (omega arith))
              (after_deletion-Pruned t fuel _ (prune_rounds-Pruned t fuel) db _ total
                (min n (length (rows db))) (ground (arith, seen)) enough small _
                (λ k. rows_gone db n k (omega arith)))
      ]

module _ (sql : Sqlite) (rows : sql.Db → List StoredRow) (deletion : DeletionLaws sql rows)
    (counted : Counted sql rows) (size : FileSize sql) where
  -- Neither limit that is set is exceeded; a number that cannot be read is taken for 0.
  abbrev pub HasRoom : ℕ → ℕ → sql.Db → Type 0
  HasRoom max_bytes max_events db =
      ((max_events ≡ 0) ⊎ ((counts sql db ≡ false) ⊎ (length (rows db) ≤ max_events)))
      × ((max_bytes ≡ 0)
          ⊎ ((counts sql db ≡ false)
              ⊎ ((sizes sql db ≡ false)
                  ⊎ ((size.file_bytes db ≤ max_bytes) ⊎ (length (rows db) ≡ 0)))))

  abbrev pub Retained : ℕ → ℕ → sql.Db → Option (sql.Db × Expected ℕ) → Type 0
  Retained max_bytes max_events before none = ⊥
  Retained max_bytes max_events before (some (after, unexpected e)) = Unit
  Retained max_bytes max_events before (some (after, value n)) =
      HasRoom max_bytes max_events after × Deleted sql rows deletion counted before after n

  room_lem :
      (max_bytes max_events : ℕ) (db : sql.Db)
      → (max_events ≡ 0) ⊎ (get_count sql db ≤ max_events)
      → (max_bytes ≡ 0) ⊎ ((get_size_bytes sql db ≤ max_bytes) ⊎ (get_count sql db ≡ 0))
      → HasRoom max_bytes max_events db
  room_lem max_bytes max_events db h g = elim (Bool-cases (counts sql db)) [
    | inr e ↦ (inr (inl e), inr (inl e))
    | inl e ↦
        let seen = get_count_lem sql rows counted db e in
        elim (Bool-cases (sizes sql db)) [
          | inr f ↦ (ground (arith, seen, h), inr (inr (inl f)))
          | inl f ↦
              let read = get_size_bytes_lem sql size db f in
              (ground (arith, seen, h), ground (arith, seen, read, g))
        ]
  ]

  Settled-HasRoom :
      (max_bytes max_events count bytes : ℕ) (db : sql.Db)
      → Settled sql rows deletion counted (targets max_bytes max_events count bytes) db
      → HasRoom max_bytes max_events db
  unfolding rows_to_delete targets
  Settled-HasRoom max_bytes max_events count bytes db h =
      let few = nine_tenths-le max_events in
      let small = nine_tenths-le max_bytes in
      room_lem max_bytes max_events db (ground (arith, h, few, small))
        (ground (arith, h, few, small))

  Pruned-Retained :
      (max_bytes max_events count bytes : ℕ) (before : sql.Db) (o : Option (sql.Db × Expected ℕ))
      → Pruned sql rows deletion counted (targets max_bytes max_events count bytes) 0 before o
      → Retained max_bytes max_events before o
  Pruned-Retained max_bytes max_events count bytes before none h = h
  Pruned-Retained max_bytes max_events count bytes before (some (after, unexpected e)) h = tt
  Pruned-Retained max_bytes max_events count bytes before (some (after, value n))
        (settled, (k, (e, d))) =
      (
        Settled-HasRoom max_bytes max_events count bytes after settled,
        subst (Deleted sql rows deletion counted before after) (omega arith) d,
      )

  -- With more rounds than rows, of which there are fewer than 2 ^ 31, the pruning by capacity
  -- ends. Where it returns a count, as many rows have been deleted, every one of them of a lower
  -- severity than the rows kept or of the same severity and not later. Then, unless the rows could
  -- not be counted, there are no more of them than the limit, if one is set, and the file is not
  -- larger than the limit, if one is set, unless its size could not be read or no row is left.
  pub prune_events_by_capacity-Retained :
      (fuel max_bytes max_events : ℕ) (db : sql.Db)
      → length (rows db) < fuel
      → length (rows db) < 2147483648
      → Retained max_bytes max_events db (prune_events_by_capacity sql fuel max_bytes max_events db)
  unfolding prune_events_by_capacity
  prune_events_by_capacity-Retained fuel max_bytes max_events db enough small =
      let count = get_count sql db in
      let bytes = get_size_bytes sql db in
      let within =
        not (ltb 0 max_events && ltb max_events count)
        && not (ltb 0 max_bytes && ltb max_bytes bytes) in
      elim (Bool-cases within) [
        | inl e ↦
            rw (e, prune_events_by_capacity)
              (
                room_lem max_bytes max_events db (ground (arith, e)) (ground (arith, e)),
                nothing sql rows deletion counted db,
              )
        | inr e ↦ elim (Option-cases (sql.prepare delete_lowest db)) [
          | inl p ↦
              rw (e, prune_events_by_capacity, p)
                (Pruned-Retained max_bytes max_events count bytes db _ (
                  prune_rounds-Pruned sql rows deletion counted
                    (targets max_bytes max_events count bytes) fuel db 0 enough (omega arith)))
          | inr (m, p) ↦ rw (e, prune_events_by_capacity, p) tt
        ]
      ]
