-- ===== src/Store/Laws.antt =====
-- What the event store relies on in SQLite, by its documentation: the table as the connection sees
-- it and without the open transaction, and what each statement makes of them. No other connection
-- writes to the database.
use holonightd.Prelude.{
  ℕ, ◌*◌, ◌<◌, min, String, ◌≡◌, Bool, true, false, ◌&&◌, Option, none, some, List, [], ◌∷◌, ◌++◌,
  ltb, leb, if◌then◌else◌, length, take, keep_if, All, ◌==◌, nat_eq, text_eq,
}
use holonightd.Prelude.Text.{ℤ, pos, negsuc}
use holonightd.Prelude.Rearrange.{Rearranged}
use holonightd.Observation.{value, unexpected}
use holonightd.Store.{
  Row, StoredRow, begin, commit, rollback, Condition, from_time, until_time, source_is, category_is,
  subject_is, severity_from, Bound, number, name, count_rows, page_count, page_size, ok, refused,
  Sqlite,
}

unfoldable pub at_most : ℤ → ℤ → Bool
at_most (pos a) (pos b) = leb a b
at_most (pos a) (negsuc b) = false
at_most (negsuc a) (pos b) = true
at_most (negsuc a) (negsuc b) = leb b a

-- CASE severity WHEN 'debug' THEN 0 ... ELSE 1 END
unfoldable pub severity_case : String → ℕ
severity_case s =
    if s == "debug"
    then 0
    else if s == "info"
    then 1
    else if s == "warning"
    then 2
    else if s == "error"
    then 3
    else if s == "critical"
    then 4
    else 1

-- The order in which the pruning by capacity takes rows: by severity, then by time.
unfoldable pub goes_first : StoredRow → StoredRow → Bool
unfolding at_most severity_case
goes_first a b =
    let first = severity_case a.columns.severity in
    let second = severity_case b.columns.severity in
    if ltb first second
    then true
    else if ltb second first
    then false
    else at_most a.columns.timestamp_us b.columns.timestamp_us

-- Every row of the first list goes before every row of the second.
abbrev pub Precedes : List StoredRow → List StoredRow → Type 0
Precedes deleted kept = All (λ r. All (λ s. goes_first r s ≡ true) kept) deleted

-- The conditions of a query on a row, each with the value bound to it.
unfoldable pub holds : Condition → Bound → Row → Bool
unfolding at_most severity_case
holds from_time (number t) row = at_most t row.timestamp_us
holds until_time (number t) row = at_most row.timestamp_us t
holds source_is (name s) row = row.source == s
holds category_is (name s) row = row.category == s
holds subject_is (name s) row = row.subject == s
holds severity_from (number n) row = at_most n (pos (severity_case row.severity))
holds _ _ row = false

-- The values are bound in the order of the question marks.
unfoldable pub all_hold : List Condition → List Bound → Row → Bool
unfolding holds
all_hold [] values row = true
all_hold (c ∷ cs) [] row = false
all_hold (c ∷ cs) (v ∷ vs) row = holds c v row && all_hold cs vs row

-- LIMIT: a negative number is none.
unfoldable pub limited_to : ℤ → List StoredRow → List StoredRow
limited_to (pos n) found = take n found
limited_to (negsuc n) found = found

-- The first value behind those of the conditions is that of the LIMIT.
unfoldable pub cut : Bool → List Condition → List Bound → List StoredRow → List StoredRow
unfolding limited_to
cut false cs vs found = found
cut true (c ∷ cs) (v ∷ vs) found = cut true cs vs found
cut true [] (number n ∷ vs) found = limited_to n found
cut true _ _ found = []

-- The newest row first.
abbrev pub Descending : List StoredRow → Type 0
Descending [] = Unit
Descending (r ∷ rs) =
    All (λ s. at_most s.columns.timestamp_us r.columns.timestamp_us ≡ true) rs × Descending rs

-- A query that is not broken off gives the rows that meet its conditions, ordered.
pub record SelectionLaws (sql : Sqlite) (rows : sql.Db → List StoredRow) : Type 0 where
  pub select_lem :
      (cs : List Condition) (limited : Bool) (vs : List Bound) (db : sql.Db)
      → (sql.step_select cs limited vs db).1 ≡ true
      → (found : List StoredRow) × (Rearranged
            (keep_if (λ r. all_hold cs vs r.columns) (rows db))
            found
          × Descending found
          × ((sql.step_select cs limited vs db).0 ≡ cut limited cs vs found))

pub record SqliteLaws (sql : Sqlite) : Type 0 where
  -- the table as the connection sees it
  pub rows : sql.Db → List StoredRow
  -- the table that a rollback or a crash leaves
  pub committed : sql.Db → List StoredRow
  pub in_transaction : sql.Db → Bool
  pub outside : (db : sql.Db) → in_transaction db ≡ false → committed db ≡ rows db
  pub begin-ok :
      (db : sql.Db)
      → (sql.exec begin db).1 ≡ ok
      → let db' = (sql.exec begin db).0 in
        (rows db' ≡ committed db) × (committed db' ≡ committed db) × (in_transaction db' ≡ true)
  pub begin-refused :
      (db : sql.Db) (e : Option String)
      → (sql.exec begin db).1 ≡ refused e
      → committed (sql.exec begin db).0 ≡ committed db
  -- a transaction within a transaction
  pub begin_nested :
      (db : sql.Db)
      → in_transaction db ≡ true
      → let (db', result) = sql.exec begin db in
        (result ≡ refused (some "cannot start a transaction within a transaction"))
        × (in_transaction db' ≡ true)
        × (committed db' ≡ committed db)
  pub insert-ok :
      (db : sql.Db) (row : Row) (id : ℤ)
      → in_transaction db ≡ true
      → (sql.step_insert row db).1 ≡ value id
      → let db' = (sql.step_insert row db).0 in
        (rows db' ≡ rows db ++ (record { id = id; columns = row } ∷ []))
        × (committed db' ≡ committed db)
        × (in_transaction db' ≡ true)
  -- the statement, or all of the transaction, is undone
  pub insert_failed :
      (db : sql.Db) (row : Row) (e : String)
      → (sql.step_insert row db).1 ≡ unexpected e
      → committed (sql.step_insert row db).0 ≡ committed db
  pub commit-ok :
      (db : sql.Db) → (sql.exec commit db).1 ≡ ok → committed (sql.exec commit db).0 ≡ rows db
  pub commit-refused :
      (db : sql.Db) (e : Option String)
      → (sql.exec commit db).1 ≡ refused e
      → committed (sql.exec commit db).0 ≡ committed db
  -- SQLITE_BUSY leaves the transaction open
  pub commit_busy :
      (db : sql.Db)
      → in_transaction db ≡ true
      → (sql.exec commit db).1 ≡ refused (some "database is locked")
      → in_transaction (sql.exec commit db).0 ≡ true
  pub rollback_lem : (db : sql.Db) → committed (sql.exec rollback db).0 ≡ committed db

-- Deletion of the first rows in the order above, for a table of which the changes fit an int.
pub record DeletionLaws (sql : Sqlite) (rows : sql.Db → List StoredRow) : Type 0 where
  pub delete_lowest_lem :
      (db : sql.Db) (n k : ℕ)
      → length (rows db) < 2147483648
      → (sql.step_delete_lowest (pos n) db).1 ≡ value k
      → (deleted : List StoredRow) × (Rearranged
            (rows db)
            (deleted ++ rows (sql.step_delete_lowest (pos n) db).0)
          × (k ≡ length deleted)
          × (k ≡ min n (length (rows db)))
          × Precedes deleted (rows (sql.step_delete_lowest (pos n) db).0))

-- A COUNT that gives a row gives the number of rows.
pub record Counted (sql : Sqlite) (rows : sql.Db → List StoredRow) : Type 0 where
  pub count_lem :
      (db : sql.Db) (n : ℤ)
      → sql.prepare count_rows db ≡ none
      → sql.step_count db ≡ some n
      → n ≡ pos (length (rows db))

-- The size of the file, which is the product of what the two PRAGMAs give where they give a row.
pub record FileSize (sql : Sqlite) : Type 0 where
  pub file_bytes : sql.Db → ℕ
  pub file_bytes-small : (db : sql.Db) → file_bytes db < 18446744073709551616
  pub size_lem :
      (db : sql.Db) (m n : ℤ)
      → sql.prepare page_count db ≡ none
      → sql.step_page_count db ≡ some m
      → sql.prepare page_size db ≡ none
      → sql.step_page_size db ≡ some n
      → (p : ℕ) × ((q : ℕ) × ((m ≡ pos p) × (n ≡ pos q) × (p * q ≡ file_bytes db)))

-- The table can be counted.
pub record Countable (sql : Sqlite) (rows : sql.Db → List StoredRow) : Type 0 where
  pub prepare-count : (db : sql.Db) → sql.prepare count_rows db ≡ none
  pub count_lem : (db : sql.Db) → sql.step_count db ≡ some (pos (length (rows db)))
