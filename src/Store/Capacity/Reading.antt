-- ===== src/Store/Capacity/Reading.antt =====
-- What the number of rows and the size of the file are read as, where they can be read.
use holonightd.Prelude.{
  ℕ, ◌%◌, ◌<◌, String, ◌*◌, ◌≡◌, refl, ap, ◌∙◌, Bool, false, inl, inr, true, ◌&&◌, Option, none,
  some, List, arith, Bool-cases, length, nat_eq, text_eq, nat_eqb,
}
use holonightd.Prelude.Text.{ℤ, pos}
use holonightd.Store.{StoredRow, Sqlite, from_column, count_rows, page_count, page_size}
use holonightd.Store.Laws.{Counted, FileSize}
use holonightd.Store.Capacity.{read_column, get_count, get_size_bytes, pages, bytes_per_page}

pub no_wrap : (n : ℕ) → n < 18446744073709551616 → n % 18446744073709551616 ≡ n
no_wrap n h = omega arith

-- A statement that can be prepared and gives a row.
abbrev pub can_read : Option String → Option ℤ → Bool
can_read (some e) column = false
can_read none none = false
can_read none (some n) = true

read_column_lem :
    (p : Option String) (column : Option ℤ) (m : ℕ)
    → ((n : ℤ) → p ≡ none → column ≡ some n → n ≡ pos m)
    → can_read p column ≡ true
    → read_column p column ≡ m
unfolding read_column from_column
read_column_lem (some e) column m h r = cc
read_column_lem none none m h r = cc
read_column_lem none (some n) m h r = ap (λ z. from_column (some z)) (h n refl refl)

read_column_zero :
    (p : Option String) (column : Option ℤ) → can_read p column ≡ false → read_column p column ≡ 0
unfolding read_column from_column
read_column_zero (some e) column r = refl
read_column_zero none none r = refl
read_column_zero none (some n) r = cc

-- Two statements that give rows.
both_read :
    (p q : Option String) (a b : Option ℤ) {A : Type 0}
    → ((m n : ℤ) → p ≡ none → a ≡ some m → q ≡ none → b ≡ some n → A)
    → (can_read p a && can_read q b) ≡ true
    → A
both_read (some e) q a b h r = cc
both_read none q none b h r = cc
both_read none (some e) (some m) b h r = cc
both_read none none (some m) none h r = cc
both_read none none (some m) (some n) h r = h m n refl refl refl refl

module _ (sql : Sqlite) where
  -- The rows can be counted, and the size of the file can be read.
  unfoldable pub counts : sql.Db → Bool
  counts db = can_read (sql.prepare count_rows db) (sql.step_count db)

  unfoldable pub sizes : sql.Db → Bool
  sizes db =
      can_read (sql.prepare page_count db) (sql.step_page_count db)
      && can_read (sql.prepare page_size db) (sql.step_page_size db)

  module _ (size : FileSize sql) where
    pub get_size_bytes_lem :
        (db : sql.Db) → sizes db ≡ true → get_size_bytes sql db ≡ size.file_bytes db
    unfolding get_size_bytes pages bytes_per_page read_column from_column sizes
    get_size_bytes_lem db =
        both_read (sql.prepare page_count db) (sql.prepare page_size db) (sql.step_page_count db)
          (sql.step_page_size db)
          (λ m n h1 h2 h3 h4.
            let (p, (q, (e, f, g))) = size.size_lem db m n h1 h2 h3 h4 in
            let first : pages sql db ≡ p =
              ap (λ x. read_column x (sql.step_page_count db)) h1
              ∙ ap (read_column none) (h2 ∙ ap some e) in
            let second : bytes_per_page sql db ≡ q =
              ap (λ x. read_column x (sql.step_page_size db)) h3
              ∙ ap (read_column none) (h4 ∙ ap some f) in
            ap (λ a. a * bytes_per_page sql db % 18446744073709551616) first
            ∙ ap (λ b. p * b % 18446744073709551616) second
            ∙ ap (λ b. b % 18446744073709551616) g
            ∙ no_wrap (size.file_bytes db) (size.file_bytes-small db))

module _ (sql : Sqlite) (rows : sql.Db → List StoredRow) (counted : Counted sql rows) where
  pub get_count_lem : (db : sql.Db) → counts sql db ≡ true → get_count sql db ≡ length (rows db)
  unfolding get_count counts
  get_count_lem db =
      read_column_lem (sql.prepare count_rows db) (sql.step_count db) (length (rows db))
        (counted.count_lem db)

  pub get_count-counts :
      (db : sql.Db) → nat_eqb (get_count sql db) 0 ≡ false → get_count sql db ≡ length (rows db)
  unfolding get_count counts
  get_count-counts db h = elim (Bool-cases (counts sql db)) [
    | inl e ↦ get_count_lem db e
    | inr e ↦
        let zero_read = read_column_zero (sql.prepare count_rows db) (sql.step_count db) e in
        absurd (ground (arith, zero_read))
  ]
