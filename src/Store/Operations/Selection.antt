-- ===== src/Store/Operations/Selection.antt =====
-- What EventStore::query returns, against a test of one row at a time.
use holonightd.Prelude.{
  ℕ, ◌≡◌, refl, sym, ap, ◌∙◌, inl, inr, Bool, true, ◌&&◌, Option, none, some, List, [], ◌∷◌, ◌++◌,
  map, arith, Option-cases, keep_if, ◌==◌, nat_eq, text_eq, is_some,
}
use holonightd.Prelude.Text.{pos}
use holonightd.Prelude.Rearrange.{Rearranged}
use holonightd.Std.{StdLib}
use holonightd.Observation.{micros, rank, value}
use holonightd.Store.{
  Row, StoredRow, Condition, from_time, until_time, source_is, category_is, subject_is,
  severity_from, Bound, number, name, select_rows, Sqlite, to_int64, c_str, parse_row,
}
use holonightd.Store.Laws.{
  at_most, severity_case, holds, all_hold, limited_to, cut, Descending, SelectionLaws,
}
use holonightd.Store.Operations.{EventQuery, when, bound, conditions, bindings, query}

-- A test, where the filter asks for it.
abbrev pub asked : {A : Type 0} → (A → Bool) → Option A → Bool
asked test none = true
asked test (some a) = test a

-- The rows that a filter asks for. A row holds whole microseconds, and the times of the filter are
-- cut to them.
unfoldable pub matches : EventQuery → Row → Bool
unfolding at_most severity_case c_str
matches filter row =
    asked (λ t. at_most (micros t) row.timestamp_us) filter.start_time
    && (asked (λ t. at_most row.timestamp_us (micros t)) filter.end_time
        && (asked (λ s. row.source == c_str s) filter.source
            && (asked (λ s. row.category == c_str s) filter.category
                && (asked (λ s. row.subject == c_str s) filter.subject
                    && (asked (λ s. at_most (pos (rank s)) (pos (severity_case row.severity)))
                        filter.min_severity)))))

unfoldable pub at_most_limit : Option ℕ → List StoredRow → List StoredRow
unfolding limited_to to_int64
at_most_limit none found = found
at_most_limit (some n) found = limited_to (to_int64 n) found

module _ {A : Type 0} (f : A → Bound) (c : Condition) (row : Row) where
  all_hold-when :
      (o : Option A) (cs : List Condition) (vs : List Bound)
      → all_hold (when o c ++ cs) (bound f o ++ vs) row
        ≡ (asked (λ a. holds c (f a) row) o && all_hold cs vs row)
  unfolding all_hold
  all_hold-when none cs vs = refl
  all_hold-when (some a) cs vs = refl

  all_hold-when_last :
      (o : Option A) (vs : List Bound)
      → all_hold (when o c) (bound f o ++ vs) row ≡ asked (λ a. holds c (f a) row) o
  unfolding all_hold
  all_hold-when_last none vs = refl
  all_hold-when_last (some a) vs = ground arith

module _ {A : Type 0} (f : A → Bound) (c : Condition) (found : List StoredRow) where
  cut-when :
      (o : Option A) (cs : List Condition) (vs : List Bound)
      → cut true (when o c ++ cs) (bound f o ++ vs) found ≡ cut true cs vs found
  unfolding cut
  cut-when none cs vs = refl
  cut-when (some a) cs vs = refl

  cut-when_last :
      (o : Option A) (vs : List Bound)
      → cut true (when o c) (bound f o ++ vs) found ≡ cut true [] vs found
  unfolding cut
  cut-when_last none vs = refl
  cut-when_last (some a) vs = refl

all_hold-matches :
    (filter : EventQuery) (row : Row)
    → all_hold (conditions filter) (bindings filter) row ≡ matches filter row
unfolding conditions bindings matches holds
all_hold-matches filter row =
    all_hold-when (λ t. number (micros t)) from_time row filter.start_time _ _
    ∙ and _ (
        all_hold-when (λ t. number (micros t)) until_time row filter.end_time _ _
        ∙ and _ (
            all_hold-when (λ s. name (c_str s)) source_is row filter.source _ _
            ∙ and _ (
                all_hold-when (λ s. name (c_str s)) category_is row filter.category _ _
                ∙ and _ (
                    all_hold-when (λ s. name (c_str s)) subject_is row filter.subject _ _
                    ∙ and _ (
                        all_hold-when_last (λ s. number (pos (rank s))) severity_from row
                          filter.min_severity (bound (λ n. number (to_int64 n)) filter.limit))))))
  where
    and : (a : Bool) {b c : Bool} → b ≡ c → (a && b) ≡ (a && c)
    and a e = ap (λ b. a && b) e

cut_limited :
    (filter : EventQuery) (found : List StoredRow)
    → cut true (conditions filter) (bindings filter) found
      ≡ cut true [] (bound (λ n. number (to_int64 n)) filter.limit) found
unfolding conditions bindings
cut_limited filter found =
    cut-when (λ t. number (micros t)) from_time found filter.start_time _ _
    ∙ cut-when (λ t. number (micros t)) until_time found filter.end_time _ _
    ∙ cut-when (λ s. name (c_str s)) source_is found filter.source _ _
    ∙ cut-when (λ s. name (c_str s)) category_is found filter.category _ _
    ∙ cut-when (λ s. name (c_str s)) subject_is found filter.subject _ _
    ∙ cut-when_last (λ s. number (pos (rank s))) severity_from found filter.min_severity
        (bound (λ n. number (to_int64 n)) filter.limit)

cut-at_most_limit :
    (filter : EventQuery) (found : List StoredRow)
    → cut (is_some filter.limit) (conditions filter) (bindings filter) found
      ≡ at_most_limit filter.limit found
unfolding cut at_most_limit
cut-at_most_limit filter found = elim (Option-cases filter.limit) [
  | inl e ↦ rw e (refl)
  | inr (n, e) ↦
      ap (λ o. cut (is_some o) (conditions filter) (bindings filter) found) e
      ∙ cut_limited filter found
      ∙ ap (λ o. cut true [] (bound (λ n. number (to_int64 n)) o) found) e
      ∙ sym (ap (λ o. at_most_limit o found) e)
]

keep_if-ext :
    {A : Type 0} (p q : A → Bool) (xs : List A)
    → ((x : A) → p x ≡ q x)
    → keep_if p xs ≡ keep_if q xs
keep_if-ext p q [] h = refl
keep_if-ext p q (x ∷ xs) h = rw (h x, keep_if-ext p q xs h) refl

module _ (std : StdLib) (sql : Sqlite) (rows : sql.Db → List StoredRow)
    (selection : SelectionLaws sql rows) where
  -- A query that is not refused and not broken off returns the events of exactly the rows that
  -- its filter asks for, with its times cut to whole microseconds, the newest first, up to its
  -- limit.
  pub query-matches :
      (filter : EventQuery) (db : sql.Db)
      → let cs = conditions filter in
        let limited = is_some filter.limit in
        sql.prepare (select_rows cs limited) db ≡ none
        → (sql.step_select cs limited (bindings filter) db).1 ≡ true
        → (found : List StoredRow) × (Rearranged
              (keep_if (λ r. matches filter r.columns) (rows db))
              found
            × Descending found
            × (query std sql filter db
                ≡ value (map (parse_row std) (at_most_limit filter.limit found))))
  unfolding query
  query-matches filter db prepared finished =
      let cs = conditions filter in
      let vs = bindings filter in
      let (found, (p, ordered, e)) =
        selection.select_lem cs (is_some filter.limit) vs db finished in
      (
        found,
        (
          rw (keep_if-ext _ _ (rows db) (λ r. all_hold-matches filter r.columns)) at p,
          ordered,
          rw (prepared, query, e, cut-at_most_limit filter found) refl,
        ),
      )
