-- ===== src/Store/Export/Replaced.antt =====
-- The export replaces its destination in one step, by the rename, or leaves it as it was.
use holonightd.Prelude.{
  subst, ap, sym, add_zero, zero_add, add_suc, ℕ, ◌+◌, String, ◌≡◌, refl, ◌∙◌, inl, inr, true,
  Option, none, some, List, [], ◌∷◌, Bool-cases, Option-cases, length, nat_eq, text_eq,
}
use Prim.Native.String.{◌++◌ as append}
use holonightd.Std.{StdLib}
use holonightd.Json.{JsonLib}
use holonightd.Observation.{Expected-cases, Expected, value, unexpected, ObservationEvent}
use holonightd.Store.{Sqlite}
use holonightd.Store.Operations.{EventQuery, query}
use holonightd.Store.Export.{
  Disk, Outcome, discard, line_of, finish, write_lines, export_events, make_parent, export_to_jsonl,
}

-- What the calls make of the files: `content` is that of the file that a path names, `pending` what
-- has been written to the stream of a path. Two paths are apart where they name different files: two
-- texts can name the same file, by links or by dots. A call leaves the files alone that its path is
-- apart from, and keeps apart what was.
pub record DiskLaws (disk : Disk) : Type 1 where
  pub content : disk.Fs → String → Option String
  pub pending : disk.Fs → String → String
  pub Apart : disk.Fs → String → String → Type 0
  pub create_lem :
      (p q : String) (fs : disk.Fs) → content (disk.create_directories p fs).0 q ≡ content fs q
  pub create-Apart :
      (d p q : String) (fs : disk.Fs) → Apart fs p q → Apart (disk.create_directories d fs).0 p q
  pub open_other :
      (p q : String) (fs : disk.Fs)
      → Apart fs p q
      → (content (disk.open_out p fs).0 q ≡ content fs q) × Apart (disk.open_out p fs).0 p q
  pub open_ok :
      (p : String) (fs : disk.Fs)
      → (disk.open_out p fs).1 ≡ true
      → pending (disk.open_out p fs).0 p ≡ ""
  pub write_other :
      (p q s : String) (fs : disk.Fs)
      → Apart fs p q
      → (content (disk.write p s fs).0 q ≡ content fs q) × Apart (disk.write p s fs).0 p q
  pub write_ok :
      (p s : String) (fs : disk.Fs)
      → (disk.write p s fs).1 ≡ true
      → pending (disk.write p s fs).0 p ≡ append (pending fs p) s
  pub close_other :
      (p q : String) (fs : disk.Fs)
      → Apart fs p q
      → (content (disk.close p fs).0 q ≡ content fs q) × Apart (disk.close p fs).0 p q
  pub close_ok :
      (p : String) (fs : disk.Fs)
      → (disk.close p fs).1 ≡ true
      → content (disk.close p fs).0 p ≡ some (pending fs p)
  pub remove_other :
      (p q : String) (fs : disk.Fs) → Apart fs p q → content (disk.remove p fs).0 q ≡ content fs q
  pub rename_ok :
      (p q : String) (fs : disk.Fs)
      → (disk.rename p q fs).1 ≡ none
      → content (disk.rename p q fs).0 q ≡ content fs p
  -- rename(2) changes nothing where it fails
  pub rename_refused :
      (p q message : String) (fs : disk.Fs)
      → (disk.rename p q fs).1 ≡ some message
      → disk.rename p q fs ≡ (fs, some message)

module _ (std : StdLib) (json : JsonLib) (real : std.Double → json.Json)
    (as_real : json.Json → Option std.Double) (sql : Sqlite) (disk : Disk)
    (laws : DiskLaws disk) where
  -- The lines of the events behind a text.
  pub lines_after : String → List (ObservationEvent std.Double) → String
  lines_after text [] = text
  lines_after text (event ∷ events) =
      lines_after (append text (line_of json real as_real event)) events

  -- The destination is replaced by the text, or as it was before.
  abbrev Replaced : String → Option String → String → ℕ → disk.Fs → Option (Expected ℕ) → Type 0
  Replaced dest before text n fs none = laws.content fs dest ≡ before
  Replaced dest before text n fs (some (unexpected e)) = laws.content fs dest ≡ before
  Replaced dest before text n fs (some (value count)) =
      (count ≡ n) × (laws.content fs dest ≡ some text)

  discard-Replaced :
      (tmp dest message text : String) (before : Option String) (n : ℕ) (fs : disk.Fs)
      → laws.Apart fs tmp dest
      → laws.content fs dest ≡ before
      → let o = discard std json real as_real sql disk tmp message fs in
        Replaced dest before text n o.0 o.1
  unfolding discard
  discard-Replaced tmp dest message text before n fs differ kept =
      let same = laws.remove_other tmp dest fs differ ∙ kept in
      elim (Bool-cases (disk.remove tmp fs).1) [
        | inl e ↦ rw (e, discard) same
        | inr e ↦ rw (e, discard) same
      ]

  finish-Replaced :
      (tmp dest : String) (n : ℕ) (fs : disk.Fs)
      → laws.Apart fs tmp dest
      → let o = finish std json real as_real sql disk tmp dest n fs in
        Replaced dest (laws.content fs dest) (laws.pending fs tmp) n o.0 o.1
  unfolding finish
  finish-Replaced tmp dest n fs differ =
      let closed = (disk.close tmp fs).0 in
      let (kept, differ') = laws.close_other tmp dest fs differ in
      elim (Bool-cases (disk.close tmp fs).1) [
        | inl e ↦ elim (Option-cases (disk.rename tmp dest closed).1) [
          | inl r ↦
              rw (e, finish, r) (refl, laws.rename_ok tmp dest closed r ∙ laws.close_ok tmp fs e)
          | inr (m, r) ↦
              let same = ap (λ x. x.0) (laws.rename_refused tmp dest m closed r) in
              rw (e, finish, r)
                (discard-Replaced tmp dest _ _ _ n _
                  (subst (λ f. laws.Apart f tmp dest) (sym same) differ')
                  (ap (λ f. laws.content f dest) same ∙ kept))
        ]
        | inr e ↦ rw (e, finish) (discard-Replaced tmp dest _ _ _ n closed differ' kept)
      ]

  write_lines-Replaced :
      (tmp dest : String) (events : List (ObservationEvent std.Double)) (n : ℕ) (fs : disk.Fs)
      → laws.Apart fs tmp dest
      → let o = write_lines std json real as_real sql disk tmp dest events n fs in
        Replaced dest
          (laws.content fs dest)
          (lines_after (laws.pending fs tmp) events)
          (n + length events)
          o.0
          o.1
  unfolding write_lines lines_after
  write_lines-Replaced tmp dest [] n fs differ =
      rw (add_zero n) (finish-Replaced tmp dest n fs differ)
  write_lines-Replaced tmp dest (event ∷ events) n fs differ =
      let line = line_of json real as_real event in
      let written = (disk.write tmp line fs).0 in
      let (kept, differ') = laws.write_other tmp dest line fs differ in
      elim (Bool-cases (disk.write tmp line fs).1) [
        | inl e ↦
            let rest = write_lines-Replaced tmp dest events (n + 1) written differ' in
            rw (e, write_lines, add_suc n (length events))
              (rw (kept, laws.write_ok tmp line fs e) at rest)
        | inr e ↦
            let (same, apart) = laws.close_other tmp dest written differ' in
            rw (e, write_lines) (discard-Replaced tmp dest _ _ _ _ _ apart (same ∙ kept))
      ]

  export_events-Replaced :
      (dest : String) (events : List (ObservationEvent std.Double)) (fs : disk.Fs)
      → laws.Apart fs (append dest ".tmp") dest
      → let o = export_events std json real as_real sql disk dest events fs in
        Replaced dest (laws.content fs dest) (lines_after "" events) (length events) o.0 o.1
  unfolding export_events
  export_events-Replaced dest events fs differ =
      let tmp = append dest ".tmp" in
      let opened = (disk.open_out tmp fs).0 in
      let (kept, differ') = laws.open_other tmp dest fs differ in
      elim (Bool-cases (disk.open_out tmp fs).1) [
        | inl e ↦
            rw (e, export_events)
              (rw (kept, laws.open_ok tmp fs e, zero_add (length events)) at
                (write_lines-Replaced tmp dest events 0 opened differ'))
        | inr e ↦ rw (e, export_events) kept
      ]

  made_lem :
      (dest : String) (fs : disk.Fs)
      → laws.content (make_parent std json real as_real sql disk dest fs).0 dest
        ≡ laws.content fs dest
  unfolding make_parent
  made_lem dest fs = elim (Option-cases (disk.parent_path dest)) [
    | inl e ↦ rw (e, make_parent) refl
    | inr (parent, e) ↦ rw (e, make_parent) (laws.create_lem parent dest fs)
  ]

  made-Apart :
      (dest tmp : String) (fs : disk.Fs)
      → laws.Apart fs tmp dest
      → laws.Apart (make_parent std json real as_real sql disk dest fs).0 tmp dest
  unfolding make_parent
  made-Apart dest tmp fs h = elim (Option-cases (disk.parent_path dest)) [
    | inl e ↦ rw (e, make_parent) h
    | inr (parent, e) ↦ rw (e, make_parent) (laws.create-Apart parent tmp dest fs h)
  ]

  -- What the export is to leave: the lines of the events of the query, if that gives any.
  abbrev pub IsReplaced :
      String → Expected (List (ObservationEvent std.Double)) → disk.Fs → Outcome disk → Type 0
  IsReplaced dest (unexpected e) fs o = o ≡ (fs, some (unexpected e))
  IsReplaced dest (value events) fs o =
      Replaced dest (laws.content fs dest) (lines_after "" events) (length events) o.0 o.1

  -- The export is atomic: where it returns a count, that is the number of events that the query
  -- gives, and the destination holds one line for each of them, in their order; where it returns
  -- an error or throws, the destination is as it was before. It holds where
  -- the destination and the path with ".tmp" behind it name different files.
  pub export_to_jsonl-IsReplaced :
      (dest : String) (filter : EventQuery) (db : sql.Db) (fs : disk.Fs)
      → laws.Apart fs (append dest ".tmp") dest
      → IsReplaced dest
          (query std sql filter db)
          fs
          (export_to_jsonl std json real as_real sql disk dest filter db fs)
  unfolding export_to_jsonl
  export_to_jsonl-IsReplaced dest filter db fs differ =
      let made = (make_parent std json real as_real sql disk dest fs).0 in
      let kept = made_lem dest fs in
      elim (Expected-cases (query std sql filter db)) [
        | inl (events, q) ↦
            elim (Bool-cases (make_parent std json real as_real sql disk dest fs).1) [
              | inl e ↦
                  rw (q, export_to_jsonl, e)
                    (rw kept at (
                      export_events-Replaced dest events made
                        (made-Apart dest (append dest ".tmp") fs differ)))
              | inr e ↦ rw (q, export_to_jsonl, e) kept
            ]
        | inr (m, q) ↦ rw (q, export_to_jsonl) refl
      ]
