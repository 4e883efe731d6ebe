-- ===== src/Rules/Loading/Accepted.antt =====
-- What the loaders accept.
use mathlib.Core.List.{append_assoc, append-nil}
use holonightd.Prelude.{
  ℕ, ◌+◌, String, ◌≡◌, refl, sym, ◌∙◌, subst, inl, inr, Option, none, some, List, [], ◌∷◌, ◌++◌,
  arith, Option-cases, length, nat_eq, text_eq,
}
use holonightd.Json.{JsonLib, string_at}
use holonightd.Observation.{>>=-eq-value, value-injective, value, severity_from_string, warning}
use holonightd.Rules.{DiagnosticRule, all}
use holonightd.Rules.Operators.{logic_operator_from_string}
use holonightd.Rules.Loading.{
  DirectoryEntry, required, read_or, rule_from_json, load_rule_from_json, load_entry, load_entries,
  load_rules_from_directory,
}

required-eq-value :
    (o : Option String) (m : String) {s : String} → required o m ≡ value s → o ≡ some s
required-eq-value none m h = cc
required-eq-value (some s) m h = ground arith

module _ (json : JsonLib) where
  -- The required strings of a rule stand in the JSON value, and what it has of a severity and a
  -- logic is valid.
  pub record IsLoaded (v : json.Json) (rule : DiagnosticRule) : Type 0 where
    pub rule_id : string_at json v "rule_id" ≡ some rule.rule_id
    pub title : string_at json v "title" ≡ some rule.title
    pub category : string_at json v "category" ≡ some rule.category
    pub severity :
        read_or severity_from_string warning (string_at json v "severity") ≡ value rule.severity
    pub condition_logic :
        read_or logic_operator_from_string all (string_at json v "condition_logic")
        ≡ value rule.condition_logic

  rule_from_json-IsLoaded :
      (v : json.Json) (rule : DiagnosticRule) → rule_from_json json v ≡ value rule → IsLoaded v rule
  unfolding rule_from_json
  rule_from_json-IsLoaded v rule h =
      let (id, hid, h1) = >>=-eq-value (required (string_at json v "rule_id") _) _ h in
      let (title, htitle, h2) = >>=-eq-value (required (string_at json v "title") _) _ h1 in
      let (category, hcategory, h3) =
        >>=-eq-value (required (string_at json v "category") _) _ h2 in
      let (severity, hseverity, h4) =
        >>=-eq-value (read_or severity_from_string warning (string_at json v "severity")) _ h3 in
      let (logic, hlogic, h5) =
        >>=-eq-value (read_or logic_operator_from_string all (string_at json v "condition_logic")) _
          h4 in
      subst (IsLoaded v) (value-injective h5) (record {
        rule_id = required-eq-value _ _ hid;
        title = required-eq-value _ _ htitle;
        category = required-eq-value _ _ hcategory;
        severity = hseverity;
        condition_logic = hlogic;
      })

  pub load_rule_from_json-IsLoaded :
      (text : String) (rule : DiagnosticRule)
      → load_rule_from_json json text ≡ value rule
      → (v : json.Json) × (json.parse text ≡ some v) × IsLoaded v rule
  unfolding load_rule_from_json
  load_rule_from_json-IsLoaded text rule h = elim (Option-cases (json.parse text)) [
    | inl e ↦ cc (rw (e, load_rule_from_json) at h)
    | inr (v, e) ↦ (v, e, rule_from_json-IsLoaded v rule (rw (e, load_rule_from_json) at h))
  ]

  -- The rules of the files that give one, in the order of the walk.
  pub loaded : List DirectoryEntry → List DiagnosticRule
  loaded [] = []
  loaded (file ∷ files) =
      let rest = loaded files in
      elim (load_entry json file) [ none ↦ rest | some rule ↦ rule ∷ rest ]

  added_rules :
      (o : Option DiagnosticRule) (rules rest : List DiagnosticRule)
      → (elim o [ none ↦ rules | some rule ↦ rules ++ rule ∷ [] ]) ++ rest
        ≡ rules ++ (elim o [ none ↦ rest | some rule ↦ rule ∷ rest ])
  added_rules none rules rest = refl
  added_rules (some rule) rules rest = append_assoc rules (rule ∷ []) rest

  load_entries_lem :
      (files : List DirectoryEntry) (rules : List DiagnosticRule) (count : ℕ)
      → ((load_entries json files rules count).0 ≡ rules ++ loaded files)
        × ((load_entries json files rules count).1 ≡ count + length (loaded files))
  unfolding load_entries loaded
  load_entries_lem [] rules count = (sym (append-nil rules), omega arith)
  load_entries_lem (file ∷ files) rules count =
      let o = load_entry json file in
      let (first, second) =
        load_entries_lem files (elim o [ none ↦ rules | some rule ↦ rules ++ rule ∷ [] ])
          (elim o [ none ↦ count | some rule ↦ count + 1 ]) in
      (first ∙ added_rules o rules (loaded files), second ∙ ground arith)

  -- Loading a directory adds the rules of the files that load, in order, behind those there, skips
  -- the other files, and returns how many it added.
  pub load_rules_from_directory_lem :
      (files : List DirectoryEntry) (rules : List DiagnosticRule)
      → load_rules_from_directory json (some files) rules
        ≡ (rules ++ loaded files, length (loaded files))
  unfolding load_rules_from_directory
  load_rules_from_directory_lem files rules =
      let (first, second) = load_entries_lem files rules 0 in
      λ i. (first i, (second ∙ counted (length (loaded files))) i)
    where
      counted : (n : ℕ) → 0 + n ≡ n
      counted n = omega arith
