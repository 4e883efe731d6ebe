-- ===== src/Rules/Loading.antt =====
-- RuleEngine::loadRuleFromJson, loadRuleFromFile and loadRulesFromDirectory.
pub mod Accepted
use holonightd.Prelude.{
  ℕ, zero, suc, ◌+◌, ◌-◌, ◌*◌, ◌/◌, ◌%◌, ◌^◌, ◌≤◌, ◌<◌, min, String, ◌≡◌, refl, sym, ap, ◌∙◌, subst,
  ◌≢◌, ◌↔◌, ◌⊎◌, inl, inr, Bool, true, false, not, ◌&&◌, ◌||◌, Option, none, some, List, [], ◌∷◌,
  ◌++◌, map, arith, eq_iff, ltb, leb, if◌then◌else◌, Bool-cases, Option-cases, length, take,
  is_empty, length-take-le, length-append, keep_if, All, All-append, Eq, ◌==◌, nat_eq, text_eq,
  is_some, Some, any-Some, Some-any, is_empty-append, is_empty-keep_if, nat_eqb, nat_eqb_iff,
}
use Prim.Native.String.{◌++◌ as append}
use holonightd.Json.{JsonLib, string_at, or_keep}
use holonightd.Observation.{
  ◌>>=◌, Severity, warning, Expected, value, unexpected, severity_from_string,
}
use holonightd.Rules.{MatchOperator, equals, LogicOperator, all, RuleCondition, DiagnosticRule}
use holonightd.Rules.Operators.{match_operator_from_string, logic_operator_from_string}
use holonightd.Rules.Builtin.{add_rule}

-- The value, where there is one.
abbrev to_option {ℓ} : {A : Type ℓ} → Expected A → Option A
to_option (value a) = some a
to_option (unexpected e) = none

abbrev pub required : Option String → String → Expected String
required none message = unexpected message
required (some s) message = value s

-- A text that has to be read, or the default where there is none.
abbrev pub read_or {ℓ} : {A : Type ℓ} → (String → Expected A) → A → Option String → Expected A
read_or read default none = value default
read_or read default (some s) = read s

-- A text that is dropped where it cannot be read.
abbrev read_if {ℓ} : {A : Type ℓ} → (String → Expected A) → Option String → Option A
read_if read none = none
read_if read (some s) = to_option (read s)

-- What the program reads of the file system: an entry of a recursive walk, up to the first error.
pub record DirectoryEntry : Type 0 where
  pub path : String
  pub is_regular_file : Bool
  pub extension : String
  pub exists : Bool
  pub content : Option String  -- none: it cannot be opened

module _ (json : JsonLib) where
  parse_condition_item : json.Json → RuleCondition
  parse_condition_item item = record {
    source = string_at json item "source";
    category = string_at json item "category";
    subject = string_at json item "subject";
    signal = string_at json item "signal";
    min_severity = read_if severity_from_string (string_at json item "min_severity");
    target_value = string_at json item "target_value";
    value_operator =
        or_keep (read_if match_operator_from_string (string_at json item "value_operator")) equals;
  }

  array_at : json.Json → String → List json.Json
  array_at root key = elim (json.member root key) [
    | none ↦ []
    | some x ↦ elim (json.as_array x) [ none ↦ [] | some items ↦ items ]
  ]

  strings_of : List json.Json → List String
  strings_of [] = []
  strings_of (item ∷ items) =
      let rest = strings_of items in elim (json.as_string item) [ none ↦ rest | some s ↦ s ∷ rest ]

  parse_string_array : json.Json → String → List String
  unfolding array_at strings_of
  parse_string_array root key = strings_of (array_at root key)

  rule_from_json : json.Json → Expected DiagnosticRule
  unfolding parse_condition_item parse_string_array
  rule_from_json v = do
    rule_id ← required (string_at json v "rule_id") "Missing or invalid 'rule_id' string"
    title ← required (string_at json v "title") "Missing or invalid 'title' string"
    category ← required (string_at json v "category") "Missing or invalid 'category' string"
    severity ← read_or severity_from_string warning (string_at json v "severity")
    logic ← read_or logic_operator_from_string all (string_at json v "condition_logic")
    value (record {
      rule_id = rule_id;
      title = title;
      category = category;
      severity = severity;
      condition_logic = logic;
      conditions = map parse_condition_item (array_at v "conditions");
      candidate_causes = parse_string_array v "candidate_causes";
      suggested_actions = parse_string_array v "suggested_actions";
    })

  unfoldable pub load_rule_from_json : String → Expected DiagnosticRule
  unfolding rule_from_json
  load_rule_from_json text = elim (json.parse text) [
    | none ↦ unexpected (append "JSON parse error: " (json.parse_error text))
    | some v ↦ rule_from_json v
  ]

  load_content : DirectoryEntry → Option String → Expected DiagnosticRule
  load_content file none = unexpected (append "Could not open file: " file.path)
  load_content file (some text) = load_rule_from_json text

  load_rule_from_file : DirectoryEntry → Expected DiagnosticRule
  unfolding load_content
  load_rule_from_file file =
      if not file.exists
      then unexpected (append "File does not exist: " file.path)
      else load_content file file.content

  load_entry : DirectoryEntry → Option DiagnosticRule
  unfolding load_rule_from_file
  load_entry file =
      if file.is_regular_file && file.extension == ".json"
      then to_option (load_rule_from_file file)
      else none

  -- The walk: the rules of the engine and the number of rules loaded so far.
  load_entries : List DirectoryEntry → List DiagnosticRule → ℕ → List DiagnosticRule × ℕ
  unfolding load_entry add_rule
  load_entries [] rules count = (rules, count)
  load_entries (file ∷ files) rules count =
      let added = load_entry file in
      load_entries files (elim added [ none ↦ rules | some rule ↦ add_rule rules rule ])
        (elim added [ none ↦ count | some rule ↦ count + 1 ])

  -- none: no such directory
  unfoldable pub load_rules_from_directory :
      Option (List DirectoryEntry) → List DiagnosticRule → List DiagnosticRule × ℕ
  unfolding load_entries
  load_rules_from_directory none rules = (rules, 0)
  load_rules_from_directory (some files) rules = load_entries files rules 0
