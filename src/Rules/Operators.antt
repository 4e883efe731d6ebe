-- ===== src/Rules/Operators.antt =====
-- The names of the operators.
use holonightd.Prelude.{
  String, ◌≡◌, refl, ◌↔◌, inl, inr, true, arith, eq_iff, if◌then◌else◌, if-cases, ◌==◌, nat_eq,
  text_eq,
}
use Prim.Native.String.{◌++◌ as append}
use holonightd.Observation.{Expected, value, unexpected}
use holonightd.Rules.{
  MatchOperator, equals, not_equals, greater_than, greater_than_or_equal, less_than,
  less_than_or_equal, contains, regex, LogicOperator, all, any,
}

unfoldable pub match_operator_to_string : MatchOperator → String
match_operator_to_string equals = "equals"
match_operator_to_string not_equals = "not_equals"
match_operator_to_string greater_than = "greater_than"
match_operator_to_string greater_than_or_equal = "greater_than_or_equal"
match_operator_to_string less_than = "less_than"
match_operator_to_string less_than_or_equal = "less_than_or_equal"
match_operator_to_string contains = "contains"
match_operator_to_string regex = "regex"

unfoldable pub match_operator_from_string : String → Expected MatchOperator
match_operator_from_string str =
    if str == "equals"
    then value equals
    else if str == "not_equals"
    then value not_equals
    else if str == "greater_than"
    then value greater_than
    else if str == "greater_than_or_equal"
    then value greater_than_or_equal
    else if str == "less_than"
    then value less_than
    else if str == "less_than_or_equal"
    then value less_than_or_equal
    else if str == "contains"
    then value contains
    else if str == "regex"
    then value regex
    else unexpected (append "Invalid MatchOperator: " str)

logic_operator_to_string : LogicOperator → String
logic_operator_to_string all = "all"
logic_operator_to_string any = "any"

unfoldable pub logic_operator_from_string : String → Expected LogicOperator
logic_operator_from_string str =
    if str == "all"
    then value all
    else if str == "any"
    then value any
    else unexpected (append "Invalid LogicOperator: " str)

-- Each operator is read back from its name, and from no other text.
pub match_operator_from_string_iff :
    (o : MatchOperator) (t : String)
    → (match_operator_from_string t ≡ value o) ↔ (t ≡ match_operator_to_string o)
unfolding match_operator_from_string match_operator_to_string
match_operator_from_string_iff o t = (forth, λ e. rw e (back o))
  where
    back : (u : MatchOperator) → match_operator_from_string (match_operator_to_string u) ≡ value u
    back equals = refl
    back not_equals = refl
    back greater_than = refl
    back greater_than_or_equal = refl
    back less_than = refl
    back less_than_or_equal = refl
    back contains = refl
    back regex = refl

    here :
        (spelling : String) (o' : MatchOperator)
        → (t == spelling) ≡ true
        → value o' ≡ value o
        → spelling ≡ match_operator_to_string o'
        → t ≡ match_operator_to_string o
    here spelling o' b e s = ground (arith, eq_iff t spelling)

    forth : match_operator_from_string t ≡ value o → t ≡ match_operator_to_string o
    forth h = elim (if-cases (t == "equals") (value equals) _ h) [
      | inl (b, e) ↦ here "equals" equals b e refl
      | inr h1 ↦ elim (if-cases (t == "not_equals") (value not_equals) _ h1) [
        | inl (b, e) ↦ here "not_equals" not_equals b e refl
        | inr h2 ↦ elim (if-cases (t == "greater_than") (value greater_than) _ h2) [
          | inl (b, e) ↦ here "greater_than" greater_than b e refl
          | inr h3 ↦
              elim (if-cases (t == "greater_than_or_equal") (value greater_than_or_equal) _ h3) [
                | inl (b, e) ↦ here "greater_than_or_equal" greater_than_or_equal b e refl
                | inr h4 ↦ elim (if-cases (t == "less_than") (value less_than) _ h4) [
                  | inl (b, e) ↦ here "less_than" less_than b e refl
                  | inr h5 ↦
                      elim (if-cases (t == "less_than_or_equal") (value less_than_or_equal) _ h5) [
                        | inl (b, e) ↦ here "less_than_or_equal" less_than_or_equal b e refl
                        | inr h6 ↦ elim (if-cases (t == "contains") (value contains) _ h6) [
                          | inl (b, e) ↦ here "contains" contains b e refl
                          | inr h7 ↦ elim (if-cases (t == "regex") (value regex) _ h7) [
                            | inl (b, e) ↦ here "regex" regex b e refl
                            | inr h8 ↦ cc
                          ]
                        ]
                      ]
                ]
              ]
        ]
      ]
    ]

logic_operator_from_string_iff :
    (o : LogicOperator) (t : String)
    → (logic_operator_from_string t ≡ value o) ↔ (t ≡ logic_operator_to_string o)
unfolding logic_operator_from_string logic_operator_to_string
logic_operator_from_string_iff o t = (forth o, λ e. rw e (back o))
  where
    back : (u : LogicOperator) → logic_operator_from_string (logic_operator_to_string u) ≡ value u
    back all = refl
    back any = refl

    forth :
        (u : LogicOperator)
        → logic_operator_from_string t ≡ value u
        → t ≡ logic_operator_to_string u
    forth u h = ground (arith, eq_iff t "all", eq_iff t "any")
