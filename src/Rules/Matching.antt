-- ===== src/Rules/Matching.antt =====
-- Whether an event meets a condition: matchValueOperator and matchEventToCondition.
use holonightd.Prelude.{
  String, Bool, true, false, not, ◌&&◌, Option, none, some, ltb, if◌then◌else◌, ◌==◌, nat_eq,
  text_eq, is_some,
}
use holonightd.Prelude.Text.{ℤ, decimal_ℤ}
use holonightd.Prelude.Text
use holonightd.Std.{StdLib}
use holonightd.Observation.{
  Severity, ObservationEvent, EventValue, monostate, boolean, integer, double, text, rank,
}
use holonightd.Rules.{
  MatchOperator, equals, not_equals, greater_than, greater_than_or_equal, less_than,
  less_than_or_equal, contains, regex, RuleCondition,
}

abbrev is_order : MatchOperator → Bool
is_order greater_than = true
is_order greater_than_or_equal = true
is_order less_than = true
is_order less_than_or_equal = true
is_order _ = false

module _ (std : StdLib) where
  evaluate_numeric_comparison : std.Double → std.Double → MatchOperator → Bool
  evaluate_numeric_comparison event target equals = std.eq event target
  evaluate_numeric_comparison event target not_equals = not (std.eq event target)
  evaluate_numeric_comparison event target greater_than = std.lt target event
  evaluate_numeric_comparison event target greater_than_or_equal = std.le target event
  evaluate_numeric_comparison event target less_than = std.lt event target
  evaluate_numeric_comparison event target less_than_or_equal = std.le event target
  evaluate_numeric_comparison event target _ = false

  -- event_str
  text_of_value : EventValue std.Double → String
  text_of_value monostate = ""
  text_of_value (boolean b) = if b then "true" else "false"
  text_of_value (integer n) = decimal_ℤ n
  text_of_value (double d) = std.text_of d
  text_of_value (text s) = s

  -- event_num
  number_of_value : EventValue std.Double → Option std.Double
  number_of_value monostate = none
  number_of_value (boolean b) = none
  number_of_value (integer n) = some (std.of_int n)
  number_of_value (double d) = some d
  number_of_value (text s) = std.stod s

  match_text : MatchOperator → String → String → Bool
  match_text equals event target = event == target
  match_text not_equals event target = not (event == target)
  match_text contains event target = Text.contains event target
  match_text regex event target = elim (std.regex_search event target) [
    | none ↦ false
    | some found ↦ found
  ]
  match_text _ event target = false

  match_numbers : MatchOperator → Option std.Double → Option std.Double → Bool
  unfolding evaluate_numeric_comparison
  match_numbers op none target = false
  match_numbers op (some event) none = false
  match_numbers op (some event) (some target) = evaluate_numeric_comparison event target op

  pub match_value_operator : EventValue std.Double → String → MatchOperator → Bool
  unfolding match_text match_numbers text_of_value number_of_value
  match_value_operator v target op =
      if is_some (number_of_value v) && is_order op
      then match_numbers op (number_of_value v) (std.stod target)
      else match_text op (text_of_value v) target

  -- A field that the condition leaves open fits everything.
  abbrev admits : Option String → String → Bool
  admits none t = true
  admits (some s) t = t == s

  abbrev severe_enough : Option Severity → Severity → Bool
  severe_enough none s = true
  severe_enough (some least) s = not (ltb (rank s) (rank least))

  admits_value : Option String → MatchOperator → EventValue std.Double → Bool
  admits_value none op v = true
  admits_value (some target) op v = match_value_operator v target op

  unfoldable pub match_event_to_condition : ObservationEvent std.Double → RuleCondition → Bool
  unfolding admits_value
  match_event_to_condition event c =
      if not (admits c.source event.source)
      then false
      else if not (admits c.category event.category)
      then false
      else if not (admits c.subject event.subject)
      then false
      else if not (admits c.signal event.signal)
      then false
      else if not (severe_enough c.min_severity event.severity)
      then false
      else admits_value c.target_value c.value_operator event.value
