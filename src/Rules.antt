-- ===== src/Rules.antt =====
-- The rule engine: include/holonightd/RuleEngine.h and libs/health/RuleEngine.cpp.
pub mod Operators
pub mod Matching
pub mod Evaluation
pub mod Builtin
pub mod Loading
use holonightd.Prelude.{
  ℕ, zero, suc, ◌+◌, ◌-◌, ◌*◌, ◌/◌, ◌%◌, ◌^◌, ◌≤◌, ◌<◌, min, String, ◌≡◌, refl, sym, ap, ◌∙◌, subst,
  ◌≢◌, ◌↔◌, ◌⊎◌, inl, inr, Bool, true, false, not, ◌&&◌, ◌||◌, Option, none, some, List, [], ◌∷◌,
  ◌++◌, map, arith, eq_iff, ltb, leb, if◌then◌else◌, Bool-cases, Option-cases, length, take,
  is_empty, length-take-le, length-append, keep_if, All, All-append, Eq, ◌==◌, nat_eq, text_eq,
  is_some,
}
use holonightd.Observation.{Severity, ObservationEvent}

pub data MatchOperator : Type 0 where
  equals not_equals greater_than greater_than_or_equal less_than less_than_or_equal contains regex :
      MatchOperator

pub data LogicOperator : Type 0 where
  all any : LogicOperator

pub record RuleCondition : Type 0 where
  pub source : Option String
  pub category : Option String
  pub subject : Option String
  pub signal : Option String
  pub min_severity : Option Severity
  pub target_value : Option String
  pub value_operator : MatchOperator

pub record DiagnosticRule : Type 0 where
  pub rule_id : String
  pub title : String
  pub category : String
  pub severity : Severity
  pub condition_logic : LogicOperator
  pub conditions : List RuleCondition
  pub candidate_causes : List String
  pub suggested_actions : List String

pub record DiagnosticFinding (Double : Type 0) : Type 0 where
  pub finding_id : String
  pub rule_id : String
  pub title : String
  pub category : String
  pub severity : Severity
  pub matched_events : List (ObservationEvent Double)
  pub candidate_causes : List String
  pub suggested_actions : List String
  pub timestamp : String
