-- ===== src/Rules/Evaluation.antt =====
-- evaluateAllLogic, evaluateAnyLogic and RuleEngine::evaluate. The identifier of a finding is made
-- from the clock and from a counter that only grows.
pub mod Findings
use holonightd.Prelude.{
  ℕ, zero, suc, ◌+◌, ◌-◌, ◌*◌, ◌/◌, ◌%◌, ◌^◌, ◌≤◌, ◌<◌, min, String, ◌≡◌, refl, sym, ap, ◌∙◌, subst,
  ◌≢◌, ◌↔◌, ◌⊎◌, inl, inr, Bool, true, false, not, ◌&&◌, ◌||◌, Option, none, some, List, [], ◌∷◌,
  ◌++◌, map, arith, eq_iff, ltb, leb, if◌then◌else◌, Bool-cases, Option-cases, length, take,
  is_empty, length-take-le, length-append, keep_if, All, All-append, Eq, ◌==◌, nat_eq, text_eq,
  is_some,
}
use Prim.Native.String.{◌++◌ as append}
use holonightd.Prelude.Text.{hexadecimal}
use holonightd.Std.{StdLib}
use holonightd.Observation.{ObservationEvent}
use holonightd.Rules.{RuleCondition, DiagnosticRule, DiagnosticFinding, LogicOperator, all, any}
use holonightd.Rules.Matching.{match_event_to_condition}

-- The time in nanoseconds and the ISO text of the time that a finding gets, by its number.
abbrev pub Clock : Type 0
Clock = ℕ → ℕ × String

generate_finding_id : ℕ → ℕ → String
generate_finding_id time_ns seq =
    append "finding-" (append (hexadecimal time_ns) (append "-" (hexadecimal seq)))

module _ (std : StdLib) where
  abbrev pub Event : Type 0
  Event = ObservationEvent std.Double

  -- The inner loop: whether some event met the condition, and the matched events so far.
  scan : RuleCondition → List Event → Bool → List Event → Bool × List Event
  scan c [] matched out = (matched, out)
  scan c (event ∷ events) matched out =
      let hit = match_event_to_condition std event c in
      scan c events (if hit then true else matched) (if hit then out ++ event ∷ [] else out)

  evaluate_all_logic : List RuleCondition → List Event → List Event → Bool × List Event
  unfolding scan
  evaluate_all_logic [] events out = (true, out)
  evaluate_all_logic (c ∷ cs) events out =
      let (matched, out') = scan c events false out in
      let rest = evaluate_all_logic cs events out' in if not matched then (false, out') else rest

  evaluate_any_logic : List RuleCondition → List Event → Bool → List Event → Bool × List Event
  unfolding scan
  evaluate_any_logic [] events satisfied out = (satisfied, out)
  evaluate_any_logic (c ∷ cs) events satisfied out =
      let (satisfied', out') = scan c events satisfied out in
      evaluate_any_logic cs events satisfied' out'

  evaluate_logic : LogicOperator → List RuleCondition → List Event → Bool × List Event
  unfolding evaluate_all_logic evaluate_any_logic
  evaluate_logic all conditions events = evaluate_all_logic conditions events []
  evaluate_logic any conditions events = evaluate_any_logic conditions events false []

  unfoldable pub make_finding :
      Clock → ℕ → DiagnosticRule → List Event → DiagnosticFinding std.Double
  unfolding generate_finding_id
  make_finding clock seq rule matched = record {
    finding_id = generate_finding_id (clock seq).0 seq;
    rule_id = rule.rule_id;
    title = rule.title;
    category = rule.category;
    severity = rule.severity;
    matched_events = matched;
    candidate_causes = rule.candidate_causes;
    suggested_actions = rule.suggested_actions;
    timestamp = (clock seq).1;
  }

  -- One rule: the counter after it, and its finding if it fires.
  evaluate_rule : Clock → ℕ → DiagnosticRule → List Event → ℕ × List (DiagnosticFinding std.Double)
  unfolding evaluate_logic make_finding
  evaluate_rule clock seq rule events =
      if is_empty rule.conditions
      then (seq, [])
      else let (satisfied, matched) = evaluate_logic rule.condition_logic rule.conditions events in
        if satisfied && not (is_empty matched)
        then (seq + 1, make_finding clock seq rule matched ∷ [])
        else (seq, [])

  unfoldable pub evaluate :
      Clock → ℕ → List DiagnosticRule → List Event → ℕ × List (DiagnosticFinding std.Double)
  unfolding evaluate_rule
  evaluate clock seq [] events = (seq, [])
  evaluate clock seq (rule ∷ rules) events =
      let (seq', found) = evaluate_rule clock seq rule events in
      let (seq'', rest) = evaluate clock seq' rules events in (seq'', found ++ rest)
