-- ===== src/Rules/Evaluation/Findings.antt =====
-- What the engine finds, against a description that has no loops over accumulators.
use mathlib.Core.List.{append_assoc, append-nil}
use holonightd.Prelude.{
  ℕ, zero, suc, ◌+◌, ◌-◌, ◌*◌, ◌/◌, ◌%◌, ◌^◌, ◌≤◌, ◌<◌, min, String, ◌≡◌, refl, sym, ap, ◌∙◌, subst,
  ◌≢◌, ◌↔◌, ◌⊎◌, inl, inr, Bool, true, false, not, ◌&&◌, ◌||◌, Option, none, some, List, [], ◌∷◌,
  ◌++◌, map, arith, eq_iff, ltb, leb, if◌then◌else◌, Bool-cases, Option-cases, length, take,
  is_empty, length-take-le, length-append, keep_if, All, All-append, Eq, ◌==◌, nat_eq, text_eq,
  is_some, Some, any-Some, Some-any, is_empty-append, is_empty-keep_if,
}
use holonightd.Prelude
use holonightd.Std.{StdLib}
use holonightd.Rules.{RuleCondition, DiagnosticRule, DiagnosticFinding, LogicOperator, all, any}
use holonightd.Rules.Matching.{match_event_to_condition}
use holonightd.Rules.Evaluation.{
  Clock, Event, scan, evaluate_all_logic, evaluate_any_logic, evaluate_logic, make_finding,
  evaluate_rule, evaluate,
}

module _ (std : StdLib) where
  -- Some event meets the condition.
  abbrev pub met : List (Event std) → RuleCondition → Bool
  met events c = Prelude.any (λ e. match_event_to_condition std e c) events

  abbrev met_all : List RuleCondition → List (Event std) → Bool
  met_all [] events = true
  met_all (c ∷ cs) events = met events c && met_all cs events

  -- The events that meet the conditions, condition by condition, each in the order given.
  abbrev hits : RuleCondition → List (Event std) → List (Event std)
  hits c events = keep_if (λ e. match_event_to_condition std e c) events

  abbrev pub all_hits : List RuleCondition → List (Event std) → List (Event std)
  all_hits [] events = []
  all_hits (c ∷ cs) events = hits c events ++ all_hits cs events

  scan_lem :
      (c : RuleCondition) (events : List (Event std)) (m : Bool) (out : List (Event std))
      → (scan std c events m out).0 ≡ (m || met events c)
  unfolding scan
  scan_lem c [] m out = ground arith
  scan_lem c (e ∷ es) m out =
      scan_lem c es (if hit then true else m) (if hit then out ++ e ∷ [] else out) ∙ ground arith
    where
      hit : Bool
      hit = match_event_to_condition std e c

  scan_out :
      (c : RuleCondition) (events : List (Event std)) (m : Bool) (out : List (Event std))
      → (scan std c events m out).1 ≡ out ++ hits c events
  unfolding scan
  scan_out c [] m out = sym (append-nil out)
  scan_out c (e ∷ es) m out =
      scan_out c es (if hit then true else m) (if hit then out ++ e ∷ [] else out) ∙ moved hit
    where
      hit : Bool
      hit = match_event_to_condition std e c

      moved :
          (b : Bool)
          → ((if b then out ++ e ∷ [] else out) ++ hits c es)
            ≡ out ++ (if b then e ∷ hits c es else hits c es)
      moved true = append_assoc out (e ∷ []) (hits c es)
      moved false = refl

  any_logic_lem :
      (cs : List RuleCondition) (events : List (Event std)) (s : Bool) (out : List (Event std))
      → ((evaluate_any_logic std cs events s out).0 ≡ (s || Prelude.any (met events) cs))
        × ((evaluate_any_logic std cs events s out).1 ≡ out ++ all_hits cs events)
  unfolding evaluate_any_logic
  any_logic_lem [] events s out = (ground arith, sym (append-nil out))
  any_logic_lem (c ∷ cs) events s out =
      let found = scan std c events s out in
      let (first, second) = any_logic_lem cs events found.0 found.1 in
      (
        first ∙ ap (λ b. b || Prelude.any (met events) cs) (scan_lem c events s out) ∙ ground arith,
        second ∙ ap (λ l. l ++ all_hits cs events) (scan_out c events s out) ∙ append_assoc out _ _,
      )

  all_logic_lem :
      (cs : List RuleCondition) (events : List (Event std)) (out : List (Event std))
      → ((evaluate_all_logic std cs events out).0 ≡ met_all cs events)
        × (met_all cs events ≡ true
            → (evaluate_all_logic std cs events out).1 ≡ out ++ all_hits cs events)
  unfolding evaluate_all_logic
  all_logic_lem [] events out = (refl, λ _. sym (append-nil out))
  all_logic_lem (c ∷ cs) events out = elim (Bool-cases (met events c)) [
    | inl m ↦
        let e = scan_lem c events false out ∙ m in
        let (first, second) = all_logic_lem cs events (scan std c events false out).1 in
        rw (e, m)
          (
            first,
            λ h.
                second h
                ∙ ap (λ l. l ++ all_hits cs events) (scan_out c events false out)
                ∙ append_assoc out _ _,
          )
    | inr m ↦ let e = scan_lem c events false out ∙ m in rw (e, m) (refl, λ h. cc)
  ]

  abbrev logic_met : LogicOperator → List RuleCondition → List (Event std) → Bool
  logic_met all cs events = met_all cs events
  logic_met any cs events = Prelude.any (met events) cs

  evaluate_logic_lem :
      (logic : LogicOperator) (cs : List RuleCondition) (events : List (Event std))
      → ((evaluate_logic std logic cs events).0 ≡ logic_met logic cs events)
        × (logic_met logic cs events ≡ true
            → (evaluate_logic std logic cs events).1 ≡ all_hits cs events)
  unfolding evaluate_logic
  evaluate_logic_lem all cs events = all_logic_lem cs events []
  evaluate_logic_lem any cs events =
      let (first, second) = any_logic_lem cs events false [] in (first, λ _. second)

  is_empty-all_hits :
      (cs : List RuleCondition) (events : List (Event std))
      → is_empty (all_hits cs events) ≡ not (Prelude.any (met events) cs)
  is_empty-all_hits [] events = refl
  is_empty-all_hits (c ∷ cs) events = ground (
    arith,
    is_empty-append (hits c events) (all_hits cs events),
    is_empty-keep_if (λ (e : Event std). match_event_to_condition std e c) events,
    is_empty-all_hits cs events,
  )

  -- A rule that is satisfied has matched some event.
  matched_nonempty :
      (logic : LogicOperator) (c : RuleCondition) (cs : List RuleCondition)
      (events : List (Event std))
      → logic_met logic (c ∷ cs) events ≡ true
      → is_empty (all_hits (c ∷ cs) events) ≡ false
  matched_nonempty all c cs events h = is_empty-all_hits (c ∷ cs) events ∙ ground arith
  matched_nonempty any c cs events h = is_empty-all_hits (c ∷ cs) events ∙ ground arith

  -- Whether a rule gives a finding.
  unfoldable pub fires : DiagnosticRule → List (Event std) → Bool
  fires rule events =
      not (is_empty rule.conditions) && logic_met rule.condition_logic rule.conditions events

  outcome :
      (logic : LogicOperator) (cs : List RuleCondition) (events : List (Event std)) (seq : ℕ)
      (finding : List (Event std) → DiagnosticFinding std.Double)
      → ◌≡◌ {A = ℕ × List (DiagnosticFinding std.Double)}
          (if is_empty cs
            then (seq, [])
            else (if (evaluate_logic std logic cs events).0
                  && not (is_empty (evaluate_logic std logic cs events).1)
                then (seq + 1, finding (evaluate_logic std logic cs events).1 ∷ [])
                else (seq, [])))
          (if not (is_empty cs) && logic_met logic cs events
            then (seq + 1, finding (all_hits cs events) ∷ [])
            else (seq, []))
  outcome logic [] events seq finding = refl
  outcome logic (c ∷ cs) events seq finding = elim (Bool-cases (logic_met logic (c ∷ cs) events)) [
    | inl m ↦
        let (first, second) = evaluate_logic_lem logic (c ∷ cs) events in
        rw (first, m, second m, matched_nonempty logic c cs events m) refl
    | inr m ↦ rw ((evaluate_logic_lem logic (c ∷ cs) events).0, m) refl
  ]

  evaluate_rule_lem :
      (clock : Clock) (seq : ℕ) (rule : DiagnosticRule) (events : List (Event std))
      → evaluate_rule std clock seq rule events ≡ (
          if fires rule events
          then (seq + 1, make_finding std clock seq rule (all_hits rule.conditions events) ∷ [])
          else (seq, []))
  unfolding evaluate_rule fires
  evaluate_rule_lem clock seq rule events =
      outcome rule.condition_logic rule.conditions events seq (make_finding std clock seq rule)

  -- The findings as the rules in order give them: each rule that fires gives one, with the events
  -- that meet its conditions, and takes one number.
  unfoldable pub findings_of :
      Clock → ℕ → List DiagnosticRule → List (Event std) → ℕ × List (DiagnosticFinding std.Double)
  findings_of clock seq [] events = (seq, [])
  findings_of clock seq (rule ∷ rules) events =
      if fires rule events
      then (let (seq', rest) = findings_of clock (seq + 1) rules events in
          (seq', make_finding std clock seq rule (all_hits rule.conditions events) ∷ rest))
      else findings_of clock seq rules events

  -- The engine gives one finding for each rule that fires, in the order of the rules: with all the
  -- events that meet each of the rule's conditions, and with the next number, which it alone takes.
  pub evaluate-findings_of :
      (clock : Clock) (seq : ℕ) (rules : List DiagnosticRule) (events : List (Event std))
      → evaluate std clock seq rules events ≡ findings_of clock seq rules events
  unfolding evaluate findings_of
  evaluate-findings_of clock seq [] events = refl
  evaluate-findings_of clock seq (rule ∷ rules) events = elim (Bool-cases (fires rule events)) [
    | inl f ↦
        rw
          (
            evaluate_rule_lem clock seq rule events,
            f,
            evaluate-findings_of clock (seq + 1) rules events,
          )
          refl
    | inr f ↦
        rw (evaluate_rule_lem clock seq rule events, f, evaluate-findings_of clock seq rules events)
          refl
  ]

  -- What it means for a rule to fire: it has conditions, and each of them is met by some event, or
  -- for an `any` rule one of them is.
  abbrev pub Satisfied : LogicOperator → List RuleCondition → List (Event std) → Type 0
  Satisfied all cs events = All (λ c. Some (λ e. match_event_to_condition std e c ≡ true) events) cs
  Satisfied any cs events =
      Some (λ c. Some (λ e. match_event_to_condition std e c ≡ true) events) cs

  met_iff :
      (c : RuleCondition) (events : List (Event std))
      → (met events c ≡ true) ↔ Some (λ e. match_event_to_condition std e c ≡ true) events
  met_iff c events = (
    any-Some (λ e. match_event_to_condition std e c) events,
    Some-any (λ e. match_event_to_condition std e c) events,
  )

  met_all-All :
      (cs : List RuleCondition) (events : List (Event std))
      → (met_all cs events ≡ true) ↔ Satisfied all cs events
  met_all-All [] events = (λ h. tt, λ h. refl)
  met_all-All (c ∷ cs) events = both (met_iff c events) (met_all-All cs events)
    where
      both :
          {b d : Bool} {P Q : Type 0}
          → (b ≡ true) ↔ P
          → (d ≡ true) ↔ Q
          → ((b && d) ≡ true) ↔ (P × Q)
      both p q = (
        λ h. (p.0 (ground arith), q.0 (ground arith)),
        λ h. let x = p.1 h.0 in let y = q.1 h.1 in rw (x, y) refl,
      )

  any-met :
      (cs : List RuleCondition) (events : List (Event std))
      → (Prelude.any (met events) cs ≡ true) ↔ Satisfied any cs events
  any-met [] events = (λ h. cc, λ h. absurd h)
  any-met (c ∷ cs) events = either (met_iff c events) (any-met cs events)
    where
      either :
          {b d : Bool} {P Q : Type 0}
          → (b ≡ true) ↔ P
          → (d ≡ true) ↔ Q
          → ((if b then true else d) ≡ true) ↔ (P ⊎ Q)
      either {b} {d} p q = (
        λ h. elim (Bool-cases b) [ inl e ↦ inl (p.0 e) | inr e ↦ inr (q.0 (rw e at h)) ],
        elim [ inl x ↦ rw (p.1 x) refl | inr y ↦ let e = q.1 y in ground arith ],
      )

  logic_met_iff :
      (logic : LogicOperator) (cs : List RuleCondition) (events : List (Event std))
      → (logic_met logic cs events ≡ true) ↔ Satisfied logic cs events
  logic_met_iff all cs events = met_all-All cs events
  logic_met_iff any cs events = any-met cs events

  not_empty : (cs : List RuleCondition) → cs ≢ [] → is_empty cs ≡ false
  not_empty [] h = absurd (h refl)
  not_empty (c ∷ cs) h = refl

  -- A rule gives a finding exactly when it has conditions and these are satisfied.
  fires_iff :
      (rule : DiagnosticRule) (events : List (Event std))
      → (fires rule events ≡ true)
        ↔ ((rule.conditions ≢ []) × Satisfied rule.condition_logic rule.conditions events)
  unfolding fires
  fires_iff rule events = (
    λ h. (
      λ e. let f : is_empty rule.conditions ≡ true = ap is_empty e in ground arith,
      (logic_met_iff rule.condition_logic rule.conditions events).0 (ground arith),
    ),
    λ h.
        let m = (logic_met_iff rule.condition_logic rule.conditions events).1 h.1 in
        rw (m, not_empty rule.conditions h.0) refl,
  )

  findings_of_one :
      (clock : Clock) (seq : ℕ) (rule : DiagnosticRule) (events : List (Event std))
      → is_empty (findings_of clock seq (rule ∷ []) events).1 ≡ not (fires rule events)
  unfolding findings_of
  findings_of_one clock seq rule events = elim (Bool-cases (fires rule events)) [
    | inl f ↦ rw f refl
    | inr f ↦ rw f refl
  ]

  -- The engine finds something with a rule exactly when the rule has conditions and each of them,
  -- or for an `any` rule one of them, is met by some event.
  pub evaluate_iff :
      (clock : Clock) (seq : ℕ) (rule : DiagnosticRule) (events : List (Event std))
      → (is_empty (evaluate std clock seq (rule ∷ []) events).1 ≡ false)
        ↔ ((rule.conditions ≢ []) × Satisfied rule.condition_logic rule.conditions events)
  evaluate_iff clock seq rule events =
      let found =
        ap (λ r. is_empty r.1) (evaluate-findings_of clock seq (rule ∷ []) events)
        ∙ findings_of_one clock seq rule events in
      (
        λ h. (fires_iff rule events).0 (ground arith),
        λ h. let f = (fires_iff rule events).1 h in ground arith,
      )
