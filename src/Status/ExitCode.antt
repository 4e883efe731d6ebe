-- ===== src/Status/ExitCode.antt =====
-- The exit code of the status check, against its report and against the rules.
use holonightd.Prelude.{
  ℕ, ◌+◌, ◌≡◌, refl, ap, ◌∙◌, inl, inr, Bool, true, false, ◌&&◌, ◌||◌, List, [], ◌∷◌, arith,
  if◌then◌else◌, Bool-cases, any, nat_eq, text_eq, nat_eqb,
}
use holonightd.Std.{StdLib}
use holonightd.Observation.{Severity}
use holonightd.Rules.{DiagnosticRule, DiagnosticFinding}
use holonightd.Rules.Evaluation.{Clock, Event, make_finding}
use holonightd.Rules.Evaluation.Findings.{fires, findings_of, evaluate-findings_of}
use holonightd.Rules.Builtin.{memory_rule, systemd_rule, register_built_in_rules}
use holonightd.Status.{
  SeverityCounts, count_severity, count_from, count_finding_severities, exit_code, is_unhealthy,
  run_status_check,
}

pub is_severe : Severity → Bool
is_severe Severity.error = true
is_severe Severity.critical = true
is_severe _ = false

counted :
    (s : Severity) (counts : SeverityCounts)
    → is_unhealthy (count_severity s counts) ≡ (is_severe s || is_unhealthy counts)
unfolding count_severity is_unhealthy is_severe
counted Severity.debug counts = refl
counted Severity.info counts = refl
counted Severity.warning counts = refl
counted Severity.error counts = ground arith
counted Severity.critical counts = ground arith

exit_code-step :
    {Double : Type 0} (f : DiagnosticFinding Double) (fs : List (DiagnosticFinding Double))
    → exit_code (f ∷ fs) ≡ (if is_severe f.severity then 1 else exit_code fs)
unfolding exit_code is_severe
exit_code-step f fs = by_severity f.severity
  where
    by_severity :
        (s : Severity)
        → (elim s [ Severity.error ↦ 1 | Severity.critical ↦ 1 | _ ↦ exit_code fs ])
          ≡ (if is_severe s then 1 else exit_code fs)
    by_severity Severity.debug = refl
    by_severity Severity.info = refl
    by_severity Severity.warning = refl
    by_severity Severity.error = refl
    by_severity Severity.critical = refl

count_from_lem :
    {Double : Type 0} (fs : List (DiagnosticFinding Double)) (counts : SeverityCounts)
    → is_unhealthy (count_from fs counts) ≡ (is_unhealthy counts || nat_eqb (exit_code fs) 1)
unfolding count_from
count_from_lem [] counts = unfold exit_code in ground arith
count_from_lem (f ∷ fs) counts = ground (
  arith,
  count_from_lem fs (count_severity f.severity counts),
  counted f.severity counts,
  exit_code-step f fs,
)

-- The exit code is 1 exactly where the report says UNHEALTHY.
pub exit_code-is_unhealthy :
    {Double : Type 0} (findings : List (DiagnosticFinding Double))
    → is_unhealthy (count_finding_severities findings) ≡ nat_eqb (exit_code findings) 1
unfolding count_finding_severities is_unhealthy
exit_code-is_unhealthy findings =
    count_from_lem findings (record { critical = 0; error = 0; warning = 0 }) ∙ ground arith

module _ (std : StdLib) where
  findings_code :
      (clock : Clock) (seq : ℕ) (rules : List DiagnosticRule) (events : List (Event std))
      → exit_code (findings_of std clock seq rules events).1
        ≡ (if any (λ rule. fires std rule events && is_severe rule.severity) rules then 1 else 0)
  unfolding findings_of make_finding
  findings_code clock seq [] events = unfold exit_code in refl
  findings_code clock seq (rule ∷ rules) events =
      let rest = findings_code clock (seq + 1) rules events in
      let same = findings_code clock seq rules events in
      elim (Bool-cases (fires std rule events)) [
        | inl f ↦ rw f (exit_code-step _ _ ∙ rw rest (ground arith))
        | inr f ↦ rw f same
      ]

  -- The status check returns 1 where a rule that is an error or critical fires on the collected
  -- events, and 0 where none does.
  pub run_status_check_lem :
      (clock : Clock) (seq : ℕ) (rules : List DiagnosticRule) (events : List (Event std))
      → run_status_check std clock seq rules events
        ≡ (if any (λ rule. fires std rule events && is_severe rule.severity) rules then 1 else 0)
  unfolding run_status_check
  run_status_check_lem clock seq rules events =
      ap (λ r. exit_code r.1) (evaluate-findings_of std clock seq rules events)
      ∙ findings_code clock seq rules events

  -- With the built-in rules alone, the status check returns 1 exactly where the memory rule or the
  -- systemd rule fires: the other rules are warnings.
  pub run_status_check-built_in :
      (clock : Clock) (seq : ℕ) (events : List (Event std))
      → run_status_check std clock seq (register_built_in_rules []) events
        ≡ (if fires std memory_rule events || fires std systemd_rule events then 1 else 0)
  unfolding register_built_in_rules is_severe
  run_status_check-built_in clock seq events =
      run_status_check_lem clock seq (register_built_in_rules []) events ∙ ground arith
