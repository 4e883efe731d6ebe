-- ===== src/Status.antt =====
-- The status check of libs/health/Daemon.cpp: the events of all collectors, the overall status of
-- the report, and the exit code.
pub mod ExitCode
pub mod Unreachable
use holonightd.Prelude.{
  any-none, All-map, ℕ, zero, suc, ◌+◌, ◌-◌, ◌*◌, ◌/◌, ◌%◌, ◌^◌, ◌≤◌, ◌<◌, min, String, ◌≡◌, refl,
  sym, ap, ◌∙◌, subst, ◌≢◌, ◌↔◌, ◌⊎◌, inl, inr, Bool, true, false, not, ◌&&◌, ◌||◌, Option, none,
  some, List, [], ◌∷◌, ◌++◌, map, arith, eq_iff, ltb, leb, if◌then◌else◌, Bool-cases, Option-cases,
  length, take, is_empty, length-take-le, length-append, keep_if, any, All, All-append, Eq, ◌==◌,
  nat_eq, text_eq, is_some, Some, any-Some, Some-any, is_empty-append, is_empty-keep_if, nat_eqb,
  nat_eqb_iff,
}
use Prim.Native.String.{◌++◌ as append}
use holonightd.Prelude.Text.{decimal}
use holonightd.Std.{StdLib}
use holonightd.Observation.{Severity, critical, error, warning}
use holonightd.Rules.{DiagnosticRule, DiagnosticFinding}
use holonightd.Rules.Evaluation.{Clock, Event, evaluate}

pub record SeverityCounts : Type 0 where
  pub critical : ℕ
  pub error : ℕ
  pub warning : ℕ

-- One round of the loop.
count_severity : Severity → SeverityCounts → SeverityCounts
count_severity Severity.critical counts = record counts { critical = counts.critical + 1 }
count_severity Severity.error counts = record counts { error = counts.error + 1 }
count_severity Severity.warning counts = record counts { warning = counts.warning + 1 }
count_severity _ counts = counts

module _ {Double : Type 0} where
  count_from : List (DiagnosticFinding Double) → SeverityCounts → SeverityCounts
  unfolding count_severity
  count_from [] counts = counts
  count_from (finding ∷ findings) counts =
      count_from findings (count_severity finding.severity counts)

  unfoldable pub count_finding_severities : List (DiagnosticFinding Double) → SeverityCounts
  unfolding count_from
  count_finding_severities findings =
      count_from findings (record { critical = 0; error = 0; warning = 0 })

  -- The code that runStatusCheck returns for its findings.
  unfoldable pub exit_code : List (DiagnosticFinding Double) → ℕ
  exit_code [] = 0
  exit_code (finding ∷ findings) =
      let rest = exit_code findings in
      elim finding.severity [ Severity.error ↦ 1 | Severity.critical ↦ 1 | _ ↦ rest ]

unfoldable pub is_unhealthy : SeverityCounts → Bool
is_unhealthy counts = ltb 0 counts.critical || ltb 0 counts.error

-- The line "Overall Status" of the report, behind the colon.
unfoldable pub overall_status : SeverityCounts → String
overall_status counts =
    if is_unhealthy counts
    then append "UNHEALTHY (" (
        append (decimal counts.critical)
          (append " Critical, " (append (decimal counts.error) " Error)")))
    else if ltb 0 counts.warning
    then append "OK (" (append (decimal counts.warning) " Warning)")
    else "OK"

module _ (std : StdLib) where
  -- What a collector returned; none: it threw, which is logged.
  abbrev pub collected : Option (List (Event std)) → List (Event std)
  collected none = []
  collected (some events) = events

  unfoldable pub collect_all_events :
      Option (List (Event std))
      → Option (List (Event std))
      → Option (List (Event std))
      → Option (List (Event std))
      → List (Event std)
  collect_all_events systemd storage memory pacman =
      collected systemd ++ collected storage ++ collected memory ++ collected pacman

  unfoldable pub run_status_check : Clock → ℕ → List DiagnosticRule → List (Event std) → ℕ
  run_status_check clock seq rules events = exit_code (evaluate std clock seq rules events).1
