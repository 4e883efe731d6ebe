-- ===== src/Tests/Checks.antt =====
-- Runs of the status check.
use holonightd.Prelude.{ℕ, ◌≡◌, ◌&&◌, [], ◌∷◌, if◌then◌else◌, any, nat_eq, text_eq}
use holonightd.Prelude.Text.{pos}
use holonightd.Observation.{error, text}
use holonightd.Collectors.{new_event}
use holonightd.Rules.{DiagnosticFinding}
use holonightd.Rules.Builtin.{systemd_rule, storage_rule}
use holonightd.Rules.Evaluation.{Clock, Event}
use holonightd.Rules.Evaluation.Findings.{fires}
use holonightd.Status.{run_status_check}
use holonightd.Status.ExitCode.{is_severe, run_status_check_lem}
use holonightd.Tests.Samples.{sample_std}

abbrev clock : Clock
clock n = (n, "2026-01-01T00:00:00Z")

abbrev failed_unit : Event sample_std
failed_unit =
    new_event (pos 1) "other" "systemd" "nginx.service" "unit_failed" (text "failed") error "{}"

abbrev found : DiagnosticFinding ℕ
found = record {
  finding_id = "finding-1-1";
  rule_id = "RULE-SYSTEMD-001";
  title = "Systemd Unit Failure";
  category = "service";
  severity = error;
  matched_events = failed_unit ∷ [];
  candidate_causes = [];
  suggested_actions = [];
  timestamp = "";
}

run_status_check_lem_example :
    run_status_check sample_std clock 1 (storage_rule ∷ systemd_rule ∷ []) (failed_unit ∷ []) ≡ (
      if any
        (λ rule. fires sample_std rule (failed_unit ∷ []) && is_severe rule.severity)
        (storage_rule ∷ systemd_rule ∷ [])
      then 1
      else 0)
run_status_check_lem_example =
    run_status_check_lem sample_std clock 1 (storage_rule ∷ systemd_rule ∷ []) (failed_unit ∷ [])
