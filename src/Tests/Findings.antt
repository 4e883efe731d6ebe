-- ===== src/Tests/Findings.antt =====
-- Runs of the rule engine.
use holonightd.Prelude.{
  is_empty, false, ◌≡◌, refl, ◌≢◌, ◌↔◌, true, some, List, [], ◌∷◌, ◌++◌, length, nat_eq, text_eq,
}
use holonightd.Prelude.Text.{pos}
use holonightd.Observation.{warning, error, value, text}
use holonightd.Collectors.{new_event}
use holonightd.Rules.{DiagnosticRule, LogicOperator}
use holonightd.Rules.Builtin.{storage_rule, memory_rule}
use holonightd.Rules.Evaluation.{Clock, Event, evaluate}
use holonightd.Rules.Evaluation.Findings.{
  findings_of, evaluate-findings_of, Satisfied, evaluate_iff,
}
use holonightd.Rules.Loading.{DirectoryEntry, load_rule_from_json, load_rules_from_directory}
use holonightd.Rules.Loading.Accepted.{
  IsLoaded, load_rule_from_json-IsLoaded, loaded, load_rules_from_directory_lem,
}
use holonightd.Tests.Samples.{sample_json, sample_std, Document, parse_document}

abbrev clock : Clock
clock n = (n, "2026-01-01T00:00:00Z")

abbrev full_disk : Event sample_std
full_disk =
    new_event (pos 1) "storage_collector" "storage" "/" "space_pressure" (text "") error "{}"

evaluate-findings_of_example :
    evaluate sample_std clock 0 (storage_rule ∷ memory_rule ∷ []) (full_disk ∷ full_disk ∷ [])
    ≡ findings_of sample_std clock 0 (storage_rule ∷ memory_rule ∷ []) (full_disk ∷ full_disk ∷ [])
evaluate-findings_of_example =
    evaluate-findings_of sample_std clock 0 (storage_rule ∷ memory_rule ∷ [])
      (full_disk ∷ full_disk ∷ [])

evaluate_iff_example :
    (is_empty (evaluate sample_std clock 0 (storage_rule ∷ []) (full_disk ∷ [])).1 ≡ false) ↔ (
      (storage_rule.conditions ≢ [])
      × Satisfied sample_std storage_rule.condition_logic storage_rule.conditions (full_disk ∷ []))
evaluate_iff_example = evaluate_iff sample_std clock 0 storage_rule (full_disk ∷ [])

abbrev loaded_rule : DiagnosticRule
loaded_rule = record {
  rule_id = "R1";
  title = "A rule";
  category = "disk";
  severity = warning;
  condition_logic = LogicOperator.all;
  conditions = [];
  candidate_causes = [];
  suggested_actions = [];
}

load_example : load_rule_from_json sample_json "rule" ≡ value loaded_rule
unfolding load_rule_from_json parse_document
load_example = refl

load_rule_from_json-IsLoaded_example :
    (v : Document) × (parse_document "rule" ≡ some v) × IsLoaded sample_json v loaded_rule
load_rule_from_json-IsLoaded_example =
    load_rule_from_json-IsLoaded sample_json "rule" loaded_rule load_example

abbrev files : List DirectoryEntry
files =
    record {
      path = "a.json";
      is_regular_file = true;
      extension = ".json";
      exists = true;
      content = some "rule";
    }
    ∷ record {
      path = "b.txt";
      is_regular_file = true;
      extension = ".txt";
      exists = true;
      content = some "rule";
    }
    ∷ []

load_rules_from_directory_lem_example :
    load_rules_from_directory sample_json (some files) (storage_rule ∷ [])
    ≡ (storage_rule ∷ [] ++ loaded sample_json files, length (loaded sample_json files))
load_rules_from_directory_lem_example =
    load_rules_from_directory_lem sample_json files (storage_rule ∷ [])
