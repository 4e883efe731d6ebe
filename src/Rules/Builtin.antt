-- ===== src/Rules/Builtin.antt =====
-- RuleEngine::registerBuiltInRules, and the rules that an engine holds.
pub mod Triggers
use holonightd.Prelude.{
  ℕ, zero, suc, ◌+◌, ◌-◌, ◌*◌, ◌/◌, ◌%◌, ◌^◌, ◌≤◌, ◌<◌, min, String, ◌≡◌, refl, sym, ap, ◌∙◌, subst,
  ◌≢◌, ◌↔◌, ◌⊎◌, inl, inr, Bool, true, false, not, ◌&&◌, ◌||◌, Option, none, some, List, [], ◌∷◌,
  ◌++◌, map, arith, eq_iff, ltb, leb, if◌then◌else◌, Bool-cases, Option-cases, length, take,
  is_empty, length-take-le, length-append, keep_if, All, All-append, Eq, ◌==◌, nat_eq, text_eq,
  is_some, Some, any-Some, Some-any, is_empty-append, is_empty-keep_if, nat_eqb, nat_eqb_iff,
}
use holonightd.Observation.{Severity, warning, error}
use holonightd.Rules.{MatchOperator, equals, LogicOperator, all, any, RuleCondition, DiagnosticRule}

-- A condition of the built-in rules: from warning upwards, whatever the source and the value.
abbrev pub least_warning : Option String → Option String → Option String → RuleCondition
least_warning category subject signal = record {
  source = none;
  category = category;
  subject = subject;
  signal = signal;
  min_severity = some warning;
  target_value = none;
  value_operator = equals;
}

abbrev pub kernel_rule : DiagnosticRule
kernel_rule = record {
  rule_id = "RULE-KERNEL-001";
  title = "Kernel Version Mismatch";
  category = "kernel";
  severity = warning;
  condition_logic = all;
  conditions = least_warning (some "package") (some "kernel") (some "pacman.kernel_mismatch") ∷ [];
  candidate_causes =
      "Kernel package was upgraded via pacman/system update but system has not been rebooted." ∷ [];
  suggested_actions =
      "action.system.reboot_recommended" ∷ "action.pacman.check_pending_updates" ∷ [];
}

abbrev pub pacman_lock_rule : DiagnosticRule
pacman_lock_rule = record {
  rule_id = "RULE-PACMAN-001";
  title = "Stale Pacman Database Lock";
  category = "package";
  severity = warning;
  condition_logic = all;
  conditions = least_warning (some "package") (some "pacman_db") (some "pacman.stale_lock") ∷ [];
  candidate_causes = "Interrupted pacman transaction or dead process left orphan db.lck file." ∷ [];
  suggested_actions = "action.pacman.remove_stale_lock" ∷ "action.pacman.verify_db_integrity" ∷ [];
}

abbrev pub storage_rule : DiagnosticRule
storage_rule = record {
  rule_id = "RULE-STORAGE-001";
  title = "Storage Pressure Warning";
  category = "storage";
  severity = warning;
  condition_logic = any;
  conditions =
      least_warning (some "storage") (none) (some "space_pressure")
      ∷ least_warning (some "storage") (none) (some "inode_pressure")
      ∷ [];
  candidate_causes = "Filesystem volume or inode pool is nearing full capacity." ∷ [];
  suggested_actions =
      "action.storage.clean_journal_logs" ∷ "action.storage.clean_pacman_cache" ∷ [];
}

abbrev pub memory_rule : DiagnosticRule
memory_rule = record {
  rule_id = "RULE-MEMORY-001";
  title = "Memory Pressure or OOM Event";
  category = "memory";
  severity = error;
  condition_logic = any;
  conditions =
      least_warning (some "memory") (none) (some "oom_kill")
      ∷ least_warning (some "memory") (none) (some "memory_pressure")
      ∷ [];
  candidate_causes =
      "High memory allocation triggered kernel OOM killer or system memory pressure." ∷ [];
  suggested_actions =
      "action.memory.identify_top_consumers" ∷ "action.memory.restart_leaking_services" ∷ [];
}

abbrev pub systemd_rule : DiagnosticRule
systemd_rule = record {
  rule_id = "RULE-SYSTEMD-001";
  title = "Systemd Unit Failure";
  category = "service";
  severity = error;
  condition_logic = all;
  conditions = least_warning (some "systemd") (none) (some "unit_failed") ∷ [];
  candidate_causes = "System service entered failed state." ∷ [];
  suggested_actions = "action.systemd.restart_unit" ∷ "action.systemd.inspect_unit_logs" ∷ [];
}

unfoldable pub add_rule : List DiagnosticRule → DiagnosticRule → List DiagnosticRule
add_rule rules rule = rules ++ rule ∷ []

-- A new engine holds the built-in rules.
unfoldable pub register_built_in_rules : List DiagnosticRule → List DiagnosticRule
unfolding add_rule
register_built_in_rules rules =
    add_rule
      (add_rule (add_rule (add_rule (add_rule rules kernel_rule) pacman_lock_rule) storage_rule)
        memory_rule)
      systemd_rule
