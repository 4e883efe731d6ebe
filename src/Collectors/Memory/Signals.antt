-- ===== src/Collectors/Memory/Signals.antt =====
-- The signals of the memory collector, against the built-in rule for memory.
use holonightd.Prelude.{
  ℕ, ◌≡◌, refl, inl, inr, false, ◌&&◌, Option, ltb, Bool-cases, Option-cases, All, All-append,
  nat_eq, text_eq,
}
use holonightd.Prelude.Text.{ℤ}
use holonightd.Json.{JsonLib}
use holonightd.Std.{StdLib}
use holonightd.Rules.Builtin.{memory_rule}
use holonightd.Rules.Builtin.Triggers.{LeavesErrorRules, memory_rule-quiet}
use holonightd.Rules.Evaluation.Findings.{fires}
use holonightd.Collectors.Memory.{
  ProcFiles, Readers, Psi, MemoryMetrics, MemoryCollectorOptions, psi_some_events, psi_full_events,
  meminfo_events, oom_events, events_of, collect_metrics, collect,
}

module _ (std : StdLib) (json : JsonLib) (real : std.Double → json.Json) where
  psi_some_quiet :
      (options : MemoryCollectorOptions std.Double) (now : ℤ) (p : Psi std.Double)
      → All (LeavesErrorRules std) (psi_some_events std json real options now p)
  unfolding psi_some_events
  psi_some_quiet options now p = elim (Option-cases p.avg10) [
    | inl e ↦ rw (e, psi_some_events) tt
    | inr (d, e) ↦ elim (Bool-cases (std.le options.some_warning_threshold d)) [
      | inl t ↦ rw (e, psi_some_events) (rw t ((refl, refl, refl), tt))
      | inr t ↦ rw (e, psi_some_events) (rw t tt)
    ]
  ]

  psi_full_quiet :
      (options : MemoryCollectorOptions std.Double) (now : ℤ) (p : Psi std.Double)
      → All (LeavesErrorRules std) (psi_full_events std json real options now p)
  unfolding psi_full_events
  psi_full_quiet options now p = elim (Option-cases p.avg10) [
    | inl e ↦ rw (e, psi_full_events) tt
    | inr (d, e) ↦ elim (Bool-cases (std.le options.full_critical_threshold d)) [
      | inl t ↦ rw (e, psi_full_events) (rw t ((refl, refl, refl), tt))
      | inr t ↦ rw (e, psi_full_events) (rw t tt)
    ]
  ]

  meminfo_quiet :
      (options : MemoryCollectorOptions std.Double) (now : ℤ) (m : MemoryMetrics std.Double)
      → All (LeavesErrorRules std) (meminfo_events std json real options now m)
  unfolding meminfo_events
  meminfo_quiet options now m = elim (Option-cases m.percent_used) [
    | inl e ↦ rw (e, meminfo_events) tt
    | inr (d, e) ↦
        elim (Bool-cases (m.meminfo_success && std.le options.meminfo_warning_threshold d)) [
          | inl t ↦ rw (e, meminfo_events) (rw t ((refl, refl, refl), tt))
          | inr t ↦ rw (e, meminfo_events) (rw t tt)
        ]
  ]

  oom_quiet :
      (now : ℤ) (m : MemoryMetrics std.Double)
      → All (LeavesErrorRules std) (oom_events std json real now m)
  unfolding oom_events
  oom_quiet now m = elim (Option-cases m.oom_kill_delta) [
    | inl e ↦ rw (e, oom_events) tt
    | inr (d, e) ↦ elim (Bool-cases (ltb 0 d)) [
      | inl t ↦ rw (e, oom_events) (rw t ((refl, refl, refl), tt))
      | inr t ↦ rw (e, oom_events) (rw t tt)
    ]
  ]

  events_quiet :
      (options : MemoryCollectorOptions std.Double) (now : ℤ) (m : MemoryMetrics std.Double)
      → All (LeavesErrorRules std) (events_of std json real options now m)
  unfolding events_of
  events_quiet options now m =
      All-append _ _ (oom_events std json real now m)
        (elim (Bool-cases m.psi_success) [
          | inl e ↦ rw e (
              All-append _ (psi_some_events std json real options now m.psi_some) _
                (psi_some_quiet options now m.psi_some) (psi_full_quiet options now m.psi_full))
          | inr e ↦ rw e (meminfo_quiet options now m)
        ])
        (oom_quiet now m)

  pub collect_memory-quiet :
      (options : MemoryCollectorOptions std.Double) (readers : Readers) (now : ℤ)
      (files : ProcFiles) (baseline : Option ℕ)
      → All (LeavesErrorRules std) (collect std json real options readers now files baseline).1
  unfolding collect
  collect_memory-quiet options readers now files baseline =
      events_quiet options now (collect_metrics std readers files baseline).1

  -- The built-in memory rule does not fire on what the memory collector reports, whatever the
  -- files, the thresholds and the baseline: the collector never uses the signals that the rule
  -- asks for.
  pub fires-collect_memory :
      (options : MemoryCollectorOptions std.Double) (readers : Readers) (now : ℤ)
      (files : ProcFiles) (baseline : Option ℕ)
      → fires std memory_rule (collect std json real options readers now files baseline).1 ≡ false
  fires-collect_memory options readers now files baseline =
      memory_rule-quiet std _ (collect_memory-quiet options readers now files baseline)
