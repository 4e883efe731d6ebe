-- ===== src/Collectors/Memory/Counting.antt =====
-- How the OOM counter is followed over many collections.
use holonightd.Prelude.{
  ℕ, ◌+◌, String, ◌≡◌, refl, ◌∙◌, inl, inr, Option, none, some, List, [], ◌∷◌, arith, Bool-cases,
  Option-cases, nat_eq, text_eq,
}
use holonightd.Prelude.Map.{lookup}
use holonightd.Std.{StdLib}
use holonightd.Collectors.Memory.{
  ProcFiles, Readers, MemoryMetrics, oom_delta, with_victim, extract_oom_victim, parse_psi,
  parse_meminfo, memory_use, no_metrics, parse_vmstat_oom, collect_metrics,
}

abbrev pub kills : Option ℕ → ℕ
kills none = 0
kills (some n) = n

oom_delta_lem :
    (b val : ℕ) → (oom_delta (some b) val).0 ≡ some (b + kills (oom_delta (some b) val).1)
oom_delta_lem b val = ground arith

module _ (std : StdLib) where
  extract-delta :
      (readers : Readers) (kmsg : Option (List String)) (m : MemoryMetrics std.Double)
      → (extract_oom_victim std readers kmsg m).oom_kill_delta ≡ m.oom_kill_delta
  unfolding extract_oom_victim
  extract-delta readers kmsg m = refl

  with_victim-delta :
      (readers : Readers) (kmsg : Option (List String)) (d : Option ℕ)
      (m : MemoryMetrics std.Double)
      → (with_victim std readers kmsg d m).oom_kill_delta ≡ m.oom_kill_delta
  unfolding with_victim
  with_victim-delta readers kmsg none m = refl
  with_victim-delta readers kmsg (some d) m = ground (arith, extract-delta readers kmsg m)

  parse_vmstat_oom_lem :
      (readers : Readers) (files : ProcFiles) (b : ℕ) (m : MemoryMetrics std.Double)
      → m.oom_kill_delta ≡ none
      → let after = parse_vmstat_oom std readers files (some b) m in
        after.0 ≡ some (b + kills after.1.oom_kill_delta)
  unfolding parse_vmstat_oom
  parse_vmstat_oom_lem readers files b m h = elim (Option-cases files.vmstat) [
    | inl e ↦ rw (e, parse_vmstat_oom) (rw h (ground arith))
    | inr (pairs, e) ↦ elim (Option-cases (lookup "oom_kill" pairs)) [
      | inl q ↦ rw (e, q, parse_vmstat_oom) (rw h (ground arith))
      | inr (val, q) ↦ rw (e, q, parse_vmstat_oom) (rw with_victim-delta (oom_delta_lem b val))
    ]
  ]

  parse_psi-delta :
      (o : Option (List String)) (m : MemoryMetrics std.Double)
      → (parse_psi std o m).oom_kill_delta ≡ m.oom_kill_delta
  unfolding parse_psi
  parse_psi-delta none m = refl
  parse_psi-delta (some lines) m = refl

  parse_meminfo-delta :
      (readers : Readers) (o : Option (List String)) (m : MemoryMetrics std.Double)
      → (parse_meminfo std readers o m).oom_kill_delta ≡ m.oom_kill_delta
  unfolding parse_meminfo memory_use
  parse_meminfo-delta readers none m = refl
  parse_meminfo-delta readers (some lines) m = ground arith

  collect_metrics_lem :
      (readers : Readers) (files : ProcFiles) (b : ℕ)
      → let after = collect_metrics std readers files (some b) in
        after.0 ≡ some (b + kills after.1.oom_kill_delta)
  unfolding collect_metrics
  collect_metrics_lem readers files b =
      parse_vmstat_oom_lem readers files b _
        (elim (Bool-cases (parse_psi std files.pressure_memory no_metrics).psi_success) [
          | inl e ↦ rw e (parse_psi-delta files.pressure_memory no_metrics)
          | inr e ↦ rw e (
              parse_meminfo-delta readers files.meminfo _
              ∙ parse_psi-delta files.pressure_memory no_metrics)
        ])

  -- The deltas of collections one after the other, and the baseline after them.
  unfoldable pub watch : Readers → List ProcFiles → Option ℕ → Option ℕ × ℕ
  watch readers [] baseline = (baseline, 0)
  watch readers (files ∷ rest) baseline =
      let (next, m) = collect_metrics std readers files baseline in
      let (final, later) = watch readers rest next in (final, kills m.oom_kill_delta + later)

  -- However often the files are read, readable or not and with whatever counters, the kills that
  -- are reported after a baseline add up to what the baseline grew by: none is counted twice.
  pub watch_lem :
      (readers : Readers) (readings : List ProcFiles) (b : ℕ)
      → (watch readers readings (some b)).0 ≡ some (b + (watch readers readings (some b)).1)
  unfolding watch
  watch_lem readers [] b = ground arith
  watch_lem readers (files ∷ rest) b =
      let first = collect_metrics_lem readers files b in
      rw first (watch_lem readers rest _ ∙ ground arith)
