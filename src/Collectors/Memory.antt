-- ===== src/Collectors/Memory.antt =====
-- MemoryCollector of libs/health/MemoryCollector.cpp.
pub mod Counting
pub mod Signals
use holonightd.Prelude.{
  ℕ, zero, suc, ◌+◌, ◌-◌, ◌*◌, ◌/◌, ◌%◌, ◌^◌, ◌≤◌, ◌<◌, min, String, ◌≡◌, refl, sym, ap, ◌∙◌, subst,
  ◌≢◌, ◌↔◌, ◌⊎◌, inl, inr, Bool, true, false, not, ◌&&◌, ◌||◌, Option, none, some, List, [], ◌∷◌,
  ◌++◌, map, arith, eq_iff, ltb, leb, if◌then◌else◌, Bool-cases, Option-cases, length, take,
  is_empty, length-take-le, length-append, keep_if, any, All, All-append, Eq, ◌==◌, nat_eq, text_eq,
  is_some, Some, any-Some, Some-any, is_empty-append, is_empty-keep_if, nat_eqb, nat_eqb_iff,
}
use Prim.Native.String.{◌++◌ as append}
use text.Mathlib.Text.{starts_with}
use holonightd.Prelude.Map
use holonightd.Prelude.Text.{ℤ, pos, words, drop}
use holonightd.Json.{JsonLib, or_keep}
use holonightd.Std.{StdLib}
use holonightd.Observation.{ObservationEvent, double, warning, error, critical}
use holonightd.Collectors.{new_event}

-- The files under proc_root as the collector reads them. none: the file cannot be opened.
pub record ProcFiles : Type 0 where
  pub pressure_memory : Option (List String)  -- lines
  pub meminfo : Option (List String)
  pub vmstat : Option (List (String × ℕ))  -- input >> key >> val, up to the first failure
  pub kmsg : Option (List String)

-- What the standard library makes of a text: the number that `stream >> number` stores and whether
-- it succeeds, the two groups of the expression for a killed process, and std::stoi, none where
-- it throws.
pub record Readers : Type 0 where
  pub extract_u64 : String → ℕ × Bool
  pub oom_match : String → Option (String × String)
  pub stoi : String → Option ℤ

module _ {Double : Type 0} where
  module _ (std_stod : String → Option Double) where
    stod_or : String → Option Double → Option Double
    stod_or text old = elim (std_stod text) [ none ↦ old | some d ↦ some d ]

-- The averages of a line "some" or "full".
pub record Psi (Double : Type 0) : Type 0 where
  pub avg10 : Option Double
  pub avg60 : Option Double
  pub avg300 : Option Double
  pub total : Option Double

pub record MemoryMetrics (Double : Type 0) : Type 0 where
  pub psi_some : Psi Double
  pub psi_full : Psi Double
  pub total_bytes : ℕ
  pub available_bytes : ℕ
  pub used_bytes : ℕ
  pub percent_used : Option Double
  pub oom_kill_counter : Option ℕ
  pub oom_kill_delta : Option ℕ
  pub victim_pid : Option ℤ
  pub victim_name : Option String
  pub psi_success : Bool
  pub meminfo_success : Bool
  pub vmstat_success : Bool

module _ {Double : Type 0} where
  abbrev no_psi : Psi Double
  no_psi = record { avg10 = none; avg60 = none; avg300 = none; total = none }

  abbrev pub no_metrics : MemoryMetrics Double
  no_metrics = record {
    psi_some = no_psi;
    psi_full = no_psi;
    total_bytes = 0;
    available_bytes = 0;
    used_bytes = 0;
    percent_used = none;
    oom_kill_counter = none;
    oom_kill_delta = none;
    victim_pid = none;
    victim_name = none;
    psi_success = false;
    meminfo_success = false;
    vmstat_success = false;
  }

-- std::uint64_t
abbrev u64_bound : ℕ
u64_bound = 18446744073709551616

-- The counter against the baseline: the baseline after it and the delta.
abbrev pub oom_delta : Option ℕ → ℕ → Option ℕ × Option ℕ
oom_delta none val = (some val, some 0)
oom_delta (some baseline) val =
    if leb baseline val then (some val, some (val - baseline)) else (some baseline, none)

module _ (std : StdLib) where
  parse_psi_token : String → Psi std.Double → Psi std.Double
  unfolding stod_or
  parse_psi_token token p =
      if starts_with token "avg10="
      then record p { avg10 = stod_or std.stod (drop 6 token) p.avg10 }
      else if starts_with token "avg60="
      then record p { avg60 = stod_or std.stod (drop 6 token) p.avg60 }
      else if starts_with token "avg300="
      then record p { avg300 = stod_or std.stod (drop 7 token) p.avg300 }
      else if starts_with token "total="
      then record p { total = stod_or std.stod (drop 6 token) p.total }
      else p

  parse_psi_tokens : List String → Psi std.Double → Psi std.Double
  unfolding parse_psi_token
  parse_psi_tokens [] p = p
  parse_psi_tokens (token ∷ tokens) p = parse_psi_tokens tokens (parse_psi_token token p)

  -- The first token is skipped.
  parse_psi_line : String → Psi std.Double → Psi std.Double
  unfolding parse_psi_tokens
  parse_psi_line line p = elim (words line) [ [] ↦ p | token ∷ tokens ↦ parse_psi_tokens tokens p ]

  -- The two kinds of lines, and whether their first average was there after the last of them.
  parse_psi_lines :
      List String
      → Psi std.Double
      → Psi std.Double
      → Bool
      → Bool
      → Psi std.Double × Psi std.Double × Bool
  unfolding parse_psi_line
  parse_psi_lines [] s f parsed_some parsed_full = (s, f, parsed_some || parsed_full)
  parse_psi_lines (line ∷ lines) s f parsed_some parsed_full =
      let s' = parse_psi_line line s in
      let f' = parse_psi_line line f in
      if starts_with line "some "
      then parse_psi_lines lines s' f (is_some s'.avg10) parsed_full
      else if starts_with line "full "
      then parse_psi_lines lines s f' parsed_some (is_some f'.avg10)
      else parse_psi_lines lines s f parsed_some parsed_full

  parse_psi : Option (List String) → MemoryMetrics std.Double → MemoryMetrics std.Double
  unfolding parse_psi_lines
  parse_psi none m = record m { psi_success = false }
  parse_psi (some lines) m =
      let (s, f, success) = parse_psi_lines lines m.psi_some m.psi_full false false in
      record m { psi_some = s; psi_full = f; psi_success = success }

  -- total_kb, found_total, avail_kb and found_avail after the lines.
  meminfo_lines : Readers → List String → ℕ × Bool → ℕ × Bool → (ℕ × Bool) × (ℕ × Bool)
  meminfo_lines readers [] total avail = (total, avail)
  meminfo_lines readers (line ∷ lines) total avail =
      let (t, t_read) = readers.extract_u64 (drop 9 line) in
      let (a, a_read) = readers.extract_u64 (drop 13 line) in
      if starts_with line "MemTotal:"
      then meminfo_lines readers lines (t, t_read || total.1) avail
      else if starts_with line "MemAvailable:"
      then meminfo_lines readers lines total (a, a_read || avail.1)
      else meminfo_lines readers lines total avail

  memory_use : ℕ → ℕ → MemoryMetrics std.Double → MemoryMetrics std.Double
  memory_use total available m =
      let used = if leb available total then total - available else 0 in
      record m {
        total_bytes = total;
        available_bytes = available;
        used_bytes = used;
        percent_used =
            some (
              std.mul (std.div (std.of_int (pos used)) (std.of_int (pos total))) (std.ratio 100 1));
        meminfo_success = true;
      }

  parse_meminfo :
      Readers → Option (List String) → MemoryMetrics std.Double → MemoryMetrics std.Double
  unfolding meminfo_lines memory_use
  parse_meminfo readers none m = record m { meminfo_success = false }
  parse_meminfo readers (some lines) m =
      let ((total_kb, found_total), (avail_kb, found_avail)) =
        meminfo_lines readers lines (0, false) (0, false) in
      if found_total && ltb 0 total_kb
      then memory_use (total_kb * 1024 % u64_bound)
          (if found_avail then avail_kb * 1024 % u64_bound else 0) m
      else record m { meminfo_success = false }

  -- The last victim that the log names.
  last_victim : Readers → List String → Option (ℤ × String) → Option (ℤ × String)
  last_victim readers [] found = found
  last_victim readers (line ∷ lines) found =
      last_victim readers lines (elim (readers.oom_match line) [
        | none ↦ found
        | some (pid, name) ↦ elim (readers.stoi pid) [ none ↦ found | some n ↦ some (n, name) ]
      ])

  extract_oom_victim :
      Readers → Option (List String) → MemoryMetrics std.Double → MemoryMetrics std.Double
  unfolding last_victim
  extract_oom_victim readers kmsg m =
      let (pid, name) =
        or_keep (elim kmsg [ none ↦ none | some lines ↦ last_victim readers lines none ])
          (pos 0, "unknown") in
      record m { victim_pid = some pid; victim_name = some name }

  with_victim :
      Readers
      → Option (List String)
      → Option ℕ
      → MemoryMetrics std.Double
      → MemoryMetrics std.Double
  unfolding extract_oom_victim
  with_victim readers kmsg none m = m
  with_victim readers kmsg (some delta) m =
      if ltb 0 delta then extract_oom_victim readers kmsg m else m

  unfoldable pub parse_vmstat_oom :
      Readers
      → ProcFiles
      → Option ℕ
      → MemoryMetrics std.Double
      → Option ℕ × MemoryMetrics std.Double
  unfolding with_victim
  parse_vmstat_oom readers files baseline m = elim files.vmstat [
    | none ↦ (baseline, record m { vmstat_success = false })
    | some pairs ↦ elim (Map.lookup "oom_kill" pairs) [
      | none ↦ (baseline, record m { vmstat_success = false })
      | some val ↦
          let (baseline', delta) = oom_delta baseline val in
          (
            baseline',
            with_victim readers files.kmsg delta (record m {
              oom_kill_counter = some val;
              vmstat_success = true;
              oom_kill_delta = delta;
            }),
          )
    ]
  ]

  -- The baseline is the state of the collector.
  unfoldable pub collect_metrics :
      Readers → ProcFiles → Option ℕ → Option ℕ × MemoryMetrics std.Double
  unfolding parse_psi parse_meminfo
  collect_metrics readers files baseline =
      let psi = parse_psi files.pressure_memory no_metrics in
      parse_vmstat_oom readers files baseline
        (if psi.psi_success then psi else parse_meminfo readers files.meminfo psi)

pub record MemoryCollectorOptions (Double : Type 0) : Type 0 where
  pub some_warning_threshold : Double
  pub full_critical_threshold : Double
  pub meminfo_warning_threshold : Double

module _ (std : StdLib) (json : JsonLib) (real : std.Double → json.Json) where
  psi_attributes : String → Psi std.Double → std.Double → String
  psi_attributes prefix p avg10 =
      let zero_real = std.ratio 0 1 in
      json.dump (
        json.object (
          (append prefix "_avg10", real avg10)
          ∷ (append prefix "_avg60", real (or_keep p.avg60 zero_real))
          ∷ (append prefix "_avg300", real (or_keep p.avg300 zero_real))
          ∷ (append prefix "_total", real (or_keep p.total zero_real))
          ∷ []))

  psi_some_events :
      MemoryCollectorOptions std.Double → ℤ → Psi std.Double → List (ObservationEvent std.Double)
  unfolding psi_attributes
  psi_some_events options now p = elim p.avg10 [
    | none ↦ []
    | some avg10 ↦
        if std.le options.some_warning_threshold avg10
        then new_event now "memory_collector" "memory" "psi" "memory_pressure_some" (double avg10)
            warning (psi_attributes "some" p avg10)
          ∷ []
        else []
  ]

  psi_full_events :
      MemoryCollectorOptions std.Double → ℤ → Psi std.Double → List (ObservationEvent std.Double)
  unfolding psi_attributes
  psi_full_events options now p = elim p.avg10 [
    | none ↦ []
    | some avg10 ↦
        if std.le options.full_critical_threshold avg10
        then new_event now "memory_collector" "memory" "psi" "memory_pressure_full" (double avg10)
            critical (psi_attributes "full" p avg10)
          ∷ []
        else []
  ]

  meminfo_events :
      MemoryCollectorOptions std.Double
      → ℤ
      → MemoryMetrics std.Double
      → List (ObservationEvent std.Double)
  meminfo_events options now m = elim m.percent_used [
    | none ↦ []
    | some percent ↦
        if m.meminfo_success && std.le options.meminfo_warning_threshold percent
        then new_event now "memory_collector" "memory" "meminfo" "memory_used_high" (double percent)
            warning
            (json.dump (
              json.object (
                ("total_bytes", json.unsigned m.total_bytes)
                ∷ ("available_bytes", json.unsigned m.available_bytes)
                ∷ ("used_bytes", json.unsigned m.used_bytes)
                ∷ ("percent_used", real percent)
                ∷ [])))
          ∷ []
        else []
  ]

  oom_events : ℤ → MemoryMetrics std.Double → List (ObservationEvent std.Double)
  oom_events now m = elim m.oom_kill_delta [
    | none ↦ []
    | some delta ↦
        if ltb 0 delta
        then new_event now "memory_collector" "memory" "oom_killer" "oom_killer_invoked"
            (double (std.of_int (pos delta))) error
            (json.dump (
              json.object (
                ("delta", json.unsigned delta)
                ∷ ("total_oom_kills", json.unsigned (or_keep m.oom_kill_counter 0))
                ∷ ("victim_pid", json.integer (or_keep m.victim_pid (pos 0)))
                ∷ ("victim_name", json.string (or_keep m.victim_name "unknown"))
                ∷ [])))
          ∷ []
        else []
  ]

  unfoldable pub events_of :
      MemoryCollectorOptions std.Double
      → ℤ
      → MemoryMetrics std.Double
      → List (ObservationEvent std.Double)
  unfolding psi_some_events psi_full_events meminfo_events oom_events
  events_of options now m =
      (if m.psi_success
        then psi_some_events options now m.psi_some ++ psi_full_events options now m.psi_full
        else meminfo_events options now m)
      ++ oom_events now m

  -- `now` is the time at which the events are made.
  unfoldable pub collect :
      MemoryCollectorOptions std.Double
      → Readers
      → ℤ
      → ProcFiles
      → Option ℕ
      → Option ℕ × List (ObservationEvent std.Double)
  collect options readers now files baseline =
      let (baseline', m) = collect_metrics std readers files baseline in
      (baseline', events_of options now m)
