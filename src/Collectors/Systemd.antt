-- ===== src/Collectors/Systemd.antt =====
-- SystemdCollector of libs/health/SystemdCollector.cpp. What the system bus and the journal answer
-- is an argument.
pub mod Starts
pub mod Flapping
pub mod Signals
use holonightd.Prelude.{
  ℕ, zero, suc, ◌+◌, ◌-◌, ◌*◌, ◌/◌, ◌%◌, ◌^◌, ◌≤◌, ◌<◌, min, String, ◌≡◌, refl, sym, ap, ◌∙◌, subst,
  ◌≢◌, ◌↔◌, ◌⊎◌, inl, inr, Bool, true, false, not, ◌&&◌, ◌||◌, Option, none, some, List, [], ◌∷◌,
  ◌++◌, map, arith, eq_iff, ltb, leb, if◌then◌else◌, Bool-cases, Option-cases, length, take,
  is_empty, length-take-le, length-append, keep_if, any, All, All-append, Eq, ◌==◌, nat_eq, text_eq,
  is_some, Some, any-Some, Some-any, is_empty-append, is_empty-keep_if, nat_eqb, nat_eqb_iff,
}
use holonightd.Prelude.Map.{lookup, assign}
use holonightd.Prelude.Text.{ℤ, pos, negsuc, decimal, is_blank}
use holonightd.Json.{JsonLib, or_keep}
use holonightd.Observation.{ObservationEvent, text, warning, error}
use holonightd.Collectors.{new_event}

record SystemdCollectorOptions : Type 0 where
  pub flapping_threshold : ℤ
  pub flapping_window_seconds : ℤ
  pub ignore_units : List String

-- The starts that the collector has seen of each unit, as times in nanoseconds.
abbrev pub FlappingState : Type 0
FlappingState = List (String × List ℕ)

-- A unit of the reply of ListUnits: its name, load, active and sub state. Null strings are empty.
pub record UnitStatus : Type 0 where
  pub name : String
  pub load : String
  pub active : String
  pub sub : String

-- COREDUMP_EXE and COREDUMP_UNIT of a journal entry, the part behind the `=`.
pub record Coredump : Type 0 where
  pub exe : Option String
  pub unit : Option String

positive_or : ℤ → ℕ → ℕ
positive_or (pos zero) default = default
positive_or (pos (suc n)) default = suc n
positive_or (negsuc n) default = default

-- The options after the constructor's checks.
pub record Checked : Type 0 where
  pub threshold : ℕ
  pub window : ℕ  -- nanoseconds
  pub ignored : List String

systemd_collector : SystemdCollectorOptions → Checked
unfolding positive_or
systemd_collector options = record {
  threshold = positive_or options.flapping_threshold 3;
  window = positive_or options.flapping_window_seconds 300 * 1_000_000_000;
  ignored = options.ignore_units;
}

unfoldable pub is_unit_ignored : Checked → String → Bool
is_unit_ignored c unit_name = any (λ ignored. unit_name == ignored) c.ignored

-- Not before now - window.
abbrev pub is_recent : Checked → ℕ → ℕ → Bool
is_recent c now start = leb now (start + c.window)

unfoldable pub prune_old_timestamps : Checked → ℕ → FlappingState → FlappingState
prune_old_timestamps c now [] = []
prune_old_timestamps c now ((name, starts) ∷ units) =
    let rest = prune_old_timestamps c now units in
    let kept = keep_if (is_recent c now) starts in
    if is_empty kept then rest else (name, kept) ∷ rest

abbrev pub starts_of : String → FlappingState → List ℕ
starts_of name units = or_keep (lookup name units) []

module _ {Double : Type 0} (json : JsonLib) where
  unfoldable pub unit_failed : ℕ → UnitStatus → ObservationEvent Double
  unit_failed now u =
      new_event (pos now) "systemd" "systemd.unit" u.name "unit_failed" (text "failed") error (
        json.dump (
          json.object (
            ("active_state", json.string u.active)
            ∷ ("sub_state", json.string u.sub)
            ∷ ("load_state", json.string u.load)
            ∷ [])))

  unfoldable pub unit_flapping : Checked → ℕ → UnitStatus → ℕ → ObservationEvent Double
  unit_flapping c now u restart_count =
      new_event (pos now) "systemd" "systemd.unit" u.name "unit_flapping"
        (text (decimal restart_count)) warning
        (json.dump (
          json.object (
            ("restart_count", json.unsigned restart_count)
            ∷ ("flapping_window_seconds", json.unsigned (c.window / 1_000_000_000))
            ∷ [])))

  -- One unit of the reply. The times are in nanoseconds.
  unfoldable pub collect_unit :
      Checked → ℕ → UnitStatus → FlappingState → FlappingState × List (ObservationEvent Double)
  unfolding unit_failed unit_flapping
  collect_unit c now u units =
      let starts = starts_of u.name units ++ now ∷ [] in
      if not (is_unit_ignored c u.name) && u.active == "failed"
      then (
        assign u.name starts units,
        unit_failed now u
            ∷ (if leb c.threshold (length starts)
                then unit_flapping c now u (length starts) ∷ []
                else []),
      )
      else (units, [])

  unfoldable pub collect_unit_events :
      Checked → ℕ → List UnitStatus → FlappingState → FlappingState × List (ObservationEvent Double)
  collect_unit_events c now [] units = (units, [])
  collect_unit_events c now (u ∷ us) units =
      let (units', events) = collect_unit c now u units in
      let (units'', rest) = collect_unit_events c now us units' in (units'', events ++ rest)

  coredump_event : ℕ → String → String → String → ObservationEvent Double
  coredump_event now subject exe unit =
      new_event (pos now) "systemd" "systemd.coredump" subject "coredump" (text exe) error (
        json.dump (json.object (("executable", json.string exe) ∷ ("unit", json.string unit) ∷ [])))

  unfoldable pub collect_coredump_events :
      Checked → ℕ → List Coredump → List (ObservationEvent Double)
  unfolding coredump_event
  collect_coredump_events c now [] = []
  collect_coredump_events c now (d ∷ ds) =
      let rest = collect_coredump_events c now ds in
      let exe = or_keep d.exe "unknown" in
      let unit = or_keep d.unit "unknown" in
      let subject = if not (unit == "unknown") && not (is_blank unit) then unit else exe in
      if not (is_unit_ignored c subject) then coredump_event now subject exe unit ∷ rest else rest

  -- `bus`: none where the system bus cannot be opened; then the reply of ListUnits, empty where it
  -- fails, and the journal's entries of the window, none where it cannot be read.
  unfoldable pub collect :
      Checked
      → ℕ
      → Option (List UnitStatus × List Coredump)
      → FlappingState
      → FlappingState × List (ObservationEvent Double)
  collect c now none units = (prune_old_timestamps c now units, [])
  collect c now (some (us, ds)) units =
      let (units', events) = collect_unit_events c now us (prune_old_timestamps c now units) in
      (units', events ++ collect_coredump_events c now ds)
