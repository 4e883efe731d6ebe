-- ===== src/Collectors/Systemd/Signals.antt =====
-- The signals of the systemd collector, against the built-in rule for systemd.
use holonightd.Prelude.{
  ℕ, ◌≡◌, refl, inl, inr, false, not, ◌&&◌, Option, none, some, List, [], ◌∷◌, ◌++◌, arith, leb,
  Bool-cases, length, All, All-append, ◌==◌, nat_eq, text_eq,
}
use holonightd.Json.{JsonLib}
use holonightd.Std.{StdLib}
use holonightd.Rules.Builtin.{systemd_rule}
use holonightd.Rules.Builtin.Triggers.{LeavesErrorRules, systemd_rule-quiet}
use holonightd.Rules.Evaluation.{Event}
use holonightd.Rules.Evaluation.Findings.{fires}
use holonightd.Collectors.Systemd.{
  Checked, FlappingState, UnitStatus, Coredump, unit_failed, unit_flapping, is_unit_ignored,
  starts_of, collect_unit, collect_unit_events, coredump_event, collect_coredump_events,
  prune_old_timestamps, collect,
}

module _ (std : StdLib) (json : JsonLib) where
  abbrev Quiet : List (Event std) → Type 0
  Quiet events = All (LeavesErrorRules std) events

  collect_unit-Quiet :
      (c : Checked) (now : ℕ) (u : UnitStatus) (units : FlappingState)
      → Quiet (collect_unit json c now u units).1
  unfolding collect_unit unit_failed unit_flapping
  collect_unit-Quiet c now u units =
      elim (Bool-cases (not (is_unit_ignored c u.name) && u.active == "failed")) [
        | inl e ↦
            rw (e, collect_unit)
              (
                (refl, refl, refl),
                elim (Bool-cases (leb c.threshold (length (starts_of u.name units ++ now ∷ [])))) [
                  | inl f ↦ rw f ((refl, refl, refl), tt)
                  | inr f ↦ rw f tt
                ],
              )
        | inr e ↦ rw (e, collect_unit) tt
      ]

  collect_unit_events-Quiet :
      (c : Checked) (now : ℕ) (us : List UnitStatus) (units : FlappingState)
      → Quiet (collect_unit_events json c now us units).1
  unfolding collect_unit_events
  collect_unit_events-Quiet c now [] units = tt
  collect_unit_events-Quiet c now (u ∷ us) units =
      let events = (collect_unit json c now u units).1 in
      All-append _ events _ (collect_unit-Quiet c now u units)
        (collect_unit_events-Quiet c now us _)

  collect_coredump_events-Quiet :
      (c : Checked) (now : ℕ) (ds : List Coredump) → Quiet (collect_coredump_events json c now ds)
  unfolding collect_coredump_events coredump_event
  collect_coredump_events-Quiet c now [] = tt
  collect_coredump_events-Quiet c now (d ∷ ds) =
      let rest = collect_coredump_events-Quiet c now ds in ground arith

  pub collect_systemd-LeavesErrorRules :
      (c : Checked) (now : ℕ) (bus : Option (List UnitStatus × List Coredump))
      (units : FlappingState)
      → Quiet (collect json c now bus units).1
  unfolding collect
  collect_systemd-LeavesErrorRules c now none units = tt
  collect_systemd-LeavesErrorRules c now (some (us, ds)) units =
      let events = (collect_unit_events json c now us (prune_old_timestamps c now units)).1 in
      All-append _ events _ (collect_unit_events-Quiet c now us _)
        (collect_coredump_events-Quiet c now ds)

  -- The built-in systemd rule does not fire on what the systemd collector reports, whichever units
  -- have failed: the events have the category "systemd.unit", and the rule asks for "systemd".
  pub fires-collect_systemd :
      (c : Checked) (now : ℕ) (bus : Option (List UnitStatus × List Coredump))
      (units : FlappingState)
      → fires std systemd_rule (collect json c now bus units).1 ≡ false
  fires-collect_systemd c now bus units =
      systemd_rule-quiet std _ (collect_systemd-LeavesErrorRules c now bus units)
