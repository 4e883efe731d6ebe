-- ===== src/Collectors/Storage/Pressure.antt =====
-- From the numbers of statvfs to the built-in rule for storage.
use holonightd.Prelude.{
  any-append, not, ◌++◌, All, All-append, String, ◌≡◌, refl, ◌∙◌, inl, inr, Bool, ◌&&◌, ◌||◌, List,
  [], ◌∷◌, arith, Bool-cases, any, ◌==◌, nat_eq, text_eq,
}
use holonightd.Prelude.Text.{ℤ}
use holonightd.Json.{JsonLib}
use holonightd.Std.{StdLib}
use holonightd.Rules.Builtin.{storage_rule}
use holonightd.Rules.Builtin.Triggers.{raises, fires-storage_rule, LeavesErrorRules}
use holonightd.Rules.Evaluation.Findings.{fires}
use holonightd.Collectors.Storage.{
  StorageCollectorOptions, StorageMetrics, pressure_severity, pressure, read_only_events,
  events_from_metrics, collect,
}

module _ (std : StdLib) (json : JsonLib) (options : StorageCollectorOptions std.Double)
    (now : ℤ) where
  -- The use of a percentage is at the warning threshold or above.
  abbrev pub pressed : std.Double → Bool
  pressed percent = std.le options.warning_threshold percent

  pressure_lem :
      (m : StorageMetrics std.Double) (signal other : String) (percent : std.Double)
      → any (raises std "storage" other) (pressure std json options now m signal percent)
        ≡ (signal == other && pressed percent)
  unfolding pressure pressure_severity
  pressure_lem m signal other percent = ground arith

  read_only_lem :
      (m : StorageMetrics std.Double) (other : String)
      → any (raises std "storage" other) (read_only_events std json now m)
        ≡ ("read_only_filesystem" == other && m.is_read_only)
  unfolding read_only_events
  read_only_lem m other = ground arith

  events_lem :
      (m : StorageMetrics std.Double)
      → (any (raises std "storage" "space_pressure") (events_from_metrics std json options now m)
          ≡ (m.stat_success && pressed m.percent_used))
        × (any (raises std "storage" "inode_pressure") (events_from_metrics std json options now m)
            ≡ (m.stat_success && pressed m.inode_percent_used))
  unfolding events_from_metrics
  events_lem m = elim (Bool-cases m.stat_success) [
    | inl e ↦
        rw (e, events_from_metrics)
          (rw (any-append, any-append, read_only_lem, pressure_lem, pressure_lem) (ground arith))
    | inr e ↦ rw (e, events_from_metrics) (refl, refl)
  ]

  collect_lem :
      (ms : List (StorageMetrics std.Double))
      → (any (raises std "storage" "space_pressure") (collect std json options now ms)
          ≡ any (λ m. m.stat_success && pressed m.percent_used) ms)
        × (any (raises std "storage" "inode_pressure") (collect std json options now ms)
            ≡ any (λ m. m.stat_success && pressed m.inode_percent_used) ms)
  unfolding collect
  collect_lem [] = (refl, refl)
  collect_lem (m ∷ ms) =
      let (a, b) = events_lem m in
      let (first, second) = collect_lem ms in
      (
        any-append _ (events_from_metrics std json options now m) _ ∙ rw (a, first) (ground arith),
        any-append _ (events_from_metrics std json options now m) _ ∙ rw (b, second) (ground arith),
      )

  pub fires-collect_storage :
      (ms : List (StorageMetrics std.Double))
      → fires std storage_rule (collect std json options now ms) ≡ (
          any (λ m. m.stat_success && pressed m.percent_used) ms
          || any (λ m. m.stat_success && pressed m.inode_percent_used) ms)
  fires-collect_storage ms =
      let (first, second) = collect_lem ms in
      fires-storage_rule std (collect std json options now ms) ∙ rw (first, second) refl

  pressure-quiet :
      (m : StorageMetrics std.Double) (signal : String) (percent : std.Double)
      → All (LeavesErrorRules std) (pressure std json options now m signal percent)
  unfolding pressure
  pressure-quiet m signal percent = elim (Bool-cases (std.le options.warning_threshold percent)) [
    | inl e ↦ rw (e, pressure) ((refl, refl, refl), tt)
    | inr e ↦ rw (e, pressure) tt
  ]

  read_only-quiet :
      (m : StorageMetrics std.Double) → All (LeavesErrorRules std) (read_only_events std json now m)
  unfolding read_only_events
  read_only-quiet m = elim (Bool-cases m.is_read_only) [
    | inl e ↦ rw (e, read_only_events) ((refl, refl, refl), tt)
    | inr e ↦ rw (e, read_only_events) tt
  ]

  events_from_metrics-quiet :
      (m : StorageMetrics std.Double)
      → All (LeavesErrorRules std) (events_from_metrics std json options now m)
  unfolding events_from_metrics
  events_from_metrics-quiet m = elim (Bool-cases (not m.stat_success)) [
    | inl e ↦ rw (e, events_from_metrics) ((refl, refl, refl), tt)
    | inr e ↦
        rw (e, events_from_metrics)
          (All-append _ (read_only_events std json now m ++ _) _
            (All-append _ (read_only_events std json now m) _ (read_only-quiet m)
              (pressure-quiet m "space_pressure" m.percent_used))
            (pressure-quiet m "inode_pressure" m.inode_percent_used))
  ]

  pub collect_storage-quiet :
      (ms : List (StorageMetrics std.Double))
      → All (LeavesErrorRules std) (collect std json options now ms)
  unfolding collect
  collect_storage-quiet [] = tt
  collect_storage-quiet (m ∷ ms) =
      All-append _ (events_from_metrics std json options now m) _ (events_from_metrics-quiet m)
        (collect_storage-quiet ms)
