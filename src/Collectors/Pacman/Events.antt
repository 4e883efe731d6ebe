-- ===== src/Collectors/Pacman/Events.antt =====
-- PacmanCollector::collect: the events of the metrics.
use holonightd.Prelude.{
  ℕ, ◌+◌, String, true, not, Option, none, some, List, [], ◌∷◌, ◌++◌, map, ltb, leb, if◌then◌else◌,
  nat_eq, text_eq,
}
use holonightd.Prelude.Text.{ℤ, pos}
use holonightd.Json.{JsonLib, or_keep}
use holonightd.Observation.{ObservationEvent, Severity, info, warning, boolean, integer}
use holonightd.Collectors.{new_event}
use holonightd.Collectors.Pacman.{PacmanCollectorOptions, PacmanCollectorMetrics, LockState}

abbrev pid_or_zero : Option ℤ → ℤ
pid_or_zero pid = or_keep pid (pos 0)

module _ (json : JsonLib) where
  abbrev texts : List String → json.Json
  texts l = json.array (map json.string l)

  abbrev with_age : Option ℕ → List (String × json.Json) → List (String × json.Json)
  with_age none fields = fields
  with_age (some n) fields = fields ++ ("lock_age_seconds", json.unsigned n) ∷ []

module _ {Double : Type 0} (json : JsonLib) where
  unfoldable pub kernel_events : ℤ → PacmanCollectorMetrics → List (ObservationEvent Double)
  kernel_events now m =
      if m.kernel_mismatch_detected
      then new_event now "pacman_collector" "package" "kernel" "pacman.kernel_mismatch"
          (boolean true) warning
          (json.dump (
            json.object (
              ("running_kernel", json.string (or_keep m.running_kernel "unknown"))
              ∷ ("installed_modules_dirs", texts json m.installed_modules_dirs)
              ∷ ("installed_kernel_packages", texts json m.installed_kernel_packages)
              ∷ [])))
        ∷ []
      else []

  abbrev lock_event :
      ℤ → LockState → String → Severity → String × json.Json → ObservationEvent Double
  lock_event now lock signal severity detail =
      new_event now "pacman_collector" "package" "pacman_db" signal (integer (pid_or_zero lock.pid))
        severity
        (json.dump (
          json.object (
            with_age json lock.lock_age_seconds
              (("pid", json.integer (pid_or_zero lock.pid)) ∷ detail ∷ []))))

  unfoldable pub lock_events : ℤ → LockState → List (ObservationEvent Double)
  lock_events now lock =
      if not lock.exists
      then []
      else if lock.is_active
      then lock_event now lock "pacman.active_lock" info
          ("process_name", json.string (or_keep lock.process_name "unknown"))
        ∷ []
      else lock_event now lock "pacman.stale_lock" warning
          ("reason", json.string lock.invalid_reason)
        ∷ []

  unfoldable pub orphan_events :
      PacmanCollectorOptions → ℤ → PacmanCollectorMetrics → List (ObservationEvent Double)
  orphan_events options now m =
      let total_orphans = m.pacnew_count + m.pacsave_count in
      if ltb 0 total_orphans
      then new_event now "pacman_collector" "package" "config_files" "pacman.pacnew_files"
          (integer (pos total_orphans))
          (if leb options.warning_threshold total_orphans then warning else info)
          (json.dump (
            json.object (
              ("pacnew_count", json.integer (pos m.pacnew_count))
              ∷ ("pacsave_count", json.integer (pos m.pacsave_count))
              ∷ ("orphan_files", texts json m.orphan_files)
              ∷ [])))
        ∷ []
      else []

  unfoldable pub transaction_events : ℤ → PacmanCollectorMetrics → List (ObservationEvent Double)
  transaction_events now m =
      if m.interrupted_transaction_detected
      then new_event now "pacman_collector" "package" "pacman_db" "pacman.interrupted_transaction"
          (boolean true) warning
          (json.dump (
            json.object (
              ("reason", json.string "temporary_transaction_artifacts_found")
              ∷ ("transaction_artifacts", texts json m.transaction_artifacts)
              ∷ [])))
        ∷ []
      else []

  unfoldable pub collect :
      PacmanCollectorOptions → ℤ → PacmanCollectorMetrics → List (ObservationEvent Double)
  unfolding kernel_events lock_events orphan_events transaction_events
  collect options now m =
      kernel_events now m
      ++ (lock_events now m.lock ++ (orphan_events options now m ++ transaction_events now m))
