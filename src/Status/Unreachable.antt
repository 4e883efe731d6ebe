-- ===== src/Status/Unreachable.antt =====
-- The status check with the built-in rules alone, on what the collectors report.
use holonightd.Prelude.{
  ℕ, ◌≡◌, refl, ◌∙◌, Bool, true, false, Option, none, some, List, [], ◌++◌, All, All-append, nat_eq,
  text_eq,
}
use holonightd.Prelude.Text.{ℤ}
use holonightd.Json.{JsonLib}
use holonightd.Std.{StdLib}
use holonightd.Rules.Builtin.{register_built_in_rules}
use holonightd.Rules.Builtin.Triggers.{LeavesErrorRules, memory_rule-quiet, systemd_rule-quiet}
use holonightd.Rules.Evaluation.{Clock, Event}
use holonightd.Collectors.Memory
use holonightd.Collectors.Memory.{ProcFiles, Readers, MemoryCollectorOptions}
use holonightd.Collectors.Memory.Signals.{collect_memory-quiet}
use holonightd.Collectors.Pacman.{PacmanCollectorOptions, PacmanCollectorMetrics}
use holonightd.Collectors.Pacman.Events
use holonightd.Collectors.Pacman.Signals.{collect_pacman-quiet}
use holonightd.Collectors.Storage
use holonightd.Collectors.Storage.{StorageCollectorOptions, StorageMetrics}
use holonightd.Collectors.Storage.Pressure.{collect_storage-quiet}
use holonightd.Collectors.Systemd
use holonightd.Collectors.Systemd.{Checked, FlappingState, UnitStatus, Coredump}
use holonightd.Collectors.Systemd.Signals.{collect_systemd-LeavesErrorRules}
use holonightd.Status.{collected, collect_all_events, run_status_check}
use holonightd.Status.ExitCode.{run_status_check-built_in}

-- What one collector was given.
pub record Machine (std : StdLib) : Type 0 where
  pub checked : Checked
  pub systemd_now : ℕ
  pub bus : Option (List UnitStatus × List Coredump)
  pub starts : FlappingState
  pub storage_options : StorageCollectorOptions std.Double
  pub mounts : List (StorageMetrics std.Double)
  pub memory_options : MemoryCollectorOptions std.Double
  pub readers : Readers
  pub proc_files : ProcFiles
  pub baseline : Option ℕ
  pub pacman_options : PacmanCollectorOptions
  pub pacman_metrics : PacmanCollectorMetrics
  pub now : ℤ

module _ (std : StdLib) (json : JsonLib) (real : std.Double → json.Json) where
  -- A collector that threw reports nothing.
  abbrev pub unless_thrown : Bool → List (Event std) → Option (List (Event std))
  unless_thrown true events = none
  unless_thrown false events = some events

  abbrev pub reported : Machine std → (Bool × Bool) × (Bool × Bool) → List (Event std)
  reported m threw =
      collect_all_events std
        (unless_thrown threw.0.0 (Systemd.collect json m.checked m.systemd_now m.bus m.starts).1)
        (unless_thrown threw.0.1 (Storage.collect std json m.storage_options m.now m.mounts))
        (unless_thrown threw.1.0
          (Memory.collect std json real m.memory_options m.readers m.now m.proc_files m.baseline).1)
        (unless_thrown threw.1.1 (Events.collect json m.pacman_options m.now m.pacman_metrics))

  collected-quiet :
      (threw : Bool) (events : List (Event std))
      → All (LeavesErrorRules std) events
      → All (LeavesErrorRules std) (collected std (unless_thrown threw events))
  collected-quiet true events h = tt
  collected-quiet false events h = h

  collect_all_events-quiet :
      (systemd storage memory pacman : Option (List (Event std)))
      → All (LeavesErrorRules std) (collected std systemd)
      → All (LeavesErrorRules std) (collected std storage)
      → All (LeavesErrorRules std) (collected std memory)
      → All (LeavesErrorRules std) (collected std pacman)
      → All (LeavesErrorRules std) (collect_all_events std systemd storage memory pacman)
  unfolding collect_all_events
  collect_all_events-quiet systemd storage memory pacman h1 h2 h3 h4 =
      let a = collected std systemd in
      let b = collected std storage in
      let c = collected std memory in
      let d = collected std pacman in
      All-append _ ((a ++ b) ++ c) d (All-append _ (a ++ b) c (All-append _ a b h1 h2) h3) h4

  reported-quiet :
      (m : Machine std) (threw : (Bool × Bool) × (Bool × Bool))
      → All (LeavesErrorRules std) (reported m threw)
  reported-quiet m threw =
      collect_all_events-quiet _ _ _ _
        (collected-quiet threw.0.0 _
          (collect_systemd-LeavesErrorRules std json m.checked m.systemd_now m.bus m.starts))
        (collected-quiet threw.0.1 _
          (collect_storage-quiet std json m.storage_options m.now m.mounts))
        (collected-quiet threw.1.0 _ (
          collect_memory-quiet std json real m.memory_options m.readers m.now m.proc_files
            m.baseline))
        (collected-quiet threw.1.1 _
          (collect_pacman-quiet std json m.pacman_options m.now m.pacman_metrics))

  pub run_status_check-zero :
      (clock : Clock) (seq : ℕ) (m : Machine std) (threw : (Bool × Bool) × (Bool × Bool))
      → run_status_check std clock seq (register_built_in_rules []) (reported m threw) ≡ 0
  run_status_check-zero clock seq m threw =
      run_status_check-built_in std clock seq (reported m threw)
      ∙ rw
          (
            memory_rule-quiet std (reported m threw) (reported-quiet m threw),
            systemd_rule-quiet std (reported m threw) (reported-quiet m threw),
          )
          refl
