-- ===== src/Daemon.antt =====
-- Daemon::run and Daemon::runIteration of libs/health/Daemon.cpp, and the arguments of
-- apps/healthd/main.cpp. What the filesystem scan, the collectors, the rules and the health check
-- come to is an argument of an iteration.
pub mod Iteration
pub mod Stopping
use holonightd.Prelude.{
  any-append, any-none, All-map, ℕ, zero, suc, ◌+◌, ◌-◌, ◌*◌, ◌/◌, ◌%◌, ◌^◌, ◌≤◌, ◌<◌, min, String,
  ◌≡◌, refl, sym, ap, ◌∙◌, subst, ◌≢◌, ◌↔◌, ◌⊎◌, inl, inr, Bool, true, false, not, ◌&&◌, ◌||◌,
  Option, none, some, List, [], ◌∷◌, ◌++◌, map, arith, eq_iff, ltb, leb, if◌then◌else◌, Bool-cases,
  Option-cases, length, take, is_empty, length-take-le, length-append, keep_if, any, All,
  All-append, Eq, ◌==◌, nat_eq, text_eq, is_some, Some, any-Some, Some-any, is_empty-append,
  is_empty-keep_if, nat_eqb, nat_eqb_iff,
}
use Prim.Native.String.{◌++◌ as append}
use holonightd.Prelude.Text.{ℤ, pos, negsuc, decimal}
use holonightd.Config.{DatabaseConfig}
use holonightd.Std.{StdLib}
use holonightd.Logger.{LogLevel, debug, info, error}
use holonightd.Observation.{
  Severity, severity_to_string, Expected, value, unexpected, ObservationEvent,
}
use holonightd.Rules.{DiagnosticFinding}
use holonightd.Store.{Sqlite}
use holonightd.Store.Operations.{insert_batch, prune_events}
use holonightd.Store.Capacity.{prune_events_by_capacity}

pub data RunMode : Type 0 where
  once loop : RunMode

pub record CliOptions : Type 0 where
  pub run_once : Bool
  pub debug : Bool
  pub status : Bool
  pub config_path : Option String

-- The options, the usage and an exit with 0, or an exception.
pub data Arguments : Type 0 where
  options : CliOptions → Arguments
  help : Arguments
  refused : String → Arguments

pub data Flag : Type 0 where
  once_flag status_flag debug_flag config_flag help_flag unknown : Flag

flag_of : String → Flag
flag_of arg =
    if arg == "--once"
    then once_flag
    else if arg == "--status" || arg == "-s"
    then status_flag
    else if arg == "--debug" || arg == "-d"
    then debug_flag
    else if arg == "--config"
    then config_flag
    else if arg == "--help" || arg == "-h"
    then help_flag
    else unknown

-- The loop over the arguments behind the program's name; the flag is set where --config waits for
-- its path.
unfoldable pub parse_arguments : Bool → List String → CliOptions → Arguments
unfolding flag_of
parse_arguments true [] o = refused "--config requires a path"
parse_arguments true (path ∷ rest) o =
    parse_arguments false rest (record o { config_path = some path })
parse_arguments false [] o = options o
parse_arguments false (arg ∷ rest) o = elim (flag_of arg) [
  | once_flag ↦ parse_arguments false rest (record o { run_once = true })
  | status_flag ↦ parse_arguments false rest (record o { status = true })
  | debug_flag ↦ parse_arguments false rest (record o { debug = true })
  | config_flag ↦ parse_arguments true rest o
  | help_flag ↦ help
  | unknown ↦ refused (append "unknown argument: " arg)
]

unfoldable pub parse_args : List String → Arguments
unfolding parse_arguments
parse_args args =
    parse_arguments false args
      (record { run_once = false; debug = false; status = false; config_path = none })

-- A line of the log.
abbrev pub Line : Type 0
Line = LogLevel × String

abbrev pub where_set : Bool → Line → List Line
where_set true line = line ∷ []
where_set false line = []

-- A time and a number of nanoseconds before it, or after it.
abbrev before : ℤ → ℕ → ℤ
before (pos a) b = if leb b a then pos (a - b) else negsuc (b - a - 1)
before (negsuc a) b = negsuc (a + b)

abbrev after : ℤ → ℕ → ℤ
after (pos a) b = pos (a + b)
after (negsuc a) b = if ltb a b then pos (b - a - 1) else negsuc (a - b)

-- now - days(retention_days)
unfoldable pub cutoff_of : ℤ → ℤ → ℤ
cutoff_of now (pos days) = before now (days * 86_400_000_000_000)
cutoff_of now (negsuc days) = after now ((days + 1) * 86_400_000_000_000)

-- retention_days.value_or(30), max_bytes.value_or(52428800) and so on
abbrev pub value_or : {A : Type 0} → Option A → A → A
value_or none default = default
value_or (some n) default = n

unfoldable pub inserted_lines : Bool → Expected ℕ → List Line
inserted_lines verbose (unexpected e) =
    (error, append "failed to insert event batch into EventStore: " e) ∷ []
inserted_lines verbose (value n) =
    where_set verbose
      (debug, append "[metrics] inserted " (append (decimal n) " events into EventStore"))

unfoldable pub pruned_lines : Expected ℕ → List Line
pruned_lines (unexpected e) =
    (error, append "failed to prune expired events from EventStore: " e) ∷ []
pruned_lines (value n) =
    where_set (ltb 0 n)
      (info, append "pruned " (append (decimal n) " expired events from EventStore"))

unfoldable pub capacity_lines : Expected ℕ → List Line
capacity_lines (unexpected e) =
    (error, append "failed to enforce EventStore capacity limits: " e) ∷ []
capacity_lines (value n) =
    where_set (ltb 0 n)
      (info, append "pruned " (append (decimal n) " events to enforce capacity limits"))

finding_line : {Double : Type 0} → DiagnosticFinding Double → Line
finding_line finding = (
  info,
  append "[diagnostic] rule=" (
      append finding.rule_id (
        append " title=\""
          (append finding.title (append "\" severity=" (severity_to_string finding.severity))))),
)

module _ (std : StdLib) (sql : Sqlite) where
  -- What an iteration does with the event store: insert, prune by age, prune by capacity.
  unfoldable pub keep_store :
      ℕ
      → Bool
      → ℤ
      → DatabaseConfig
      → List (ObservationEvent std.Double)
      → sql.Db
      → Option (sql.Db × List Line)
  unfolding insert_batch prune_events prune_events_by_capacity inserted_lines pruned_lines
      capacity_lines
  keep_store fuel verbose now database events db =
      let (inserted, insert_res) = insert_batch std sql events db in
      let (pruned, prune_res) =
        prune_events sql (cutoff_of now (value_or database.retention_days (pos 30))) inserted in
      let max_bytes = value_or database.max_bytes 52428800 in
      let max_events = value_or database.max_events 100000 in
      elim (prune_events_by_capacity sql fuel max_bytes max_events pruned) [
        | none ↦ none
        | some outcome ↦ some (
          outcome.0,
          inserted_lines verbose insert_res ++ (pruned_lines prune_res ++ capacity_lines outcome.1),
        )
      ]

  -- An iteration: the scan's line, the store, the findings, and the health check's lines.
  unfoldable pub run_iteration :
      ℕ
      → Bool
      → ℤ
      → DatabaseConfig
      → Line
      → List (ObservationEvent std.Double)
      → List (DiagnosticFinding std.Double)
      → List Line
      → sql.Db
      → Option (sql.Db × List Line)
  unfolding keep_store finding_line
  run_iteration fuel verbose now database scanned events findings checked db =
      elim (keep_store fuel verbose now database events db) [
        | none ↦ none
        | some kept ↦ some (
          kept.0,
          (scanned
                ∷ where_set verbose (
                  debug,
                  append "[telemetry] collected "
                      (append (decimal (length events)) " events across collectors"),
                ))
              ++ (kept.1 ++ (map finding_line findings ++ checked)),
        )
      ]

-- The flag stopRequested, as its n-th reading finds it.
abbrev pub Stops : Type 0
Stops = ℕ → Bool

-- The sleep of the loop in steps of 100 ms, with at most `fuel` steps: how often the flag has been
-- read when it is over. `n` readings went before.
unfoldable pub sleep : ℕ → ℕ → Stops → ℕ → Option ℕ
sleep zero remaining stops n = none
sleep (suc fuel) remaining stops n = elim (nat_eqb remaining 0) [
  | true ↦ some n
  | false ↦ elim (stops n) [
    | true ↦ some (n + 1)
    | false ↦ sleep fuel (remaining - min remaining 100) stops (n + 1)
  ]
]

module _ {S : Type 0} (iterate : S → S) where
  -- Daemon::run, with at most `fuel` iterations: the state that it ends in.
  unfoldable pub run : ℕ → RunMode → ℕ → Stops → ℕ → S → Option S
  unfolding sleep
  run zero mode interval stops n s = none
  run (suc fuel) once interval stops n s = some (iterate s)
  run (suc fuel) loop interval stops n s =
      let s' = iterate s in
      elim (stops n) [
        | true ↦ some s'
        | false ↦ elim (sleep (interval + 1) interval stops (n + 1)) [
          | none ↦ none
          | some m ↦ elim (stops m) [
            | true ↦ some s'
            | false ↦ run fuel loop interval stops (m + 1) s'
          ]
        ]
      ]
