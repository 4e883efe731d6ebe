-- ===== src/Config/Environment.antt =====
-- The paths and the log level that are resolved from the environment.
use holonightd.Prelude.{
  String, Bool, Option, none, some, List, [], ◌∷◌, if◌then◌else◌, nat_eq, text_eq,
}
use holonightd.Prelude.Text.{is_blank}
use holonightd.Observation.{Expected, value, unexpected}
use holonightd.Logger.{LogLevel, debug, parse_log_level}

-- A variable of the environment that is set and not empty.
abbrev pub set_text : Option String → Option String
set_text none = none
set_text (some s) = if is_blank s then none else some s

-- `join` is path / path / path.
unfoldable pub resolve_under :
    (String → List String → String)
    → Option String
    → Option String
    → List String
    → List String
    → String
    → Expected String
resolve_under join xdg home under_xdg under_home message = elim (set_text xdg) [
  | some dir ↦ value (join dir under_xdg)
  | none ↦ elim (set_text home) [
    | some dir ↦ value (join dir under_home)
    | none ↦ unexpected message
  ]
]

unfoldable pub resolve_config_path :
    (String → List String → String)
    → Option String
    → Option String
    → Option String
    → Expected String
unfolding resolve_under
resolve_config_path join (some explicit) xdg home = value explicit
resolve_config_path join none xdg home =
    resolve_under join xdg home ("holonight" ∷ "holonightd.toml" ∷ [])
      (".config" ∷ "holonight" ∷ "holonightd.toml" ∷ [])
      "$HOME is unset; cannot resolve config path"

unfoldable pub resolve_database_path :
    (String → List String → String)
    → Option String
    → Option String
    → Option String
    → Expected String
unfolding resolve_under
resolve_database_path join explicit xdg home = elim (set_text explicit) [
  | some path ↦ value path
  | none ↦
      resolve_under join xdg home ("holonight" ∷ "events.db" ∷ [])
        (".local" ∷ "share" ∷ "holonight" ∷ "events.db" ∷ [])
        "$HOME is unset; cannot resolve database path"
]

-- `built_in` is the level of the build: info with NDEBUG, debug without.
unfoldable pub resolve_log_level :
    LogLevel → Bool → Option String → Option String → Expected LogLevel
unfolding parse_log_level
resolve_log_level built_in debug_flag env_val config_level =
    if debug_flag then value debug else elim (set_text env_val) [
      | some level ↦ parse_log_level level
      | none ↦ elim (set_text config_level) [
        | some level ↦ parse_log_level level
        | none ↦ value built_in
      ]
    ]
