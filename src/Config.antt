-- ===== src/Config.antt =====
-- libs/config/Application.cpp: the configuration file and its sections. TOML is an argument, and an
-- exception is an unexpected result with its message.
pub mod Sections
pub mod Environment
pub mod Accepted
use holonightd.Prelude.{
  any-append, any-none, All-map, ℕ, zero, suc, ◌+◌, ◌-◌, ◌*◌, ◌/◌, ◌%◌, ◌^◌, ◌≤◌, ◌<◌, min, String,
  ◌≡◌, refl, sym, ap, ◌∙◌, subst, ◌≢◌, ◌↔◌, ◌⊎◌, inl, inr, Bool, true, false, not, ◌&&◌, ◌||◌,
  Option, none, some, List, [], ◌∷◌, ◌++◌, map, arith, eq_iff, ltb, leb, if◌then◌else◌, Bool-cases,
  Option-cases, length, take, is_empty, length-take-le, length-append, keep_if, any, All,
  All-append, Eq, ◌==◌, nat_eq, text_eq, is_some, Some, any-Some, Some-any, is_empty-append,
  is_empty-keep_if, nat_eqb, nat_eqb_iff,
}
use holonightd.Prelude.Text.{ℤ, pos, negsuc}
use holonightd.Std.{StdLib}

-- What the program uses of toml++.
pub record Toml (Double : Type 0) : Type 1 where
  pub Node : Type 0
  pub Table : Type 0
  -- table.get(key)
  pub get : Table → String → Option Node
  pub as_table : Node → Option Table
  pub as_array : Node → Option (List Node)
  pub as_integer : Node → Option ℤ
  pub as_double : Node → Option Double
  pub as_string : Node → Option String
  pub as_boolean : Node → Option Bool

pub record DatabaseConfig : Type 0 where
  pub path : Option String
  pub retention_days : Option ℤ
  pub max_bytes : Option ℕ
  pub max_events : Option ℕ

pub record SystemdConfig : Type 0 where
  pub flapping_threshold : ℤ
  pub flapping_window_seconds : ℤ
  pub ignore_units : List String

pub record MemoryConfig (Double : Type 0) : Type 0 where
  pub some_warning_threshold : Double
  pub full_critical_threshold : Double
  pub meminfo_warning_threshold : Double

pub record PacmanConfig : Type 0 where
  pub sys_root : String
  pub db_path : String
  pub etc_path : String
  pub max_depth : ℕ
  pub warning_threshold : ℕ
  pub check_kernel : Bool
  pub check_locks : Bool
  pub check_orphans : Bool
  pub check_transactions : Bool

pub record Config (Double : Type 0) : Type 0 where
  pub interval : ℤ
  pub scan_root : String
  pub commands : List String
  pub storage_warning_threshold : Double
  pub storage_critical_threshold : Double
  pub storage_mount_points : List String
  pub log_level : Option String
  pub database : DatabaseConfig
  pub systemd : SystemdConfig
  pub memory : MemoryConfig Double
  pub pacman : PacmanConfig
  pub rules_dir : Option String

-- static_cast<int> and static_cast<unsigned int> of a 64-bit number that is not negative
unfoldable pub to_int : ℕ → ℤ
to_int n = let m = n % 4294967296 in if ltb m 2147483648 then pos m else negsuc (4294967295 - m)

abbrev pub to_unsigned : ℕ → ℕ
to_unsigned n = n % 4294967296

module _ (std : StdLib) where
  abbrev pub percent : ℕ → std.Double
  percent n = std.ratio n 1

  pub default_config : Config std.Double
  default_config = record {
    interval = pos 300;
    scan_root = ".";
    commands = [];
    storage_warning_threshold = percent 85;
    storage_critical_threshold = percent 95;
    storage_mount_points = [];
    log_level = none;
    database = record {
      path = none;
      retention_days = some (pos 30);
      max_bytes = some 52428800;
      max_events = some 100000;
    };
    systemd = record {
      flapping_threshold = pos 3;
      flapping_window_seconds = pos 300;
      ignore_units = [];
    };
    memory = record {
      some_warning_threshold = percent 10;
      full_critical_threshold = percent 25;
      meminfo_warning_threshold = percent 85;
    };
    pacman = record {
      sys_root = "/";
      db_path = "var/lib/pacman";
      etc_path = "etc";
      max_depth = 3;
      warning_threshold = 5;
      check_kernel = true;
      check_locks = true;
      check_orphans = true;
      check_transactions = true;
    };
    rules_dir = none;
  }

  module _ (toml : Toml std.Double) where
    -- table.get_as<T>(key)
    abbrev pub get_as : {A : Type 0} → (toml.Node → Option A) → toml.Table → String → Option A
    get_as read table key = elim (toml.get table key) [ none ↦ none | some node ↦ read node ]

    abbrev pub texts_in : List toml.Node → List String
    texts_in [] = []
    texts_in (node ∷ nodes) =
        let rest = texts_in nodes in elim (toml.as_string node) [ none ↦ rest | some s ↦ s ∷ rest ]

    -- The strings of an array under a key; anything else there is passed over.
    abbrev pub texts_at : toml.Table → String → List String
    texts_at table key = elim (get_as toml.as_array table key) [
      | none ↦ []
      | some nodes ↦ texts_in nodes
    ]

    -- A number as a double, or an integer made one.
    abbrev pub double_at : toml.Table → String → std.Double → std.Double
    double_at table key default = elim (get_as toml.as_double table key) [
      | some x ↦ x
      | none ↦ elim (get_as toml.as_integer table key) [ some z ↦ std.of_int z | none ↦ default ]
    ]
