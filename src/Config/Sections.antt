-- ===== src/Config/Sections.antt =====
-- The sections of the configuration file, and Config::fromFile.
use holonightd.Prelude.{
  ℕ, String, Bool, true, false, not, ◌&&◌, Option, none, some, List, [], ◌∷◌, ◌++◌, ltb,
  if◌then◌else◌, nat_eq, text_eq,
}
use Prim.Native.String.{◌++◌ as append}
use holonightd.Prelude.Text.{ℤ, pos, negsuc, decimal_ℤ}
use holonightd.Std.{StdLib}
use holonightd.Observation.{◌>>=◌, Expected, value, unexpected}
use holonightd.Logger.{parse_log_level}
use holonightd.Config.{
  Toml, Config, to_int, to_unsigned, default_config, percent, get_as, texts_at, double_at,
}

abbrev pub is_positive : ℤ → Bool
is_positive (pos n) = ltb 0 n
is_positive (negsuc n) = false

abbrev pub is_natural : ℤ → Bool
is_natural (pos n) = true
is_natural (negsuc n) = false

abbrev pub natural : ℤ → ℕ
natural (pos n) = n
natural (negsuc n) = 0

-- A value that must be there, or one that is checked where it is there.
abbrev pub needed : {A : Type 0} → String → Option A → Expected A
needed message none = unexpected message
needed message (some a) = value a

abbrev pub checked : String → Option ℤ → Expected (Option ℤ)
checked message none = value none
checked message (some z) = if is_positive z then value (some z) else unexpected message

abbrev pub or_else : {A B : Type 0} → (A → B) → Option A → B → B
or_else f none b = b
or_else f (some a) b = f a

module _ (std : StdLib) (toml : Toml std.Double) where
  abbrev pub is_percentage : std.Double → Bool
  is_percentage x =
      std.is_finite x && (not (std.lt x (percent std 0)) && not (std.lt (percent std 100) x))

  unfoldable pub validate_percentage : std.Double → String → Expected std.Double
  validate_percentage x name =
      if is_percentage x then value x else unexpected (append name " must be between 0 and 100")

  -- A section that is missing or is not a table leaves the configuration as it is.
  abbrev pub section : toml.Table → String → Option toml.Table
  section tbl name = get_as std toml toml.as_table tbl name

  abbrev pub log_level_of : Option String → Expected (Option String)
  log_level_of none = value none
  log_level_of (some level_str) = parse_log_level level_str >>= λ level. value (some level_str)

  unfoldable pub parse_general_section :
      toml.Table → Config std.Double → Expected (Config std.Double)
  unfolding parse_log_level
  parse_general_section tbl config =
      needed "config is missing required [general] table" (section tbl "general") >>= λ general.
      needed "config key 'interval_seconds' is required in [general] section"
        (get_as std toml toml.as_integer general "interval_seconds")
      >>= λ interval.
          (if is_positive interval
            then value interval
            else unexpected "interval_seconds must be a positive integer")
          >>= λ seconds.
              needed "config key 'scan_root' is required in [general] section"
                (get_as std toml toml.as_string general "scan_root")
              >>= λ scan_root.
                  log_level_of (get_as std toml toml.as_string general "log_level") >>= λ level.
                  value (record config {
                    interval = seconds;
                    scan_root = scan_root;
                    log_level = elim level [ none ↦ config.log_level | some s ↦ some s ];
                    commands = config.commands ++ texts_at std toml general "commands";
                  })

  unfoldable pub parse_storage_section :
      toml.Table → Config std.Double → Expected (Config std.Double)
  unfolding validate_percentage
  parse_storage_section tbl config = elim (section tbl "storage") [
    | none ↦ value config
    | some storage ↦
        validate_percentage
          (double_at std toml storage "warning_threshold" config.storage_warning_threshold)
          "storage.warning_threshold"
        >>= λ warn.
            validate_percentage
              (double_at std toml storage "critical_threshold" config.storage_critical_threshold)
              "storage.critical_threshold"
            >>= λ crit.
                (if std.lt crit warn
                  then unexpected
                      "storage.warning_threshold must not exceed storage.critical_threshold"
                  else value warn)
                >>= λ warning. value (record config {
                  storage_warning_threshold = warning;
                  storage_critical_threshold = crit;
                  storage_mount_points =
                      config.storage_mount_points ++ texts_at std toml storage "mount_points";
                })
  ]

  unfoldable pub parse_database_section :
      toml.Table → Config std.Double → Expected (Config std.Double)
  unfolding to_int
  parse_database_section tbl config = elim (section tbl "database") [
    | none ↦ value config
    | some db ↦
        let old = config.database in
        checked "retention_days must be a positive integer"
          (get_as std toml toml.as_integer db "retention_days")
        >>= λ days.
            checked "max_bytes must be a positive integer"
              (get_as std toml toml.as_integer db "max_bytes")
            >>= λ bytes.
                checked "max_events must be a positive integer"
                  (get_as std toml toml.as_integer db "max_events")
                >>= λ events. value (record config {
                  database = record {
                    path = or_else some (get_as std toml toml.as_string db "path") old.path;
                    retention_days =
                        or_else (λ z. some (to_int (natural z))) days old.retention_days;
                    max_bytes = or_else (λ z. some (natural z)) bytes old.max_bytes;
                    max_events = or_else (λ z. some (natural z)) events old.max_events;
                  };
                })
  ]

  abbrev positive_or : Option ℤ → ℤ → ℤ
  positive_or none old = old
  positive_or (some z) old = if is_positive z then to_int (natural z) else old

  -- The line on std::cerr for a number that is not positive.
  abbrev warned : String → Option ℤ → ℤ → List String
  warned name none old = []
  warned name (some z) old =
      if is_positive z
      then []
      else append "warning: "
          (append name (append " must be positive; falling back to default " (decimal_ℤ old)))
        ∷ []

  unfoldable pub systemd_warnings : toml.Table → Config std.Double → List String
  systemd_warnings tbl config = elim (section tbl "systemd") [
    | none ↦ []
    | some s ↦
        warned "flapping_threshold" (get_as std toml toml.as_integer s "flapping_threshold")
          config.systemd.flapping_threshold
        ++ warned "flapping_window_seconds"
            (get_as std toml toml.as_integer s "flapping_window_seconds")
            config.systemd.flapping_window_seconds
  ]

  unfoldable pub parse_systemd_section : toml.Table → Config std.Double → Config std.Double
  unfolding to_int
  parse_systemd_section tbl config = elim (section tbl "systemd") [
    | none ↦ config
    | some s ↦ record config {
      systemd = record {
        flapping_threshold =
            positive_or (get_as std toml toml.as_integer s "flapping_threshold")
              config.systemd.flapping_threshold;
        flapping_window_seconds =
            positive_or (get_as std toml toml.as_integer s "flapping_window_seconds")
              config.systemd.flapping_window_seconds;
        ignore_units = config.systemd.ignore_units ++ texts_at std toml s "ignore_units";
      };
    }
  ]

  unfoldable pub parse_memory_section :
      toml.Table → Config std.Double → Expected (Config std.Double)
  unfolding validate_percentage
  parse_memory_section tbl config = elim (section tbl "memory") [
    | none ↦ value config
    | some mem ↦
        let old = config.memory in
        validate_percentage
          (double_at std toml mem "some_warning_threshold" old.some_warning_threshold)
          "memory.some_warning_threshold"
        >>= λ some_warning.
            validate_percentage
              (double_at std toml mem "full_critical_threshold" old.full_critical_threshold)
              "memory.full_critical_threshold"
            >>= λ full_critical.
                validate_percentage
                  (double_at std toml mem "meminfo_warning_threshold" old.meminfo_warning_threshold)
                  "memory.meminfo_warning_threshold"
                >>= λ meminfo_warning. value (record config {
                  memory = record {
                    some_warning_threshold = some_warning;
                    full_critical_threshold = full_critical;
                    meminfo_warning_threshold = meminfo_warning;
                  };
                })
  ]

  abbrev unsigned_or : Option ℤ → ℕ → ℕ
  unsigned_or none old = old
  unsigned_or (some z) old = if is_natural z then to_unsigned (natural z) else old

  unfoldable pub parse_pacman_section : toml.Table → Config std.Double → Config std.Double
  parse_pacman_section tbl config = elim (section tbl "pacman") [
    | none ↦ config
    | some p ↦
        let old = config.pacman in
        record config {
          pacman = record {
            sys_root = or_else (λ s. s) (get_as std toml toml.as_string p "sys_root") old.sys_root;
            db_path = or_else (λ s. s) (get_as std toml toml.as_string p "db_path") old.db_path;
            etc_path = or_else (λ s. s) (get_as std toml toml.as_string p "etc_path") old.etc_path;
            max_depth = unsigned_or (get_as std toml toml.as_integer p "max_depth") old.max_depth;
            warning_threshold =
                unsigned_or (get_as std toml toml.as_integer p "warning_threshold")
                  old.warning_threshold;
            check_kernel =
                or_else (λ b. b) (get_as std toml toml.as_boolean p "check_kernel")
                  old.check_kernel;
            check_locks =
                or_else (λ b. b) (get_as std toml toml.as_boolean p "check_locks") old.check_locks;
            check_orphans =
                or_else (λ b. b) (get_as std toml toml.as_boolean p "check_orphans")
                  old.check_orphans;
            check_transactions =
                or_else (λ b. b) (get_as std toml toml.as_boolean p "check_transactions")
                  old.check_transactions;
          };
        }
  ]

  unfoldable pub parse_rules_section : toml.Table → Config std.Double → Config std.Double
  parse_rules_section tbl config = elim (section tbl "rules") [
    | none ↦ config
    | some rules ↦ record config {
      rules_dir = or_else some (get_as std toml toml.as_string rules "rules_dir") config.rules_dir;
    }
  ]

  -- The sections in their order, on the defaults.
  unfoldable pub config_of : toml.Table → Expected (Config std.Double)
  unfolding default_config parse_general_section parse_storage_section parse_database_section
      parse_systemd_section parse_memory_section parse_pacman_section parse_rules_section
  config_of tbl = parse_general_section tbl (default_config std) >>= λ general.
      parse_storage_section tbl general >>= λ storage.
      parse_database_section tbl storage >>= λ database.
      parse_memory_section tbl (parse_systemd_section tbl database) >>= λ memory.
      value (parse_rules_section tbl (parse_pacman_section tbl memory))

  -- The file: whether it exists, and what toml::parse makes of it if it opens, a message where it
  -- throws.
  unfoldable pub from_file :
      String → Bool → Option (Expected toml.Table) → Expected (Config std.Double)
  unfolding config_of
  from_file path exists input =
      if not exists then unexpected (append "config file not found: " path) else elim input [
        | none ↦ unexpected (append "failed to open config file: " path)
        | some parsed ↦ parsed >>= config_of
      ]
