-- ===== src/Config/Accepted.antt =====
-- What a configuration that is accepted satisfies.
use holonightd.Prelude.{
  ℕ, ◌≤◌, String, ◌≡◌, refl, subst, inl, inr, Bool, true, false, Option, none, some, arith, ltb,
  if◌then◌else◌, Bool-cases, Option-cases, nat_eq, text_eq,
}
use holonightd.Prelude.Text.{ℤ, pos, negsuc}
use holonightd.Std.{StdLib}
use holonightd.Observation.{>>=-eq-value, value-injective, Expected, value, unexpected}
use holonightd.Config.{Toml, Config, default_config, percent, get_as, double_at}
use holonightd.Config.Sections.{
  is_positive, natural, needed, checked, or_else, is_percentage, validate_percentage, section,
  log_level_of, parse_general_section, parse_storage_section, parse_database_section,
  parse_systemd_section, parse_memory_section, parse_pacman_section, parse_rules_section, config_of,
  from_file,
}

module _ (std : StdLib) (toml : Toml std.Double) where
  -- A limit of the database, where there is one.
  abbrev pub is_limit : Option ℕ → Bool
  is_limit none = true
  is_limit (some n) = ltb 0 n

  -- The thresholds are percentages, the warning of the storage is not above its critical one, the
  -- interval is positive, and so are the limits of the database.
  pub record IsValid (config : Config std.Double) : Type 0 where
    pub interval : is_positive config.interval ≡ true
    pub warning : is_percentage std toml config.storage_warning_threshold ≡ true
    pub critical : is_percentage std toml config.storage_critical_threshold ≡ true
    pub ordered : std.lt config.storage_critical_threshold config.storage_warning_threshold ≡ false
    pub some_warning : is_percentage std toml config.memory.some_warning_threshold ≡ true
    pub full_critical : is_percentage std toml config.memory.full_critical_threshold ≡ true
    pub meminfo_warning : is_percentage std toml config.memory.meminfo_warning_threshold ≡ true
    pub max_bytes : is_limit config.database.max_bytes ≡ true
    pub max_events : is_limit config.database.max_events ≡ true

  validated :
      (x : std.Double) (name : String) {y : std.Double}
      → validate_percentage std toml x name ≡ value y
      → is_percentage std toml y ≡ true
  unfolding validate_percentage
  validated x name h = elim (Bool-cases (is_percentage std toml x)) [
    | inl e ↦ subst (λ z. is_percentage std toml z ≡ true) (value-injective (rw e at h)) e
    | inr e ↦ cc (rw e at h)
  ]

  -- A step that keeps what is valid.
  abbrev Keeps : (Config std.Double → Expected (Config std.Double)) → Type 0
  Keeps f =
      (config config' : Config std.Double)
      → IsValid config
      → f config ≡ value config'
      → IsValid config'

  parse_general_section-Keeps : (tbl : toml.Table) → Keeps (parse_general_section std toml tbl)
  unfolding parse_general_section
  parse_general_section-Keeps tbl config config' v h =
      let (general, h1, r1) = >>=-eq-value (needed _ (section std toml tbl "general")) _ h in
      let (interval, h2, r2) =
        >>=-eq-value (needed _ (get_as std toml toml.as_integer general "interval_seconds")) _ r1 in
      let (seconds, h3, r3) =
        >>=-eq-value (if is_positive interval then value interval else unexpected _) _ r2 in
      let (root, h4, r4) =
        >>=-eq-value (needed _ (get_as std toml toml.as_string general "scan_root")) _ r3 in
      let (level, h5, r5) =
        >>=-eq-value (log_level_of std toml (get_as std toml toml.as_string general "log_level")) _
          r4 in
      subst IsValid (value-injective r5) (record {
        interval = positive interval seconds h3;
        warning = v.warning;
        critical = v.critical;
        ordered = v.ordered;
        some_warning = v.some_warning;
        full_critical = v.full_critical;
        meminfo_warning = v.meminfo_warning;
        max_bytes = v.max_bytes;
        max_events = v.max_events;
      })
    where
      positive :
          (z y : ℤ)
          → (if is_positive z
              then value z
              else unexpected "interval_seconds must be a positive integer")
            ≡ value y
          → is_positive y ≡ true
      positive z y e = elim (Bool-cases (is_positive z)) [
        | inl p ↦ subst (λ x. is_positive x ≡ true) (value-injective (rw p at e)) p
        | inr p ↦ cc (rw p at e)
      ]

  parse_storage_section-Keeps : (tbl : toml.Table) → Keeps (parse_storage_section std toml tbl)
  unfolding parse_storage_section
  parse_storage_section-Keeps tbl config config' v h =
      elim (Option-cases (section std toml tbl "storage")) [
        | inl e ↦ subst IsValid (value-injective (rw (e, parse_storage_section) at h)) v
        | inr (storage, e) ↦
            let old_warn =
              double_at std toml storage "warning_threshold" config.storage_warning_threshold in
            let old_crit =
              double_at std toml storage "critical_threshold" config.storage_critical_threshold in
            let (warn, h1, r1) =
              >>=-eq-value (validate_percentage std toml old_warn "storage.warning_threshold") _
                (rw (e, parse_storage_section) at h) in
            let (crit, h2, r2) =
              >>=-eq-value (validate_percentage std toml old_crit "storage.critical_threshold") _
                r1 in
            let (warning, h3, r3) =
              >>=-eq-value
                (if std.lt crit warn
                  then unexpected
                      "storage.warning_threshold must not exceed storage.critical_threshold"
                  else value warn)
                _ r2 in
            let (below, same) = not_above crit warn warning h3 in
            subst IsValid (value-injective r3) (record {
              interval = v.interval;
              warning =
                  subst (λ x. is_percentage std toml x ≡ true) same
                    (validated old_warn "storage.warning_threshold" h1);
              critical = validated old_crit "storage.critical_threshold" h2;
              ordered = subst (λ x. std.lt crit x ≡ false) same below;
              some_warning = v.some_warning;
              full_critical = v.full_critical;
              meminfo_warning = v.meminfo_warning;
              max_bytes = v.max_bytes;
              max_events = v.max_events;
            })
      ]
    where
      not_above :
          (crit warn y : std.Double)
          → (if std.lt crit warn
              then unexpected "storage.warning_threshold must not exceed storage.critical_threshold"
              else value warn)
            ≡ value y
          → (std.lt crit warn ≡ false) × (warn ≡ y)
      not_above crit warn y e = elim (Bool-cases (std.lt crit warn)) [
        | inl p ↦ cc (rw p at e)
        | inr p ↦ (p, value-injective (rw p at e))
      ]

  limit_lem :
      (message : String) (o r : Option ℤ) (old : Option ℕ)
      → checked message o ≡ value r
      → is_limit old ≡ true
      → is_limit (or_else (λ z. some (natural z)) r old) ≡ true
  limit_lem message none r old h g =
      subst (λ x. is_limit (or_else (λ z. some (natural z)) x old) ≡ true) (value-injective h) g
  limit_lem message (some (negsuc n)) r old h g = cc
  limit_lem message (some (pos n)) r old h g = elim (Bool-cases (ltb 0 n)) [
    | inl p ↦
        subst (λ x. is_limit (or_else (λ z. some (natural z)) x old) ≡ true)
          (value-injective (rw p at h)) p
    | inr p ↦ cc (rw p at h)
  ]

  parse_database_section-Keeps : (tbl : toml.Table) → Keeps (parse_database_section std toml tbl)
  unfolding parse_database_section
  parse_database_section-Keeps tbl config config' v h =
      elim (Option-cases (section std toml tbl "database")) [
        | inl e ↦ subst IsValid (value-injective (rw (e, parse_database_section) at h)) v
        | inr (db, e) ↦
            let (days, h1, r1) =
              >>=-eq-value
                (checked "retention_days must be a positive integer"
                  (get_as std toml toml.as_integer db "retention_days"))
                _ (rw (e, parse_database_section) at h) in
            let (bytes, h2, r2) =
              >>=-eq-value
                (checked "max_bytes must be a positive integer"
                  (get_as std toml toml.as_integer db "max_bytes"))
                _ r1 in
            let (events, h3, r3) =
              >>=-eq-value
                (checked "max_events must be a positive integer"
                  (get_as std toml toml.as_integer db "max_events"))
                _ r2 in
            subst IsValid (value-injective r3) (record {
              interval = v.interval;
              warning = v.warning;
              critical = v.critical;
              ordered = v.ordered;
              some_warning = v.some_warning;
              full_critical = v.full_critical;
              meminfo_warning = v.meminfo_warning;
              max_bytes =
                  limit_lem "max_bytes must be a positive integer"
                    (get_as std toml toml.as_integer db "max_bytes") bytes config.database.max_bytes
                    h2 v.max_bytes;
              max_events =
                  limit_lem "max_events must be a positive integer"
                    (get_as std toml toml.as_integer db "max_events") events
                    config.database.max_events h3 v.max_events;
            })
      ]

  parse_memory_section-Keeps : (tbl : toml.Table) → Keeps (parse_memory_section std toml tbl)
  unfolding parse_memory_section
  parse_memory_section-Keeps tbl config config' v h =
      elim (Option-cases (section std toml tbl "memory")) [
        | inl e ↦ subst IsValid (value-injective (rw (e, parse_memory_section) at h)) v
        | inr (mem, e) ↦
            let old_a =
              double_at std toml mem "some_warning_threshold"
                config.memory.some_warning_threshold in
            let (a, h1, r1) =
              >>=-eq-value (validate_percentage std toml old_a "memory.some_warning_threshold") _
                (rw (e, parse_memory_section) at h) in
            let old_b =
              double_at std toml mem "full_critical_threshold"
                config.memory.full_critical_threshold in
            let (b, h2, r2) =
              >>=-eq-value (validate_percentage std toml old_b "memory.full_critical_threshold") _
                r1 in
            let old_c =
              double_at std toml mem "meminfo_warning_threshold"
                config.memory.meminfo_warning_threshold in
            let (c, h3, r3) =
              >>=-eq-value (validate_percentage std toml old_c "memory.meminfo_warning_threshold") _
                r2 in
            subst IsValid (value-injective r3) (record {
              interval = v.interval;
              warning = v.warning;
              critical = v.critical;
              ordered = v.ordered;
              some_warning = validated old_a "memory.some_warning_threshold" h1;
              full_critical = validated old_b "memory.full_critical_threshold" h2;
              meminfo_warning = validated old_c "memory.meminfo_warning_threshold" h3;
              max_bytes = v.max_bytes;
              max_events = v.max_events;
            })
      ]

  -- The sections of which nothing is checked leave the rest alone.
  same_checked :
      (config config' : Config std.Double)
      → config'.interval ≡ config.interval
      → config'.storage_warning_threshold ≡ config.storage_warning_threshold
      → config'.storage_critical_threshold ≡ config.storage_critical_threshold
      → config'.memory ≡ config.memory
      → config'.database ≡ config.database
      → IsValid config
      → IsValid config'
  same_checked config config' a b c d e v = record {
    interval = rw a v.interval;
    warning = rw b v.warning;
    critical = rw c v.critical;
    ordered = rw (b, c) v.ordered;
    some_warning = rw d v.some_warning;
    full_critical = rw d v.full_critical;
    meminfo_warning = rw d v.meminfo_warning;
    max_bytes = rw e v.max_bytes;
    max_events = rw e v.max_events;
  }

  unchecked :
      (tbl : toml.Table) (config : Config std.Double)
      → (IsValid config → IsValid (parse_systemd_section std toml tbl config))
        × (IsValid config → IsValid (parse_pacman_section std toml tbl config))
        × (IsValid config → IsValid (parse_rules_section std toml tbl config))
  unfolding parse_systemd_section parse_pacman_section parse_rules_section
  unchecked tbl config = (
    elim (Option-cases (section std toml tbl "systemd")) [
      | inl e ↦ rw (e, parse_systemd_section) (λ v. v)
      | inr (t, e) ↦ rw (e, parse_systemd_section) (same_checked config _ refl refl refl refl refl)
    ],
    elim (Option-cases (section std toml tbl "pacman")) [
      | inl e ↦ rw (e, parse_pacman_section) (λ v. v)
      | inr (t, e) ↦ rw (e, parse_pacman_section) (same_checked config _ refl refl refl refl refl)
    ],
    elim (Option-cases (section std toml tbl "rules")) [
      | inl e ↦ rw (e, parse_rules_section) (λ v. v)
      | inr (t, e) ↦ rw (e, parse_rules_section) (same_checked config _ refl refl refl refl refl)
    ],
  )

  -- The numbers of the defaults are percentages, in their order.
  pub record PercentLaws : Type 0 where
    pub percentage_lem : (n : ℕ) → n ≤ 100 → is_percentage std toml (percent std n) ≡ true
    pub percent-ordered : std.lt (percent std 95) (percent std 85) ≡ false

  defaults : PercentLaws → IsValid (default_config std)
  unfolding default_config
  defaults laws = record {
    interval = refl;
    warning = laws.percentage_lem 85 (omega arith);
    critical = laws.percentage_lem 95 (omega arith);
    ordered = laws.percent-ordered;
    some_warning = laws.percentage_lem 10 (omega arith);
    full_critical = laws.percentage_lem 25 (omega arith);
    meminfo_warning = laws.percentage_lem 85 (omega arith);
    max_bytes = refl;
    max_events = refl;
  }

  config_of-IsValid :
      PercentLaws
      → (tbl : toml.Table) (config : Config std.Double) → config_of std toml tbl ≡ value config
      → IsValid config
  unfolding config_of
  config_of-IsValid laws tbl config h =
      let start = default_config std in
      let (a, h1, r1) = >>=-eq-value (parse_general_section std toml tbl start) _ h in
      let (b, h2, r2) = >>=-eq-value (parse_storage_section std toml tbl a) _ r1 in
      let (c, h3, r3) = >>=-eq-value (parse_database_section std toml tbl b) _ r2 in
      let (d, h4, r4) =
        >>=-eq-value (parse_memory_section std toml tbl (parse_systemd_section std toml tbl c)) _
          r3 in
      let v1 = parse_general_section-Keeps tbl start a (defaults laws) h1 in
      let v2 = parse_storage_section-Keeps tbl a b v1 h2 in
      let v3 = (unchecked tbl c).0 (parse_database_section-Keeps tbl b c v2 h3) in
      let v4 = parse_memory_section-Keeps tbl _ d v3 h4 in
      subst IsValid (value-injective r4) ((unchecked tbl _).2 ((unchecked tbl d).1 v4))

  -- Where the default thresholds are percentages in order, a configuration that is read from a
  -- file is valid, and there is none where the file is missing, cannot be opened or does not parse.
  pub from_file-IsValid :
      PercentLaws
      → (path : String) (exists : Bool) (input : Option (Expected toml.Table))
        (config : Config std.Double)
      → from_file std toml path exists input ≡ value config
      → (exists ≡ true) × ((tbl : toml.Table) × ((input ≡ some (value tbl)) × IsValid config))
  unfolding from_file
  from_file-IsValid laws path false input config h = cc
  from_file-IsValid laws path true none config h = cc
  from_file-IsValid laws path true (some (unexpected e)) config h = cc
  from_file-IsValid laws path true (some (value tbl)) config h =
      (refl, (tbl, (refl, config_of-IsValid laws tbl config h)))
