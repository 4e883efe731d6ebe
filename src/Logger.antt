-- ===== src/Logger.antt =====
-- libs/logging/Logger.cpp: the levels and the filter. Writing to the stream or the journal is not
-- modelled.
use holonightd.Prelude.{
  ℕ, ◌+◌, String, Bool, true, false, not, ◌&&◌, ◌||◌, List, [], ◌∷◌, map, ltb, if◌then◌else◌,
  nat_eq, text_eq, nat_eqb,
}
use Prim.Native.String.{◌++◌ as append}
use holonightd.Prelude.Text.{utf8}
use holonightd.Observation.{Expected, value, unexpected}

pub data LogLevel : Type 0 where
  debug info warn error : LogLevel

-- The values of the enumeration, those of syslog.
unfoldable pub priority : LogLevel → ℕ
priority debug = 7
priority info = 6
priority warn = 4
priority error = 3

-- std::tolower of a byte in the C locale
unfoldable pub to_lower : ℕ → ℕ
to_lower b = if not (ltb b 65) && ltb b 91 then b + 32 else b

same_bytes : List ℕ → List ℕ → Bool
same_bytes [] [] = true
same_bytes [] (b ∷ bs) = false
same_bytes (a ∷ more) [] = false
same_bytes (a ∷ more) (b ∷ bs) = nat_eqb a b && same_bytes more bs

-- unexpected: it throws std::invalid_argument with the message "invalid log level: " and the text.
unfoldable pub parse_log_level : String → Expected LogLevel
unfolding to_lower same_bytes utf8
parse_log_level level_str =
    let lower = map to_lower (utf8 level_str) in
    if same_bytes lower (utf8 "debug")
    then value debug
    else if same_bytes lower (utf8 "info")
    then value info
    else if same_bytes lower (utf8 "warn") || same_bytes lower (utf8 "warning")
    then value warn
    else if same_bytes lower (utf8 "error")
    then value error
    else unexpected (append "invalid log level: " level_str)

unfoldable pub log_level_to_string : LogLevel → String
log_level_to_string debug = "DEBUG"
log_level_to_string info = "INFO"
log_level_to_string warn = "WARN"
log_level_to_string error = "ERROR"

-- A message of the level is written by a logger with the active level.
unfoldable pub is_written : LogLevel → LogLevel → Bool
unfolding priority
is_written active_level level = not (ltb (priority active_level) (priority level))
