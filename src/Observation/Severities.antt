-- ===== src/Observation/Severities.antt =====
-- Severities and their names.
use holonightd.Prelude.{String, ◌≡◌, refl, ◌↔◌, arith, eq_iff, nat_eq, text_eq}
use holonightd.Observation.{
  Severity, debug, info, warning, error, critical, severity_to_string, severity_from_string, value,
}

-- A severity is read back from its name, and no other text names it.
pub severity_from_string_iff :
    (s : Severity) (t : String) → (severity_from_string t ≡ value s) ↔ (t ≡ severity_to_string s)
unfolding severity_from_string severity_to_string
severity_from_string_iff s t = (forth s, λ e. rw e (back s))
  where
    back : (u : Severity) → severity_from_string (severity_to_string u) ≡ value u
    back debug = refl
    back info = refl
    back warning = refl
    back error = refl
    back critical = refl

    forth : (u : Severity) → severity_from_string t ≡ value u → t ≡ severity_to_string u
    forth u h = ground (
      arith,
      eq_iff t "debug",
      eq_iff t "info",
      eq_iff t "warning",
      eq_iff t "error",
      eq_iff t "critical",
    )
