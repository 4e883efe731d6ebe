-- ===== src/Std.antt =====
-- What the program uses of the C++ standard library that has no counterpart here, as an argument
-- of the definitions: double, and regular expressions.
use holonightd.Prelude.{ℕ, String, Bool, Option, nat_eq, text_eq}
use holonightd.Prelude.Text.{ℤ}

pub record StdLib : Type 1 where
  pub Double : Type 0
  -- a double literal with the value num / den
  pub ratio : ℕ → ℕ → Double
  pub of_int : ℤ → Double
  pub eq : Double → Double → Bool
  pub lt : Double → Double → Bool
  pub le : Double → Double → Bool
  pub mul : Double → Double → Double
  pub div : Double → Double → Double
  -- std::isfinite
  pub is_finite : Double → Bool
  -- std::to_string(double)
  pub text_of : Double → String
  -- std::stod; none: it throws
  pub stod : String → Option Double
  -- std::stoll; none: it throws
  pub stoll : String → Option ℤ
  -- std::regex_search(text, std::regex(pattern)); none: the pattern is refused
  pub regex_search : String → String → Option Bool
