-- ===== src/Observation.antt =====
-- include/holonightd/ObservationEvent.h, and the severities of libs/storage/ObservationEvent.cpp.
pub mod Severities
pub mod Wire
use holonightd.Prelude.{
  ℕ, zero, suc, ◌+◌, ◌-◌, ◌*◌, ◌/◌, ◌%◌, ◌^◌, ◌≤◌, ◌<◌, min, String, ◌≡◌, refl, sym, ap, ◌∙◌, subst,
  ◌≢◌, ◌↔◌, ◌⊎◌, inl, inr, Bool, true, false, not, ◌&&◌, ◌||◌, Option, none, some, List, [], ◌∷◌,
  ◌++◌, map, arith, eq_iff, ltb, leb, if◌then◌else◌, Bool-cases, Option-cases, length, take,
  is_empty, length-take-le, length-append, keep_if, any, All, All-append, Eq, ◌==◌, nat_eq, text_eq,
  is_some,
}
use holonightd.Prelude.Text.{ℤ, pos, negsuc}
use Prim.Native.String.{◌++◌ as append}

pub data Severity : Type 0 where
  debug info warning error critical : Severity

unfoldable pub severity_to_string : Severity → String
severity_to_string debug = "debug"
severity_to_string info = "info"
severity_to_string warning = "warning"
severity_to_string error = "error"
severity_to_string critical = "critical"

-- std::expected<T, std::string>
pub data Expected {ℓ} (A : Type ℓ) : Type ℓ where
  value : A → Expected A
  unexpected : String → Expected A

infixl 5 ◌>>=◌
abbrev pub ◌>>=◌ {ℓ κ} : {A : Type ℓ} {B : Type κ} → Expected A → (A → Expected B) → Expected B
value a >>= f = f a
unexpected e >>= f = unexpected e

-- A chain that succeeds has succeeded at each step.
pub >>=-eq-value {ℓ κ} :
    {A : Type ℓ} {B : Type κ} (m : Expected A) (f : A → Expected B) {b : B}
    → (m >>= f) ≡ value b
    → (a : A) × (m ≡ value a) × (f a ≡ value b)
>>=-eq-value (value a) f h = (a, refl, h)
>>=-eq-value (unexpected e) f h = cc

pub value-injective {ℓ} : {A : Type ℓ} {a b : A} → value a ≡ value b → a ≡ b
value-injective {A} {a} {b} h = ap (λ (x : Expected A). elim x [ value y ↦ y | unexpected e ↦ a ]) h

-- To split on a result and keep the equation.
pub Expected-cases {ℓ} :
    {A : Type ℓ} (x : Expected A) → ((a : A) × (x ≡ value a)) ⊎ ((e : String) × (x ≡ unexpected e))
Expected-cases (value a) = inl (a, refl)
Expected-cases (unexpected e) = inr (e, refl)

unfoldable pub severity_from_string : String → Expected Severity
severity_from_string str =
    if str == "debug"
    then value debug
    else if str == "info"
    then value info
    else if str == "warning"
    then value warning
    else if str == "error"
    then value error
    else if str == "critical"
    then value critical
    else unexpected (append "Unknown severity level: " str)

-- static_cast<std::uint8_t>(severity)
abbrev pub rank : Severity → ℕ
rank debug = 0
rank info = 1
rank warning = 2
rank error = 3
rank critical = 4

pub data EventValue (Double : Type 0) : Type 0 where
  monostate : EventValue Double
  boolean : Bool → EventValue Double
  integer : ℤ → EventValue Double
  double : Double → EventValue Double
  text : String → EventValue Double

abbrev negated : ℕ → ℤ
negated zero = pos 0
negated (suc n) = negsuc n

-- Times are system_clock::time_points: counts of nanoseconds since the epoch.
-- duration_cast<microseconds> cuts towards zero.
abbrev pub micros : ℤ → ℤ
micros (pos n) = pos (n / 1000)
micros (negsuc n) = negated ((n + 1) / 1000)

-- time_point(microseconds(count)), for times whose nanoseconds fit 64 bits.
abbrev pub nanos : ℤ → ℤ
nanos (pos n) = pos (n * 1000)
nanos (negsuc n) = negsuc (n * 1000 + 999)

pub record ObservationEvent (Double : Type 0) : Type 0 where
  pub id : ℤ
  pub timestamp : ℤ
  pub source : String
  pub category : String
  pub subject : String
  pub signal : String
  pub value : EventValue Double
  pub severity : Severity
  pub attributes_json : String
