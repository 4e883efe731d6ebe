-- ===== src/Json.antt =====
-- What the program uses of nlohmann::json, which is not part of the repository: an argument of
-- the definitions that read or build JSON values.
use holonightd.Prelude.{◌<◌, text_eq, ℕ, String, ◌≡◌, Bool, Option, none, some, List}
use holonightd.Prelude.Text.{ℤ}
use holonightd.Prelude.Map.{IsMap, lookup}

pub record JsonLib : Type 1 where
  pub Json : Type 0
  -- json::parse; none: it throws json::exception
  pub parse : String → Option Json
  -- what() of that exception
  pub parse_error : String → String
  -- a default-constructed value
  pub null : Json
  -- value.contains(key), and then value[key]
  pub member : Json → String → Option Json
  -- value.is_string(), and then value.get<std::string>()
  pub as_string : Json → Option String
  -- value.is_number_unsigned(), and then value.get<std::uint64_t>()
  pub as_unsigned : Json → Option ℕ
  -- value.is_object()
  pub is_object : Json → Bool
  -- value.is_array(), and then its elements in order
  pub as_array : Json → Option (List Json)
  -- value.is_boolean(), and then value.get<bool>()
  pub as_boolean : Json → Option Bool
  -- value.is_number_integer(), and then value.get<std::int64_t>()
  pub as_integer : Json → Option ℤ
  -- value.is_number(), and then value.get<std::int64_t>()
  pub as_number : Json → Option ℤ
  -- json(text), json(number), json(list), json{{key, value}, ...}
  pub string : String → Json
  pub unsigned : ℕ → Json
  pub integer : ℤ → Json
  pub boolean : Bool → Json
  pub array : List Json → Json
  pub object : List (String × Json) → Json
  -- value.dump()
  pub dump : Json → String

-- value.contains(key) && value[key].is_string(), and then the string
abbrev pub string_at : (json : JsonLib) → json.Json → String → Option String
string_at json v key = elim (json.member v key) [ none ↦ none | some x ↦ json.as_string x ]

-- A target keeps its value unless there is a new one.
abbrev pub or_keep {ℓ} : {A : Type ℓ} → Option A → A → A
or_keep none a = a
or_keep (some b) a = b

-- What the program relies on: an object has the members that it was built of, and a string and a
-- number read back.
pub record JsonLaws (json : JsonLib) : Type 0 where
  pub member-object :
      (fields : List (String × json.Json)) (key : String)
      → IsMap fields
      → json.member (json.object fields) key ≡ lookup key fields
  pub as_string-string : (s : String) → json.as_string (json.string s) ≡ some s
  pub as_unsigned-unsigned :
      (n : ℕ) → n < 18446744073709551616 → json.as_unsigned (json.unsigned n) ≡ some n
