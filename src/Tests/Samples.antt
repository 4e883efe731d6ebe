-- ===== src/Tests/Samples.antt =====
-- A concrete JSON library and a concrete number type, to run the models with.
use holonightd.Prelude.{
  ℕ, ◌*◌, ◌/◌, String, ◌≡◌, refl, Bool, true, false, Option, none, some, List, [], ◌∷◌, arith, ltb,
  leb, if◌then◌else◌, ◌==◌, nat_eq, text_eq, nat_eqb,
}
use holonightd.Prelude.Map.{lookup}
use holonightd.Prelude.Text.{ℤ, pos, negsuc, contains}
use holonightd.Prelude.Text
use holonightd.Json.{JsonLib, JsonLaws}
use holonightd.Std.{StdLib}

mutual
  pub data Document : Type 0 where
    empty_document : Document
    text_document : String → Document
    number_document : ℕ → Document
    integer_document : ℤ → Document
    boolean_document : Bool → Document
    real_document : ℕ → Document
    object_document : Members → Document

  pub data Members : Type 0 where
    no_members : Members
    member_and : String → Document → Members → Members

abbrev members_of : List (String × Document) → Members
members_of [] = no_members
members_of ((k, v) ∷ kvs) = member_and k v (members_of kvs)

abbrev find_member : String → Members → Option Document
find_member key no_members = none
find_member key (member_and k v ms) = if k == key then some v else find_member key ms

abbrev member_of : Document → String → Option Document
member_of (object_document ms) key = find_member key ms
member_of _ key = none

abbrev pub text_of : Document → Option String
text_of (text_document s) = some s
text_of _ = none

abbrev number_of : Document → Option ℕ
number_of (number_document n) = some n
number_of _ = none

abbrev boolean_of : Document → Option Bool
boolean_of (boolean_document b) = some b
boolean_of _ = none

abbrev integer_of : Document → Option ℤ
integer_of (integer_document z) = some z
integer_of _ = none

abbrev is_object_document : Document → Bool
is_object_document (object_document ms) = true
is_object_document _ = false

-- The texts that this library can parse.
abbrev documents : List (String × Document)
documents =
    ("{}", object_document no_members)
    ∷ (
      "rule",
      object_document (
          member_and "rule_id" (text_document "R1") (
            member_and "title" (text_document "A rule")
              (member_and "category" (text_document "disk") no_members))),
    )
    ∷ (
      "hook",
      object_document (
          member_and "session_id" (text_document "s9")
            (member_and "hook_event_name" (text_document "idle_prompt") no_members)),
    )
    ∷ []

unfoldable pub parse_document : String → Option Document
unfolding lookup
parse_document text = lookup text documents

abbrev pub sample_json : JsonLib
sample_json = record {
  Json = Document;
  parse = parse_document;
  parse_error = λ text. "syntax error";
  null = empty_document;
  member = member_of;
  as_string = text_of;
  as_unsigned = number_of;
  is_object = is_object_document;
  as_array = λ d. none;
  string = text_document;
  unsigned = number_document;
  integer = integer_document;
  boolean = boolean_document;
  array = λ l. empty_document;
  as_boolean = boolean_of;
  as_integer = integer_of;
  as_number = integer_of;
  object = λ fields. object_document (members_of fields);
  dump = λ d. "{}";
}

find_member-lookup :
    (fields : List (String × Document)) (key : String)
    → find_member key (members_of fields) ≡ lookup key fields
unfolding lookup
find_member-lookup [] key = refl
find_member-lookup ((k, v) ∷ fields) key = ground (arith, find_member-lookup fields key)

pub sample_laws : JsonLaws sample_json
sample_laws = record {
  member-object = λ fields. λ key. λ h. find_member-lookup fields key;
  as_string-string = λ s. refl;
  as_unsigned-unsigned = λ n. λ h. refl;
}

abbrev natural : ℤ → ℕ
natural (pos n) = n
natural (negsuc n) = 0

-- Whole numbers in place of double.
abbrev pub sample_std : StdLib
sample_std = record {
  Double = ℕ;
  ratio = λ n. λ d. n / d;
  of_int = natural;
  eq = nat_eqb;
  lt = ltb;
  le = leb;
  mul = λ a. λ b. a * b;
  div = λ a. λ b. a / b;
  is_finite = λ a. true;
  text_of = λ a. "n";
  stod = λ s. if s == "80" then some 80 else none;
  stoll = λ s. if s == "7" then some (pos 7) else none;
  regex_search = λ s. λ p. some (Text.contains s p);
}
