-- ===== src/Observation/Wire.antt =====
-- ObservationEvent::toJson and ObservationEvent::fromJson of libs/storage/ObservationEvent.cpp.
pub mod RoundTrip
use holonightd.Prelude.{
  any-append, any-none, All-map, ℕ, zero, suc, ◌+◌, ◌-◌, ◌*◌, ◌/◌, ◌%◌, ◌^◌, ◌≤◌, ◌<◌, min, String,
  ◌≡◌, refl, sym, ap, ◌∙◌, subst, ◌≢◌, ◌↔◌, ◌⊎◌, inl, inr, Bool, true, false, not, ◌&&◌, ◌||◌,
  Option, none, some, List, [], ◌∷◌, ◌++◌, map, arith, eq_iff, ltb, leb, if◌then◌else◌, Bool-cases,
  Option-cases, length, take, is_empty, length-take-le, length-append, keep_if, any, All,
  All-append, Eq, ◌==◌, nat_eq, text_eq, is_some, Some, any-Some, Some-any, is_empty-append,
  is_empty-keep_if, nat_eqb, nat_eqb_iff,
}
use Prim.Native.String.{◌++◌ as append}
use holonightd.Prelude.Text.{ℤ, pos, negsuc, is_blank}
use holonightd.Json.{JsonLib, string_at, or_keep}
use holonightd.Std.{StdLib}
use holonightd.Observation.{
  micros, nanos, Severity, info, severity_to_string, severity_from_string, Expected, value,
  unexpected, EventValue, monostate, boolean, integer, double, text, ObservationEvent,
}

-- A default-constructed event, made at `now`.
abbrev pub default_event : {Double : Type 0} → ℤ → ObservationEvent Double
default_event now = record {
  id = pos 0;
  timestamp = now;
  source = "";
  category = "";
  subject = "";
  signal = "";
  value = monostate;
  severity = info;
  attributes_json = "{}";
}

abbrev pub is_zero : ℤ → Bool
is_zero (pos n) = nat_eqb n 0
is_zero (negsuc n) = false

-- `real` and `as_real` are json(double), and is_number_float with get<double>.
module _ (json : JsonLib) {Double : Type 0} (real : Double → json.Json)
    (as_real : json.Json → Option Double) where
  unfoldable pub value_document : EventValue Double → json.Json
  value_document monostate = json.null
  value_document (boolean b) = json.boolean b
  value_document (integer z) = json.integer z
  value_document (double x) = real x
  value_document (text s) = json.string s

  -- The attributes as a value, an empty object where they do not parse.
  unfoldable pub attributes_document : String → json.Json
  attributes_document attributes =
      or_keep (json.parse (if is_blank attributes then "{}" else attributes)) (json.object [])

  abbrev pub fields_after_id : ObservationEvent Double → List (String × json.Json)
  fields_after_id event =
      ("timestamp_us", json.integer (micros event.timestamp))
      ∷ ("source", json.string event.source)
      ∷ ("category", json.string event.category)
      ∷ ("subject", json.string event.subject)
      ∷ ("signal", json.string event.signal)
      ∷ ("severity", json.string (severity_to_string event.severity))
      ∷ ("value", value_document event.value)
      ∷ ("attributes", attributes_document event.attributes_json)
      ∷ []

  -- The members that toJson sets; the id only where it is not 0.
  unfoldable pub fields_of : ObservationEvent Double → List (String × json.Json)
  unfolding value_document attributes_document
  fields_of event =
      if is_zero event.id
      then fields_after_id event
      else ("id", json.integer event.id) ∷ fields_after_id event

  unfoldable pub to_json : ObservationEvent Double → String
  unfolding fields_of
  to_json event = json.dump (json.object (fields_of event))

  unfoldable pub parse_event_strings : json.Json → ObservationEvent Double → ObservationEvent Double
  parse_event_strings object event = record event {
    source = or_keep (string_at json object "source") event.source;
    category = or_keep (string_at json object "category") event.category;
    subject = or_keep (string_at json object "subject") event.subject;
    signal = or_keep (string_at json object "signal") event.signal;
  }

  -- The first reader that accepts the value decides.
  unfoldable pub read_value : json.Json → EventValue Double
  read_value v = elim (json.as_boolean v) [
    | some b ↦ boolean b
    | none ↦ elim (json.as_integer v) [
      | some z ↦ integer z
      | none ↦ elim (as_real v) [
        | some x ↦ double x
        | none ↦ elim (json.as_string v) [ some s ↦ text s | none ↦ monostate ]
      ]
    ]
  ]

  unfoldable pub parse_event_value : json.Json → ObservationEvent Double → ObservationEvent Double
  unfolding read_value
  parse_event_value object event = elim (json.member object "value") [
    | none ↦ event
    | some v ↦ record event { value = read_value v }
  ]

  -- object.contains(key), and the reader accepts object[key]
  abbrev pub read_at : {A : Type 0} → (json.Json → Option A) → json.Json → String → Option A
  read_at read object key = elim (json.member object key) [ none ↦ none | some v ↦ read v ]

  abbrev pub time_or : Option ℤ → ℤ → ℤ
  time_or none t = t
  time_or (some us) t = nanos us

  abbrev pub severity_or : Option String → Severity → Severity
  severity_or none s = s
  severity_or (some t) s = elim (severity_from_string t) [ value u ↦ u | unexpected e ↦ s ]

  -- attributes that are an object, as text
  unfoldable pub read_attributes : json.Json → String
  read_attributes object = elim (json.member object "attributes") [
    | none ↦ "{}"
    | some v ↦ if json.is_object v then json.dump v else "{}"
  ]

  -- The event before its value and its attributes are read.
  unfoldable pub read_texts : ℤ → json.Json → ObservationEvent Double
  unfolding parse_event_strings severity_from_string
  read_texts now object =
      let event = default_event now in
      let dated = record event {
        id = or_keep (read_at json.as_integer object "id") event.id;
        timestamp = time_or (read_at json.as_number object "timestamp_us") event.timestamp;
      } in
      let named = parse_event_strings object dated in
      record named { severity = severity_or (string_at json object "severity") named.severity }

  unfoldable pub read_event : ℤ → json.Json → ObservationEvent Double
  unfolding read_texts parse_event_value read_attributes
  read_event now object = record (parse_event_value object (read_texts now object)) {
    attributes_json = read_attributes object;
  }

  unfoldable pub from_json : ℤ → String → Expected (ObservationEvent Double)
  unfolding read_event
  from_json now json_str = elim (json.parse json_str) [
    | none ↦
        unexpected (append "Failed to parse ObservationEvent JSON: " (json.parse_error json_str))
    | some object ↦ value (read_event now object)
  ]
