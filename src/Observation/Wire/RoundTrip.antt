-- ===== src/Observation/Wire/RoundTrip.antt =====
-- Events written as JSON and read back.
use holonightd.Prelude.{
  String, ◌≡◌, refl, sym, ap, ◌∙◌, inl, inr, Bool, true, false, Option, none, some, ◌∷◌, arith,
  if◌then◌else◌, Bool-cases, ◌==◌, nat_eq, text_eq, nat_eqb_iff,
}
use holonightd.Prelude.Map.{lookup, IsMap}
use holonightd.Prelude.Text.{ℤ, pos, negsuc}
use holonightd.Json.{JsonLib, JsonLaws, or_keep, string_at}
use holonightd.Observation.{
  micros, nanos, Severity, info, severity_to_string, value, EventValue, monostate, boolean, integer,
  double, text, ObservationEvent,
}
use holonightd.Observation.Severities.{severity_from_string_iff}
use holonightd.Observation.Wire.{
  is_zero, value_document, attributes_document, fields_after_id, fields_of, to_json,
  parse_event_strings, read_value, parse_event_value, read_attributes, read_texts, read_event,
  from_json, severity_or, read_at,
}

-- How the values that JSON is built of read back, each by its own reader.
pub record ValueLaws (json : JsonLib) (Double : Type 0) (real : Double → json.Json)
    (as_real : json.Json → Option Double) : Type 0 where
  pub null_lem :
      (json.as_boolean json.null ≡ none)
      × (json.as_integer json.null ≡ none)
      × (as_real json.null ≡ none)
      × (json.as_string json.null ≡ none)
  pub boolean_lem : (b : Bool) → json.as_boolean (json.boolean b) ≡ some b
  pub integer_lem :
      (z : ℤ)
      → (json.as_boolean (json.integer z) ≡ none)
        × (json.as_integer (json.integer z) ≡ some z)
        × (json.as_number (json.integer z) ≡ some z)
  pub real_lem :
      (x : Double)
      → (json.as_boolean (real x) ≡ none)
        × (json.as_integer (real x) ≡ none)
        × (as_real (real x) ≡ some x)
  pub string_lem :
      (s : String)
      → (json.as_boolean (json.string s) ≡ none)
        × (json.as_integer (json.string s) ≡ none)
        × (as_real (json.string s) ≡ none)

same_event :
    {Double : Type 0} {e f : ObservationEvent Double}
    → e.id ≡ f.id
    → e.timestamp ≡ f.timestamp
    → e.source ≡ f.source
    → e.category ≡ f.category
    → e.subject ≡ f.subject
    → e.signal ≡ f.signal
    → e.value ≡ f.value
    → e.severity ≡ f.severity
    → e.attributes_json ≡ f.attributes_json
    → e ≡ f
same_event h1 h2 h3 h4 h5 h6 h7 h8 h9 = cc

module _ (json : JsonLib) {Double : Type 0} (real : Double → json.Json)
    (as_real : json.Json → Option Double) (laws : JsonLaws json)
    (values : ValueLaws json Double real as_real) where
  read_value-value_document :
      (v : EventValue Double)
      → read_value json real as_real (value_document json real as_real v) ≡ v
  unfolding read_value value_document
  read_value-value_document monostate =
      let (a, b, c, d) = values.null_lem in rw (a, read_value, b, c, d) refl
  read_value-value_document (boolean b) = rw (values.boolean_lem b, read_value) refl
  read_value-value_document (integer z) =
      let (a, b, c) = values.integer_lem z in rw (a, read_value, b) refl
  read_value-value_document (double x) =
      let (a, b, c) = values.real_lem x in rw (a, read_value, b, c) refl
  read_value-value_document (text s) =
      let (a, b, c) = values.string_lem s in rw (a, read_value, b, c, laws.as_string-string s) refl

  fields-IsMap : (event : ObservationEvent Double) → IsMap (fields_of json real as_real event)
  unfolding fields_of lookup
  fields-IsMap event = by_id (is_zero event.id)
    where
      by_id :
          (b : Bool)
          → IsMap (
              if b
              then fields_after_id json real as_real event
              else ("id", json.integer event.id) ∷ fields_after_id json real as_real event)
      by_id true = (refl, (refl, (refl, (refl, (refl, (refl, (refl, (refl, tt))))))))
      by_id false = (refl, (refl, (refl, (refl, (refl, (refl, (refl, (refl, (refl, tt)))))))))

  lookup-fields_of :
      (event : ObservationEvent Double) (key : String)
      → ("id" == key) ≡ false
      → json.member (json.object (fields_of json real as_real event)) key
        ≡ lookup key (fields_after_id json real as_real event)
  unfolding fields_of lookup
  lookup-fields_of event key other =
      laws.member-object _ key (fields-IsMap event)
      ∙ elim (Bool-cases (is_zero event.id)) [ inl e ↦ rw e refl | inr e ↦ rw (e, other) refl ]

  id_lem :
      (event : ObservationEvent Double)
      → or_keep
          (read_at json real as_real json.as_integer
            (json.object (fields_of json real as_real event))
            "id")
          (pos 0)
        ≡ event.id
  unfolding fields_of lookup
  id_lem event =
      let found = laws.member-object _ "id" (fields-IsMap event) in
      elim (Bool-cases (is_zero event.id)) [
        | inl e ↦ rw (found, read_at) (rw e (sym (zero_lem event.id e)))
        | inr e ↦
            let (a, b, c) = values.integer_lem event.id in rw (found, read_at) (rw (e, b) refl)
      ]
    where
      zero_lem : (z : ℤ) → is_zero z ≡ true → z ≡ pos 0
      zero_lem (pos n) h = ap pos (omega (arith, (nat_eqb_iff n 0).0 h))
      zero_lem (negsuc n) h = cc

  severity_lem :
      (s t : Severity) → severity_or json real as_real (some (severity_to_string s)) t ≡ s
  severity_lem s t =
      rw ((severity_from_string_iff s (severity_to_string s)).1 refl, severity_or) refl

  string_lem :
      (object : json.Json) (key s default : String)
      → json.member object key ≡ some (json.string s)
      → or_keep (string_at json object key) default ≡ s
  string_lem object key s default h = rw (h, string_at) (rw (laws.as_string-string s) refl)

  -- The attributes as they are written and read: as a compact text, and {} unless they are an
  -- object.
  pub compact : String → String
  compact attributes =
      let v = attributes_document json real as_real attributes in
      if json.is_object v then json.dump v else "{}"

  value_lem :
      (event e : ObservationEvent Double)
      → parse_event_value json real as_real (json.object (fields_of json real as_real event)) e
        ≡ record e { value = event.value }
  unfolding parse_event_value lookup
  value_lem event e =
      rw (lookup-fields_of event "value" refl, parse_event_value)
        (rw (read_value-value_document event.value) refl)

  attributes_lem :
      (event : ObservationEvent Double)
      → read_attributes json real as_real (json.object (fields_of json real as_real event))
        ≡ compact event.attributes_json
  unfolding read_attributes compact lookup
  attributes_lem event = rw (lookup-fields_of event "attributes" refl, read_attributes) refl

  read_texts-fields_of :
      (now : ℤ) (event : ObservationEvent Double)
      → read_texts json real as_real now (json.object (fields_of json real as_real event))
        ≡ record event {
          timestamp = nanos (micros event.timestamp);
          value = monostate;
          attributes_json = "{}";
        }
  unfolding read_texts parse_event_strings lookup
  read_texts-fields_of now event =
      let object = json.object (fields_of json real as_real event) in
      let (a, b, number) = values.integer_lem (micros event.timestamp) in
      same_event (id_lem event)
        (rw (lookup-fields_of event "timestamp_us" refl, read_at, number) refl)
        (string_lem object "source" event.source "" (lookup-fields_of event "source" refl))
        (string_lem object "category" event.category "" (lookup-fields_of event "category" refl))
        (string_lem object "subject" event.subject "" (lookup-fields_of event "subject" refl))
        (string_lem object "signal" event.signal "" (lookup-fields_of event "signal" refl)) refl
        (rw
          (
            lookup-fields_of event "severity" refl,
            string_at,
            laws.as_string-string (severity_to_string event.severity),
          )
          (severity_lem event.severity info))
        refl

  -- An event that is written as JSON, whose text parses back, is read as the event that it was,
  -- with its time cut to whole microseconds and its attributes as a compact text.
  pub from_json_observation-to_json :
      (now : ℤ) (event : ObservationEvent Double)
      → json.parse (to_json json real as_real event)
        ≡ some (json.object (fields_of json real as_real event))
      → from_json json real as_real now (to_json json real as_real event)
        ≡ value (record event {
          timestamp = nanos (micros event.timestamp);
          attributes_json = compact event.attributes_json;
        })
  unfolding from_json read_event
  from_json_observation-to_json now event parsed =
      let object = json.object (fields_of json real as_real event) in
      rw (parsed, from_json)
        (ap value (
          ap {A = ObservationEvent Double}
            (λ e. record e { attributes_json = read_attributes json real as_real object })
            (value_lem event (read_texts json real as_real now object))
          ∙ ap {A = ObservationEvent Double}
              (λ e. record e {
                value = event.value;
                attributes_json = read_attributes json real as_real object;
              })
              (read_texts-fields_of now event)
          ∙ ap {A = String}
              (λ t. record event {
                timestamp = nanos (micros event.timestamp);
                attributes_json = t;
              })
              (attributes_lem event)))
