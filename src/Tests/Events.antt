-- ===== src/Tests/Events.antt =====
-- An observation event through JSON and back, with a library that knows the text of one event.
use holonightd.Prelude.{ℕ, String, ◌≡◌, refl, Option, none, some, if◌then◌else◌, ◌==◌, text_eq}
use holonightd.Prelude.Text.{pos}
use holonightd.Json.{JsonLib, JsonLaws}
use holonightd.Observation.{warning, severity_to_string, value, integer, ObservationEvent}
use holonightd.Observation.Wire.{from_json, to_json, fields_of, is_zero}
use holonightd.Observation.Wire.RoundTrip.{ValueLaws, compact, from_json_observation-to_json}
use holonightd.Tests.Samples.{
  Document, text_document, integer_document, real_document, object_document, no_members, member_and,
  sample_json, sample_laws,
}

abbrev no_fields : Document
no_fields = object_document no_members

abbrev written : Document
written = object_document (
    member_and "id" (integer_document (pos 4)) (
      member_and "timestamp_us" (integer_document (pos 3)) (
        member_and "source" (text_document "systemd") (
          member_and "category" (text_document "systemd.unit") (
            member_and "subject" (text_document "nginx.service") (
              member_and "signal" (text_document "unit_failed") (
                member_and "severity" (text_document "warning") (
                  member_and "value" (integer_document (pos 7))
                    (member_and "attributes" no_fields no_members)))))))))

abbrev parse_event : String → Option Document
parse_event text =
    if text == "{}" then some no_fields else if text == "event" then some written else none

abbrev dump_event : Document → String
dump_event (object_document no_members) = "{}"
dump_event _ = "event"

abbrev event_json : JsonLib
event_json = record sample_json { parse = parse_event; dump = dump_event }

event_laws : JsonLaws event_json
event_laws = record {
  member-object = sample_laws.member-object;
  as_string-string = λ s. refl;
  as_unsigned-unsigned = λ n. λ h. refl;
}

as_real : Document → Option ℕ
as_real (real_document n) = some n
as_real _ = none

event_values : ValueLaws event_json ℕ real_document as_real
unfolding as_real
event_values = record {
  null_lem = (refl, refl, refl, refl);
  boolean_lem = λ b. refl;
  integer_lem = λ z. (refl, refl, refl);
  real_lem = λ x. (refl, refl, refl);
  string_lem = λ s. (refl, refl, refl);
}

abbrev failed : ObservationEvent ℕ
failed = record {
  id = pos 4;
  timestamp = pos 3999;
  source = "systemd";
  category = "systemd.unit";
  subject = "nginx.service";
  signal = "unit_failed";
  value = integer (pos 7);
  severity = warning;
  attributes_json = "{}";
}

from_json_observation-to_json_example :
    from_json event_json real_document as_real
      (pos 0)
      (to_json event_json real_document as_real failed)
    ≡ value (record failed {
      timestamp = pos 3000;
      attributes_json = compact event_json real_document as_real event_laws event_values "{}";
    })
unfolding as_real to_json fields_of severity_to_string is_zero
from_json_observation-to_json_example =
    from_json_observation-to_json event_json real_document as_real event_laws event_values (pos 0)
      failed refl
