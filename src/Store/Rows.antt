-- ===== src/Store/Rows.antt =====
-- Events as rows of the table, and back.
use holonightd.Prelude.{◌≡◌, refl, ap, true, false, some, if◌then◌else◌, ◌==◌, nat_eq, text_eq}
use holonightd.Prelude.Text.{ℤ, decimal_ℤ}
use holonightd.Std.{StdLib}
use holonightd.Observation.{
  Severity, debug, info, warning, error, critical, severity_to_string, severity_from_string,
  EventValue, monostate, boolean, integer, double, text, ObservationEvent, micros, nanos,
}
use holonightd.Store.{
  c_str, value_payload, row_of, parse_value_payload, or_zero, or_zero_double, or_info, parse_row,
}

module _ (std : StdLib) where
  -- The text stored for the value reads back: a number by std::stoll or std::stod, and a text has
  -- no zero byte.
  abbrev pub ReadsBack : EventValue std.Double → Type 0
  ReadsBack monostate = Unit
  ReadsBack (boolean b) = Unit
  ReadsBack (integer z) = std.stoll (c_str (decimal_ℤ z)) ≡ some z
  ReadsBack (double x) = std.stod (c_str (std.text_of x)) ≡ some x
  ReadsBack (text s) = c_str s ≡ s

  parse_value_payload-value_payload :
      (v : EventValue std.Double)
      → ReadsBack v
      → parse_value_payload std (c_str (value_payload std v).0) (c_str (value_payload std v).1) ≡ v
  unfolding parse_value_payload value_payload c_str
  parse_value_payload-value_payload monostate h = refl
  parse_value_payload-value_payload (boolean true) h = refl
  parse_value_payload-value_payload (boolean false) h = refl
  parse_value_payload-value_payload (integer z) h = ap (or_zero std) h
  parse_value_payload-value_payload (double x) h = ap (or_zero_double std) h
  parse_value_payload-value_payload (text s) h = ap text h

  severity_lem :
      (s : Severity) → or_info std (severity_from_string (c_str (severity_to_string s))) ≡ s
  unfolding severity_from_string severity_to_string c_str
  severity_lem debug = refl
  severity_lem info = refl
  severity_lem warning = refl
  severity_lem error = refl
  severity_lem critical = refl

  -- A row that was made from an event and stored under an id gives the event back with that id:
  -- its time cut to whole microseconds, its severity and its value, where the text stored for the value reads back, and its
  -- texts up to the first zero byte, with {} for attributes that are empty.
  pub parse_row-row_of :
      (id : ℤ) (event : ObservationEvent std.Double)
      → ReadsBack event.value
      → parse_row std (record { id = id; columns = row_of std event }) ≡ record event {
        id = id;
        timestamp = nanos (micros event.timestamp);
        source = c_str event.source;
        category = c_str event.category;
        subject = c_str event.subject;
        signal = c_str event.signal;
        attributes_json =
            if c_str event.attributes_json == "" then "{}" else c_str event.attributes_json;
      }
  unfolding parse_row row_of
  parse_row-row_of id event h =
      rw (parse_value_payload-value_payload event.value h, severity_lem event.severity) refl
