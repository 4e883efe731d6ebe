-- ===== src/Agent/Event/RoundTrip.antt =====
-- An event that is written as JSON and read again.
use holonightd.Prelude.{◌<◌, String, ◌≡◌, refl, ◌∙◌, true, some, arith, nat_eq, text_eq}
use holonightd.Prelude.Map.{IsMap, lookup}
use holonightd.Json.{JsonLib, JsonLaws, string_at, or_keep}
use holonightd.Agent.State.{working, to_string}
use holonightd.Agent.State.Spelling.{agent_state_from_string-to_string}
use holonightd.Agent.Event.{
  AgentEvent, fields, to_json, from_json, state_or_keep, unsigned_at, object_at,
}

module _ (json : JsonLib) (laws : JsonLaws json) (e : AgentEvent json.Json) where
  fields-IsMap : IsMap (fields json e)
  unfolding lookup
  fields-IsMap = ground arith

  field_found :
      (key : String) (x : json.Json)
      → lookup key (fields json e) ≡ some x
      → json.member (to_json json e) key ≡ some x
  unfolding to_json
  field_found key x q = laws.member-object (fields json e) key fields-IsMap ∙ q

  string_found :
      (key s : String)
      → lookup key (fields json e) ≡ some (json.string s)
      → string_at json (to_json json e) key ≡ some s
  string_found key s q = rw (field_found key (json.string s) q, string_at) (laws.as_string-string s)

  kept :
      (key s old : String)
      → lookup key (fields json e) ≡ some (json.string s)
      → or_keep (string_at json (to_json json e) key) old ≡ s
  kept key s old q = rw (string_found key s q) refl

  state_kept : state_or_keep json (string_at json (to_json json e) "state") working ≡ e.state
  unfolding lookup
  state_kept =
      rw (string_found "state" (to_string e.state) refl, agent_state_from_string-to_string e.state)
        refl

  timestamp_kept :
      e.timestamp_ms < 18446744073709551616
      → or_keep (unsigned_at json (to_json json e) "timestamp_ms") 0 ≡ e.timestamp_ms
  unfolding lookup
  timestamp_kept t =
      rw
        (
          field_found "timestamp_ms" (json.unsigned e.timestamp_ms) refl,
          laws.as_unsigned-unsigned e.timestamp_ms t,
          unsigned_at,
        )
        refl

  metadata_kept :
      json.is_object e.metadata ≡ true
      → or_keep (object_at json (to_json json e) "metadata") json.null ≡ e.metadata
  unfolding lookup
  metadata_kept h = rw (field_found "metadata" e.metadata refl, h, object_at) refl

  -- An event whose metadata is an object, and whose time fits 64 bits, reads back as it was.
  pub from_json-to_json :
      json.is_object e.metadata ≡ true
      → e.timestamp_ms < 18446744073709551616
      → from_json json (to_json json e) ≡ e
  unfolding from_json lookup
  from_json-to_json h t = λ i. record {
    provider = kept "provider" e.provider "" refl i;
    session_id = kept "session_id" e.session_id "" refl i;
    project_path = kept "project_path" e.project_path "" refl i;
    terminal_id = kept "terminal_id" e.terminal_id "" refl i;
    state = state_kept i;
    title = kept "title" e.title "" refl i;
    message = kept "message" e.message "" refl i;
    timestamp_ms = timestamp_kept t i;
    metadata = metadata_kept h i;
  }
