-- ===== src/Agent/Event.antt =====
-- AgentEvent, AgentSession and ActivationDescriptor of
-- include/holonightd/agentd/AgentActivity.h, and the JSON of an event (libs/agent/AgentActivity.cpp).
-- Times are counts of clock ticks.
pub mod RoundTrip
use holonightd.Prelude.{
  ℕ, zero, suc, ◌+◌, ◌-◌, ◌*◌, ◌/◌, ◌%◌, ◌^◌, ◌≤◌, ◌<◌, min, String, ◌≡◌, refl, sym, ap, ◌∙◌, subst,
  ◌≢◌, ◌↔◌, ◌⊎◌, inl, inr, Bool, true, false, not, ◌&&◌, ◌||◌, Option, none, some, List, [], ◌∷◌,
  ◌++◌, map, arith, eq_iff, ltb, leb, if◌then◌else◌, Bool-cases, Option-cases, length, take,
  is_empty, length-take-le, length-append, keep_if, any, All, All-append, Eq, ◌==◌, nat_eq, text_eq,
}
use holonightd.Json.{JsonLib, string_at, or_keep}
use holonightd.Agent.State.{AgentState, working, to_string, agent_state_from_string}

abbrev pub max_activation_title_bytes : ℕ
max_activation_title_bytes = 512

pub record ActivationDescriptor : Type 0 where
  pub process_lineage : List ℕ
  pub title_hint : List ℕ  -- bytes

unfoldable pub valid : ActivationDescriptor → Bool
valid d = not (is_empty d.process_lineage)

pub record AgentSession : Type 0 where
  pub session_id : String
  pub provider : String
  pub project_name : String
  pub project_path : String
  pub pid : ℕ
  pub window_address : String
  pub current_state : AgentState
  pub last_title : String
  pub last_message : String
  pub start_time : ℕ
  pub last_update_time : ℕ
  pub notification_id : ℕ
  pub activation : Option ActivationDescriptor

pub record AgentEvent (Json : Type 0) : Type 0 where
  pub provider : String
  pub session_id : String
  pub project_path : String
  pub terminal_id : String
  pub state : AgentState
  pub title : String
  pub message : String
  pub timestamp_ms : ℕ
  pub metadata : Json

module _ (json : JsonLib) where
  -- A default-constructed event.
  abbrev pub new_event : AgentEvent json.Json
  new_event = record {
    provider = "";
    session_id = "";
    project_path = "";
    terminal_id = "";
    state = working;
    title = "";
    message = "";
    timestamp_ms = 0;
    metadata = json.null;
  }

  abbrev fields : AgentEvent json.Json → List (String × json.Json)
  fields e =
      ("provider", json.string e.provider)
      ∷ ("session_id", json.string e.session_id)
      ∷ ("project_path", json.string e.project_path)
      ∷ ("terminal_id", json.string e.terminal_id)
      ∷ ("state", json.string (to_string e.state))
      ∷ ("title", json.string e.title)
      ∷ ("message", json.string e.message)
      ∷ ("timestamp_ms", json.unsigned e.timestamp_ms)
      ∷ ("metadata", e.metadata)
      ∷ []

  unfoldable pub to_json : AgentEvent json.Json → json.Json
  to_json e = json.object (fields e)

  -- The state that a text names, if it names one.
  abbrev pub state_or_keep : Option String → AgentState → AgentState
  state_or_keep none s = s
  state_or_keep (some text) s = or_keep (agent_state_from_string text) s

  abbrev unsigned_at : json.Json → String → Option ℕ
  unsigned_at v key = elim (json.member v key) [ none ↦ none | some x ↦ json.as_unsigned x ]

  abbrev object_at : json.Json → String → Option json.Json
  object_at v key = elim (json.member v key) [
    | none ↦ none
    | some x ↦ if json.is_object x then some x else none
  ]

  unfoldable pub from_json : json.Json → AgentEvent json.Json
  from_json v = record {
    provider = or_keep (string_at json v "provider") "";
    session_id = or_keep (string_at json v "session_id") "";
    project_path = or_keep (string_at json v "project_path") "";
    terminal_id = or_keep (string_at json v "terminal_id") "";
    state = state_or_keep (string_at json v "state") working;
    title = or_keep (string_at json v "title") "";
    message = or_keep (string_at json v "message") "";
    timestamp_ms = or_keep (unsigned_at v "timestamp_ms") 0;
    metadata = or_keep (object_at v "metadata") json.null;
  }
