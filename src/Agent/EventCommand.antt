-- ===== src/Agent/EventCommand.antt =====
-- apps/agent-event/main.cpp: the arguments, and the event that is sent to the daemon. Reading the
-- standard input and the call on the bus are not modelled.
use holonightd.Prelude.{
  ℕ, String, true, false, ◌&&◌, Option, none, some, List, [], ◌∷◌, if◌then◌else◌, ◌==◌, nat_eq,
  text_eq,
}
use holonightd.Prelude.Text.{is_blank}
use holonightd.Json.{JsonLib, or_keep}
use holonightd.Agent.State.{agent_state_from_string}
use holonightd.Agent.Event.{AgentEvent}
use holonightd.Agent.Normalizer.{normalize}

pub record EventArguments : Type 0 where
  pub provider : String
  pub session_id : String
  pub cwd : String
  pub event_type : String

abbrev pub default_arguments : EventArguments
default_arguments = record { provider = "claude"; session_id = ""; cwd = ""; event_type = "" }

-- The loop over the arguments behind the program's name; none: --help was met. An option that is
-- the last argument is passed over, as is what is no option.
unfoldable pub parse_event_arguments : List String → EventArguments → Option EventArguments
parse_event_arguments [] a = some a
parse_event_arguments (arg ∷ []) a = if arg == "--help" then none else some a
parse_event_arguments (arg ∷ next ∷ rest) a = elim (arg == "--provider") [
  | true ↦ parse_event_arguments rest (record a { provider = next })
  | false ↦ elim (arg == "--session-id") [
    | true ↦ parse_event_arguments rest (record a { session_id = next })
    | false ↦ elim (arg == "--cwd") [
      | true ↦ parse_event_arguments rest (record a { cwd = next })
      | false ↦ elim (arg == "--event") [
        | true ↦ parse_event_arguments rest (record a { event_type = next })
        | false ↦ elim (arg == "--help") [
          | true ↦ none
          | false ↦ parse_event_arguments (next ∷ rest) a
        ]
      ]
    ]
  ]
]

-- The project path: --cwd, or else what the normalizer found, or else the current directory, if
-- there is one.
unfoldable pub chosen_path : String → String → Option String → String
chosen_path cwd found current_path =
    let chosen = if is_blank cwd && is_blank found then or_keep current_path cwd else cwd in
    if is_blank chosen then found else chosen

module _ (json : JsonLib) where
  -- The event that is sent.
  unfoldable pub complete_event : ℕ → EventArguments → String → Option String → AgentEvent json.Json
  unfolding normalize chosen_path agent_state_from_string
  complete_event now_ms a stdin_content current_path =
      let event = normalize json now_ms a.provider stdin_content a.session_id in
      record event {
        project_path = chosen_path a.cwd event.project_path current_path;
        state =
            if is_blank a.event_type
            then event.state
            else or_keep (agent_state_from_string a.event_type) event.state;
      }
