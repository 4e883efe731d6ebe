-- ===== src/Agent/Normalizer.antt =====
-- The provider normalizers of libs/agent/ProviderNormalizer.cpp: what a hook writes becomes an
-- event. `now_ms` is what currentTimestampMs returns.
pub mod Kinds
use holonightd.Prelude.{
  ℕ, zero, suc, ◌+◌, ◌-◌, ◌*◌, ◌/◌, ◌%◌, ◌^◌, ◌≤◌, ◌<◌, min, String, ◌≡◌, refl, sym, ap, ◌∙◌, subst,
  ◌≢◌, ◌↔◌, ◌⊎◌, inl, inr, Bool, true, false, not, ◌&&◌, ◌||◌, Option, none, some, List, [], ◌∷◌,
  ◌++◌, map, arith, eq_iff, ltb, leb, if◌then◌else◌, Bool-cases, Option-cases, length, take,
  is_empty, length-take-le, length-append, keep_if, any, All, All-append, Eq, ◌==◌, nat_eq, text_eq,
  is_some, Some, any-Some, Some-any, is_empty-append, is_empty-keep_if, nat_eqb, nat_eqb_iff,
}
use holonightd.Prelude.Text.{is_blank}
use holonightd.Json.{JsonLib, string_at, or_keep}
use holonightd.Agent.State.{AgentState, working, waiting_for_approval, waiting_for_input, completed}
use holonightd.Agent.Event.{AgentEvent, new_event, state_or_keep}

-- The first text if it is not empty, or else the second.
abbrev first_text : String → String → String
first_text a b = if is_blank a then b else a

module _ (json : JsonLib) where
  -- extractJsonStringField: the string under the key, or what the target holds.
  abbrev pub field : json.Json → String → String → String
  field v key target = or_keep (string_at json v key) target

  -- What each normalizer makes of a text that is not JSON.
  unfoldable pub unparsed : String → String → ℕ → String → String → AgentEvent json.Json
  unparsed provider title now_ms raw default_id = record (new_event json) {
    provider = provider;
    session_id = default_id;
    timestamp_ms = now_ms;
    title = title;
    message = raw;
    state = working;
  }

  claude_kind : json.Json → String
  claude_kind v =
      let hook = field v "hook_event_name" "" in
      let ntype = if is_blank hook then field v "notification_type" hook else hook in
      if is_blank ntype then field v "event" ntype else ntype

  -- The state and the title that the kind of a Claude notification gives.
  claude_state : String → String → AgentState × String
  claude_state kind title =
      if kind == "permission_prompt" || kind == "PermissionPrompt"
      then (waiting_for_approval, first_text title "Permission needed")
      else if kind == "idle_prompt" || kind == "IdlePrompt"
      then (waiting_for_input, first_text title "Waiting for input")
      else if kind == "completed" || kind == "stop" || kind == "AgentTurnComplete"
      then (completed, first_text title "Task completed")
      else (working, title)

  claude_event : ℕ → String → json.Json → AgentEvent json.Json
  unfolding claude_kind claude_state
  claude_event now_ms default_id v =
      let message = field v "message" "" in
      let (state, title) = claude_state (claude_kind v) (field v "title" "") in
      record (new_event json) {
        provider = "claude";
        timestamp_ms = now_ms;
        session_id = field v "session_id" default_id;
        project_path = field v "cwd" "";
        title = title;
        message = if is_blank message then field v "assistant_response" message else message;
        state = state;
        metadata = v;
      }

  codex_state : Option String → AgentState × String
  codex_state none = (working, "")
  codex_state (some name) =
      if name == "stop" || name == "completed"
      then (completed, "Task completed")
      else if name == "approval" || name == "pre_tool_use"
      then (waiting_for_approval, "Approval required")
      else if name == "start"
      then (working, "Working...")
      else (working, "")

  codex_event : ℕ → String → json.Json → AgentEvent json.Json
  unfolding codex_state
  codex_event now_ms default_id v =
      let (state, title) = codex_state (string_at json v "event") in
      record (new_event json) {
        provider = "codex";
        timestamp_ms = now_ms;
        session_id = field v "session_id" default_id;
        project_path = field v "cwd" "";
        title = title;
        message = field v "message" "";
        state = state;
        metadata = v;
      }

  kiro_state : String → AgentState × String
  kiro_state trig =
      if trig == "AgentTurnComplete" || trig == "stop" || trig == "completed"
      then (completed, "Task completed")
      else if trig == "ApprovalRequired" || trig == "permission_prompt"
      then (waiting_for_approval, "Approval required")
      else (working, "")

  kiro_trigger : json.Json → String
  kiro_trigger v =
      let hook = field v "hook_event_name" "" in
      if is_blank hook then field v "trigger" hook else hook

  kiro_event : ℕ → String → json.Json → AgentEvent json.Json
  unfolding kiro_state kiro_trigger
  kiro_event now_ms default_id v =
      let message = field v "message" "" in
      let (state, title) = kiro_state (kiro_trigger v) in
      record (new_event json) {
        provider = "kiro";
        timestamp_ms = now_ms;
        session_id = field v "session_id" default_id;
        project_path = field v "cwd" "";
        title = title;
        message = if is_blank message then field v "assistant_response" message else message;
        state = state;
        metadata = v;
      }

  antigravity_event : ℕ → String → json.Json → AgentEvent json.Json
  antigravity_event now_ms default_id v = record (new_event json) {
    provider = "antigravity";
    timestamp_ms = now_ms;
    session_id = field v "session_id" default_id;
    project_path = field v "cwd" "";
    state = state_or_keep json (string_at json v "state") working;
    title = field v "title" "";
    message = field v "message" "";
    metadata = v;
  }

  -- A text is parsed, or it becomes the message.
  parsed_or_raw :
      (json.Json → AgentEvent json.Json)
      → String
      → String
      → ℕ
      → String
      → String
      → AgentEvent json.Json
  unfolding unparsed
  parsed_or_raw read provider title now_ms raw default_id = elim (json.parse raw) [
    | none ↦ unparsed provider title now_ms raw default_id
    | some v ↦ read v
  ]

  unfoldable pub normalize : ℕ → String → String → String → AgentEvent json.Json
  unfolding claude_event codex_event kiro_event antigravity_event parsed_or_raw
  normalize now_ms provider raw default_id =
      if provider == "claude"
      then parsed_or_raw (claude_event now_ms default_id) "claude" "Claude Code Notification" now_ms
          raw default_id
      else if provider == "codex"
      then parsed_or_raw (codex_event now_ms default_id) "codex" "Codex Notification" now_ms raw
          default_id
      else if provider == "kiro"
      then parsed_or_raw (kiro_event now_ms default_id) "kiro" "Kiro CLI Notification" now_ms raw
          default_id
      else parsed_or_raw (antigravity_event now_ms default_id) "antigravity"
          "Antigravity Notification" now_ms raw default_id
