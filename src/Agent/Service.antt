-- ===== src/Agent/Service.antt =====
-- The D-Bus methods of apps/agentd/main.cpp, and the signals of the notification server that reach
-- the daemon: what each does to the registry and the bindings, what it emits and what it returns.
-- One thread processes them, so they are the steps of the daemon.
pub mod Attention
pub mod Wellformed
pub mod Opening
use holonightd.Prelude.{
  ℕ, zero, suc, ◌+◌, ◌-◌, ◌*◌, ◌/◌, ◌%◌, ◌^◌, ◌≤◌, ◌<◌, min, String, ◌≡◌, refl, sym, ap, ◌∙◌, subst,
  ◌≢◌, ◌↔◌, ◌⊎◌, inl, inr, Bool, true, false, not, ◌&&◌, ◌||◌, Option, none, some, List, [], ◌∷◌,
  ◌++◌, map, arith, eq_iff, ltb, leb, if◌then◌else◌, Bool-cases, Option-cases, length, take,
  is_empty, length-take-le, length-append, keep_if, any, All, All-append, Eq, ◌==◌, nat_eq, text_eq,
  is_some, Some, any-Some, Some-any, is_empty-append, is_empty-keep_if, nat_eqb, nat_eqb_iff,
}
use holonightd.Prelude.Text.{is_blank}
use holonightd.Json.{JsonLib, or_keep}
use holonightd.Agent.State.{
  AgentState, working, waiting_for_approval, waiting_for_input, to_string, agent_state_from_string,
}
use holonightd.Agent.Event.{ActivationDescriptor, AgentSession, AgentEvent, new_event}
use holonightd.Agent.Registry.{
  World, Sessions, register_session, publish_event, end_session, get_session,
  update_notification_id, prune_stale_sessions,
}
use holonightd.Agent.Bindings.{Entries}
use holonightd.Agent.Bridge.{
  Desktop, Notification, NotifyOutcome, not_sent, notification, send_notification, handle_action,
  handle_closed,
}
use holonightd.Agent.Activation.{ShellCall, activate_session}

-- AppContext, with the bindings of its notification bridge.
pub record Context : Type 0 where
  pub registry : Sessions
  pub bindings : Entries

-- What the daemon sends: its four signals, a call of Notify, and a request to the shell.
pub data Output : Type 0 where
  session_added : String → String → String → Output
  session_changed : String → String → String → String → Output
  attention_requested : String → String → String → String → Output
  session_removed : String → String → Output
  notify : Notification → Output
  window_activation : ActivationDescriptor → Output

-- pruneStaleSessions' default max_age, 24 hours in nanoseconds
abbrev pub max_age : ℕ
max_age = 86_400_000_000_000

unfoldable pub needs_attention : AgentState → Bool
needs_attention waiting_for_approval = true
needs_attention waiting_for_input = true
needs_attention _ = false

-- An error return of sd_bus_message_read changes nothing, and is not shown here.
module _ (json : JsonLib) where
  parse_metadata : String → json.Json
  parse_metadata text = if is_blank text then json.null else or_keep (json.parse text) json.null

  unfoldable pub method_register_session :
      World → String → String → ℕ → String → String → Context → Context × List Output × String
  unfolding parse_metadata
  method_register_session w provider session_id pid cwd metadata_json ctx =
      let (registry, assigned) =
        register_session json w provider session_id pid cwd (parse_metadata metadata_json)
          ctx.registry in
      (record ctx { registry = registry }, session_added assigned provider cwd ∷ [], assigned)

  published_event : String → String → String → String → String → String → AgentEvent json.Json
  published_event session_id provider cwd state_str title message = record (new_event json) {
    session_id = session_id;
    provider = provider;
    project_path = cwd;
    title = title;
    message = message;
    state = or_keep (agent_state_from_string state_str) working;
  }

  -- The signals of a published event, for the session as getSession returned it.
  event_signals : AgentEvent json.Json → AgentSession → List Output
  unfolding needs_attention
  event_signals e s =
      session_changed e.session_id (to_string e.state) e.title e.message
      ∷ (if needs_attention e.state
          then attention_requested e.session_id s.provider e.title e.message ∷ []
          else [])

  unfoldable pub sent : NotifyOutcome → Notification → List Output
  sent not_sent n = []
  sent _ n = notify n ∷ []

  -- The notification of an event and its signals, if there is a session.
  announce :
      ℕ
      → ℕ
      → Desktop
      → NotifyOutcome
      → AgentEvent json.Json
      → Option AgentSession
      → Context
      → Context × List Output
  unfolding event_signals sent
  announce steady later desktop outcome e none ctx = (ctx, [])
  announce steady later desktop outcome e (some s) ctx =
      let (bindings, notif_id) =
        send_notification steady later outcome s s.notification_id ctx.bindings in
      (
        record {
          registry = update_notification_id e.session_id notif_id ctx.registry;
          bindings = bindings;
        },
        sent outcome (notification desktop s e s.notification_id) ++ event_signals e s,
      )

  -- `steady` and `later` are the two readings of steady_clock that the binding takes; the registry
  -- reads system_clock.
  unfoldable pub method_publish_event :
      World
      → ℕ
      → ℕ
      → Desktop
      → NotifyOutcome
      → AgentEvent json.Json
      → Context
      → Context × List Output × Bool
  unfolding announce
  method_publish_event w steady later desktop outcome e ctx =
      let (registry, is_success) = publish_event w e ctx.registry in
      let (ctx', outputs) =
        announce steady later desktop outcome e (get_session e.session_id registry)
          (record ctx { registry = registry }) in
      (ctx', outputs, is_success)

unfoldable pub method_end_session : String → String → Context → Context × List Output × Bool
method_end_session session_id result ctx =
    let (registry, is_success) = end_session session_id ctx.registry in
    (record ctx { registry = registry }, session_removed session_id result ∷ [], is_success)

method_activate_session : String → ShellCall → Context → Bool
method_activate_session session_id call ctx = activate_session ctx.registry call session_id

requested : Option ActivationDescriptor → List Output
requested none = []
requested (some d) = window_activation d ∷ []

-- ActionInvoked
unfoldable pub on_action_invoked : ℕ → ℕ → String → Context → Context × List Output
unfolding requested
on_action_invoked now notification_id action_key ctx =
    let (bindings, descriptor) = handle_action now notification_id action_key ctx.bindings in
    (record ctx { bindings = bindings }, requested descriptor)

-- NotificationClosed
unfoldable pub on_notification_closed : ℕ → Context → Context
on_notification_closed notification_id ctx = record ctx {
  bindings = handle_closed notification_id ctx.bindings;
}

-- The body of the main loop where there was nothing to process: the registry is pruned once a
-- minute. Times in nanoseconds, `steady` and `steady'` of steady_clock.
unfoldable pub idle : ℕ → ℕ → ℕ → ℕ → Context → Context × ℕ
idle now steady steady' next_prune ctx =
    if leb next_prune steady
    then (
      record ctx { registry = prune_stale_sessions now max_age ctx.registry },
      steady' + 60_000_000_000,
    )
    else (ctx, next_prune)
