-- ===== src/Agent/Service/Attention.antt =====
-- What a published event is answered with.
use holonightd.Prelude.{
  ℕ, ◌≡◌, refl, ap, ◌∙◌, Bool, false, Option, none, some, inl, inr, true, [], ◌∷◌, ◌++◌,
  if◌then◌else◌, Option-cases, nat_eq, text_eq,
}
use holonightd.Prelude.Map.{lookup}
use holonightd.Json.{JsonLib}
use holonightd.Agent.State.{
  AgentState, starting, working, waiting_for_approval, waiting_for_input, completed, failed,
  cancelled, to_string,
}
use holonightd.Agent.Event.{AgentEvent, AgentSession}
use holonightd.Agent.Registry.{
  World, Sessions, publish_event, get_session, update_session, auto_register,
}
use holonightd.Agent.Registry.Views.{published, notified, view-update_notification_id}
use holonightd.Agent.Bridge.{Desktop, NotifyOutcome, notification, send_notification}
use holonightd.Agent.Service.{
  Context, session_changed, attention_requested, needs_attention, event_signals, sent, announce,
  method_publish_event,
}
use holonightd.Agent.Service.Opening.{lookup_published}

publish_event-success :
    {Json : Type 0} (w : World) (e : AgentEvent Json) (m : Sessions)
    → (publish_event w e m).1 ≡ true
unfolding publish_event
publish_event-success w e m = elim (Option-cases (lookup e.session_id m)) [
  | inl h ↦ rw (h, publish_event) refl
  | inr (s, h) ↦ rw (h, publish_event) refl
]

-- The event of a session asks for the user where the agent waits for an approval or for input,
-- and in no other state.
abbrev pub asked_of_user : AgentState → Bool
asked_of_user starting = false
asked_of_user working = false
asked_of_user waiting_for_approval = true
asked_of_user waiting_for_input = true
asked_of_user completed = false
asked_of_user failed = false
asked_of_user cancelled = false

needs_attention-asked_of_user : (s : AgentState) → needs_attention s ≡ asked_of_user s
unfolding needs_attention
needs_attention-asked_of_user starting = refl
needs_attention-asked_of_user working = refl
needs_attention-asked_of_user waiting_for_approval = refl
needs_attention-asked_of_user waiting_for_input = refl
needs_attention-asked_of_user completed = refl
needs_attention-asked_of_user failed = refl
needs_attention-asked_of_user cancelled = refl

published-current_state :
    {Json : Type 0} (w : World) (e : AgentEvent Json) (o : Option AgentSession)
    → (published w e o).current_state ≡ e.state
unfolding update_session auto_register
published-current_state w e none = refl
published-current_state w e (some s) = refl

module _ (json : JsonLib) where
  -- Publishing an event always succeeds and leaves a session of the event in the registry, in the
  -- event's state. After the notification, if one is sent, SessionChanged is emitted with the
  -- event's texts, and then AttentionRequested, with the provider that the registry has, exactly
  -- where that session waits for approval or for input.
  pub method_publish_event_lem :
      (w : World) (steady later : ℕ) (desktop : Desktop) (outcome : NotifyOutcome)
      (e : AgentEvent json.Json) (ctx : Context)
      → let replaced = (published w e (get_session e.session_id ctx.registry)).notification_id in
        let replied = method_publish_event json w steady later desktop outcome e ctx in
        (replied.2 ≡ true)
        × ((s : AgentSession) × ((get_session e.session_id replied.0.registry ≡ some s)
              × (s.current_state ≡ e.state)
              × (replied.1
                  ≡ sent json outcome (notification desktop s e replaced)
                    ++ session_changed e.session_id (to_string e.state) e.title e.message
                      ∷ (if asked_of_user s.current_state
                          then attention_requested e.session_id s.provider e.title e.message ∷ []
                          else []))))
  unfolding method_publish_event announce event_signals get_session lookup notification
  method_publish_event_lem w steady later desktop outcome e ctx =
      let old = get_session e.session_id ctx.registry in
      let s = published w e old in
      let m = (publish_event w e ctx.registry).0 in
      let p = lookup_published w e ctx.registry in
      let id = (send_notification steady later outcome s s.notification_id ctx.bindings).1 in
      let same = published-current_state w e old in
      (
        publish_event-success w e ctx.registry,
        (
          record s { notification_id = id },
          (
            rw p (
                view-update_notification_id e.session_id id m e.session_id
                ∙ rw ((text_eq.test_iff e.session_id e.session_id).1 refl) (ap (notified id) p)),
            same,
            rw (p, same, needs_attention-asked_of_user e.state) refl,
          ),
        ),
      )
