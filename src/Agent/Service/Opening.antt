-- ===== src/Agent/Service/Opening.antt =====
-- From a published event to the window that its notification opens.
use holonightd.Prelude.{
  ℕ, ◌+◌, ◌≡◌, refl, ap, ◌∙◌, ◌≢◌, inl, inr, true, some, [], ◌∷◌, arith, eq_iff, ltb, if◌then◌else◌,
  Option-cases, nat_eq, text_eq,
}
use holonightd.Prelude.Map.{lookup}
use holonightd.Json.{JsonLib}
use holonightd.Agent.Event.{ActivationDescriptor, AgentSession, AgentEvent, valid}
use holonightd.Agent.Registry.{World, Sessions, update_session, publish_event, get_session}
use holonightd.Agent.Registry.Views.{published, notified, view-update_notification_id}
use holonightd.Agent.Bindings.{lifetime}
use holonightd.Agent.Bridge.{Desktop, answered, send_notification, handle_action}
use holonightd.Agent.Bridge.Bound.{bound_by}
use holonightd.Agent.Service.{
  Context, window_activation, announce, method_publish_event, requested, on_action_invoked,
}
use holonightd.Prelude.Map.{lookup-assign}
use holonightd.Agent.Service.Wellformed.{IsContext}

pub lookup_published :
    {Json : Type 0} (w : World) (e : AgentEvent Json) (m : Sessions)
    → get_session e.session_id (publish_event w e m).0
      ≡ some (published w e (get_session e.session_id m))
unfolding get_session publish_event
lookup_published w e m = elim (Option-cases (lookup e.session_id m)) [
  | inl h ↦
      rw (h, publish_event) (rw lookup-assign (ground (arith, eq_iff e.session_id e.session_id)))
  | inr (s, h) ↦
      rw (h, publish_event) (rw lookup-assign (ground (arith, eq_iff e.session_id e.session_id)))
]

module _ (json : JsonLib) where
  -- In a well-formed state, after an event is published for a session with a usable descriptor,
  -- and its notification gets an id other than 0 from the server, the action "open" on that id
  -- asks the shell for the window of the session for 24 hours after the notification, and for
  -- none later.
  pub open-publish :
      (w : World) (steady later t : ℕ) (desktop : Desktop) (assigned : ℕ) (e : AgentEvent json.Json)
      (ctx : Context) (s : AgentSession) (d : ActivationDescriptor)
      → IsContext ctx
      → get_session e.session_id ctx.registry ≡ some s
      → s.activation ≡ some d
      → valid d ≡ true
      → assigned ≢ 0
      → (on_action_invoked t assigned "open"
          (method_publish_event json w steady later desktop (answered assigned) e ctx).0).1
        ≡ (if ltb (later + lifetime) t then [] else window_activation d ∷ [])
  unfolding on_action_invoked method_publish_event announce handle_action requested update_session
  open-publish w steady later t desktop assigned e ctx s d h q a v ne =
      let p = lookup_published w e ctx.registry ∙ ap (λ o. some (published w e o)) q in
      let b =
        bound_by steady later t assigned s.notification_id (update_session w e s) d ctx.bindings
          h.bindings ne a v in
      rw (p, b) (ground arith)

  -- After an event is published whose notification gets an id from the server, the registry has
  -- the event's session with that id, for the next notification to replace.
  pub notification_id-publish :
      (w : World) (steady later : ℕ) (desktop : Desktop) (assigned : ℕ) (e : AgentEvent json.Json)
      (ctx : Context)
      → get_session e.session_id
          (method_publish_event json w steady later desktop (answered assigned) e ctx).0.registry
        ≡ notified assigned (some (published w e (get_session e.session_id ctx.registry)))
  unfolding method_publish_event announce send_notification
  notification_id-publish w steady later desktop assigned e ctx =
      let m = (publish_event w e ctx.registry).0 in
      let p = lookup_published w e ctx.registry in
      rw p (
        view-update_notification_id e.session_id assigned m e.session_id
        ∙ rw ((text_eq.test_iff e.session_id e.session_id).1 refl) (ap (notified assigned) p))
