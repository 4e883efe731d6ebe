-- ===== src/Agent/Service/Wellformed.antt =====
-- What holds of the daemon's state after any requests.
use holonightd.Prelude.{
  ℕ, String, inl, inr, Option, none, some, leb, Bool-cases, ◌==◌, nat_eq, text_eq,
}
use holonightd.Json.{JsonLib}
use holonightd.Agent.Event.{AgentSession, AgentEvent}
use holonightd.Agent.Registry.{World}
use holonightd.Agent.Registry.Calls
use holonightd.Agent.Registry.Invariant.{IsRegistry, step-IsRegistry}
use holonightd.Agent.Bindings.Invariant.{IsBindings, replace-IsBindings, step-IsBindings}
use holonightd.Agent.Bindings.Invariant
use holonightd.Agent.Bridge.{Desktop, NotifyOutcome, handle_action, handle_closed}
use holonightd.Agent.Bridge.Bound.{send_notification-IsBindings}
use holonightd.Agent.Service.{
  Context, max_age, parse_metadata, method_register_session, announce, method_publish_event,
  method_end_session, on_action_invoked, on_notification_closed, idle,
}

pub record IsContext (ctx : Context) : Type 0 where
  pub registry : IsRegistry ctx.registry
  pub bindings : IsBindings ctx.bindings

-- What reaches the main loop.
pub data Request (json : JsonLib) : Type 0 where
  register : World → String → String → ℕ → String → String → Request json
  publish : World → ℕ → ℕ → Desktop → NotifyOutcome → AgentEvent json.Json → Request json
  end : String → String → Request json
  action : ℕ → ℕ → String → Request json
  closed : ℕ → Request json
  nothing : ℕ → ℕ → ℕ → ℕ → Request json

module _ (json : JsonLib) where
  unfoldable pub serve : Request json → Context → Context
  serve (register w provider id pid cwd metadata) ctx =
      (method_register_session json w provider id pid cwd metadata ctx).0
  serve (publish w steady later desktop outcome e) ctx =
      (method_publish_event json w steady later desktop outcome e ctx).0
  serve (end id result) ctx = (method_end_session id result ctx).0
  serve (action now id key) ctx = (on_action_invoked now id key ctx).0
  serve (closed id) ctx = on_notification_closed id ctx
  serve (nothing now steady steady' next) ctx = (idle now steady steady' next ctx).0

  announce-IsContext :
      (steady later : ℕ) (desktop : Desktop) (outcome : NotifyOutcome) (e : AgentEvent json.Json)
      (o : Option AgentSession) (ctx : Context)
      → IsContext ctx
      → IsContext (announce json steady later desktop outcome e o ctx).0
  unfolding announce Calls.step
  announce-IsContext steady later desktop outcome e none ctx h = h
  announce-IsContext steady later desktop outcome e (some s) ctx h = record {
    registry = step-IsRegistry json (Calls.notify e.session_id _) ctx.registry h.registry;
    bindings =
        send_notification-IsBindings steady later outcome s s.notification_id ctx.bindings
          h.bindings;
  }

  -- Every request keeps the registry and the bindings well formed: sessions under their own ids,
  -- descriptors usable and within their limits, at most 256 bindings.
  pub serve-IsContext : (r : Request json) (ctx : Context) → IsContext ctx → IsContext (serve r ctx)
  unfolding serve method_register_session method_publish_event method_end_session on_action_invoked
      on_notification_closed idle handle_action handle_closed Calls.step Invariant.step
  serve-IsContext (register w provider id pid cwd metadata) ctx h = record {
    registry =
        step-IsRegistry json (Calls.register w provider id pid cwd (parse_metadata json metadata))
          ctx.registry h.registry;
    bindings = h.bindings;
  }
  serve-IsContext (publish w steady later desktop outcome e) ctx h =
      announce-IsContext steady later desktop outcome e _ _ (record {
        registry = step-IsRegistry json (Calls.publish w e) ctx.registry h.registry;
        bindings = h.bindings;
      })
  serve-IsContext (end id result) ctx h = record {
    registry = step-IsRegistry json (Calls.end id) ctx.registry h.registry;
    bindings = h.bindings;
  }
  serve-IsContext (action now id key) ctx h = elim (Bool-cases (key == "open")) [
    | inl e ↦ rw e (record {
      registry = h.registry;
      bindings = step-IsBindings (Invariant.consumes now id) ctx.bindings h.bindings;
    })
    | inr e ↦ rw e (record { registry = h.registry; bindings = h.bindings })
  ]
  serve-IsContext (closed id) ctx h = record {
    registry = h.registry;
    bindings = step-IsBindings (Invariant.closes id) ctx.bindings h.bindings;
  }
  serve-IsContext (nothing now steady steady' next) ctx h = elim (Bool-cases (leb next steady)) [
    | inl e ↦
        rw (e, serve, idle)
          (record {
            registry = step-IsRegistry json (Calls.prune now max_age) ctx.registry h.registry;
            bindings = h.bindings;
          })
    | inr e ↦ rw (e, serve, idle) h
  ]
