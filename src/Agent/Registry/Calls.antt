-- ===== src/Agent/Registry/Calls.antt =====
-- The methods that change the registry, as calls, and what a sequence of them does.
use holonightd.Prelude.{ℕ, String, List, [], ◌∷◌, nat_eq, text_eq}
use holonightd.Json.{JsonLib}
use holonightd.Agent.Event.{AgentEvent}
use holonightd.Agent.Registry.{
  World, Sessions, register_session, publish_event, end_session, update_notification_id,
  prune_stale_sessions,
}

pub data Call (json : JsonLib) : Type 0 where
  register : World → String → String → ℕ → String → json.Json → Call json
  publish : World → AgentEvent json.Json → Call json
  end : String → Call json
  notify : String → ℕ → Call json
  prune : ℕ → ℕ → Call json

module _ (json : JsonLib) where
  unfoldable pub step : Call json → Sessions → Sessions
  step (register w provider id pid cwd metadata) m =
      (register_session json w provider id pid cwd metadata m).0
  step (publish w e) m = (publish_event w e m).0
  step (end id) m = (end_session id m).0
  step (notify id n) m = update_notification_id id n m
  step (prune now age) m = prune_stale_sessions now age m

  unfoldable pub run : List (Call json) → Sessions → Sessions
  unfolding step
  run [] m = m
  run (c ∷ cs) m = run cs (step c m)
