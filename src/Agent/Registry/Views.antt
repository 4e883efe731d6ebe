-- ===== src/Agent/Registry/Views.antt =====
-- What each method does to the session under each key: the registry as a function from session
-- ids to sessions.
use mathlib.Core.Path.{fun_ext}
use holonightd.Prelude.{
  ℕ, String, ◌≡◌, refl, ap, ◌∙◌, inl, inr, Option, none, some, List, [], ◌∷◌, arith, eq_iff,
  if◌then◌else◌, Option-cases, ◌==◌, nat_eq, text_eq, is_some,
}
use holonightd.Prelude.Map.{
  IsMap, lookup, lookup-assign, lookup-erase, lookup-erase_if, unless, erase_missing,
  length-erase-lt,
}
use holonightd.Json.{JsonLib, string_at, or_keep}
use holonightd.Agent.State.{starting}
use holonightd.Agent.Event.{AgentSession, AgentEvent}
use holonightd.Agent.Registry.{
  World, Sessions, assigned_id, extract_project_name, activation_of, register_session,
  auto_register, update_session, publish_event, end_session, get_session, update_notification_id,
  is_stale, prune_stale_sessions,
}
use holonightd.Agent.Registry.Calls.{Call, register, publish, end, notify, prune, step, run}
use holonightd.Agent.Registry.Invariant.{IsRegistry, step-IsRegistry}

abbrev View : Type 0
View = String → Option AgentSession

abbrev at_key : String → Option AgentSession → View → View
at_key k new v j = if k == j then new else v j

abbrev pub notified : ℕ → Option AgentSession → Option AgentSession
notified n none = none
notified n (some s) = some (record s { notification_id = n })

module _ {Json : Type 0} where
  -- The session that an event leaves under its key.
  abbrev pub published : World → AgentEvent Json → Option AgentSession → AgentSession
  published w e none = auto_register w e
  published w e (some s) = update_session w e s

module _ (json : JsonLib) where
  pub registered : World → String → String → ℕ → String → json.Json → AgentSession
  registered w provider id pid cwd metadata = record {
    session_id = assigned_id provider id pid;
    provider = provider;
    project_name = extract_project_name w.current_path cwd;
    project_path = cwd;
    pid = pid;
    window_address = or_keep (string_at json metadata "window_address") "";
    current_state = starting;
    last_title = "";
    last_message = "";
    start_time = w.now;
    last_update_time = w.now;
    notification_id = 0;
    activation = activation_of json w pid metadata;
  }

  -- The registry as a client sees it: one session or none under each id.
  view_step : Call json → View → View
  view_step (register w provider id pid cwd metadata) v =
      at_key (assigned_id provider id pid) (some (registered w provider id pid cwd metadata)) v
  view_step (publish w e) v = at_key e.session_id (some (published w e (v e.session_id))) v
  view_step (end id) v = at_key id none v
  view_step (notify id n) v = at_key id (notified n (v id)) v
  view_step (prune now age) v = λ j. unless (is_stale now age) (v j)

  pub view_run : List (Call json) → View → View
  view_run [] v = v
  view_run (c ∷ cs) v = view_run cs (view_step c v)

abbrev pub view : Sessions → View
view m id = get_session id m

view-publish_event :
    {Json : Type 0} (w : World) (e : AgentEvent Json) (m : Sessions) (j : String)
    → view (publish_event w e m).0 j
      ≡ at_key e.session_id (some (published w e (view m e.session_id))) (view m) j
unfolding get_session publish_event
view-publish_event w e m j = elim (Option-cases (lookup e.session_id m)) [
  | inl h ↦ rw (h, publish_event) (lookup-assign e.session_id j _ m)
  | inr (s, h) ↦ rw (h, publish_event) (lookup-assign e.session_id j _ m)
]

pub view-update_notification_id :
    (id : String) (n : ℕ) (m : Sessions) (j : String)
    → view (update_notification_id id n m) j ≡ at_key id (notified n (view m id)) (view m) j
unfolding get_session update_notification_id
view-update_notification_id id n m j = elim (Option-cases (lookup id m)) [
  | inl h ↦ rw (h, update_notification_id) (ground (arith, eq_iff id j))
  | inr (s, h) ↦ rw (h, update_notification_id) (lookup-assign id j _ m)
]

module _ (json : JsonLib) where
  view-step :
      (c : Call json) (m : Sessions) (j : String)
      → IsMap m
      → view (step json c m) j ≡ view_step json c (view m) j
  unfolding step view_step
  view-step (register w provider id pid cwd metadata) m j h =
      unfold get_session register_session registered in lookup-assign _ j _ m
  view-step (publish w e) m j h = view-publish_event w e m j
  view-step (end id) m j h = unfold get_session end_session in lookup-erase id j m
  view-step (notify id n) m j h = view-update_notification_id id n m j
  view-step (prune now age) m j h =
      unfold get_session prune_stale_sessions in lookup-erase_if (is_stale now age) j m h

  -- The hash map implements one optional session per id: after any calls on a valid registry,
  -- `get_session` returns what the calls make of that function.
  pub view-run :
      (cs : List (Call json)) (m : Sessions)
      → IsRegistry m
      → view (run json cs m) ≡ view_run json cs (view m)
  unfolding run view_run
  view-run [] m h = refl
  view-run (c ∷ cs) m h =
      view-run cs (step json c m) (step-IsRegistry json c m h)
      ∙ ap (view_run json cs) (fun_ext (λ j. view-step c m j h.is_map))

-- Ending a session succeeds exactly where there was one under the id.
pub end_session-found :
    (id : String) (m : Sessions) → (end_session id m).1 ≡ is_some (get_session id m)
unfolding end_session get_session
end_session-found id m = elim (Option-cases (lookup id m)) [
  | inl e ↦ rw (e, erase_missing id m e) (ground arith)
  | inr (s, e) ↦ rw e (let h = length-erase-lt id m s e in ground arith)
]
