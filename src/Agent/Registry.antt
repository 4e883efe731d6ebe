-- ===== src/Agent/Registry.antt =====
-- SessionRegistry of libs/agent/SessionRegistry.cpp: the map of sessions, passed explicitly. Each
-- method holds one mutex for its whole body, so the methods are the steps.
pub mod Calls
pub mod Views
pub mod Invariant
use holonightd.Prelude.{
  ℕ, zero, suc, ◌+◌, ◌-◌, ◌*◌, ◌/◌, ◌%◌, ◌^◌, ◌≤◌, ◌<◌, min, String, ◌≡◌, refl, sym, ap, ◌∙◌, subst,
  ◌≢◌, ◌↔◌, ◌⊎◌, inl, inr, Bool, true, false, not, ◌&&◌, ◌||◌, Option, none, some, List, [], ◌∷◌,
  ◌++◌, map, arith, eq_iff, ltb, leb, if◌then◌else◌, Bool-cases, Option-cases, length, take,
  is_empty, length-take-le, length-append, keep_if, any, All, All-append, Eq, ◌==◌, nat_eq, text_eq,
}
use Prim.Native.Char.{code}
use Prim.Native.String.{◌++◌ as append}
use holonightd.Prelude.Map.{lookup, erase, assign, erase_if}
use holonightd.Prelude.Text.{decimal, utf8, is_blank}
use holonightd.Json.{JsonLib, string_at, or_keep}
use holonightd.Agent.State.{AgentState, starting}
use holonightd.Agent.Ancestry.{StatReader, read}
use holonightd.Agent.Event.{
  ActivationDescriptor, AgentSession, AgentEvent, valid, max_activation_title_bytes,
}

-- What a method reads of the world: the clock, the working directory (none: the call fails), and
-- the stat files.
pub record World : Type 0 where
  pub now : ℕ
  pub current_path : Option String
  pub stat : StatReader

abbrev pub Sessions : Type 0
Sessions = List (String × AgentSession)

-- What follows the last `/` of a path: std::filesystem::path::filename.
filename_from : String → String → String
filename_from tail String.[] = tail
filename_from tail (String.◌∷◌ c s) = filename_from (if code c == b'/' then s else tail) s

filename : String → String
unfolding filename_from
filename path = filename_from path path

unfoldable pub extract_project_name : Option String → String → String
unfolding filename
extract_project_name current path =
    let target = if is_blank path then or_keep current path else path in
    if is_blank target
    then "Global"
    else if is_blank (filename target)
    then target
    else filename target

unfoldable pub assigned_id : String → String → ℕ → String
unfolding decimal
assigned_id provider session_id pid =
    if is_blank session_id then append provider (append "-" (decimal pid)) else session_id

-- resize(min(size, kMaximumActivationTitleBytes))
cut_title : Option String → List ℕ
cut_title none = []
cut_title (some title) = take (min (length (utf8 title)) max_activation_title_bytes) (utf8 title)

module _ (json : JsonLib) where
  activation_of : World → ℕ → json.Json → Option ActivationDescriptor
  activation_of w pid metadata =
      let d : ActivationDescriptor = record {
        process_lineage = read w.stat pid;
        title_hint = cut_title (string_at json metadata "terminal_title");
      } in
      if valid d then some d else none

  unfoldable pub register_session :
      World → String → String → ℕ → String → json.Json → Sessions → Sessions × String
  unfolding activation_of cut_title
  register_session w provider session_id pid cwd metadata sessions =
      let id = assigned_id provider session_id pid in
      let session : AgentSession = record {
        session_id = id;
        provider = provider;
        project_name = extract_project_name w.current_path cwd;
        project_path = cwd;
        pid = pid;
        window_address = or_keep (string_at json metadata "window_address") "";
        current_state = starting;
        last_title = "";
        last_message = "";
        start_time = w.now;
        last_update_time = w.now;
        notification_id = 0;
        activation = activation_of w pid metadata;
      } in
      (assign id session sessions, id)

-- A text that an event carries replaces the old one unless it is empty.
abbrev unless_blank : String → String → String
unless_blank new old = if is_blank new then old else new

module _ {Json : Type 0} where
  -- The session that an event makes where there is none.
  unfoldable pub auto_register : World → AgentEvent Json → AgentSession
  auto_register w e = record {
    session_id = e.session_id;
    provider = e.provider;
    project_name = extract_project_name w.current_path e.project_path;
    project_path = e.project_path;
    pid = 0;
    window_address = "";
    current_state = e.state;
    last_title = e.title;
    last_message = e.message;
    start_time = w.now;
    last_update_time = w.now;
    notification_id = 0;
    activation = none;
  }

  -- What an event changes of the session that is there.
  unfoldable pub update_session : World → AgentEvent Json → AgentSession → AgentSession
  update_session w e s = record s {
    current_state = e.state;
    provider = unless_blank e.provider s.provider;
    project_path = unless_blank e.project_path s.project_path;
    project_name =
        if is_blank e.project_path
        then s.project_name
        else extract_project_name w.current_path e.project_path;
    last_title = unless_blank e.title s.last_title;
    last_message = unless_blank e.message s.last_message;
    last_update_time = w.now;
  }

  unfoldable pub publish_event : World → AgentEvent Json → Sessions → Sessions × Bool
  publish_event w e sessions = elim (lookup e.session_id sessions) [
    | none ↦ (assign e.session_id (auto_register w e) sessions, true)
    | some s ↦ (assign e.session_id (update_session w e s) sessions, true)
  ]

-- erase(session_id) > 0
unfoldable pub end_session : String → Sessions → Sessions × Bool
end_session id sessions = (erase id sessions, ltb 0 (length sessions - length (erase id sessions)))

unfoldable pub get_session : String → Sessions → Option AgentSession
get_session id sessions = lookup id sessions

list_sessions : Sessions → List AgentSession
list_sessions sessions = map (λ entry. entry.1) sessions

unfoldable pub update_notification_id : String → ℕ → Sessions → Sessions
update_notification_id id notif sessions = elim (lookup id sessions) [
  | none ↦ sessions
  | some s ↦ assign id (record s { notification_id = notif }) sessions
]

-- now - last_update_time > max_age, also where the clock was set back
unfoldable pub is_stale : ℕ → ℕ → AgentSession → Bool
is_stale now max_age s = ltb (s.last_update_time + max_age) now

unfoldable pub prune_stale_sessions : ℕ → ℕ → Sessions → Sessions
prune_stale_sessions now max_age sessions = erase_if (is_stale now max_age) sessions
