-- ===== src/Tests/Agents.antt =====
-- Runs of the agent daemon: one session with one notification.
use holonightd.Prelude.{
  any-none, All-map, ℕ, zero, suc, ◌+◌, ◌-◌, ◌*◌, ◌/◌, ◌%◌, ◌^◌, ◌≤◌, ◌<◌, min, String, ◌≡◌, refl,
  sym, ap, ◌∙◌, subst, ◌≢◌, ◌↔◌, ◌⊎◌, inl, inr, Bool, true, false, not, ◌&&◌, ◌||◌, Option, none,
  some, List, [], ◌∷◌, ◌++◌, map, arith, eq_iff, ltb, leb, if◌then◌else◌, Bool-cases, Option-cases,
  length, take, is_empty, length-take-le, length-append, keep_if, any, All, All-append, Eq, ◌==◌,
  nat_eq, text_eq, is_some, Some, any-Some, Some-any, is_empty-append, is_empty-keep_if, nat_eqb,
  nat_eqb_iff,
}
use holonightd.Prelude
use holonightd.Prelude.Map.{IsMap, lookup, unless}
use holonightd.Prelude.Text.{pos, utf8}
use holonightd.Agent.State.{working, waiting_for_input, to_string}
use holonightd.Agent.Event.{
  ActivationDescriptor, AgentSession, AgentEvent, new_event, valid, to_json, from_json,
}
use holonightd.Agent.Event.RoundTrip.{from_json-to_json}
use holonightd.Agent.Registry.{World, Sessions, get_session, end_session}
use holonightd.Agent.Registry.Calls
use holonightd.Agent.Registry.Calls.{run}
use holonightd.Agent.Registry.Invariant.{IsRegistry, IsActivatable?, get_session-run}
use holonightd.Agent.Registry.Views.{view, view_run, view-run, published}
use holonightd.Agent.Bindings.{Entries, consume, replace, prune, forget}
use holonightd.Agent.Bindings.Invariant.{IsBindings, replaces, step, step-IsBindings}
use holonightd.Agent.Bindings.Expiry.{consume-replace, Evicted, replace_others}
use holonightd.Agent.Bridge.{Desktop, answered, notification}
use holonightd.Agent.Activation.{
  called, activate_session, agrees, activatable, activate_session_iff,
}
use holonightd.Agent.Message.{max_len, truncate_message}
use holonightd.Agent.Message.Bounds.{IsPlain, truncate_message-IsPlain}
use holonightd.Agent.Service.{
  Context, session_changed, attention_requested, sent, window_activation, method_publish_event,
  on_action_invoked,
}
use holonightd.Agent.Service.Wellformed.{IsContext, publish, serve, serve-IsContext}
use holonightd.Agent.Service.Opening.{open-publish}
use holonightd.Agent.Service.Attention.{asked_of_user, method_publish_event_lem}
use holonightd.Tests.Samples.{
  parse_document, sample_json, sample_laws, Document, object_document, no_members,
}

abbrev world : World
world = record { now = 100; current_path = some "/home/u"; stat = λ pid. none }

abbrev terminal : ActivationDescriptor
terminal = record { process_lineage = 30 ∷ 20 ∷ []; title_hint = [] }

abbrev session : AgentSession
session = record {
  session_id = "s1";
  provider = "kiro";
  project_name = "u";
  project_path = "/home/u";
  pid = 30;
  window_address = "";
  current_state = working;
  last_title = "";
  last_message = "";
  start_time = 90;
  last_update_time = 90;
  notification_id = 0;
  activation = some terminal;
}

abbrev sessions : Sessions
sessions = ("s1", session) ∷ []

abbrev entries : Entries
entries = (7, record { descriptor = terminal; created_at = 50 }) ∷ []

abbrev context : Context
context = record { registry = sessions; bindings = entries }

abbrev event : AgentEvent Document
event = record (new_event sample_json) {
  session_id = "s1";
  provider = "kiro";
  state = waiting_for_input;
  title = "Your turn";
  metadata = object_document no_members;
  timestamp_ms = 5;
}

abbrev desktop : Desktop
desktop = record { home = none; exists = λ path. false; toupper = λ c. c }

sessions-IsRegistry : IsRegistry sessions
unfolding lookup valid
sessions-IsRegistry = record {
  is_map = (refl, tt);
  entries = (
    record {
      keyed = refl;
      activatable = record {
        usable = refl;
        short_lineage = omega arith;
        short_title = omega arith;
      };
    },
    tt,
  );
}

entries-IsMap : IsMap entries
unfolding lookup
entries-IsMap = (refl, tt)

entries-IsBindings : IsBindings entries
unfolding valid
entries-IsBindings = record {
  is_map = entries-IsMap;
  bindings = ((ground arith, refl), tt);
  bounded = omega arith;
}

context-IsContext : IsContext context
context-IsContext = record { registry = sessions-IsRegistry; bindings = entries-IsBindings }

terminal-valid : valid terminal ≡ true
unfolding valid
terminal-valid = refl

found : get_session "s1" sessions ≡ some session
unfolding get_session lookup
found = refl

serve-IsContext_example :
    IsContext (serve sample_json (publish world 90 110 desktop (answered 8) event) context)
serve-IsContext_example =
    serve-IsContext sample_json (publish world 90 110 desktop (answered 8) event) context
      context-IsContext

open-publish_example :
    (on_action_invoked 200 8 "open"
      (method_publish_event sample_json world 90 110 desktop (answered 8) event context).0).1
    ≡ window_activation terminal ∷ []
open-publish_example =
    open-publish sample_json world 90 110 200 desktop 8 event context session terminal
      context-IsContext found refl terminal-valid (ground arith)

method_publish_event_lem_example :
    let replaced = (published world event (get_session "s1" sessions)).notification_id in
    let replied =
      method_publish_event sample_json world 90 110 desktop (answered 8) event context in
    (replied.2 ≡ true)
    × ((s : AgentSession) × ((get_session "s1" replied.0.registry ≡ some s)
          × (s.current_state ≡ waiting_for_input)
          × (replied.1
              ≡ sent sample_json (answered 8) (notification desktop s event replaced)
                ++ session_changed "s1" (to_string waiting_for_input) "Your turn" ""
                  ∷ (if asked_of_user s.current_state
                      then attention_requested "s1" s.provider "Your turn" "" ∷ []
                      else []))))
method_publish_event_lem_example =
    method_publish_event_lem sample_json world 90 110 desktop (answered 8) event context

abbrev calls : List (Calls.Call sample_json)
calls = Calls.publish world event ∷ Calls.notify "s1" 8 ∷ []

view-run_example :
    view (run sample_json calls sessions) ≡ view_run sample_json calls (view sessions)
view-run_example = view-run sample_json calls sessions sessions-IsRegistry

abbrev made : AgentSession
made = record {
  session_id = "s1";
  provider = "kiro";
  project_name = "u";
  project_path = "";
  pid = 0;
  window_address = "";
  current_state = waiting_for_input;
  last_title = "Your turn";
  last_message = "";
  start_time = 100;
  last_update_time = 100;
  notification_id = 8;
  activation = none;
}

run-calls : get_session "s1" (run sample_json calls []) ≡ some made
unfolding get_session lookup run holonightd.Agent.Registry.update_notification_id
    holonightd.Agent.Registry.publish_event holonightd.Prelude.Map.assign
    holonightd.Agent.Registry.auto_register holonightd.Agent.Registry.extract_project_name
run-calls = refl

get_session-run_example : (made.session_id ≡ "s1") × IsActivatable? made.activation
get_session-run_example = get_session-run sample_json calls "s1" made run-calls

step-IsBindings_example : IsBindings (step (replaces 60 60 7 9 terminal) entries)
step-IsBindings_example = step-IsBindings (replaces 60 60 7 9 terminal) entries entries-IsBindings

consume-replace_example : (consume 70 9 (replace 60 60 7 9 terminal entries)).1 ≡ some terminal
consume-replace_example =
    consume-replace 60 60 70 7 9 terminal entries entries-IsBindings (ground arith) terminal-valid

replace_others_example :
    let kept = forget 0 (prune 60 entries) in
    let after = replace 60 60 0 9 terminal entries in
    (lookup 7 after ≡ lookup 7 kept) ⊎ (Evicted 7 kept after × (lookup 9 kept ≡ none))
replace_others_example =
    replace_others 60 60 0 9 7 terminal entries entries-IsBindings (ground arith)

activate_session_iff_example :
    activate_session sessions (called (pos 1) (some true)) "s1"
    ≡ (activatable (get_session "s1" sessions) && agrees (called (pos 1) (some true)))
activate_session_iff_example = activate_session_iff sessions (called (pos 1) (some true)) "s1"

truncate_message-IsPlain_example :
    (length (truncate_message (utf8 "one\ntwo")) ≤ max_len)
    × All IsPlain (truncate_message (utf8 "one\ntwo"))
truncate_message-IsPlain_example = truncate_message-IsPlain (utf8 "one\ntwo")

from_json-to_json_example : from_json sample_json (to_json sample_json event) ≡ event
from_json-to_json_example = from_json-to_json sample_json sample_laws event refl (omega arith)

unreadable : sample_json.parse "not JSON" ≡ none
unfolding parse_document
unreadable = refl
