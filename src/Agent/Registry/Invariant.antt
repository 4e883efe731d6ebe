-- ===== src/Agent/Registry/Invariant.antt =====
-- What holds of the registry after any calls.
use holonightd.Prelude.{
  ℕ, ◌≤◌, min, String, ◌≡◌, refl, inl, inr, true, Option, none, some, List, [], ◌∷◌, arith,
  Bool-cases, Option-cases, length, length-take-le, nat_eq, text_eq,
}
use holonightd.Prelude.Map.{
  IsMap, Entries, lookup, erase-IsMap, assign-IsMap, erase_if-IsMap, lookup-Entries, assign,
  assign-Entries, erase-Entries, erase_if-Entries,
}
use holonightd.Prelude.Text.{utf8}
use holonightd.Json.{JsonLib, string_at}
use holonightd.Agent.Ancestry.{max_lineage, read}
use holonightd.Agent.Ancestry.Lineage.{read-IsLineage}
use holonightd.Agent.Event.{
  ActivationDescriptor, AgentSession, AgentEvent, valid, max_activation_title_bytes,
}
use holonightd.Agent.Registry.{
  World, Sessions, cut_title, activation_of, register_session, auto_register, update_session,
  publish_event, end_session, get_session, update_notification_id, is_stale, prune_stale_sessions,
}
use holonightd.Agent.Registry.Calls.{Call, register, publish, end, notify, prune, step, run}

-- A descriptor that may be kept: not empty, and within the limits of both fields.
pub record IsActivatable (d : ActivationDescriptor) : Type 0 where
  pub usable : valid d ≡ true
  pub short_lineage : length d.process_lineage ≤ max_lineage
  pub short_title : length d.title_hint ≤ max_activation_title_bytes

abbrev pub IsActivatable? : Option ActivationDescriptor → Type 0
IsActivatable? none = Unit
IsActivatable? (some d) = IsActivatable d

pub record IsSession (id : String) (s : AgentSession) : Type 0 where
  pub keyed : s.session_id ≡ id
  pub activatable : IsActivatable? s.activation

pub record IsRegistry (m : Sessions) : Type 0 where
  pub is_map : IsMap m
  pub entries : Entries IsSession m

IsRegistry-assign :
    (id : String) (s : AgentSession) (m : Sessions)
    → IsSession id s
    → IsRegistry m
    → IsRegistry (assign id s m)
IsRegistry-assign id s m p h = record {
  is_map = assign-IsMap id s m h.is_map;
  entries = assign-Entries IsSession id s m p h.entries;
}

cut_title_short : (title : Option String) → length (cut_title title) ≤ max_activation_title_bytes
unfolding cut_title
cut_title_short none = omega arith
cut_title_short (some t) =
    omega (arith, length-take-le (min (length (utf8 t)) max_activation_title_bytes) (utf8 t))

module _ (json : JsonLib) where
  activation_of-IsActivatable :
      (w : World) (pid : ℕ) (metadata : json.Json)
      → IsActivatable? (activation_of json w pid metadata)
  unfolding activation_of
  activation_of-IsActivatable w pid metadata =
      elim (Bool-cases (
        valid (record {
          process_lineage = read w.stat pid;
          title_hint = cut_title (string_at json metadata "terminal_title");
        }))) [
          | inl e ↦ rw e (record {
            usable = e;
            short_lineage = (read-IsLineage w.stat pid).bounded;
            short_title = cut_title_short (string_at json metadata "terminal_title");
          })
          | inr e ↦ rw e tt
        ]

  register_session-IsRegistry :
      (w : World) (provider id : String) (pid : ℕ) (cwd : String) (metadata : json.Json)
      (m : Sessions)
      → IsRegistry m
      → IsRegistry (register_session json w provider id pid cwd metadata m).0
  unfolding register_session
  register_session-IsRegistry w provider id pid cwd metadata m h =
      IsRegistry-assign _ _ m
        (record { keyed = refl; activatable = activation_of-IsActivatable w pid metadata }) h

publish_event-IsRegistry :
    {Json : Type 0} (w : World) (e : AgentEvent Json) (m : Sessions)
    → IsRegistry m
    → IsRegistry (publish_event w e m).0
unfolding publish_event auto_register update_session
publish_event-IsRegistry w e m h = elim (Option-cases (lookup e.session_id m)) [
  | inl q ↦
      rw (q, publish_event) (IsRegistry-assign _ _ m (record { keyed = refl; activatable = tt }) h)
  | inr (s, q) ↦
      let old = lookup-Entries IsSession e.session_id s m h.entries q in
      rw (q, publish_event)
        (IsRegistry-assign _ _ m (record { keyed = old.keyed; activatable = old.activatable }) h)
]

update_notification_id-IsRegistry :
    (id : String) (n : ℕ) (m : Sessions) → IsRegistry m → IsRegistry (update_notification_id id n m)
unfolding update_notification_id
update_notification_id-IsRegistry id n m h = elim (Option-cases (lookup id m)) [
  | inl q ↦ rw (q, update_notification_id) h
  | inr (s, q) ↦
      let old = lookup-Entries IsSession id s m h.entries q in
      rw (q, update_notification_id)
        (IsRegistry-assign _ _ m (record { keyed = old.keyed; activatable = old.activatable }) h)
]

module _ (json : JsonLib) where
  -- Every call keeps the keys distinct, each equal to its session's id, and the descriptors valid
  -- and within their limits.
  pub step-IsRegistry : (c : Call json) (m : Sessions) → IsRegistry m → IsRegistry (step json c m)
  unfolding step end_session prune_stale_sessions
  step-IsRegistry (register w provider id pid cwd metadata) m h =
      register_session-IsRegistry json w provider id pid cwd metadata m h
  step-IsRegistry (publish w e) m h = publish_event-IsRegistry w e m h
  step-IsRegistry (end id) m h = record {
    is_map = erase-IsMap id m h.is_map;
    entries = erase-Entries IsSession id m h.entries;
  }
  step-IsRegistry (notify id n) m h = update_notification_id-IsRegistry id n m h
  step-IsRegistry (prune now age) m h = record {
    is_map = erase_if-IsMap (is_stale now age) m h.is_map;
    entries = erase_if-Entries IsSession (is_stale now age) m h.entries;
  }

  run-IsRegistry :
      (cs : List (Call json)) (m : Sessions) → IsRegistry m → IsRegistry (run json cs m)
  unfolding run
  run-IsRegistry [] m h = h
  run-IsRegistry (c ∷ cs) m h = run-IsRegistry cs (step json c m) (step-IsRegistry c m h)

  -- After any calls on a new registry, a session that `get_session` returns has the id asked for,
  -- and its activation descriptor, if it has one, names 1 to 64 processes and a title of at most
  -- 512 bytes.
  pub get_session-run :
      (cs : List (Call json)) (id : String) (s : AgentSession)
      → get_session id (run json cs []) ≡ some s
      → (s.session_id ≡ id) × IsActivatable? s.activation
  unfolding get_session
  get_session-run cs id s q =
      let h =
        lookup-Entries IsSession id s _
          (run-IsRegistry cs [] (record { is_map = tt; entries = tt })).entries q in
      (h.keyed, h.activatable)
