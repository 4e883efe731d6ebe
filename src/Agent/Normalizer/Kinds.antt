-- ===== src/Agent/Normalizer/Kinds.antt =====
-- What an event of a hook says of its session, whichever provider wrote it.
use holonightd.Prelude.{
  ℕ, String, ◌≡◌, inl, inr, none, some, arith, if◌then◌else◌, Option-cases, ◌==◌, nat_eq, text_eq,
}
use holonightd.Json.{JsonLib, string_at, or_keep}
use holonightd.Agent.State.{working}
use holonightd.Agent.Normalizer.{unparsed, normalize}

-- The provider that an event is given: its own, if there is a normalizer for it.
pub provider_of : String → String
provider_of p =
    if p == "claude"
    then "claude"
    else if p == "codex"
    then "codex"
    else if p == "kiro"
    then "kiro"
    else "antigravity"

module _ (json : JsonLib) where
  -- The session id that a text gives an event.
  pub session_of : String → String → String
  session_of raw default_id = elim (json.parse raw) [
    | none ↦ default_id
    | some v ↦ or_keep (string_at json v "session_id") default_id
  ]

  -- Whatever the text, an event carries the provider of its normalizer, the session id that the
  -- text has as a string or else the default one, and the given time.
  pub normalize-session_of :
      (now_ms : ℕ) (p raw default_id : String)
      → ((normalize json now_ms p raw default_id).provider ≡ provider_of p)
        × ((normalize json now_ms p raw default_id).session_id ≡ session_of raw default_id)
        × ((normalize json now_ms p raw default_id).timestamp_ms ≡ now_ms)
  unfolding normalize unparsed provider_of session_of
  normalize-session_of now_ms p raw default_id = elim (Option-cases (json.parse raw)) [
    | inl e ↦ ground arith
    | inr (v, e) ↦ ground arith
  ]

  -- A text that is not JSON is not lost: it is the message of a working session's event.
  pub normalize-unparsed :
      (now_ms : ℕ) (p raw default_id : String)
      → json.parse raw ≡ none
      → ((normalize json now_ms p raw default_id).message ≡ raw)
        × ((normalize json now_ms p raw default_id).state ≡ working)
  unfolding normalize unparsed
  normalize-unparsed now_ms p raw default_id e = ground arith
