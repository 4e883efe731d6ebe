-- ===== src/Agent/Activation.antt =====
-- ShellActivationClient of libs/agent/ShellActivationClient.cpp, and activateSession of
-- libs/agent/AgentActivity.cpp. What the session bus does with the call is an argument.
use holonightd.Prelude.{
  String, ◌≡◌, refl, Bool, true, false, not, ◌&&◌, Option, none, some, arith, if◌then◌else◌, ◌==◌,
  nat_eq, text_eq,
}
use holonightd.Prelude.Text.{ℤ, pos, negsuc}
use holonightd.Agent.Event.{ActivationDescriptor, AgentSession, valid}
use holonightd.Agent.Registry.{Sessions, get_session}

pub data ActivationDiagnostic : Type 0 where
  accepted rejected unavailable malformed_reply timeout : ActivationDiagnostic

pub record ActivationResult : Type 0 where
  pub accepted : Bool
  pub diagnostic : ActivationDiagnostic

abbrev refused : ActivationDiagnostic → ActivationResult
refused d = record { accepted = false; diagnostic = d }

answer : Option Bool → ActivationResult
answer none = refused malformed_reply
answer (some true) = record { accepted = true; diagnostic = accepted }
answer (some false) = refused rejected

-- -ETIMEDOUT, with ETIMEDOUT = 110
is_timeout : ℤ → Bool
is_timeout (pos n) = false
is_timeout (negsuc n) = n == 109

abbrev is_negative : ℤ → Bool
is_negative (pos n) = false
is_negative (negsuc n) = true

classify_call_result : ℤ → Option Bool → ActivationResult
unfolding answer is_timeout
classify_call_result call_result reply =
    if is_timeout call_result
    then refused timeout
    else if is_negative call_result
    then refused unavailable
    else answer reply

-- What becomes of a request: there is no bus; its message cannot be built; the call returns, with
-- the reply if there is one that can be read.
pub data ShellCall : Type 0 where
  no_bus not_built : ShellCall
  called : ℤ → Option Bool → ShellCall

called_result : ℤ → Option Bool → ActivationResult
unfolding classify_call_result
called_result result reply =
    if is_negative result
    then classify_call_result result none
    else classify_call_result result reply

perform : ShellCall → ActivationResult
unfolding called_result
perform no_bus = refused unavailable
perform not_built = refused unavailable
perform (called result reply) = called_result result reply

pub activate : ShellCall → ActivationDescriptor → ActivationResult
unfolding perform
activate call d = let result = perform call in if not (valid d) then refused unavailable else result

unfoldable pub activate_session : Sessions → ShellCall → String → Bool
unfolding get_session
activate_session registry call session_id = elim (get_session session_id registry) [
  | none ↦ false
  | some session ↦ elim session.activation [
    | none ↦ false
    | some d ↦ if not (valid d) then false else (activate call d).accepted
  ]
]

-- The shell said yes.
abbrev pub agrees : ShellCall → Bool
agrees no_bus = false
agrees not_built = false
agrees (called result none) = false
agrees (called result (some reply)) = not (is_negative result) && reply

abbrev pub activatable : Option AgentSession → Bool
activatable none = false
activatable (some session) = elim session.activation [ none ↦ false | some d ↦ valid d ]

perform-agrees : (call : ShellCall) → (perform call).accepted ≡ agrees call
unfolding perform classify_call_result
perform-agrees no_bus = refl
perform-agrees not_built = refl
perform-agrees (called (pos n) none) = refl
perform-agrees (called (pos n) (some true)) = refl
perform-agrees (called (pos n) (some false)) = refl
perform-agrees (called (negsuc n) none) = ground arith
perform-agrees (called (negsuc n) (some reply)) = ground arith

activate-agrees :
    (call : ShellCall) (o : Option ActivationDescriptor)
    → (elim o [
      | none ↦ false
      | some d ↦ if not (valid d) then false else (activate call d).accepted
    ])
      ≡ (elim o [ none ↦ false | some d ↦ valid d ] && agrees call)
unfolding activate
activate-agrees call none = refl
activate-agrees call (some d) = ground (arith, perform-agrees call)

-- Activation is accepted exactly for a session that is registered with a usable descriptor, and
-- where the shell returned true; a failed or unreadable call never counts as accepted.
pub activate_session_iff :
    (registry : Sessions) (call : ShellCall) (session_id : String)
    → activate_session registry call session_id
      ≡ (activatable (get_session session_id registry) && agrees call)
unfolding activate_session
activate_session_iff registry call session_id = by_session (get_session session_id registry)
  where
    by_session :
        (o : Option AgentSession)
        → (elim o [
          | none ↦ false
          | some session ↦ elim session.activation [
            | none ↦ false
            | some d ↦ if not (valid d) then false else (activate call d).accepted
          ]
        ])
          ≡ (activatable o && agrees call)
    by_session none = refl
    by_session (some session) = activate-agrees call session.activation
