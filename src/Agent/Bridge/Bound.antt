-- ===== src/Agent/Bridge/Bound.antt =====
-- What a notification leaves bound.
use holonightd.Prelude.{
  ℕ, ◌+◌, ◌≡◌, sym, subst, ◌≢◌, inl, inr, Bool, true, false, Option, none, some, arith, ltb,
  if◌then◌else◌, Bool-cases, ◌==◌, nat_eq, text_eq,
}
use holonightd.Agent.Event.{ActivationDescriptor, AgentSession, valid}
use holonightd.Agent.Bindings.{Entries, lifetime, consume}
use holonightd.Agent.Bindings.Invariant.{IsBindings, replace-IsBindings}
use holonightd.Agent.Bindings.Expiry.{consume-replace}
use holonightd.Agent.Bridge.{
  NotifyOutcome, not_sent, unanswered, answered, bind_notification, bind_if_activatable,
  send_notification,
}

pub send_notification-IsBindings :
    (now later : ℕ) (outcome : NotifyOutcome) (s : AgentSession) (id : ℕ) (m : Entries)
    → IsBindings m
    → IsBindings (send_notification now later outcome s id m).0
unfolding send_notification bind_if_activatable
send_notification-IsBindings now later not_sent s id m h = h
send_notification-IsBindings now later unanswered s id m h = h
send_notification-IsBindings now later (answered assigned) s id m h = bound s.activation
  where
    bound :
        (o : Option ActivationDescriptor)
        → IsBindings (bind_if_activatable now later id assigned o m)
    bound none = h
    bound (some d) = elim (Bool-cases (assigned == 0)) [
      | inl e ↦ rw e h
      | inr e ↦ rw e (unfold bind_notification in replace-IsBindings now later id assigned d m h)
    ]

-- The descriptor of a session is what its notification's id is bound to, for 24 hours.
pub bound_by :
    (now later t assigned id : ℕ) (s : AgentSession) (d : ActivationDescriptor) (m : Entries)
    → IsBindings m
    → assigned ≢ 0
    → s.activation ≡ some d
    → valid d ≡ true
    → (consume t assigned (send_notification now later (answered assigned) s id m).0).1
      ≡ (if ltb (later + lifetime) t then none else some d)
unfolding send_notification bind_if_activatable bind_notification
bound_by now later t assigned id s d m h ne q v =
    subst
      (λ (o : Option ActivationDescriptor).
        (consume t assigned (bind_if_activatable now later id assigned o m)).1
        ≡ (if ltb (later + lifetime) t then none else some d))
      (sym q)
      (subst
        (λ (b : Bool).
          (consume t assigned (if b then m else bind_notification now later id assigned d m)).1
          ≡ (if ltb (later + lifetime) t then none else some d))
        (sym zero_test) (consume-replace now later t id assigned d m h ne v))
  where
    zero_test : (assigned == 0) ≡ false
    zero_test = ground arith
