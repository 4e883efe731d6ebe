-- ===== src/Agent/State/Spelling.antt =====
-- Which texts name which agent state.
use holonightd.Prelude.{
  String, ◌≡◌, refl, ◌↔◌, sym, subst, All, Bool, true, false, ◌||◌, ◌⊎◌, inl, inr, Option, none,
  some, List, [], ◌∷◌, arith, eq_iff, ◌==◌, text_eq, if◌then◌else◌,
}
use holonightd.Agent.State.{
  AgentState, starting, working, waiting_for_approval, waiting_for_input, completed, failed,
  cancelled, to_string, agent_state_from_string,
}

-- A state is read back from its name.
pub agent_state_from_string-to_string :
    (s : AgentState) → agent_state_from_string (to_string s) ≡ some s
unfolding agent_state_from_string to_string
agent_state_from_string-to_string starting = refl
agent_state_from_string-to_string working = refl
agent_state_from_string-to_string waiting_for_approval = refl
agent_state_from_string-to_string waiting_for_input = refl
agent_state_from_string-to_string completed = refl
agent_state_from_string-to_string failed = refl
agent_state_from_string-to_string cancelled = refl

-- The accepted spellings of each state.
abbrev pub spellings : AgentState → List String
spellings starting = "Starting" ∷ "starting" ∷ []
spellings working = "Working" ∷ "working" ∷ []
spellings waiting_for_approval =
    "WaitingForApproval" ∷ "waiting_for_approval" ∷ "permission_prompt" ∷ []
spellings waiting_for_input = "WaitingForInput" ∷ "waiting_for_input" ∷ "idle_prompt" ∷ []
spellings completed = "Completed" ∷ "completed" ∷ "stop" ∷ []
spellings failed = "Failed" ∷ "failed" ∷ "error" ∷ []
spellings cancelled = "Cancelled" ∷ "cancelled" ∷ []

abbrev pub OneOf : String → List String → Type 0
OneOf t [] = ⊥
OneOf t (x ∷ xs) = (t ≡ x) ⊎ OneOf t xs

OneOf-All : (P : String → Type 0) (t : String) (xs : List String) → All P xs → OneOf t xs → P t
OneOf-All P t [] h o = absurd o
OneOf-All P t (x ∷ xs) h (inl e) = subst P (sym e) h.0
OneOf-All P t (x ∷ xs) h (inr o) = OneOf-All P t xs h.1 o

spelled_back : (s : AgentState) → All (λ t. agent_state_from_string t ≡ some s) (spellings s)
unfolding agent_state_from_string
spelled_back starting = (refl, (refl, tt))
spelled_back working = (refl, (refl, tt))
spelled_back waiting_for_approval = (refl, (refl, (refl, tt)))
spelled_back waiting_for_input = (refl, (refl, (refl, tt)))
spelled_back completed = (refl, (refl, (refl, tt)))
spelled_back failed = (refl, (refl, (refl, tt)))
spelled_back cancelled = (refl, (refl, tt))

-- A rung of a ladder of tests answers, or the rest of the ladder does.
rung {ℓ} :
    {A : Type ℓ} (b : Bool) (x : A) (rest : Option A) {s : A}
    → (if b then some x else rest) ≡ some s
    → ((b ≡ true) × (x ≡ s)) ⊎ (rest ≡ some s)
rung true x rest h = inl (refl, cc)
rung false x rest h = inr h

two : (t x y : String) → (t == x || t == y) ≡ true → OneOf t (x ∷ y ∷ [])
two t x y h = ground (arith, eq_iff t x, eq_iff t y)

three : (t x y z : String) → (t == x || t == y || t == z) ≡ true → OneOf t (x ∷ y ∷ z ∷ [])
three t x y z h = ground (arith, eq_iff t x, eq_iff t y, eq_iff t z)

spelled_only :
    (s : AgentState) (t : String) → agent_state_from_string t ≡ some s → OneOf t (spellings s)
unfolding agent_state_from_string
spelled_only s t h = elim (rung (t == "Starting" || t == "starting") starting _ h) [
  | inl (b, e) ↦ subst (λ u. OneOf t (spellings u)) e (two t _ _ b)
  | inr h1 ↦ elim (rung (t == "Working" || t == "working") working _ h1) [
    | inl (b, e) ↦ subst (λ u. OneOf t (spellings u)) e (two t _ _ b)
    | inr h2 ↦
        elim (rung
          (t == "WaitingForApproval" || t == "waiting_for_approval" || t == "permission_prompt")
          waiting_for_approval _ h2) [
            | inl (b, e) ↦ subst (λ u. OneOf t (spellings u)) e (three t _ _ _ b)
            | inr h3 ↦
                elim (rung
                  (t == "WaitingForInput" || t == "waiting_for_input" || t == "idle_prompt")
                  waiting_for_input _ h3) [
                    | inl (b, e) ↦ subst (λ u. OneOf t (spellings u)) e (three t _ _ _ b)
                    | inr h4 ↦
                        elim (rung (t == "Completed" || t == "completed" || t == "stop") completed _
                          h4) [
                            | inl (b, e) ↦ subst (λ u. OneOf t (spellings u)) e (three t _ _ _ b)
                            | inr h5 ↦
                                elim (rung (t == "Failed" || t == "failed" || t == "error") failed _
                                  h5) [
                                    | inl (b, e) ↦
                                        subst (λ u. OneOf t (spellings u)) e (three t _ _ _ b)
                                    | inr h6 ↦
                                        elim (rung (t == "Cancelled" || t == "cancelled") cancelled
                                          none h6) [
                                            | inl (b, e) ↦
                                                subst (λ u. OneOf t (spellings u)) e (two t _ _ b)
                                            | inr h7 ↦ cc
                                          ]
                                  ]
                          ]
                  ]
          ]
  ]
]

-- A text is read as a state exactly when it is one of that state's two or three spellings.
pub agent_state_from_string-OneOf :
    (s : AgentState) (t : String) → (agent_state_from_string t ≡ some s) ↔ OneOf t (spellings s)
agent_state_from_string-OneOf s t = (
  spelled_only s t,
  OneOf-All (λ u. agent_state_from_string u ≡ some s) t (spellings s) (spelled_back s),
)
