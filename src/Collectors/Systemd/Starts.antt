-- ===== src/Collectors/Systemd/Starts.antt =====
-- The starts of a unit that the systemd collector keeps over several collections.
use mathlib.Core.List.{append_assoc, append-nil}
use holonightd.Prelude.{
  keep_if-append, keep_if-keep_if, ℕ, ◌≤◌, String, ◌≡◌, refl, sym, ap, ◌∙◌, subst, inl, inr, Bool,
  not, ◌&&◌, map, true, false, Option, none, some, List, [], ◌∷◌, ◌++◌, arith, if◌then◌else◌,
  Bool-cases, is_empty, keep_if, ◌==◌, nat_eq, text_eq,
}
use holonightd.Prelude.Map.{IsMap, lookup, lookup-assign, assign-IsMap}
use holonightd.Json.{JsonLib, or_keep}
use holonightd.Collectors.Systemd.{
  Checked, FlappingState, UnitStatus, Coredump, collect, collect_unit_events, is_unit_ignored,
  is_recent, starts_of, collect_unit, prune_old_timestamps,
}

keep_missing :
    (c : Checked) (now : ℕ) (name : String) (units : FlappingState)
    → lookup name units ≡ none
    → lookup name (prune_old_timestamps c now units) ≡ none
unfolding prune_old_timestamps lookup
keep_missing c now name [] h = refl
keep_missing c now name ((n, starts) ∷ units) h = ground (arith, keep_missing c now name units)

prune-IsMap :
    (c : Checked) (now : ℕ) (units : FlappingState)
    → IsMap units
    → IsMap (prune_old_timestamps c now units)
unfolding prune_old_timestamps
prune-IsMap c now [] h = tt
prune-IsMap c now ((n, starts) ∷ units) h =
    ground (arith, keep_missing c now n units h.0, prune-IsMap c now units h.1)

is_empty-nil : (l : List ℕ) → is_empty l ≡ true → l ≡ []
is_empty-nil [] h = refl
is_empty-nil (x ∷ l) h = cc

-- Pruning keeps the starts of the window, of every unit.
pub starts_of-prune :
    (c : Checked) (now : ℕ) (name : String) (units : FlappingState)
    → IsMap units
    → starts_of name (prune_old_timestamps c now units)
      ≡ keep_if (is_recent c now) (starts_of name units)
unfolding prune_old_timestamps lookup
starts_of-prune c now name [] h = refl
starts_of-prune c now name ((n, starts) ∷ units) h =
    elim (Bool-cases (is_empty (keep_if (is_recent c now) starts))) [
      | inl e ↦ elim (Bool-cases (n == name)) [
        | inl q ↦
            let n_is : n ≡ name = (text_eq.test_iff n name).0 q in
            rw (e, q)
              (ap (λ o. or_keep o []) {y = none}
                  (keep_missing c now name units (subst (λ k. lookup k units ≡ none) n_is h.0))
                ∙ sym (is_empty-nil _ e))
        | inr q ↦ rw (e, q) (starts_of-prune c now name units h.1)
      ]
      | inr e ↦ elim (Bool-cases (n == name)) [
        | inl q ↦ rw (e, q) refl
        | inr q ↦ rw (e, q) ((starts_of-prune c now name units h.1))
      ]
    ]

-- Times that do not decrease from t on.
unfoldable pub Sorted : ℕ → List ℕ → Type 0
Sorted t [] = Unit
Sorted t (t' ∷ ts) = (t ≤ t') × Sorted t' ts

recent_later :
    (c : Checked) (t t' : ℕ) → t ≤ t' → (x : ℕ) → is_recent c t' x ≡ true → is_recent c t x ≡ true
recent_later c t t' h x r = ground arith

recent_now : (c : Checked) (t : ℕ) → is_recent c t t ≡ true
recent_now c t = ground arith

Sorted-last : (t : ℕ) (ts : List ℕ) (now : ℕ) → Sorted t (ts ++ now ∷ []) → t ≤ now
unfolding Sorted
Sorted-last t [] now h = h.0
Sorted-last t (t' ∷ ts) now h = omega (arith, h.0, Sorted-last t' ts now h.1)

-- What one collection is given: what the bus replies, if it can be opened.
abbrev pub Reply : Type 0
Reply = Option (List UnitStatus × List Coredump)

-- A unit of the reply that is the named one, and failed.
abbrev pub fails : String → UnitStatus → Bool
fails name u = (u.name == name) && (u.active == "failed")

-- A time, for each failure of the unit in the reply.
abbrev failures : String → ℕ → List UnitStatus → List ℕ
failures name t us = map (λ u. t) (keep_if (fails name) us)

abbrev reply_failures : String → ℕ → Reply → List ℕ
reply_failures name t none = []
reply_failures name t (some (us, ds)) = failures name t us

-- The times at which collections found the unit failed.
pub failure_times : String → List (ℕ × Reply) → List ℕ
failure_times name [] = []
failure_times name ((t, reply) ∷ history) =
    reply_failures name t reply ++ failure_times name history

module _ (Double : Type 0) (json : JsonLib) (c : Checked) (name : String)
    (reported : is_unit_ignored c name ≡ false) where
  -- One collection after the other.
  pub collected : List (ℕ × Reply) → FlappingState → FlappingState
  collected [] units = units
  collected ((t, reply) ∷ history) units =
      collected history (collect {Double = Double} json c t reply units).0

  collect_unit-IsMap :
      (t : ℕ) (u : UnitStatus) (units : FlappingState)
      → IsMap units
      → IsMap (collect_unit {Double = Double} json c t u units).0
  unfolding collect_unit
  collect_unit-IsMap t u units h =
      elim (Bool-cases (not (is_unit_ignored c u.name) && u.active == "failed")) [
        | inl e ↦ rw (e, collect_unit) (assign-IsMap u.name _ units h)
        | inr e ↦ rw (e, collect_unit) h
      ]

  pub starts_of-collect_unit :
      (t : ℕ) (u : UnitStatus) (units : FlappingState)
      → starts_of name (collect_unit {Double = Double} json c t u units).0
        ≡ (if fails name u then starts_of name units ++ t ∷ [] else starts_of name units)
  unfolding collect_unit
  starts_of-collect_unit t u units = elim (Bool-cases (u.name == name)) [
    | inr q ↦ elim (Bool-cases (not (is_unit_ignored c u.name) && u.active == "failed")) [
      | inl e ↦ rw (e, collect_unit, q) (rw (lookup-assign u.name name _ units, q) refl)
      | inr e ↦ rw (e, collect_unit, q) refl
    ]
    | inl q ↦
        let named : u.name ≡ name = (text_eq.test_iff u.name name).0 q in
        let seen = subst (λ n. is_unit_ignored c n ≡ false) (sym named) reported in
        elim (Bool-cases (u.active == "failed")) [
          | inl e ↦
              rw (seen, e, q)
                (rw (lookup-assign u.name name _ units, q)
                  (ap (λ n. starts_of n units ++ t ∷ []) named))
          | inr e ↦ rw (seen, e, q) refl
        ]
  ]

  starts_of-collect_unit_events :
      (t : ℕ) (us : List UnitStatus) (units : FlappingState)
      → IsMap units
      → IsMap (collect_unit_events {Double = Double} json c t us units).0
        × (starts_of name (collect_unit_events {Double = Double} json c t us units).0
            ≡ starts_of name units ++ failures name t us)
  unfolding collect_unit_events
  starts_of-collect_unit_events t [] units h = (h, sym (append-nil _))
  starts_of-collect_unit_events t (u ∷ us) units h =
      let units' = (collect_unit {Double = Double} json c t u units).0 in
      let (m, e) = starts_of-collect_unit_events t us units' (collect_unit-IsMap t u units h) in
      let one = starts_of-collect_unit t u units in
      elim (Bool-cases (fails name u)) [
        | inl f ↦ (
          m,
          e
              ∙ ap (λ l. l ++ failures name t us) (rw f at one)
              ∙ append_assoc (starts_of name units) (t ∷ []) (failures name t us)
              ∙ rw f refl,
        )
        | inr f ↦ (m, e ∙ ap (λ l. l ++ failures name t us) (rw f at one) ∙ rw f refl)
      ]

  step_lem :
      (t : ℕ) (reply : Reply) (units : FlappingState)
      → IsMap units
      → let units' = (collect {Double = Double} json c t reply units).0 in
        IsMap units'
        × (starts_of name units'
            ≡ keep_if (is_recent c t) (starts_of name units) ++ reply_failures name t reply)
  unfolding collect
  step_lem t none units h =
      (prune-IsMap c t units h, starts_of-prune c t name units h ∙ sym (append-nil _))
  step_lem t (some (us, ds)) units h =
      let (m, e) =
        starts_of-collect_unit_events t us (prune_old_timestamps c t units)
          (prune-IsMap c t units h) in
      (m, e ∙ ap (λ l. l ++ failures name t us) (starts_of-prune c t name units h))

  -- After collections at times that do not decrease, a later one sees the starts of its window.
  pub collected_lem :
      (t : ℕ) (history : List (ℕ × Reply)) (units : FlappingState) (now : ℕ)
      → IsMap units
      → Sorted t (map (λ h. h.0) history ++ now ∷ [])
      → IsMap (collected history units)
        × (keep_if (is_recent c now) (starts_of name (collected history units))
            ≡ keep_if (is_recent c now) (starts_of name units ++ failure_times name history))
  unfolding collected Sorted failure_times
  collected_lem t [] units now h s = (h, rw (append-nil (starts_of name units)) refl)
  collected_lem t ((t', reply) ∷ history) units now h s =
      let units' = (collect {Double = Double} json c t' reply units).0 in
      let (m', one) = step_lem t' reply units h in
      let (m, e) = collected_lem t' history units' now m' s.1 in
      let new = reply_failures name t' reply in
      let times = failure_times name history in
      let later = recent_later c t' now (Sorted-last t' (map (λ h. h.0) history) now s.1) in
      (
        m,
        e
            ∙ ap (λ l. keep_if (is_recent c now) (l ++ times)) one
            ∙ ap (keep_if (is_recent c now))
                (append_assoc (keep_if (is_recent c t') starts) new times)
            ∙ keep_if-append (is_recent c now) (keep_if (is_recent c t') starts) (new ++ times)
            ∙ ap (λ l. l ++ keep_if (is_recent c now) (new ++ times))
                (keep_if-keep_if (is_recent c now) (is_recent c t') starts later)
            ∙ sym (keep_if-append (is_recent c now) starts (new ++ times)),
      )
    where
      starts : List ℕ
      starts = starts_of name units
