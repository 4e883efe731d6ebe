-- ===== src/Collectors/Systemd/Flapping.antt =====
-- When a unit that keeps failing is reported as flapping.
use mathlib.Core.List.{append-nil}
use holonightd.Prelude.{
  keep_if-append, ℕ, String, ◌≡◌, refl, sym, ap, ◌∙◌, subst, inl, inr, Bool, not, ◌&&◌, map, false,
  some, List, [], ◌∷◌, ◌++◌, arith, leb, if◌then◌else◌, Bool-cases, length, keep_if, ◌==◌, nat_eq,
  text_eq,
}
use holonightd.Prelude.Map.{lookup}
use holonightd.Json.{JsonLib}
use holonightd.Observation.{ObservationEvent}
use holonightd.Collectors.Systemd.{
  Checked, FlappingState, UnitStatus, Coredump, collect, collect_unit_events,
  collect_coredump_events, unit_failed, unit_flapping, is_unit_ignored, is_recent, starts_of,
  collect_unit, coredump_event, prune_old_timestamps,
}
use holonightd.Collectors.Systemd.Starts.{
  Sorted, Reply, fails, failure_times, starts_of-prune, collected, collected_lem,
  starts_of-collect_unit,
}

keep_if-both :
    {A : Type 0} (p : A → Bool) (xs ys : List A) {a b : List A}
    → keep_if p xs ≡ a
    → keep_if p ys ≡ b
    → keep_if p (xs ++ ys) ≡ a ++ b
keep_if-both p xs ys {a = a} h g =
    keep_if-append p xs ys ∙ ap (λ l. l ++ keep_if p ys) h ∙ ap (λ l. a ++ l) g

cons-injective : {A : Type 0} {x y : A} {l : List A} → x ∷ l ≡ y ∷ [] → (x ≡ y) × (l ≡ [])
cons-injective h = (cc, cc)

-- The events of a unit, without those of its core dumps.
abbrev pub about : {Double : Type 0} → String → ObservationEvent Double → Bool
about name e = (e.subject == name) && (e.category == "systemd.unit")

module _ (Double : Type 0) (json : JsonLib) (c : Checked) (name : String)
    (reported : is_unit_ignored c name ≡ false) where
  -- The events of a failure, for the starts seen with it.
  abbrev pub reported_events : ℕ → UnitStatus → List ℕ → List (ObservationEvent Double)
  reported_events t u starts =
      unit_failed json t u
      ∷ (if leb c.threshold (length starts)
          then unit_flapping json c t u (length starts) ∷ []
          else [])

  about-reported_events :
      (t : ℕ) (u : UnitStatus) (starts : List ℕ)
      → keep_if (about name) (reported_events t u starts)
        ≡ (if u.name == name then reported_events t u starts else [])
  unfolding unit_failed unit_flapping
  about-reported_events t u starts = elim (Bool-cases (u.name == name)) [
    | inr q ↦ elim (Bool-cases (leb c.threshold (length starts))) [
      | inl e ↦ rw (q, e) (rw q refl)
      | inr e ↦ rw (q, e) refl
    ]
    | inl q ↦ elim (Bool-cases (leb c.threshold (length starts))) [
      | inl e ↦ rw (q, e) (rw q refl)
      | inr e ↦ rw (q, e) refl
    ]
  ]

  about-collect_unit :
      (t : ℕ) (u : UnitStatus) (units : FlappingState)
      → keep_if (about name) (collect_unit {Double = Double} json c t u units).1
        ≡ (if fails name u then reported_events t u (starts_of name units ++ t ∷ []) else [])
  unfolding collect_unit
  about-collect_unit t u units = elim (Bool-cases (u.name == name)) [
    | inr q ↦ elim (Bool-cases (not (is_unit_ignored c u.name) && u.active == "failed")) [
      | inl e ↦
          let seen = about-reported_events t u (starts_of u.name units ++ t ∷ []) in
          rw (e, collect_unit) (seen ∙ rw q refl)
      | inr e ↦ rw (e, collect_unit, q) refl
    ]
    | inl q ↦
        let named : u.name ≡ name = (text_eq.test_iff u.name name).0 q in
        let watched = subst (λ n. is_unit_ignored c n ≡ false) (sym named) reported in
        elim (Bool-cases (u.active == "failed")) [
          | inl e ↦
              let seen = about-reported_events t u (starts_of u.name units ++ t ∷ []) in
              rw (watched, e, collect_unit)
                (seen ∙ rw q (ap (λ n. reported_events t u (starts_of n units ++ t ∷ [])) named))
          | inr e ↦ rw (watched, e, collect_unit, q) refl
        ]
  ]

  about-none :
      (t : ℕ) (us : List UnitStatus) (units : FlappingState)
      → keep_if (fails name) us ≡ []
      → keep_if (about name) (collect_unit_events {Double = Double} json c t us units).1 ≡ []
  unfolding collect_unit_events
  about-none t [] units h = refl
  about-none t (v ∷ us) units h = elim (Bool-cases (fails name v)) [
    | inl f ↦ cc (rw f at h)
    | inr f ↦
        let next = (collect_unit {Double = Double} json c t v units).0 in
        let one = rw f at (about-collect_unit t v units) in
        keep_if-both (about name) (collect_unit {Double = Double} json c t v units).1
          (collect_unit_events {Double = Double} json c t us next).1 one
          (about-none t us next (rw f at h))
  ]

  about-one :
      (t : ℕ) (u : UnitStatus) (us : List UnitStatus) (units : FlappingState)
      → keep_if (fails name) us ≡ u ∷ []
      → keep_if (about name) (collect_unit_events {Double = Double} json c t us units).1
        ≡ reported_events t u (starts_of name units ++ t ∷ [])
  unfolding collect_unit_events
  about-one t u [] units h = cc
  about-one t u (v ∷ us) units h = elim (Bool-cases (fails name v)) [
    | inl f ↦
        let (same, none_left) = cons-injective (rw f at h) in
        let next = (collect_unit {Double = Double} json c t v units).0 in
        let one = rw f at (about-collect_unit t v units) in
        keep_if-both (about name) (collect_unit {Double = Double} json c t v units).1
          (collect_unit_events {Double = Double} json c t us next).1 one
          (about-none t us next none_left)
        ∙ append-nil _
        ∙ ap (λ x. reported_events t x (starts_of name units ++ t ∷ [])) same
    | inr f ↦
        let next = (collect_unit {Double = Double} json c t v units).0 in
        let one = rw f at (about-collect_unit t v units) in
        let kept = rw f at (starts_of-collect_unit Double json c name reported t v units) in
        keep_if-both (about name) (collect_unit {Double = Double} json c t v units).1
          (collect_unit_events {Double = Double} json c t us next).1 one
          (about-one t u us next (rw f at h))
        ∙ ap (λ l. reported_events t u (l ++ t ∷ [])) kept
  ]

  about-coredumps :
      (t : ℕ) (ds : List Coredump)
      → keep_if (about name) (collect_coredump_events {Double = Double} json c t ds) ≡ []
  unfolding collect_coredump_events coredump_event
  about-coredumps t [] = refl
  about-coredumps t (d ∷ ds) = let rest = about-coredumps t ds in ground (arith, rest)

  pub flapping_iff :
      (history : List (ℕ × Reply)) (now : ℕ) (us : List UnitStatus) (ds : List Coredump)
      (u : UnitStatus)
      → Sorted 0 (map (λ h. h.0) history ++ now ∷ [])
      → keep_if (fails name) us ≡ u ∷ []
      → let starts = keep_if (is_recent c now) (failure_times name history) ++ now ∷ [] in
        keep_if
          (about name)
          (collect {Double = Double} json c now
            (some (us, ds))
            (collected Double json c name reported history [])).1
        ≡ reported_events now u starts
  unfolding collect lookup
  flapping_iff history now us ds u s once =
      let (m, e) = collected_lem Double json c name reported 0 history [] now tt s in
      let pruned = prune_old_timestamps c now (collected Double json c name reported history []) in
      let seen =
        starts_of-prune c now name (collected Double json c name reported history []) m ∙ e in
      keep_if-both (about name) (collect_unit_events {Double = Double} json c now us pruned).1
        (collect_coredump_events {Double = Double} json c now ds) (about-one now u us pruned once)
        (about-coredumps now ds)
      ∙ append-nil _
      ∙ ap (λ l. reported_events now u (l ++ now ∷ [])) seen
