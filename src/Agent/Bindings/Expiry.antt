-- ===== src/Agent/Bindings/Expiry.antt =====
-- Who gets a descriptor back, how often and for how long.
use holonightd.Prelude.{
  ℕ, suc, ◌+◌, ◌≤◌, ◌≡◌, refl, sym, ap, ◌∙◌, subst, ◌≢◌, ◌⊎◌, inl, inr, Bool, true, false, not,
  ◌&&◌, ◌||◌, Option, none, some, List, [], ◌∷◌, arith, ltb, leb, if◌then◌else◌, Bool-cases,
  Option-cases, length, All, ◌==◌, nat_eq, text_eq, is_some, nat_eqb, nat_eqb_iff,
}
use holonightd.Prelude.Map.{
  IsMap, lookup, erase, assign, erase_if, lookup-assign, lookup-erase, lookup-erase_if, unless,
  length-erase-le, length-erase-lt, length-erase_if-le, length-assign_new, length-assign_old,
  erase_if-IsMap, erase-IsMap,
}
use holonightd.Agent.Event.{ActivationDescriptor, valid}
use holonightd.Agent.Bindings.{
  Entry, Entries, capacity, lifetime, is_expired, prune, oldest, drop_oldest, make_room, forget,
  replace, consume, close,
}
use holonightd.Agent.Bindings.Invariant.{
  IsBindings, Call, replaces, consumes, closes, step, replace-IsBindings, forget-IsBindings,
  prune-IsBindings, oldest-least, Holds-oldest,
}

-- The descriptor of an entry that is there and has not expired.
abbrev pub live : ℕ → Option Entry → Option ActivationDescriptor
live now none = none
live now (some e) = if is_expired now e then none else some e.descriptor

-- Where no id stands twice, `consume` returns the descriptor under the id if it has not expired,
-- takes it and the expired ones out, and leaves the others.
pub consume_lem :
    (now id : ℕ) (m : Entries)
    → IsMap m
    → ((consume now id m).1 ≡ live now (lookup id m))
      × ((j : ℕ)
          → lookup j (consume now id m).0
            ≡ (if id == j then none else unless (is_expired now) (lookup j m)))
unfolding consume
consume_lem now id m h = elim (Option-cases (lookup id (erase_if (is_expired now) m))) [
  | inl e ↦
      rw (e, consume)
        (
          ground (arith, lookup-erase_if (is_expired now) id m h),
          λ j. ground (arith, lookup-erase_if (is_expired now) j m h),
        )
  | inr (x, e) ↦
      rw (e, consume)
        (
          ground (arith, lookup-erase_if (is_expired now) id m h),
          λ j. rw (lookup-erase, lookup-erase_if (is_expired now) j m h),
        )
]

consume-IsMap : (now id : ℕ) (m : Entries) → IsMap m → IsMap (consume now id m).0
unfolding consume
consume-IsMap now id m h = elim (Option-cases (lookup id (erase_if (is_expired now) m))) [
  | inl e ↦ rw (e, consume) (erase_if-IsMap (is_expired now) m h)
  | inr (x, e) ↦ rw (e, consume) (erase-IsMap id _ (erase_if-IsMap (is_expired now) m h))
]

-- What was consumed cannot be consumed again, at whatever time, where no id stands twice.
pub consume_twice :
    (now later id : ℕ) (m : Entries) → IsMap m → (consume later id (consume now id m).0).1 ≡ none
consume_twice now later id m h =
    (consume_lem later id _ (consume-IsMap now id m h)).0
    ∙ ap (live later) {y = none} ((consume_lem now id m h).1 id ∙ (rw ((nat_eqb_iff id id).1 refl)))

nat_ne_eqb : (a b : ℕ) → a ≢ b → nat_eqb a b ≡ false
nat_ne_eqb a b h = ground arith

replace_new :
    (now later old_id new_id : ℕ) (d : ActivationDescriptor) (m : Entries)
    → new_id ≢ 0
    → valid d ≡ true
    → lookup new_id (replace now later old_id new_id d m)
      ≡ some (record { descriptor = d; created_at = later })
unfolding replace
replace_new now later old_id new_id d m h v =
    rw (nat_ne_eqb new_id 0 h, v) (rw lookup-assign (rw ((nat_eqb_iff new_id new_id).1 refl)))

-- In well-formed bindings, a valid descriptor that was bound to an id other than 0 comes back for
-- that id exactly while it is at most 24 hours old.
pub consume-replace :
    (now later t old_id new_id : ℕ) (d : ActivationDescriptor) (m : Entries)
    → IsBindings m
    → new_id ≢ 0
    → valid d ≡ true
    → (consume t new_id (replace now later old_id new_id d m)).1
      ≡ (if ltb (later + lifetime) t then none else some d)
consume-replace now later t old_id new_id d m h ne v =
    (consume_lem t new_id _ (replace-IsBindings now later old_id new_id d m h).is_map).0
    ∙ rw (replace_new now later old_id new_id d m ne v) (unfold is_expired in refl)

-- The entry under an id is the oldest, and goes.
abbrev pub Evicted : ℕ → Entries → Entries → Type 0
Evicted j before after =
    (e : Entry) × (lookup j before ≡ some e)
    × All (λ kv. e.created_at ≤ kv.1.created_at) before
    × (capacity ≤ length before)
    × (lookup j after ≡ none)

drop_oldest_cases :
    (j : ℕ) (m : Entries)
    → IsMap m
    → capacity ≤ length m
    → (lookup j (drop_oldest m) ≡ lookup j m) ⊎ Evicted j m (drop_oldest m)
unfolding drop_oldest
drop_oldest_cases j [] u full = inl refl
drop_oldest_cases j (x ∷ xs) u full = elim (Bool-cases ((oldest x xs).0 == j)) [
  | inl same ↦ inr (
    (oldest x xs).1,
    subst (λ k. lookup k (x ∷ xs) ≡ some (oldest x xs).1) ((nat_eqb_iff _ j).0 same)
        (Holds-oldest x xs u),
    oldest-least x xs,
    full,
    lookup-erase (oldest x xs).0 j (x ∷ xs) ∙ rw same refl,
  )
  | inr other ↦ inl (lookup-erase (oldest x xs).0 j (x ∷ xs) ∙ rw other refl)
]

make_room_cases :
    (new_id j : ℕ) (m : Entries)
    → IsMap m
    → (lookup j (make_room new_id m) ≡ lookup j m)
      ⊎ (Evicted j m (make_room new_id m) × (lookup new_id m ≡ none))
unfolding make_room
make_room_cases new_id j m u =
    elim (Bool-cases (not (is_some (lookup new_id m)) && leb capacity (length m))) [
      | inl e ↦ subst Cases (sym (ap room e)) (elim (drop_oldest_cases j m u (ground arith)) [
        | inl same ↦ inl same
        | inr gone ↦ inr (gone, ground arith)
      ])
      | inr e ↦ subst Cases (sym (ap room e)) (inl refl)
    ]
  where
    room : Bool → Entries
    room b = if b then drop_oldest m else m

    Cases : Entries → Type 0
    Cases after = (lookup j after ≡ lookup j m) ⊎ (Evicted j m after × (lookup new_id m ≡ none))

assign_other :
    (new_id j : ℕ) (e : Entry) (m : Entries)
    → j ≢ new_id
    → lookup j (assign new_id e m) ≡ lookup j m
assign_other new_id j e m ne =
    lookup-assign new_id j e m ∙ rw (nat_ne_eqb new_id j (λ p. ne (sym p))) refl

-- In well-formed bindings, a replace loses the binding of an id other than the new one, besides
-- the one that it replaces and those that have expired, only where the 256 places are taken, the
-- new id has none of them, and the lost binding is the oldest.
pub replace_others :
    (now later old_id new_id j : ℕ) (d : ActivationDescriptor) (m : Entries)
    → IsBindings m
    → j ≢ new_id
    → let kept = forget old_id (prune now m) in
      let after = replace now later old_id new_id d m in
      (lookup j after ≡ lookup j kept) ⊎ (Evicted j kept after × (lookup new_id kept ≡ none))
unfolding replace
replace_others now later old_id new_id j d m h ne =
    elim (Bool-cases (new_id == 0 || not (valid d))) [
      | inl e ↦ subst Cases (sym (ap result e)) (inl refl)
      | inr e ↦ subst Cases (sym (ap result e)) (elim (make_room_cases new_id j kept u) [
        | inl same ↦ inl (other ∙ same)
        | inr ((x, at, least, full, gone), fresh) ↦ inr ((x, at, least, full, other ∙ gone), fresh)
      ])
    ]
  where
    kept : Entries
    kept = forget old_id (prune now m)

    u : IsMap kept
    u = (forget-IsBindings old_id (prune now m) (prune-IsBindings now m h)).is_map

    assigned : Entries
    assigned = assign new_id (record { descriptor = d; created_at = later }) (make_room new_id kept)

    other : lookup j assigned ≡ lookup j (make_room new_id kept)
    other = assign_other new_id j _ _ ne

    result : Bool → Entries
    result b = if b then kept else assigned

    Cases : Entries → Type 0
    Cases after =
        (lookup j after ≡ lookup j kept) ⊎ (Evicted j kept after × (lookup new_id kept ≡ none))

-- How many descriptors the calls hand out, and how many they bind.
consumed : Call → Entries → ℕ
consumed (replaces now later old_id new_id d) m = 0
consumed (consumes now id) m = if is_some (consume now id m).1 then 1 else 0
consumed (closes id) m = 0

pub handed_out : List Call → Entries → ℕ
unfolding consumed
handed_out [] m = 0
handed_out (c ∷ cs) m = consumed c m + handed_out cs (step c m)

unfoldable pub bound : List Call → ℕ
bound [] = 0
bound (replaces now later old_id new_id d ∷ cs) = suc (bound cs)
bound (consumes now id ∷ cs) = bound cs
bound (closes id ∷ cs) = bound cs

length-assign-le : (id : ℕ) (e : Entry) (m : Entries) → length (assign id e m) ≤ suc (length m)
length-assign-le id e m = elim (Option-cases (lookup id m)) [
  | inl q ↦ omega (arith, length-assign_new id e m q)
  | inr (old, q) ↦ omega (arith, length-assign_old id e m old q)
]

length-forget-le : (id : ℕ) (m : Entries) → length (forget id m) ≤ length m
unfolding forget
length-forget-le id m = ground (arith, length-erase-le id m)

length-drop_oldest-le : (m : Entries) → length (drop_oldest m) ≤ length m
unfolding drop_oldest
length-drop_oldest-le [] = omega arith
length-drop_oldest-le (x ∷ xs) = length-erase-le _ (x ∷ xs)

length-make_room-le : (id : ℕ) (m : Entries) → length (make_room id m) ≤ length m
unfolding make_room
length-make_room-le id m =
    elim (Bool-cases (not (is_some (lookup id m)) && leb capacity (length m))) [
      | inl e ↦
          subst (λ (b : Bool). length (if b then drop_oldest m else m) ≤ length m) (sym e)
            (length-drop_oldest-le m)
      | inr e ↦
          subst (λ (b : Bool). length (if b then drop_oldest m else m) ≤ length m) (sym e)
            (omega arith)
    ]

length-replace-le :
    (now later old_id new_id : ℕ) (d : ActivationDescriptor) (m : Entries)
    → length (replace now later old_id new_id d m) ≤ suc (length m)
unfolding replace
length-replace-le now later old_id new_id d m = elim (Bool-cases (new_id == 0 || not (valid d))) [
  | inl e ↦ rw e (omega (arith, kept))
  | inr e ↦ rw e (
      omega (
        arith,
        kept,
        length-assign-le new_id (record { descriptor = d; created_at = later })
            (make_room new_id (forget old_id (prune now m))),
        length-make_room-le new_id (forget old_id (prune now m)),
      ))
]
  where
    kept : length (forget old_id (prune now m)) ≤ length m
    kept =
        omega (arith, length-forget-le old_id (prune now m), length-erase_if-le (is_expired now) m)

length-consume-le :
    (now id : ℕ) (m : Entries)
    → consumed (consumes now id) m + length (consume now id m).0 ≤ length m
unfolding consume consumed
length-consume-le now id m = elim (Option-cases (lookup id (erase_if (is_expired now) m))) [
  | inl e ↦ rw (e, consume) (omega (arith, length-erase_if-le (is_expired now) m))
  | inr (x, e) ↦
      rw (e, consume)
        (omega (
          arith,
          length-erase_if-le (is_expired now) m,
          length-erase-lt id (erase_if (is_expired now) m) x e,
        ))
]

-- However the calls are ordered, no more descriptors are handed out than were bound, besides
-- those that were there.
pub handed_out-le : (cs : List Call) (m : Entries) → handed_out cs m ≤ bound cs + length m
unfolding handed_out bound step close
handed_out-le [] m = omega arith
handed_out-le (replaces now later old_id new_id d ∷ cs) m = omega (
  arith,
  handed_out-le cs (replace now later old_id new_id d m),
  length-replace-le now later old_id new_id d m,
)
handed_out-le (consumes now id ∷ cs) m =
    omega (arith, handed_out-le cs (consume now id m).0, length-consume-le now id m)
handed_out-le (closes id ∷ cs) m =
    omega (arith, handed_out-le cs (erase id m), length-erase-le id m)
