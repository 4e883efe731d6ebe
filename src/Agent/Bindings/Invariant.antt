-- ===== src/Agent/Bindings/Invariant.antt =====
-- What holds of the bindings after any calls.
use native.Mathlib.Nat.{le_trans}
use holonightd.Prelude.{
  ℕ, ◌-◌, ◌≤◌, ◌<◌, ◌≡◌, refl, sym, ap, subst, ◌≢◌, ◌⊎◌, inl, inr, Bool, true, not, ◌&&◌, ◌||◌,
  none, some, [], ◌∷◌, arith, ltb, leb, if◌then◌else◌, Bool-cases, Option-cases, length, All, ◌==◌,
  nat_eq, text_eq, is_some, nat_eqb_iff,
}
use holonightd.Prelude.Map.{
  IsMap, lookup, erase, assign, erase_if, lookup-assign, lookup-erase, erase-IsMap, assign-IsMap,
  erase_if-IsMap, lookup-Entries, assign-Entries, erase-Entries, erase_if-Entries, length-erase-le,
  length-erase-lt, length-erase_if-le, length-assign_new, length-assign_old,
}
use holonightd.Prelude.Map
use holonightd.Agent.Event.{ActivationDescriptor, valid}
use holonightd.Agent.Bindings.{
  Entry, Entries, capacity, is_expired, prune, oldest, drop_oldest, make_room, forget, replace,
  consume, close,
}

-- A key that the notification server gave, and a descriptor that can be activated.
abbrev IsBinding : ℕ → Entry → Type 0
IsBinding id e = (id ≢ 0) × (valid e.descriptor ≡ true)

pub record IsBindings (m : Entries) : Type 0 where
  pub is_map : IsMap m
  pub bindings : Map.Entries IsBinding m
  pub bounded : length m ≤ capacity

pub prune-IsBindings : (now : ℕ) (m : Entries) → IsBindings m → IsBindings (prune now m)
unfolding prune
prune-IsBindings now m h = record {
  is_map = erase_if-IsMap (is_expired now) m h.is_map;
  bindings = erase_if-Entries IsBinding (is_expired now) m h.bindings;
  bounded = le_trans (length-erase_if-le (is_expired now) m) h.bounded;
}

erase-IsBindings : (id : ℕ) (m : Entries) → IsBindings m → IsBindings (erase id m)
erase-IsBindings id m h = record {
  is_map = erase-IsMap id m h.is_map;
  bindings = erase-Entries IsBinding id m h.bindings;
  bounded = le_trans (length-erase-le id m) h.bounded;
}

pub forget-IsBindings : (id : ℕ) (m : Entries) → IsBindings m → IsBindings (forget id m)
unfolding forget
forget-IsBindings id m h = elim (Bool-cases (id == 0)) [
  | inl e ↦ rw e h
  | inr e ↦ rw e (erase-IsBindings id m h)
]

abbrev Holds : ℕ × Entry → Entries → Type 0
Holds y m = lookup y.0 m ≡ some y.1

Holds-head : (x : ℕ × Entry) (xs : Entries) → Holds x (x ∷ xs)
unfolding lookup
Holds-head x xs = ground arith

Holds-tail : (y x : ℕ × Entry) (xs : Entries) → IsMap (x ∷ xs) → Holds y xs → Holds y (x ∷ xs)
unfolding lookup
Holds-tail y x xs u h = elim (Bool-cases (x.0 == y.0)) [
  | inl same ↦ cc (subst (λ k. lookup k xs ≡ none) ((nat_eqb_iff x.0 y.0).0 same) u.0)
  | inr other ↦ rw other h
]

-- The oldest entry is one of those given.
oldest-found :
    (best : ℕ × Entry) (m : Entries) → IsMap m → (oldest best m ≡ best) ⊎ Holds (oldest best m) m
unfolding oldest
oldest-found best [] u = inl refl
oldest-found best (x ∷ xs) u = elim (Bool-cases (ltb x.1.created_at best.1.created_at)) [
  | inl e ↦
      subst Found (sym (ap (λ (b : Bool). if b then x else best) e)) (elim (oldest-found x xs u.1) [
        | inl same ↦ inr (subst (λ (y : ℕ × Entry). Holds y (x ∷ xs)) (sym same) (Holds-head x xs))
        | inr there ↦ inr (Holds-tail _ x xs u there)
      ])
  | inr e ↦
      subst Found (sym (ap (λ (b : Bool). if b then x else best) e))
        (elim (oldest-found best xs u.1) [
          | inl same ↦ inl same
          | inr there ↦ inr (Holds-tail _ x xs u there)
        ])
]
  where
    Found : ℕ × Entry → Type 0
    Found b = (oldest b xs ≡ best) ⊎ Holds (oldest b xs) (x ∷ xs)

-- None is older.
pub oldest-least :
    (best : ℕ × Entry) (m : Entries)
    → ((oldest best m).1.created_at ≤ best.1.created_at)
      × All (λ kv. (oldest best m).1.created_at ≤ kv.1.created_at) m
unfolding oldest
oldest-least best [] = (omega arith, tt)
oldest-least best (x ∷ xs) = elim (Bool-cases (ltb x.1.created_at best.1.created_at)) [
  | inl e ↦ subst Least (rw e) (let (h, hs) = oldest-least x xs in (ground arith, (h, hs)))
  | inr e ↦ subst Least (rw e) (let (h, hs) = oldest-least best xs in (h, (ground arith, hs)))
]
  where
    Least : ℕ × Entry → Type 0
    Least b =
        ((oldest b xs).1.created_at ≤ best.1.created_at)
        × All (λ kv. (oldest b xs).1.created_at ≤ kv.1.created_at) (x ∷ xs)

pub Holds-oldest : (x : ℕ × Entry) (xs : Entries) → IsMap (x ∷ xs) → Holds (oldest x xs) (x ∷ xs)
Holds-oldest x xs u = elim (oldest-found x xs u.1) [
  | inl same ↦ subst (λ (y : ℕ × Entry). Holds y (x ∷ xs)) (sym same) (Holds-head x xs)
  | inr there ↦ Holds-tail _ x xs u there
]

drop_oldest-IsBindings :
    (m : Entries)
    → IsBindings m
    → IsBindings (drop_oldest m) × (length (drop_oldest m) ≤ length m - 1)
unfolding drop_oldest
drop_oldest-IsBindings [] h = (h, omega arith)
drop_oldest-IsBindings (x ∷ xs) h = (
  erase-IsBindings _ (x ∷ xs) h,
  omega (arith, length-erase-lt _ (x ∷ xs) _ (Holds-oldest x xs h.is_map)),
)

-- A new key leaves room for itself.
make_room-IsBindings :
    (id : ℕ) (m : Entries)
    → IsBindings m
    → IsBindings (make_room id m)
      × ((lookup id (make_room id m) ≡ none) → length (make_room id m) < capacity)
unfolding make_room
make_room-IsBindings id m h =
    elim (Bool-cases (not (is_some (lookup id m)) && leb capacity (length m))) [
      | inl e ↦ rw e (
        (drop_oldest-IsBindings m h).0,
        λ _. omega (arith, (drop_oldest-IsBindings m h).1, h.bounded),
      )
      | inr e ↦ rw e (h, λ missing. ground arith)
    ]

assign-IsBindings :
    (id : ℕ) (e : Entry) (m : Entries)
    → IsBinding id e
    → IsBindings m
    → ((lookup id m ≡ none) → length m < capacity)
    → IsBindings (assign id e m)
assign-IsBindings id e m p h room = record {
  is_map = assign-IsMap id e m h.is_map;
  bindings = assign-Entries IsBinding id e m p h.bindings;
  bounded = elim (Option-cases (lookup id m)) [
    | inl q ↦ omega (arith, length-assign_new id e m q, room q)
    | inr (old, q) ↦ omega (arith, length-assign_old id e m old q, h.bounded)
  ];
}

pub replace-IsBindings :
    (now later old_id new_id : ℕ) (d : ActivationDescriptor) (m : Entries)
    → IsBindings m
    → IsBindings (replace now later old_id new_id d m)
unfolding replace
replace-IsBindings now later old_id new_id d m h =
    elim (Bool-cases (new_id == 0 || not (valid d))) [
      | inl e ↦ rw e kept
      | inr e ↦ rw e (
          assign-IsBindings new_id _ _ (ground arith) (make_room-IsBindings new_id _ kept).0
            (make_room-IsBindings new_id _ kept).1)
    ]
  where
    kept : IsBindings (forget old_id (prune now m))
    kept = forget-IsBindings old_id _ (prune-IsBindings now m h)

consume-IsBindings : (now id : ℕ) (m : Entries) → IsBindings m → IsBindings (consume now id m).0
unfolding consume
consume-IsBindings now id m h = elim (Option-cases (lookup id (prune now m))) [
  | inl e ↦ rw (e, consume) (prune-IsBindings now m h)
  | inr (x, e) ↦ rw (e, consume) (erase-IsBindings id _ (prune-IsBindings now m h))
]

pub data Call : Type 0 where
  replaces : ℕ → ℕ → ℕ → ℕ → ActivationDescriptor → Call
  consumes : ℕ → ℕ → Call
  closes : ℕ → Call

unfoldable pub step : Call → Entries → Entries
step (replaces now later old_id new_id d) m = replace now later old_id new_id d m
step (consumes now id) m = (consume now id m).0
step (closes id) m = close id m

-- Whatever the ids, the descriptors and the times, every call keeps at most 256 bindings, no id
-- twice and none 0, and every kept descriptor valid.
pub step-IsBindings : (c : Call) (m : Entries) → IsBindings m → IsBindings (step c m)
unfolding step close
step-IsBindings (replaces now later old_id new_id d) m h =
    replace-IsBindings now later old_id new_id d m h
step-IsBindings (consumes now id) m h = consume-IsBindings now id m h
step-IsBindings (closes id) m h = erase-IsBindings id m h
