-- ===== src/Tests/Sorting.antt =====
-- Insertion sort by a Boolean order, for the table of Tests/Memory.antt.
use holonightd.Prelude.{
  All-map, ℕ, zero, suc, ◌≡◌, refl, ap, inl, inr, Bool, true, false, List, [], ◌∷◌, ◌++◌,
  if◌then◌else◌, Bool-cases, take, All, nat_eq, text_eq,
}
use holonightd.Prelude.Rearrange.{
  Rearranged, nil, cons, swap, trans, Rearranged-refl, All-Rearranged,
}

abbrev pub drop_first : {A : Type 0} → ℕ → List A → List A
drop_first zero xs = xs
drop_first (suc n) [] = []
drop_first (suc n) (x ∷ xs) = drop_first n xs

pub record IsOrder (A : Type 0) (le : A → A → Bool) : Type 0 where
  pub total : (a b : A) → le a b ≡ false → le b a ≡ true
  pub le-trans : (a b c : A) → le a b ≡ true → le b c ≡ true → le a c ≡ true

module _ {A : Type 0} (le : A → A → Bool) where
  abbrev put : A → List A → List A
  put x [] = x ∷ []
  put x (y ∷ ys) = let rest = put x ys in if le x y then x ∷ y ∷ ys else y ∷ rest

  abbrev pub sort : List A → List A
  sort [] = []
  sort (x ∷ xs) = put x (sort xs)

  put-Rearranged : (x : A) (xs : List A) → Rearranged (x ∷ xs) (put x xs)
  put-Rearranged x [] = Rearranged-refl (x ∷ [])
  put-Rearranged x (y ∷ ys) = elim (Bool-cases (le x y)) [
    | inl e ↦ rw e (Rearranged-refl (x ∷ y ∷ ys))
    | inr e ↦ rw e (trans swap (cons (put-Rearranged x ys)))
  ]

  pub sort-Rearranged : (xs : List A) → Rearranged xs (sort xs)
  sort-Rearranged [] = nil
  sort-Rearranged (x ∷ xs) = trans (cons (sort-Rearranged xs)) (put-Rearranged x (sort xs))

  abbrev pub IsSorted : List A → Type 0
  IsSorted [] = Unit
  IsSorted (x ∷ xs) = All (λ y. le x y ≡ true) xs × IsSorted xs

  module _ (order : IsOrder A le) where
    put-IsSorted : (x : A) (xs : List A) → IsSorted xs → IsSorted (put x xs)
    put-IsSorted x [] h = (tt, tt)
    put-IsSorted x (y ∷ ys) (below, h) = elim (Bool-cases (le x y)) [
      | inl e ↦ rw e ((e, All-map (λ z. order.le-trans x y z e) ys below), (below, h))
      | inr e ↦
          rw e
            (All-Rearranged _ (put-Rearranged x ys) (order.total x y e, below), put-IsSorted x ys h)
    ]

    pub sort-IsSorted : (xs : List A) → IsSorted (sort xs)
    sort-IsSorted [] = tt
    sort-IsSorted (x ∷ xs) = put-IsSorted x (sort xs) (sort-IsSorted xs)

  All-drop_first : (P : A → Type 0) (n : ℕ) (xs : List A) → All P xs → All P (drop_first n xs)
  All-drop_first P zero xs h = h
  All-drop_first P (suc n) [] h = h
  All-drop_first P (suc n) (x ∷ xs) h = All-drop_first P n xs h.1

  pub take-below :
      (n : ℕ) (xs : List A)
      → IsSorted xs
      → All (λ x. All (λ y. le x y ≡ true) (drop_first n xs)) (take n xs)
  take-below zero xs h = tt
  take-below (suc n) [] h = tt
  take-below (suc n) (x ∷ xs) h = (All-drop_first _ n xs h.0, take-below n xs h.1)

pub take-drop_first : {A : Type 0} (n : ℕ) (xs : List A) → take n xs ++ drop_first n xs ≡ xs
take-drop_first zero xs = refl
take-drop_first (suc n) [] = refl
take-drop_first (suc n) (x ∷ xs) = ap (λ l. x ∷ l) (take-drop_first n xs)
