-- ===== src/Prelude/Rearrange.antt =====
-- Lists that hold the same elements, each as often.
use mathlib.Core.Path.{◌≡◌, refl, subst, sym, ap, ◌∙◌}
use mathlib.Core.List.{List, [], ◌∷◌, ◌++◌, append_assoc}
use Prim.Native.Nat.{suc}
use holonightd.Prelude.Lists.{length, All}

module _ {ℓ} {A : Type ℓ} where
  pub data Rearranged : List A → List A → Type ℓ where
    nil : Rearranged [] []
    cons : {a : A} {xs ys : List A} → Rearranged xs ys → Rearranged (a ∷ xs) (a ∷ ys)
    swap : {a b : A} {xs : List A} → Rearranged (a ∷ b ∷ xs) (b ∷ a ∷ xs)
    trans : {xs ys zs : List A} → Rearranged xs ys → Rearranged ys zs → Rearranged xs zs

  pub Rearranged-refl : (xs : List A) → Rearranged xs xs
  Rearranged-refl [] = nil
  Rearranged-refl (x ∷ xs) = cons (Rearranged-refl xs)

  pub length-Rearranged : {xs ys : List A} → Rearranged xs ys → length xs ≡ length ys
  length-Rearranged nil = refl
  length-Rearranged (cons p) = ap suc (length-Rearranged p)
  length-Rearranged swap = refl
  length-Rearranged (trans p q) = length-Rearranged p ∙ length-Rearranged q

  Rearranged-after :
      {xs ys : List A} (zs : List A) → Rearranged xs ys → Rearranged (zs ++ xs) (zs ++ ys)
  Rearranged-after [] p = p
  Rearranged-after (z ∷ zs) p = cons (Rearranged-after zs p)

  -- Elements taken out of the rest of a list in two rounds.
  pub Rearranged-twice :
      {xs ys : List A} (first second zs : List A)
      → Rearranged xs (first ++ ys)
      → Rearranged ys (second ++ zs)
      → Rearranged xs ((first ++ second) ++ zs)
  Rearranged-twice {xs} first second zs p q =
      subst (Rearranged xs) (sym (append_assoc first second zs))
        (trans p (Rearranged-after first q))

module _ {ℓ κ} {A : Type ℓ} (P : A → Type κ) where
  pub All-Rearranged : {xs ys : List A} → Rearranged xs ys → All P xs → All P ys
  All-Rearranged nil h = h
  All-Rearranged (cons p) h = (h.0, All-Rearranged p h.1)
  All-Rearranged swap h = (h.1.0, (h.0, h.1.1))
  All-Rearranged (trans p q) h = All-Rearranged q (All-Rearranged p h)

  pub All-append_back : (xs ys : List A) → All P (xs ++ ys) → All P ys
  All-append_back [] ys h = h
  All-append_back (x ∷ xs) ys h = All-append_back xs ys h.1
