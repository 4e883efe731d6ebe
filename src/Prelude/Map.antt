-- ===== src/Prelude/Map.antt =====
-- Maps as association lists: std::unordered_map, whose iteration order the program does not rely
-- on. A key that is missing is appended.
use mathlib.Core.Path.{◌≡◌, refl, sym, subst}
use mathlib.Core.Logic.{inl, inr}
use mathlib.Core.Bool.{Bool}
use mathlib.Core.Option.{Option, none, some}
use mathlib.Core.List.{List, [], ◌∷◌}
use Prim.Native.Nat.{suc, ◌≤◌, ◌<◌}
use native.Mathlib.Omega.{arith}
use holonightd.Prelude.Tests.{Bool-cases, if◌then◌else◌}
use holonightd.Prelude.Lists.{length, All}
use holonightd.Prelude.Equality.{Eq, ◌==◌}

-- What a filter leaves of an entry that was found.
abbrev pub unless {κ} : {V : Type κ} → (V → Bool) → Option V → Option V
unless p none = none
unless p (some v) = if p v then none else some v

module _ {ℓ κ} {K : Type ℓ} {V : Type κ} ⦃e : Eq K⦄ where
  unfoldable pub lookup : K → List (K × V) → Option V
  lookup k [] = none
  lookup k ((j, v) ∷ m) = if j == k then some v else lookup k m

  -- m.erase(k)
  unfoldable pub erase : K → List (K × V) → List (K × V)
  erase k [] = []
  erase k ((j, v) ∷ m) = let rest = erase k m in if j == k then rest else (j, v) ∷ rest

  -- m.insert_or_assign(k, v), m[k] = v
  unfoldable pub assign : K → V → List (K × V) → List (K × V)
  assign k v [] = (k, v) ∷ []
  assign k v ((j, w) ∷ m) = let rest = assign k v m in if j == k then (j, v) ∷ m else (j, w) ∷ rest

  -- std::erase_if
  unfoldable pub erase_if : (V → Bool) → List (K × V) → List (K × V)
  erase_if p [] = []
  erase_if p ((j, v) ∷ m) = let rest = erase_if p m in if p v then rest else (j, v) ∷ rest

  pub lookup-erase :
      (k j : K) (m : List (K × V)) → lookup j (erase k m) ≡ (if k == j then none else lookup j m)
  unfolding lookup erase
  lookup-erase k j [] = ground arith
  lookup-erase k j ((i, w) ∷ m) =
      ground (arith, e.test_iff k j, e.test_iff i k, e.test_iff i j, lookup-erase k j m)

  pub lookup-assign :
      (k j : K) (v : V) (m : List (K × V))
      → lookup j (assign k v m) ≡ (if k == j then some v else lookup j m)
  unfolding lookup assign
  lookup-assign k j v [] = ground arith
  lookup-assign k j v ((i, w) ∷ m) =
      ground (arith, e.test_iff k j, e.test_iff i k, e.test_iff i j, lookup-assign k j v m)

  -- No key stands twice.
  abbrev pub IsMap : List (K × V) → Type κ
  IsMap [] = Unit
  IsMap ((k, v) ∷ m) = (lookup k m ≡ none) × IsMap m

  pub erase-IsMap : (k : K) (m : List (K × V)) → IsMap m → IsMap (erase k m)
  unfolding erase
  erase-IsMap k [] h = tt
  erase-IsMap k ((i, w) ∷ m) h = ground (arith, lookup-erase k i m, erase-IsMap k m h.1)

  pub assign-IsMap : (k : K) (v : V) (m : List (K × V)) → IsMap m → IsMap (assign k v m)
  unfolding assign lookup
  assign-IsMap k v [] h = (refl, tt)
  assign-IsMap k v ((i, w) ∷ m) h =
      ground (arith, e.test_iff i k, e.test_iff k i, lookup-assign k i v m, assign-IsMap k v m h.1)

  lookup-erase_if-none :
      (p : V → Bool) (k : K) (m : List (K × V)) → lookup k m ≡ none → lookup k (erase_if p m) ≡ none
  unfolding lookup erase_if
  lookup-erase_if-none p k [] h = refl
  lookup-erase_if-none p k ((i, w) ∷ m) h = ground (arith, lookup-erase_if-none p k m)

  pub lookup-erase_if :
      (p : V → Bool) (k : K) (m : List (K × V))
      → IsMap m
      → lookup k (erase_if p m) ≡ unless p (lookup k m)
  unfolding lookup erase_if
  lookup-erase_if p k [] h = refl
  lookup-erase_if p k ((i, w) ∷ m) h =
      ground (arith, e.test_iff i k, lookup-erase_if p k m h.1, lookup-erase_if-none p i m h.0)

  pub erase_if-IsMap : (p : V → Bool) (m : List (K × V)) → IsMap m → IsMap (erase_if p m)
  unfolding erase_if
  erase_if-IsMap p [] h = tt
  erase_if-IsMap p ((i, w) ∷ m) h =
      ground (arith, lookup-erase_if-none p i m h.0, erase_if-IsMap p m h.1)

  pub length-erase-le : (k : K) (m : List (K × V)) → length (erase k m) ≤ length m
  unfolding erase
  length-erase-le k [] = omega arith
  length-erase-le k ((i, w) ∷ m) = ground (arith, length-erase-le k m)

  pub length-erase_if-le : (p : V → Bool) (m : List (K × V)) → length (erase_if p m) ≤ length m
  unfolding erase_if
  length-erase_if-le p [] = omega arith
  length-erase_if-le p ((i, w) ∷ m) = ground (arith, length-erase_if-le p m)

  pub length-erase-lt :
      (k : K) (m : List (K × V)) (v : V) → lookup k m ≡ some v → length (erase k m) < length m
  unfolding lookup erase
  length-erase-lt k [] v h = cc
  length-erase-lt k ((i, w) ∷ m) v h = ground (arith, length-erase-le k m, length-erase-lt k m v)

  pub length-assign_new :
      (k : K) (v : V) (m : List (K × V))
      → lookup k m ≡ none
      → length (assign k v m) ≡ suc (length m)
  unfolding lookup assign
  length-assign_new k v [] h = refl
  length-assign_new k v ((i, w) ∷ m) h = ground (arith, length-assign_new k v m)

  pub length-assign_old :
      (k : K) (v : V) (m : List (K × V)) (w : V)
      → lookup k m ≡ some w
      → length (assign k v m) ≡ length m
  unfolding lookup assign
  length-assign_old k v [] w h = cc
  length-assign_old k v ((i, u) ∷ m) w h = ground (arith, length-assign_old k v m w)

  pub erase_missing : (k : K) (m : List (K × V)) → lookup k m ≡ none → erase k m ≡ m
  unfolding lookup erase
  erase_missing k [] h = refl
  erase_missing k ((i, w) ∷ m) h = ground (arith, erase_missing k m)

module _ {ℓ κ μ} {K : Type ℓ} {V : Type κ} (P : K → V → Type μ) where
  -- Every entry has the property.
  abbrev pub Entries : List (K × V) → Type μ
  Entries m = All (λ kv. P kv.0 kv.1) m

  module _ ⦃e : Eq K⦄ where
    pub lookup-Entries :
        (k : K) (v : V) (m : List (K × V)) → Entries m → lookup k m ≡ some v → P k v
    unfolding lookup
    lookup-Entries k v [] h q = cc
    lookup-Entries k v ((i, w) ∷ m) h q = elim (Bool-cases (i == k)) [
      | inl same ↦ subst (λ k'. P k' v) ((e.test_iff i k).0 same) (subst (P i) (ground arith) h.0)
      | inr other ↦ lookup-Entries k v m h.1 (rw other at q)
    ]

    pub assign-Entries :
        (k : K) (v : V) (m : List (K × V)) → P k v → Entries m → Entries (assign k v m)
    unfolding assign
    assign-Entries k v [] p h = (p, tt)
    assign-Entries k v ((i, w) ∷ m) p h = elim (Bool-cases (i == k)) [
      | inl same ↦ rw same (subst (λ k'. P k' v) (sym ((e.test_iff i k).0 same)) p, h.1)
      | inr other ↦ rw other (h.0, assign-Entries k v m p h.1)
    ]

    pub erase-Entries : (k : K) (m : List (K × V)) → Entries m → Entries (erase k m)
    unfolding erase
    erase-Entries k [] h = tt
    erase-Entries k ((i, w) ∷ m) h = elim (Bool-cases (i == k)) [
      | inl same ↦ rw same (erase-Entries k m h.1)
      | inr other ↦ rw other (h.0, erase-Entries k m h.1)
    ]

    pub erase_if-Entries : (p : V → Bool) (m : List (K × V)) → Entries m → Entries (erase_if p m)
    unfolding erase_if
    erase_if-Entries p [] h = tt
    erase_if-Entries p ((i, w) ∷ m) h = elim (Bool-cases (p w)) [
      | inl e ↦ rw e (erase_if-Entries p m h.1)
      | inr e ↦ rw e (h.0, erase_if-Entries p m h.1)
    ]
