-- ===== src/Agent/Ancestry/Lineage.antt =====
-- What the lineage of a process is.
use holonightd.Prelude.{
  ℕ, zero, suc, ◌≤◌, ◌<◌, ◌≡◌, refl, sym, subst, ◌≢◌, ◌↔◌, ◌⊎◌, inl, inr, false, ◌||◌, some, List,
  [], ◌∷◌, arith, Bool-cases, Option-cases, length, any, All, ◌==◌, nat_eq, text_eq,
}
use holonightd.Agent.Ancestry.{StatReader, parent_of, max_lineage, climb, read}

abbrev Distinct : List ℕ → Type 0
Distinct [] = Unit
Distinct (x ∷ xs) = All (λ y. y ≢ x) xs × Distinct xs

-- Each process is followed by its parent; the last one has a readable parent too.
abbrev Linked : StatReader → List ℕ → Type 0
Linked reader [] = Unit
Linked reader (p ∷ []) = (q : ℕ) × (parent_of reader p ≡ some q)
Linked reader (p ∷ q ∷ rest) = (parent_of reader p ≡ some q) × Linked reader (q ∷ rest)

pub record IsLineage (reader : StatReader) (pid : ℕ) (lineage : List ℕ) : Type 0 where
  pub bounded : length lineage ≤ max_lineage
  pub positive : All (λ p. 0 < p) lineage
  pub distinct : Distinct lineage
  pub linked : Linked reader lineage
  pub starts : (lineage ≡ []) ⊎ ((rest : List ℕ) × (lineage ≡ pid ∷ rest))

module _ (reader : StatReader) where
  -- What one round does.
  data Round (rounds pid : ℕ) (visited lineage : List ℕ) : Type 0 where
    stop : lineage ≡ [] → Round rounds pid visited lineage
    last :
        (parent : ℕ)
        → 0 < pid
        → any (λ v. v == pid) visited ≡ false
        → parent_of reader pid ≡ some parent
        → lineage ≡ pid ∷ []
        → Round rounds pid visited lineage
    more :
        (parent : ℕ)
        → 0 < pid
        → any (λ v. v == pid) visited ≡ false
        → parent_of reader pid ≡ some parent
        → lineage ≡ pid ∷ climb rounds reader parent (pid ∷ visited)
        → Round rounds pid visited lineage

  climb-Round :
      (rounds pid : ℕ) (visited : List ℕ)
      → Round rounds pid visited (climb (suc rounds) reader pid visited)
  climb-Round rounds pid visited = elim (Bool-cases (pid == 0 || any (λ v. v == pid) visited)) [
    | inl out ↦ stop (unfold climb in rw out)
    | inr fresh ↦ elim (Option-cases (parent_of reader pid)) [
      | inl e ↦ stop (unfold climb in rw (fresh, e))
      | inr (parent, e) ↦ elim (Bool-cases (pid == 1 || parent == 0)) [
        | inl top ↦ last parent (ground arith) (ground arith) e (unfold climb in rw (fresh, e, top))
        | inr on ↦ more parent (ground arith) (ground arith) e (unfold climb in rw (fresh, e, on))
      ]
    ]
  ]

  module _ (P : ℕ → ℕ → List ℕ → List ℕ → Type 0)
      (stopped : (n pid : ℕ) (visited : List ℕ) → P n pid visited [])
      (ended : (n pid parent : ℕ) (visited : List ℕ)
        → 0 < pid
        → any (λ v. v == pid) visited ≡ false
        → parent_of reader pid ≡ some parent
        → P (suc n) pid visited (pid ∷ []))
      (went_on : (n pid parent : ℕ) (visited above : List ℕ)
        → 0 < pid
        → any (λ v. v == pid) visited ≡ false
        → parent_of reader pid ≡ some parent
        → P n parent (pid ∷ visited) above
        → P (suc n) pid visited (pid ∷ above)) where
    round_induction :
        (n pid : ℕ) (visited lineage : List ℕ)
        → ((parent : ℕ) → P n parent (pid ∷ visited) (climb n reader parent (pid ∷ visited)))
        → Round n pid visited lineage
        → P (suc n) pid visited lineage
    round_induction n pid visited lineage ih (stop e) =
        subst (P (suc n) pid visited) (sym e) (stopped (suc n) pid visited)
    round_induction n pid visited lineage ih (last q h f e l) =
        subst (P (suc n) pid visited) (sym l) (ended n pid q visited h f e)
    round_induction n pid visited lineage ih (more q h f e l) =
        subst (P (suc n) pid visited) (sym l) (went_on n pid q visited _ h f e (ih q))

    climb_induction : (n pid : ℕ) (visited : List ℕ) → P n pid visited (climb n reader pid visited)
    climb_induction zero pid visited = unfold climb in stopped zero pid visited
    climb_induction (suc n) pid visited =
        round_induction n pid visited _ (λ q. climb_induction n q (pid ∷ visited))
          (climb-Round n pid visited)

  climb-bounded : (n pid : ℕ) (visited : List ℕ) → length (climb n reader pid visited) ≤ n
  climb-bounded =
      climb_induction (λ n pid visited l. length l ≤ n) (λ n pid v. omega arith)
        (λ n pid q v h f e. omega arith) (λ n pid q v l h f e ih. omega arith)

  climb-positive : (n pid : ℕ) (visited : List ℕ) → All (λ p. 0 < p) (climb n reader pid visited)
  climb-positive =
      climb_induction (λ n pid visited l. All (λ p. 0 < p) l) (λ n pid v. tt)
        (λ n pid q v h f e. (h, tt)) (λ n pid q v l h f e ih. (h, ih))

  abbrev Fresh : List ℕ → List ℕ → Type 0
  Fresh visited l = All (λ y. any (λ v. v == y) visited ≡ false) l

  Fresh-other :
      (pid : ℕ) (visited l : List ℕ)
      → Fresh (pid ∷ visited) l
      → Fresh visited l × All (λ y. y ≢ pid) l
  Fresh-other pid visited [] h = (tt, tt)
  Fresh-other pid visited (y ∷ l) h = ground (arith, Fresh-other pid visited l h.1)

  climb-Distinct :
      (n pid : ℕ) (visited : List ℕ)
      → Fresh visited (climb n reader pid visited) × Distinct (climb n reader pid visited)
  climb-Distinct =
      climb_induction (λ n pid visited l. Fresh visited l × Distinct l) (λ n pid v. (tt, tt))
        (λ n pid q v h f e. ((f, tt), (tt, tt)))
        (λ n pid q v l h f e ih.
          ((f, (Fresh-other pid v l ih.0).0), ((Fresh-other pid v l ih.0).1, ih.1)))

  Linked-cons :
      (pid q : ℕ) (above : List ℕ)
      → parent_of reader pid ≡ some q
      → Linked reader above
      → (above ≡ []) ⊎ ((rest : List ℕ) × (above ≡ q ∷ rest))
      → Linked reader (pid ∷ above)
  Linked-cons pid q [] e h s = (q, e)
  Linked-cons pid q (x ∷ above) e h (inl c) = cc
  Linked-cons pid q (x ∷ above) e h (inr (rest, c)) = (ground arith, h)

  climb-Linked :
      (n pid : ℕ) (visited : List ℕ)
      → Linked reader (climb n reader pid visited)
        × ((climb n reader pid visited ≡ [])
            ⊎ ((rest : List ℕ) × (climb n reader pid visited ≡ pid ∷ rest)))
  climb-Linked =
      climb_induction
        (λ n pid visited l. Linked reader l × ((l ≡ []) ⊎ ((rest : List ℕ) × (l ≡ pid ∷ rest))))
        (λ n pid v. (tt, inl refl)) (λ n pid q v h f e. ((q, e), inr ([], refl)))
        (λ n pid q v l h f e ih. (Linked-cons pid q l e ih.0 ih.1, inr (l, refl)))

-- Whatever the stat files say, the lineage has at most 64 processes, none of them 0 and none
-- twice, begins with the process asked for unless it is empty, and goes from each process to its
-- parent.
pub read-IsLineage : (reader : StatReader) (pid : ℕ) → IsLineage reader pid (read reader pid)
unfolding read
read-IsLineage reader pid = record {
  bounded = climb-bounded reader max_lineage pid [];
  positive = climb-positive reader max_lineage pid [];
  distinct = (climb-Distinct reader max_lineage pid []).1;
  linked = (climb-Linked reader max_lineage pid []).0;
  starts = (climb-Linked reader max_lineage pid []).1;
}

climb-nonempty :
    (reader : StatReader) (n pid q : ℕ)
    → 0 < pid
    → parent_of reader pid ≡ some q
    → climb (suc n) reader pid [] ≢ []
unfolding climb
climb-nonempty reader n pid q h e c = ground arith

-- The lineage is not empty exactly when the process is not 0 and its stat file can be read.
pub read-nonempty :
    (reader : StatReader) (pid : ℕ)
    → (read reader pid ≢ []) ↔ ((0 < pid) × ((q : ℕ) × (parent_of reader pid ≡ some q)))
unfolding read
read-nonempty reader pid = (forth (climb-Round reader 63 pid []), back)
  where
    forth :
        Round reader 63 pid [] (climb 64 reader pid [])
        → climb 64 reader pid [] ≢ []
        → (0 < pid) × ((q : ℕ) × (parent_of reader pid ≡ some q))
    forth (stop e) ne = absurd (ne e)
    forth (last q h f e l) ne = (h, (q, e))
    forth (more q h f e l) ne = (h, (q, e))

    back : (0 < pid) × ((q : ℕ) × (parent_of reader pid ≡ some q)) → climb 64 reader pid [] ≢ []
    back (h, (q, e)) c = climb-nonempty reader 63 pid q h e c
