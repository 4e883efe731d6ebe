-- ===== src/Collectors/Storage/Escapes.antt =====
-- Mount paths that the kernel has escaped.
use holonightd.Prelude.{
  ℕ, ◌+◌, ◌/◌, ◌%◌, ◌≡◌, refl, sym, ap, ◌∙◌, subst, ◌⊎◌, inl, inr, Bool, true, false, ◌||◌, List,
  [], ◌∷◌, ◌++◌, arith, if◌then◌else◌, Bool-cases, ◌==◌, nat_eq, text_eq, nat_eqb,
}
use holonightd.Collectors.Storage.{unescape_mount_path, is_digit, octal}

-- What the kernel writes of a byte in /proc/mounts: a space, a tab, a line break, a backslash and
-- a # become a backslash with three octal digits.
is_escaped : ℕ → Bool
is_escaped c = c == b' ' || c == b'\t' || c == b'\n' || c == b'\\' || c == b'#'

escape_byte : ℕ → List ℕ
unfolding is_escaped
escape_byte c =
    if is_escaped c then b'\\' ∷ (48 + c / 64) ∷ (48 + c / 8 % 8) ∷ (48 + c % 8) ∷ [] else c ∷ []

pub escape : List ℕ → List ℕ
unfolding escape_byte
escape [] = []
escape (c ∷ path) = escape_byte c ++ escape path

-- A byte that is not a backslash stands for itself.
unescape-plain :
    (c : ℕ) (rest : List ℕ)
    → nat_eqb c b'\\' ≡ false
    → unescape_mount_path (c ∷ rest) ≡ c ∷ unescape_mount_path rest
unfolding unescape_mount_path
unescape-plain c [] h = refl
unescape-plain c (x ∷ []) h = refl
unescape-plain c (x ∷ y ∷ []) h = refl
unescape-plain c (x ∷ y ∷ z ∷ rest) h = rw h refl

-- The five bytes.
escaped-cases :
    (c : ℕ) → is_escaped c ≡ true → (c ≡ 32) ⊎ ((c ≡ 9) ⊎ ((c ≡ 10) ⊎ ((c ≡ 92) ⊎ (c ≡ 35))))
unfolding is_escaped
escaped-cases c h = ground arith

unescape-escape_byte :
    (c : ℕ) (rest : List ℕ)
    → unescape_mount_path (escape_byte c ++ rest) ≡ c ∷ unescape_mount_path rest
unfolding unescape_mount_path escape_byte is_escaped is_digit octal
unescape-escape_byte c rest = elim (Bool-cases (is_escaped c)) [
  | inl e ↦ elim (escaped-cases c e) [
    | inl q ↦ back q refl
    | inr (inl q) ↦ back q refl
    | inr (inr (inl q)) ↦ back q refl
    | inr (inr (inr (inl q))) ↦ back q refl
    | inr (inr (inr (inr q))) ↦ back q refl
  ]
  | inr e ↦ rw (e, escape_byte) (unescape-plain c rest (ground arith))
]
  where
    Back : ℕ → Type 0
    Back d = unescape_mount_path (escape_byte d ++ rest) ≡ d ∷ unescape_mount_path rest

    back : {d : ℕ} → c ≡ d → Back d → Back c
    back q b = subst Back (sym q) b

-- Unescaping gives back every path that the kernel escaped.
pub unescape-escape : (path : List ℕ) → unescape_mount_path (escape path) ≡ path
unfolding escape
unescape-escape [] = unfold unescape_mount_path in refl
unescape-escape (c ∷ path) =
    unescape-escape_byte c (escape path) ∙ ap (λ l. c ∷ l) (unescape-escape path)
