-- ===== src/Agent/Ancestry/StatLine.antt =====
-- What parse_parent_pid makes of a line of /proc/<pid>/stat.
use native.Mathlib.Nat.{pow-suc}
use holonightd.Prelude.{
  ℕ, ◌+◌, ◌-◌, ◌*◌, ◌^◌, ◌≤◌, ◌≡◌, refl, ◌≢◌, none, some, List, [], ◌∷◌, ◌++◌, arith, ltb,
  if◌then◌else◌, length, All, All-append, nat_eq, text_eq,
}
use holonightd.Agent.Ancestry.{
  u32_bound, after_last, take_until, is_digit, read_digits, from_chars, whole, parent_field,
  parse_parent_pid,
}

abbrev IsNumeral : List ℕ → Type 0
IsNumeral ds = All (λ d. (b'0' ≤ d) × (d ≤ b'9')) ds

-- The number that decimal digits stand for, by the place of each.
abbrev pub place_value : List ℕ → ℕ
place_value [] = 0
place_value (d ∷ ds) = (d - b'0') * 10 ^ length ds + place_value ds

scale : (acc d p v : ℕ) → (acc * 10 + d) * p + v ≡ acc * (p * 10) + (d * p + v)
scale acc d p v = omega arith

-- Reading digit by digit is reading by place.
read_digits-place_value :
    (acc : ℕ) (ds : List ℕ)
    → IsNumeral ds
    → read_digits acc ds ≡ (acc * 10 ^ length ds + place_value ds, [])
unfolding read_digits is_digit
read_digits-place_value acc [] h = ground arith
read_digits-place_value acc (d ∷ ds) h = ground (
  arith,
  read_digits-place_value (acc * 10 + (d - b'0')) ds h.1,
  pow-suc 10 (length ds),
  scale acc (d - b'0') (10 ^ length ds) (place_value ds),
)

take_until_numeral : (ds rest : List ℕ) → IsNumeral ds → take_until b' ' (ds ++ b' ' ∷ rest) ≡ ds
unfolding take_until
take_until_numeral [] rest h = refl
take_until_numeral (d ∷ ds) rest h = ground (arith, take_until_numeral ds rest h.1)

after_last_absent : (c : ℕ) (rest : List ℕ) → All (λ x. x ≢ c) rest → after_last c rest ≡ none
unfolding after_last
after_last_absent c [] h = refl
after_last_absent c (x ∷ xs) h = ground (arith, after_last_absent c xs h.1)

after_last-append :
    (c : ℕ) (pre rest : List ℕ) → All (λ x. x ≢ c) rest → after_last c (pre ++ c ∷ rest) ≡ some rest
unfolding after_last
after_last-append c [] rest h = ground (arith, after_last_absent c rest h)
after_last-append c (x ∷ pre) rest h = rw (after_last-append c pre rest h)

parent_field_numeral :
    (state gap : ℕ) (ds rest : List ℕ)
    → IsNumeral ds
    → ds ≢ []
    → parent_field (b' ' ∷ state ∷ gap ∷ (ds ++ b' ' ∷ rest))
      ≡ (if ltb (place_value ds) u32_bound then some (place_value ds) else none)
unfolding parent_field from_chars whole is_digit
parent_field_numeral state gap [] rest h ne = absurd (ne refl)
parent_field_numeral state gap (d ∷ ds) rest h ne =
    ground (arith, take_until_numeral (d ∷ ds) rest h, read_digits-place_value 0 (d ∷ ds) h)

numeral_free : (ds : List ℕ) → IsNumeral ds → All (λ x. x ≢ b')') ds
numeral_free [] h = tt
numeral_free (d ∷ ds) h = (omega arith, numeral_free ds h.1)

-- From a line `PID (COMMAND) S PPID ...` the parent's number is read, whatever stands in the
-- command, parentheses and spaces included, and `none` when it does not fit 32 bits: the digits
-- between the fourth byte after the last `)` and the next space are taken.
pub parse_parent_pid-line :
    (pre rest ds : List ℕ) (state gap : ℕ)
    → IsNumeral ds
    → ds ≢ []
    → state ≢ b')'
    → gap ≢ b')'
    → All (λ x. x ≢ b')') rest
    → parse_parent_pid (pre ++ b')' ∷ b' ' ∷ state ∷ gap ∷ (ds ++ b' ' ∷ rest))
      ≡ (if ltb (place_value ds) u32_bound then some (place_value ds) else none)
unfolding parse_parent_pid
parse_parent_pid-line pre rest ds state gap num ne hs hg hr =
    rw
      (
        after_last-append b')' pre (b' ' ∷ state ∷ gap ∷ (ds ++ b' ' ∷ rest)) tail_free,
        parse_parent_pid,
      )
      (parent_field_numeral state gap ds rest num ne)
  where
    tail_free : All (λ x. x ≢ b')') (b' ' ∷ state ∷ gap ∷ (ds ++ b' ' ∷ rest))
    tail_free = (
      omega arith,
      (
        hs,
        (hg, All-append (λ x. x ≢ b')') ds (b' ' ∷ rest) (numeral_free ds num) (omega arith, hr)),
      ),
    )
