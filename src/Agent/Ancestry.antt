-- ===== src/Agent/Ancestry.antt =====
-- ProcessAncestryReader of libs/agent/ProcessAncestryReader.cpp. The reader of /proc is an
-- argument; the text of a stat file is the list of its bytes.
pub mod StatLine
pub mod Lineage
mod Tests
use holonightd.Prelude.{
  ℕ, zero, suc, ◌+◌, ◌-◌, ◌*◌, ◌/◌, ◌%◌, ◌^◌, ◌≤◌, ◌<◌, min, String, ◌≡◌, refl, sym, ap, ◌∙◌, subst,
  ◌≢◌, ◌↔◌, ◌⊎◌, inl, inr, Bool, true, false, not, ◌&&◌, ◌||◌, Option, none, some, List, [], ◌∷◌,
  ◌++◌, map, arith, eq_iff, ltb, leb, if◌then◌else◌, Bool-cases, Option-cases, length, take,
  is_empty, length-take-le, length-append, keep_if, any, All, All-append, Eq, ◌==◌, nat_eq, text_eq,
}

-- `none`: the file cannot be read
abbrev pub StatReader : Type 0
StatReader = ℕ → Option (List ℕ)

abbrev u32_bound : ℕ
u32_bound = 2 ^ 32

-- What follows the last `)`: stat.rfind(')').
after_last : ℕ → List ℕ → Option (List ℕ)
after_last c [] = none
after_last c (x ∷ xs) = elim (after_last c xs) [
  | some rest ↦ some rest
  | none ↦ if x == c then some xs else none
]

-- The text up to the first `c`, or all of it: substr up to find(c).
take_until : ℕ → List ℕ → List ℕ
take_until c [] = []
take_until c (x ∷ xs) = let rest = take_until c xs in if x == c then [] else x ∷ rest

is_digit : ℕ → Bool
is_digit c = leb b'0' c && leb c b'9'

read_digits : ℕ → List ℕ → ℕ × List ℕ
unfolding is_digit
read_digits acc [] = (acc, [])
read_digits acc (c ∷ cs) =
    let rest = read_digits (acc * 10 + (c - b'0')) cs in if is_digit c then rest else (acc, c ∷ cs)

-- std::from_chars into a std::uint32_t: the number and where it ended, none for an error.
from_chars : List ℕ → Option (ℕ × List ℕ)
unfolding is_digit read_digits
from_chars [] = none
from_chars (c ∷ cs) =
    if is_digit c
    then (let (value, end) = read_digits 0 (c ∷ cs) in
        if ltb value u32_bound then some (value, end) else none)
    else none

-- The number must end where the field ends.
whole : Option (ℕ × List ℕ) → Option ℕ
whole none = none
whole (some (value, [])) = some value
whole (some (value, c ∷ cs)) = none

-- A space, one byte of state, one more byte, and the parent's number.
parent_field : List ℕ → Option ℕ
unfolding take_until from_chars whole
parent_field (space ∷ state ∷ gap ∷ c ∷ cs) =
    if space == b' ' then whole (from_chars (take_until b' ' (c ∷ cs))) else none
parent_field _ = none

unfoldable pub parse_parent_pid : List ℕ → Option ℕ
unfolding after_last parent_field
parse_parent_pid stat = elim (after_last b')' stat) [ none ↦ none | some rest ↦ parent_field rest ]

-- The parent of a process, none where the loop breaks off: no stat file, or none that parses.
unfoldable pub parent_of : StatReader → ℕ → Option ℕ
parent_of reader pid = elim (reader pid) [ none ↦ none | some stat ↦ parse_parent_pid stat ]

abbrev pub max_lineage : ℕ
max_lineage = 64

-- The loop of `read`, with `rounds` rounds left; `visited` holds what is in the lineage so far.
climb : ℕ → StatReader → ℕ → List ℕ → List ℕ
climb zero reader pid visited = []
climb (suc rounds) reader pid visited =
    if pid == 0 || any (λ v. v == pid) visited then [] else elim (parent_of reader pid) [
      | none ↦ []
      | some parent ↦
          let above = climb rounds reader parent (pid ∷ visited) in
          pid ∷ (if pid == 1 || parent == 0 then [] else above)
    ]

unfoldable pub read : StatReader → ℕ → List ℕ
unfolding climb parent_of
read reader pid = climb max_lineage reader pid []
