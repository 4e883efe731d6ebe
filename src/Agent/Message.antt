-- ===== src/Agent/Message.antt =====
-- truncateMessage of libs/agent/NotificationBridge.cpp, on bytes: the body of a notification.
pub mod Bounds
use holonightd.Prelude.{
  ℕ, zero, suc, ◌+◌, ◌-◌, ◌*◌, ◌/◌, ◌%◌, ◌^◌, ◌≤◌, ◌<◌, min, String, ◌≡◌, refl, sym, ap, ◌∙◌, subst,
  ◌≢◌, ◌↔◌, ◌⊎◌, inl, inr, Bool, true, false, not, ◌&&◌, ◌||◌, Option, none, some, List, [], ◌∷◌,
  ◌++◌, map, arith, eq_iff, ltb, leb, if◌then◌else◌, Bool-cases, Option-cases, length, take,
  is_empty, length-take-le, length-append, keep_if, any, All, All-append, Eq, ◌==◌, nat_eq, text_eq,
  is_some, Some, any-Some, Some-any, is_empty-append, is_empty-keep_if, nat_eqb, nat_eqb_iff,
}

abbrev pub max_len : ℕ
max_len = 200

is_break : ℕ → Bool
is_break c = c == b'\n' || c == b'\r' || c == b'\t'

-- char_item after the replacement of a line break or a tab.
as_space : ℕ → ℕ
unfolding is_break
as_space c = if is_break c then b' ' else c

-- The body of the loop: `cleaned` and `last_was_space`.
clean_byte : ℕ → List ℕ → Bool → List ℕ × Bool
clean_byte c cleaned last_was_space =
    if c == b' '
    then (if not last_was_space && not (is_empty cleaned)
        then (cleaned ++ b' ' ∷ [], true)
        else (cleaned, last_was_space))
    else (cleaned ++ c ∷ [], false)

-- The loop, left by the break as soon as there are max_len bytes.
clean : List ℕ → List ℕ → Bool → List ℕ
unfolding clean_byte as_space
clean [] cleaned last_was_space = cleaned
clean (c ∷ message) cleaned last_was_space =
    let (cleaned', last') = clean_byte (as_space c) cleaned last_was_space in
    let rest = clean message cleaned' last' in
    if leb max_len (length cleaned') then cleaned' else rest

dots : List ℕ
dots = b'.' ∷ b'.' ∷ b'.' ∷ []

cut : List ℕ → List ℕ
unfolding dots
cut cleaned =
    (if ltb (max_len - 3) (length cleaned) then take (max_len - 3) cleaned else cleaned) ++ dots

unfoldable pub truncate_message : List ℕ → List ℕ
unfolding clean cut
truncate_message message =
    if is_empty message
    then []
    else (let cleaned = clean message [] false in
        if ltb max_len (length message) || leb max_len (length cleaned)
        then cut cleaned
        else cleaned)
