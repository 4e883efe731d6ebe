-- ===== src/Agent/Message/Bounds.antt =====
-- The length of a notification's body, and the bytes that it has.
use holonightd.Prelude.{
  ℕ, zero, suc, ◌+◌, ◌-◌, ◌≤◌, ◌<◌, ◌≢◌, inl, inr, Bool, false, ◌||◌, List, [], ◌∷◌, arith, ltb,
  leb, Bool-cases, length, take, length-take-le, length-append, All, All-append, nat_eq, text_eq,
}
use holonightd.Agent.Message.{max_len, as_space, clean_byte, clean, dots, cut, truncate_message}

-- Not a line break or a tab.
abbrev pub IsPlain : ℕ → Type 0
IsPlain c = (c ≢ b'\n') × (c ≢ b'\r') × (c ≢ b'\t')

as_space-IsPlain : (c : ℕ) → IsPlain (as_space c)
unfolding as_space
as_space-IsPlain c = ground arith

length-clean_byte :
    (c : ℕ) (cleaned : List ℕ) (last : Bool)
    → length (clean_byte c cleaned last).0 ≤ suc (length cleaned)
unfolding clean_byte
length-clean_byte c cleaned last =
    ground (arith, length-append cleaned (b' ' ∷ []), length-append cleaned (c ∷ []))

clean_byte-IsPlain :
    (c : ℕ) (cleaned : List ℕ) (last : Bool)
    → IsPlain c
    → All IsPlain cleaned
    → All IsPlain (clean_byte c cleaned last).0
unfolding clean_byte
clean_byte-IsPlain c cleaned last p h = ground (
  arith,
  All-append IsPlain cleaned (b' ' ∷ []) h (ground arith),
  All-append IsPlain cleaned (c ∷ []) h (p, tt),
)

length-clean :
    (message cleaned : List ℕ) (last : Bool)
    → length cleaned < max_len
    → (length (clean message cleaned last) ≤ max_len)
      × (length (clean message cleaned last) ≤ length cleaned + length message)
unfolding clean
length-clean [] cleaned last h = omega arith
length-clean (c ∷ message) cleaned last h =
    let step = length-clean_byte (as_space c) cleaned last in
    let next = clean_byte (as_space c) cleaned last in
    elim (Bool-cases (leb max_len (length next.0))) [
      | inl e ↦ rw e (omega (arith, step))
      | inr e ↦ rw e (omega (arith, step, length-clean message next.0 next.1 (ground arith)))
    ]

clean-IsPlain :
    (message cleaned : List ℕ) (last : Bool)
    → All IsPlain cleaned
    → All IsPlain (clean message cleaned last)
unfolding clean
clean-IsPlain [] cleaned last h = h
clean-IsPlain (c ∷ message) cleaned last h =
    let p = clean_byte-IsPlain (as_space c) cleaned last (as_space-IsPlain c) h in
    let next = clean_byte (as_space c) cleaned last in
    elim (Bool-cases (leb max_len (length next.0))) [
      | inl e ↦ rw e p
      | inr e ↦ rw e (clean-IsPlain message next.0 next.1 p)
    ]

take-All : (n : ℕ) (xs : List ℕ) → All IsPlain xs → All IsPlain (take n xs)
take-All zero xs h = tt
take-All (suc n) [] h = tt
take-All (suc n) (x ∷ xs) h = (h.0, take-All n xs h.1)

dots-IsPlain : All IsPlain dots
unfolding dots
dots-IsPlain = ground arith

cut_lem :
    (cleaned : List ℕ)
    → All IsPlain cleaned
    → (length (cut cleaned) ≤ max_len) × All IsPlain (cut cleaned)
unfolding cut dots
cut_lem cleaned h = elim (Bool-cases (ltb (max_len - 3) (length cleaned))) [
  | inl e ↦ rw e (
    omega (
      arith,
      length-append (take (max_len - 3) cleaned) dots,
      length-take-le (max_len - 3) cleaned,
    ),
    All-append IsPlain _ dots (take-All (max_len - 3) cleaned h) dots-IsPlain,
  )
  | inr e ↦
      rw e
        (ground (arith, length-append cleaned dots), All-append IsPlain cleaned dots h dots-IsPlain)
]

-- The body of a notification has at most 200 bytes, and no line breaks or tabs, whatever the
-- message.
pub truncate_message-IsPlain :
    (message : List ℕ)
    → (length (truncate_message message) ≤ max_len) × All IsPlain (truncate_message message)
unfolding truncate_message
truncate_message-IsPlain [] = (omega arith, tt)
truncate_message-IsPlain (c ∷ message) =
    let cleaned = clean (c ∷ message) [] false in
    let plain = clean-IsPlain (c ∷ message) [] false tt in
    elim (Bool-cases (ltb max_len (length (c ∷ message)) || leb max_len (length cleaned))) [
      | inl e ↦ rw e (cut_lem cleaned plain)
      | inr e ↦ rw e ((length-clean (c ∷ message) [] false (omega arith)).0, plain)
    ]
