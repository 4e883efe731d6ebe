-- ===== src/Command/Ending.antt =====
-- When a run ends: the timeout and the flag end it once the pipe has been closed, and not before.
use holonightd.Prelude.{
  ℕ, String, ◌≡◌, refl, ◌∙◌, ◌≢◌, inl, inr, Bool, true, false, not, ◌&&◌, ◌||◌, Option, none, some,
  List, [], ◌∷◌, arith, Bool-cases, Option-cases, All, nat_eq, text_eq,
}
use holonightd.Command.{
  Read, bytes, end_of_file, would_block, read_failed, Wait, reaped, running, wait_failed, Round,
  Loop, append_bounded, read_pipe, is_over, terminate, enforce, Run, ended, threw, going_on,
  wait_for_child, run_rounds,
}

-- A read that does not find the pipe closed.
abbrev pub leaves_open : Read → Bool
leaves_open (bytes chunk) = true
leaves_open end_of_file = false
leaves_open would_block = true
leaves_open read_failed = false

abbrev pub is_ended : Run → Bool
is_ended (ended result) = true
is_ended (threw message) = false
is_ended (going_on s) = false

read_pipe-finished :
    (limit : ℕ) (read : Read) (s : Loop)
    → (read_pipe limit read s).pipe_finished ≡ (s.pipe_finished || not (leaves_open read))
unfolding read_pipe append_bounded
read_pipe-finished limit (bytes chunk) s = ground arith
read_pipe-finished limit end_of_file s = ground arith
read_pipe-finished limit would_block s = ground arith
read_pipe-finished limit read_failed s = ground arith

enforce-pipe_finished : (r : Round) (s : Loop) → (enforce r s).pipe_finished ≡ s.pipe_finished
unfolding enforce terminate
enforce-pipe_finished r s =
    elim (Bool-cases (not (is_over s) && (r.stop_requested || r.past_deadline))) [
      | inr e ↦ rw (e, enforce) refl
      | inl e ↦ elim (Option-cases r.grace) [
        | inr (status, g) ↦ rw (e, enforce, g, terminate) refl
        | inl g ↦ elim (Bool-cases (not s.child_finished)) [
          | inl f ↦ rw (e, enforce, g, terminate, f) refl
          | inr f ↦ rw (e, enforce, g, terminate, f) refl
        ]
      ]
    ]

-- The child is over once the timeout or the flag is enforced.
enforce-child_finished :
    (r : Round) (s : Loop)
    → (r.stop_requested || r.past_deadline) ≡ true
    → (is_over s ≡ false → (enforce r s).child_finished ≡ true)
unfolding enforce terminate
enforce-child_finished r s h over = elim (Option-cases r.grace) [
  | inr (status, g) ↦ rw (over, enforce, h) (rw (g, terminate) refl)
  | inl g ↦ elim (Bool-cases s.child_finished) [
    | inl f ↦ rw (over, enforce, h) (rw (g, terminate, f) (ground arith))
    | inr f ↦ rw (over, enforce, h) (rw (g, terminate, f) refl)
  ]
]

KeptPipe : Loop → Option Loop → Type 0
KeptPipe s none = Unit
KeptPipe s (some s') = s'.pipe_finished ≡ s.pipe_finished

wait_for_child-KeptPipe : (r : Round) (s : Loop) → KeptPipe s (wait_for_child r s)
unfolding wait_for_child KeptPipe
wait_for_child-KeptPipe r s = elim (Bool-cases s.child_finished) [
  | inl e ↦ rw (e, wait_for_child) refl
  | inr e ↦ rw (e, wait_for_child) (by_wait r.wait)
]
  where
    by_wait :
        (w : Wait)
        → KeptPipe s (elim w [
          | reaped status ↦ some (record s { child_finished = true; status = status })
          | running ↦ some s
          | wait_failed message ↦ none
        ])
    by_wait (reaped status) = refl
    by_wait running = refl
    by_wait (wait_failed message) = tt

abbrev pub is_going_on : Run → Bool
is_going_on (ended result) = false
is_going_on (threw message) = false
is_going_on (going_on s) = true

-- A round that does not find the pipe closed, and in which waiting for the child does not fail.
abbrev pub keeps_open : Round → Bool
keeps_open r =
    leaves_open r.read
    && elim r.wait [ reaped status ↦ true | running ↦ true | wait_failed message ↦ false ]

waits-keeps_open : (r : Round) (s : Loop) → keeps_open r ≡ true → wait_for_child r s ≢ none
unfolding wait_for_child
waits-keeps_open r s h e = elim (Bool-cases s.child_finished) [
  | inl f ↦ cc (rw f at e)
  | inr f ↦ by_wait r.wait (ground (arith, h)) (rw f at e)
]
  where
    by_wait :
        (w : Wait)
        → elim w [ reaped status ↦ true | running ↦ true | wait_failed message ↦ false ] ≡ true
        → elim w [
          | reaped status ↦ some (record s { child_finished = true; status = status })
          | running ↦ some s
          | wait_failed message ↦ none
        ]
          ≡ none
        → ⊥
    by_wait (reaped status) g q = cc
    by_wait running g q = cc
    by_wait (wait_failed message) g q = cc

-- A run goes on, with neither a result nor an exception, however many rounds it takes and however
-- long its timeout is past, while no read finds the pipe closed and no wait fails: a process that
-- keeps the pipe open keeps the run.
pub run_rounds-kept_open :
    (command : String) (limit : ℕ) (rounds : List Round) (s : Loop)
    → s.pipe_finished ≡ false
    → All (λ r. keeps_open r ≡ true) rounds
    → is_going_on (run_rounds command limit rounds s) ≡ true
unfolding run_rounds KeptPipe
run_rounds-kept_open command limit [] s shut h =
    let over : is_over s ≡ false = ground arith in rw (over, run_rounds) refl
run_rounds-kept_open command limit (r ∷ rs) s shut h =
    let next = read_pipe limit r.read s in
    let over : is_over s ≡ false = ground arith in
    elim (Option-cases (wait_for_child r next)) [
      | inl w ↦ absurd (waits-keeps_open r next h.0 w)
      | inr (waited, w) ↦
          let kept = rw w at (wait_for_child-KeptPipe r next) in
          let still : (enforce r waited).pipe_finished ≡ false =
            enforce-pipe_finished r waited
            ∙ kept
            ∙ read_pipe-finished limit r.read s
            ∙ ground (arith, h.0) in
          rw (over, run_rounds, w) (run_rounds-kept_open command limit rs _ still h.1)
    ]

-- Once the pipe has been found closed, the first round in which the flag is set or the timeout is
-- past is the last one: the run ends, or waiting for the child fails.
pub run_rounds-in_time :
    (command : String) (limit : ℕ) (r : Round) (rounds : List Round) (s : Loop)
    → (s.pipe_finished || not (leaves_open r.read)) ≡ true
    → (r.stop_requested || r.past_deadline) ≡ true
    → wait_for_child r (read_pipe limit r.read s) ≢ none
    → is_ended (run_rounds command limit (r ∷ rounds) s) ≡ true
unfolding run_rounds KeptPipe
run_rounds-in_time command limit r rounds s shut now waits =
    let next = read_pipe limit r.read s in
    elim (Bool-cases (is_over s)) [
      | inl e ↦ rw (e, run_rounds) refl
      | inr e ↦ elim (Option-cases (wait_for_child r next)) [
        | inl w ↦ absurd (waits w)
        | inr (waited, w) ↦
            let kept = rw w at (wait_for_child-KeptPipe r next) in
            let closed : waited.pipe_finished ≡ true =
              kept ∙ read_pipe-finished limit r.read s ∙ shut in
            let last : is_over (enforce r waited) ≡ true = done waited closed in
            rw (e, run_rounds, w) (ends rounds (enforce r waited) last)
      ]
    ]
  where
    ends :
        (more : List Round) (t : Loop)
        → is_over t ≡ true
        → is_ended (run_rounds command limit more t) ≡ true
    ends [] t h = rw (h, run_rounds) refl
    ends (q ∷ qs) t h = rw (h, run_rounds) refl

    done : (t : Loop) → t.pipe_finished ≡ true → is_over (enforce r t) ≡ true
    done t shut' = elim (Bool-cases (is_over t)) [
      | inl e ↦ rw (e, enforce) e
      | inr e ↦ rw (enforce-child_finished r t now e, enforce-pipe_finished r t, shut') refl
    ]
