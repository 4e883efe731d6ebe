-- ===== src/Command/Capture.antt =====
-- What a run captures of the output, and when it ends.
use holonightd.Prelude.{
  length-take, take-append, take-min, ℕ, zero, suc, ◌-◌, min, String, ◌≡◌, refl, sym, ap, ◌∙◌, inl,
  inr, true, false, not, ◌&&◌, ◌||◌, Option, none, some, List, [], ◌∷◌, ◌++◌, arith, ltb,
  if◌then◌else◌, Bool-cases, Option-cases, length, take, length-append, nat_eq, text_eq,
}
use mathlib.Core.List.{append_assoc, append-nil}
use holonightd.Command.Ending.{is_going_on}
use holonightd.Command.{
  Read, bytes, end_of_file, would_block, read_failed, Wait, reaped, running, wait_failed, Round,
  Loop, start, append_bounded, read_pipe, is_over, terminate, enforce, Run, ended, threw, going_on,
  result_of, wait_for_child, run_rounds,
}

-- The output is the start of what was read, and it is marked where something is missing.
abbrev Captured : ℕ → List ℕ → Loop → Type 0
Captured limit all s = (s.output ≡ take limit all) × (s.output_truncated ≡ ltb limit (length all))

append_bounded-Captured :
    (limit : ℕ) (all chunk : List ℕ) (s : Loop)
    → Captured limit all s
    → Captured limit (all ++ chunk) (append_bounded chunk limit s)
unfolding append_bounded
append_bounded-Captured limit all chunk s (e, t) =
    let size : length s.output ≡ min limit (length all) = ap length e ∙ length-take limit all in
    let room : (if ltb (length s.output) limit then limit - length s.output else 0)
        ≡ limit - length all =
      ground (arith, size) in
    let total = length-append all chunk in
    (
      rw (room, take-min, e) (sym (take-append limit all chunk)),
      rw (room, t) (ground (arith, total)),
    )

-- A step that is not about the output.
SameOutput : Loop → Loop → Type 0
SameOutput s s' = (s'.output ≡ s.output) × (s'.output_truncated ≡ s.output_truncated)

Captured-same :
    (limit : ℕ) (all : List ℕ) (s s' : Loop)
    → SameOutput s s'
    → Captured limit all s
    → Captured limit all s'
unfolding SameOutput
Captured-same limit all s s' (a, b) (e, t) = (a ∙ e, b ∙ t)

enforce-SameOutput : (r : Round) (s : Loop) → SameOutput s (enforce r s)
unfolding enforce terminate SameOutput
enforce-SameOutput r s =
    elim (Bool-cases (not (is_over s) && (r.stop_requested || r.past_deadline))) [
      | inr e ↦ rw (e, enforce) (refl, refl)
      | inl e ↦ elim (Option-cases r.grace) [
        | inr (status, g) ↦ rw (e, enforce, g, terminate) (refl, refl)
        | inl g ↦ elim (Bool-cases (not s.child_finished)) [
          | inl f ↦ rw (e, enforce, g, terminate, f) (refl, refl)
          | inr f ↦ rw (e, enforce, g, terminate, f) (refl, refl)
        ]
      ]
    ]

abbrev WaitedSame : Loop → Option Loop → Type 0
WaitedSame s none = Unit
WaitedSame s (some s') = SameOutput s s'

wait_for_child-SameOutput : (r : Round) (s : Loop) → WaitedSame s (wait_for_child r s)
unfolding wait_for_child SameOutput
wait_for_child-SameOutput r s = elim (Bool-cases s.child_finished) [
  | inl e ↦ rw (e, wait_for_child) (refl, refl)
  | inr e ↦ rw (e, wait_for_child) (by_wait r.wait)
]
  where
    by_wait :
        (w : Wait)
        → WaitedSame s (elim w [
          | reaped status ↦ some (record s { child_finished = true; status = status })
          | running ↦ some s
          | wait_failed message ↦ none
        ])
    by_wait (reaped status) = (refl, refl)
    by_wait running = (refl, refl)
    by_wait (wait_failed message) = tt

abbrev chunk_of : Read → List ℕ
chunk_of (bytes chunk) = chunk
chunk_of end_of_file = []
chunk_of would_block = []
chunk_of read_failed = []

read_pipe-Captured :
    (limit : ℕ) (all : List ℕ) (read : Read) (s : Loop)
    → Captured limit all s
    → Captured limit (all ++ chunk_of read) (read_pipe limit read s)
unfolding read_pipe
read_pipe-Captured limit all (bytes chunk) s h = append_bounded-Captured limit all chunk s h
read_pipe-Captured limit all end_of_file s h = rw append-nil h
read_pipe-Captured limit all would_block s h = rw append-nil h
read_pipe-Captured limit all read_failed s h = rw append-nil h

-- What the run reads up to its end: the chunks of its first rounds.
pub chunks : List Round → List ℕ
chunks [] = []
chunks (r ∷ rs) = chunk_of r.read ++ chunks rs

-- The run is still going on before the last of its first k rounds.
abbrev pub StillGoing : String → ℕ → List Round → Loop → ℕ → Type 0
StillGoing command limit rounds s zero = Unit
StillGoing command limit rounds s (suc j) =
    is_going_on (run_rounds command limit (take j rounds) s) ≡ true

-- What a run captures: while it goes on, of all rounds; where it returns, of the rounds up to the
-- one that ended it, which is the last of the first k.
abbrev pub IsCaptured : String → ℕ → List ℕ → List Round → Loop → Run → Type 0
IsCaptured command limit before rounds s (threw message) = Unit
IsCaptured command limit before rounds s (going_on t) = Captured limit (before ++ chunks rounds) t
IsCaptured command limit before rounds s (ended result) =
    (k : ℕ) × (StillGoing command limit rounds s k
      × (run_rounds command limit (take k rounds) s ≡ ended result)
      × ((result.output ≡ take limit (before ++ chunks (take k rounds)))
          × (result.output_truncated ≡ ltb limit (length (before ++ chunks (take k rounds))))))

-- One round more, where the loop is not over before it.
shift :
    (command : String) (limit : ℕ) (before : List ℕ) (r : Round) (rs : List Round) (s s' : Loop)
    → is_over s ≡ false
    → ((xs : List Round) → run_rounds command limit (r ∷ xs) s ≡ run_rounds command limit xs s')
    → (run : Run) → IsCaptured command limit (before ++ chunk_of r.read) rs s' run
    → IsCaptured command limit before (r ∷ rs) s run
unfolding chunks run_rounds
shift command limit before r rs s s' e same (threw message) h = tt
shift command limit before r rs s s' e same (going_on t) h = rw append_assoc at h
shift command limit before r rs s s' e same (ended result) (k, (going, last, h)) =
    (suc k, (by_rounds k going, same (take k rs) ∙ last, rw append_assoc at h))
  where
    by_rounds :
        (k : ℕ) → StillGoing command limit rs s' k → StillGoing command limit (r ∷ rs) s (suc k)
    by_rounds zero h = rw (e, run_rounds) refl
    by_rounds (suc j) h = ap is_going_on (same (take j rs)) ∙ h

run_rounds-Captured :
    (command : String) (limit : ℕ) (before : List ℕ) (rounds : List Round) (s : Loop)
    → Captured limit before s
    → IsCaptured command limit before rounds s (run_rounds command limit rounds s)
unfolding run_rounds chunks result_of
run_rounds-Captured command limit before [] s h = elim (Bool-cases (is_over s)) [
  | inl e ↦ rw (e, run_rounds) (0, (tt, rw (e, run_rounds) refl, rw append-nil h))
  | inr e ↦ rw (e, run_rounds) (rw append-nil h)
]
run_rounds-Captured command limit before (r ∷ rs) s h =
    let next = read_pipe limit r.read s in
    let read = read_pipe-Captured limit before r.read s h in
    elim (Bool-cases (is_over s)) [
      | inl e ↦ rw (e, run_rounds) (0, (tt, rw (e, run_rounds) refl, rw append-nil h))
      | inr e ↦ elim (Option-cases (wait_for_child r next)) [
        | inl w ↦ rw (e, run_rounds, w) tt
        | inr (waited, w) ↦
            let same = rw w at (wait_for_child-SameOutput r next) in
            let s' = enforce r waited in
            let later =
              Captured-same limit _ waited s' (enforce-SameOutput r waited)
                (Captured-same limit _ next waited same read) in
            let step : (xs : List Round)
                → run_rounds command limit (r ∷ xs) s ≡ run_rounds command limit xs s' =
              λ xs. rw (e, run_rounds, w) refl in
            rw (step rs) (
              shift command limit before r rs s s' e step _
                (run_rounds-Captured command limit (before ++ chunk_of r.read) rs s' later))
      ]
    ]

-- However much a command prints, the output of its run is the start of what was read up to the
-- round that ended it, or so far while none has, cut at the limit; and it is marked as truncated
-- exactly where more was read than that.
pub run_rounds-IsCaptured :
    (command : String) (limit : ℕ) (rounds : List Round)
    → IsCaptured command limit [] rounds start (run_rounds command limit rounds start)
run_rounds-IsCaptured command limit rounds =
    run_rounds-Captured command limit [] rounds start (take_empty limit, ground arith)
  where
    take_empty : (n : ℕ) → ◌≡◌ {A = List ℕ} [] (take n [])
    take_empty zero = refl
    take_empty (suc n) = refl
