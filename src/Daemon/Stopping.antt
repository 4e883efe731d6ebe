-- ===== src/Daemon/Stopping.antt =====
-- That the daemon stops: the sleep between two iterations, and the loop.
use holonightd.Prelude.{
  ℕ, zero, suc, ◌+◌, ◌-◌, ◌/◌, ◌≤◌, ◌<◌, min, ◌≡◌, refl, ap, inl, inr, true, false, some, arith,
  ltb, Bool-cases, nat_eq, text_eq, is_some, nat_eqb, nat_eqb_iff,
}
use holonightd.Daemon.{RunMode, once, loop, Stops, sleep, run}

-- A flag that stays set.
abbrev pub Persistent : Stops → Type 0
Persistent stops = (i j : ℕ) → i ≤ j → stops i ≡ true → stops j ≡ true

-- The sleep ends, after at most one reading of the flag for each 100 ms or part of them, and at
-- the first reading that finds it set.
pub sleep_lem :
    (fuel remaining : ℕ) (stops : Stops) (n : ℕ)
    → remaining < fuel
    → (m : ℕ) × ((sleep fuel remaining stops n ≡ some m)
        × (n ≤ m)
        × (m ≤ n + (remaining + 99) / 100)
        × ((j : ℕ) → n ≤ j → stops j ≡ true → m ≤ j + 1))
unfolding sleep
sleep_lem zero remaining stops n h = absurd (omega arith)
sleep_lem (suc fuel) remaining stops n h = elim (Bool-cases (nat_eqb remaining 0)) [
  | inl e ↦ rw (e, sleep) (n, (refl, omega arith, omega arith, λ j g q. omega arith))
  | inr e ↦ elim (Bool-cases (stops n)) [
    | inl f ↦ rw (e, sleep, f) (n + 1, (refl, omega arith, ground arith, λ j g q. omega arith))
    | inr f ↦
        let (m, (r, low, high, early)) =
          sleep_lem fuel (remaining - min remaining 100) stops (n + 1) (ground arith) in
        rw (e, sleep, f)
          (
            m,
            (
              r,
              omega arith,
              shorter remaining n m (ground arith) high,
              λ j g q. later f m early j g q,
            ),
          )
  ]
]
  where
    shorter :
        (remaining n m : ℕ)
        → 0 < remaining
        → m ≤ (n + 1) + (remaining - min remaining 100 + 99) / 100
        → m ≤ n + (remaining + 99) / 100
    shorter remaining n m some_time g = omega arith

    later :
        stops n ≡ false
        → (m : ℕ) → ((j : ℕ) → n + 1 ≤ j → stops j ≡ true → m ≤ j + 1)
        → (j : ℕ) → n ≤ j
        → stops j ≡ true
        → m ≤ j + 1
    later f m early j g q = elim (Bool-cases (nat_eqb n j)) [
      | inl same ↦ cc (ap stops ((nat_eqb_iff n j).0 same))
      | inr other ↦ early j (ground arith) q
    ]

-- The loop ends where the flag is set and stays set: with a sleep of any length, and as many
-- iterations as readings of the flag come before it is set.
pub run_stops :
    {S : Type 0} (iterate : S → S) (fuel : ℕ) (mode : RunMode) (interval : ℕ) (stops : Stops)
    (n j : ℕ) (s : S)
    → Persistent stops
    → stops j ≡ true
    → n ≤ j
    → j < n + fuel
    → is_some (run iterate fuel mode interval stops n s) ≡ true
unfolding run
run_stops iterate zero mode interval stops n j s stays set g h = absurd (omega arith)
run_stops iterate (suc fuel) once interval stops n j s stays set g h = refl
run_stops iterate (suc fuel) loop interval stops n j s stays set g h = elim (Bool-cases (stops n)) [
  | inl e ↦ rw (e, run) refl
  | inr e ↦
      let (m, (r, low, high, early)) =
        sleep_lem (interval + 1) interval stops (n + 1) (omega arith) in
      elim (Bool-cases (stops m)) [
        | inl f ↦ rw (e, run, r, f) refl
        | inr f ↦
            rw (e, run, r, f)
              (run_stops iterate fuel loop interval stops (m + 1) j (iterate s) stays set
                (before m j f stays set) (omega arith))
      ]
]
  where
    before : (m j : ℕ) → stops m ≡ false → Persistent stops → stops j ≡ true → m + 1 ≤ j
    before m j f stays set = elim (Bool-cases (ltb m j)) [
      | inl less ↦ ground arith
      | inr more ↦ cc (stays j m (ground arith) set)
    ]
