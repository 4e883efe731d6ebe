-- ===== src/Collectors/Pacman/Signals.antt =====
-- From the file system to the built-in rules for the kernel and for the package database's lock.
use holonightd.Prelude.{
  any-append, zero, suc, ◌+◌, String, ◌≡◌, refl, ap, ◌∙◌, inl, inr, Bool, true, false, not, ◌&&◌,
  ◌||◌, Option, none, some, List, [], ◌∷◌, arith, ltb, if◌then◌else◌, Bool-cases, Option-cases, any,
  All, All-append, nat_eq, text_eq,
}
use holonightd.Prelude.Text.{ℤ, pos, negsuc, decimal, words}
use holonightd.Json.{JsonLib}
use holonightd.Std.{StdLib}
use holonightd.Rules.Builtin.{kernel_rule, pacman_lock_rule}
use holonightd.Rules.Builtin.Triggers.{
  LeavesErrorRules, raises_about, fires-kernel_rule, fires-pacman_lock_rule,
}
use holonightd.Rules.Evaluation.{Event}
use holonightd.Rules.Evaluation.Findings.{fires}
use holonightd.Collectors.Pacman.{
  PacmanCollectorOptions, PacmanCollectorMetrics, LockState, Files, no_metrics, first_word,
}
use holonightd.Collectors.Pacman.Checks.{
  resolve_path, read_running_kernel, kernel_mismatch, evaluate_kernel_state, check_process,
  check_pid, evaluate_lock_state, evaluate_orphan_configs, evaluate_transactions, collect_metrics,
  where_asked,
}
use holonightd.Collectors.Pacman.Events.{
  kernel_events, lock_events, orphan_events, transaction_events, collect,
}

module _ (std : StdLib) (json : JsonLib) (options : PacmanCollectorOptions) (now : ℤ) where
  abbrev mismatch : Event std → Bool
  mismatch = raises_about std "package" "kernel" "pacman.kernel_mismatch"

  abbrev stale : Event std → Bool
  stale = raises_about std "package" "pacman_db" "pacman.stale_lock"

  by_kernel :
      (m : PacmanCollectorMetrics)
      → (any mismatch (kernel_events json now m) ≡ m.kernel_mismatch_detected)
        × (any stale (kernel_events json now m) ≡ false)
  unfolding kernel_events
  by_kernel m = ground arith

  by_lock :
      (lock : LockState)
      → (any mismatch (lock_events json now lock) ≡ false)
        × (any stale (lock_events json now lock) ≡ (lock.exists && not lock.is_active))
  unfolding lock_events
  by_lock lock = ground arith

  by_orphans :
      (m : PacmanCollectorMetrics)
      → (any mismatch (orphan_events json options now m) ≡ false)
        × (any stale (orphan_events json options now m) ≡ false)
  unfolding orphan_events
  by_orphans m = ground arith

  by_transaction :
      (m : PacmanCollectorMetrics)
      → (any mismatch (transaction_events json now m) ≡ false)
        × (any stale (transaction_events json now m) ≡ false)
  unfolding transaction_events
  by_transaction m = ground arith

  collected :
      (m : PacmanCollectorMetrics)
      → (any mismatch (collect json options now m) ≡ m.kernel_mismatch_detected)
        × (any stale (collect json options now m) ≡ (m.lock.exists && not m.lock.is_active))
  unfolding collect
  collected m =
      let (a, b) = by_kernel m in
      let (c, d) = by_lock m.lock in
      let (e, f) = by_orphans m in
      let (g, h) = by_transaction m in
      (
        any-append mismatch (kernel_events json now m) _
            ∙ rw (any-append, a, c) (rw (any-append, e, g) (ground arith)),
        any-append stale (kernel_events json now m) _
            ∙ rw (any-append, b, d) (rw (any-append, f, h) (ground arith)),
      )

  if-quiet :
      (b : Bool) (e : Event std)
      → LeavesErrorRules std e
      → All (LeavesErrorRules std) (if b then e ∷ [] else [])
  if-quiet true e h = (h, tt)
  if-quiet false e h = tt

  pub collect_pacman-quiet :
      (m : PacmanCollectorMetrics) → All (LeavesErrorRules std) (collect json options now m)
  unfolding collect kernel_events lock_events orphan_events transaction_events
  collect_pacman-quiet m =
      All-append _ (kernel_events json now m) _
        (if-quiet m.kernel_mismatch_detected _ (refl, refl, refl))
        (All-append _ (lock_events json now m.lock) _ lock (
          All-append _ (orphan_events json options now m) _
            (if-quiet (ltb 0 (m.pacnew_count + m.pacsave_count)) _ (refl, refl, refl))
            (if-quiet m.interrupted_transaction_detected _ (refl, refl, refl))))
    where
      lock : All (LeavesErrorRules std) (lock_events json now m.lock)
      lock = elim (Bool-cases (not m.lock.exists)) [
        | inl e ↦ rw (e, lock_events) tt
        | inr e ↦ elim (Bool-cases m.lock.is_active) [
          | inl f ↦ rw (e, lock_events, f) ((refl, refl, refl), tt)
          | inr f ↦ rw (e, lock_events, f) ((refl, refl, refl), tt)
        ]
      ]

module _ (files : Files) (options : PacmanCollectorOptions) where
  -- A process holds the lock: the lock names a number above 0 that has a directory under /proc.
  holder_of : Option ℤ → Bool
  unfolding resolve_path decimal
  holder_of (some (pos (suc n))) =
      let proc_dir = files.join (resolve_path files options "proc") (decimal (suc n)) in
      files.exists proc_dir && files.is_directory proc_dir
  holder_of _ = false

  pub is_held : Bool
  unfolding holder_of words
  is_held =
      elim (first_word (
        words (files.content (files.join (resolve_path files options options.db_path) "db.lck")))) [
          | none ↦ false
          | some pid ↦ holder_of (files.stoi pid)
        ]

  by_pid :
      (pid : Option ℤ) (lock : LockState)
      → lock.exists ≡ true
      → let l = check_pid files options pid lock in
        (l.exists && not l.is_active) ≡ not (holder_of pid)
  unfolding check_pid check_process holder_of
  by_pid none lock h = rw h refl
  by_pid (some (pos zero)) lock h = rw h refl
  by_pid (some (pos (suc n))) lock h = ground arith
  by_pid (some (negsuc n)) lock h = rw h refl

  abbrev pub lock_path : String
  lock_path = files.join (resolve_path files options options.db_path) "db.lck"

  held_lem :
      (lock : LockState)
      → lock.is_active ≡ false
      → let l = evaluate_lock_state files options lock in
        (l.exists && not l.is_active) ≡ (files.exists lock_path && not is_held)
  unfolding evaluate_lock_state is_held
  held_lem lock h = elim (Bool-cases (files.exists lock_path)) [
    | inl e ↦ elim (Option-cases (first_word (words (files.content lock_path)))) [
      | inl f ↦ rw (e, evaluate_lock_state, f, is_held) refl
      | inr (pid, f) ↦ rw (e, evaluate_lock_state, f, is_held) (by_pid (files.stoi pid) _ refl)
    ]
    | inr e ↦ rw (e, evaluate_lock_state) refl
  ]

  evaluate_orphan_configs-kept :
      (m : PacmanCollectorMetrics)
      → let m' = evaluate_orphan_configs files options m in
        (m'.kernel_mismatch_detected ≡ m.kernel_mismatch_detected) × (m'.lock ≡ m.lock)
  unfolding evaluate_orphan_configs
  evaluate_orphan_configs-kept m =
      let etc_dir = resolve_path files options options.etc_path in
      elim (Bool-cases (not (files.exists etc_dir) || not (files.is_directory etc_dir))) [
        | inl e ↦ rw (e, evaluate_orphan_configs) (refl, refl)
        | inr e ↦ rw (e, evaluate_orphan_configs) (refl, refl)
      ]

  evaluate_transactions-kept :
      (m : PacmanCollectorMetrics)
      → let m' = evaluate_transactions files options m in
        (m'.kernel_mismatch_detected ≡ m.kernel_mismatch_detected) × (m'.lock ≡ m.lock)
  unfolding evaluate_transactions
  evaluate_transactions-kept m = (refl, refl)

  -- A check that leaves the kernel and the lock alone does so where it is switched off, too.
  where_asked-kept :
      (check : Bool) (f : PacmanCollectorMetrics → PacmanCollectorMetrics)
      (m : PacmanCollectorMetrics)
      → ((f m).kernel_mismatch_detected ≡ m.kernel_mismatch_detected) × ((f m).lock ≡ m.lock)
      → let m' = where_asked check f m in
        (m'.kernel_mismatch_detected ≡ m.kernel_mismatch_detected) × (m'.lock ≡ m.lock)
  where_asked-kept true f m h = h
  where_asked-kept false f m h = (refl, refl)

  abbrev lock_checked : Bool → Bool → PacmanCollectorMetrics
  lock_checked kernel lock =
      where_asked lock (λ m. record m { lock = evaluate_lock_state files options m.lock })
        (where_asked kernel (evaluate_kernel_state files options) no_metrics)

  later_kept :
      (kernel lock : Bool)
      → let checked = lock_checked kernel lock in
        let orphans =
          where_asked options.check_orphans (evaluate_orphan_configs files options) checked in
        let all =
          where_asked options.check_transactions (evaluate_transactions files options) orphans in
        (all.kernel_mismatch_detected ≡ checked.kernel_mismatch_detected)
        × (all.lock ≡ checked.lock)
  later_kept kernel lock =
      let checked = lock_checked kernel lock in
      let (a, b) =
        where_asked-kept options.check_orphans (evaluate_orphan_configs files options) checked
          (evaluate_orphan_configs-kept checked) in
      let (c, d) =
        where_asked-kept options.check_transactions (evaluate_transactions files options) _
          (evaluate_transactions-kept _) in
      (c ∙ a, d ∙ b)

  kernel_of :
      (kernel lock : Bool)
      → (lock_checked kernel lock).kernel_mismatch_detected
        ≡ (kernel && kernel_mismatch files options (read_running_kernel files options))
  unfolding evaluate_kernel_state
  kernel_of true true = refl
  kernel_of true false = refl
  kernel_of false true = refl
  kernel_of false false = refl

  lock_of :
      (kernel lock : Bool)
      → let l = (lock_checked kernel lock).lock in
        (l.exists && not l.is_active) ≡ (lock && (files.exists lock_path && not is_held))
  unfolding evaluate_kernel_state
  lock_of true true = held_lem no_metrics.lock refl
  lock_of false true = held_lem no_metrics.lock refl
  lock_of true false = refl
  lock_of false false = refl

  collect_metrics_lem :
      let m = collect_metrics files options in
      let present = files.exists (resolve_path files options options.db_path) in
      (m.kernel_mismatch_detected ≡ (
        present
        && (options.check_kernel
            && kernel_mismatch files options (read_running_kernel files options))))
      × ((m.lock.exists && not m.lock.is_active)
          ≡ (present && (options.check_locks && (files.exists lock_path && not is_held))))
  unfolding collect_metrics
  collect_metrics_lem =
      let kernel = options.check_kernel in
      let lock = options.check_locks in
      let (first, second) = later_kept kernel lock in
      elim (Bool-cases (files.exists (resolve_path files options options.db_path))) [
        | inl e ↦
            rw (e, collect_metrics)
              (
                first ∙ kernel_of kernel lock,
                ap (λ l. l.exists && not l.is_active) second ∙ lock_of kernel lock,
              )
        | inr e ↦ rw (e, collect_metrics) (refl, refl)
      ]

module _ (std : StdLib) (json : JsonLib) (files : Files) (options : PacmanCollectorOptions)
    (now : ℤ) where
  abbrev pub events : List (Event std)
  events = collect json options now (collect_metrics files options)

  pub fires-collect_pacman :
      let present = files.exists (resolve_path files options options.db_path) in
      (fires std kernel_rule events ≡ (
        present
        && (options.check_kernel
            && kernel_mismatch files options (read_running_kernel files options))))
      × (fires std pacman_lock_rule events ≡ (
          present
          && (options.check_locks
              && (files.exists (lock_path files options) && not (is_held files options)))))
  fires-collect_pacman =
      let m = collect_metrics files options in
      let (kernel, lock) = collect_metrics_lem files options in
      let (a, b) = collected std json options now m in
      (fires-kernel_rule std events ∙ a ∙ kernel, fires-pacman_lock_rule std events ∙ b ∙ lock)
