-- ===== src/Collectors/Pacman/Checks.antt =====
-- The checks of PacmanCollector: what it reads of the kernel, the lock, /etc and the local database.
use holonightd.Prelude.{
  ℕ, zero, suc, String, Bool, true, false, not, ◌&&◌, ◌||◌, Option, none, some, List, [], ◌++◌, map,
  ltb, if◌then◌else◌, is_empty, keep_if, nat_eq, text_eq,
}
use text.Mathlib.Text.{starts_with}
use holonightd.Prelude.Text.{ℤ, pos, negsuc, decimal, words}
use holonightd.Collectors.Pacman.{
  PacmanCollectorOptions, PacmanCollectorMetrics, LockState, Files, no_metrics, first_word,
  third_word, ends_with, walk,
}

-- static_cast<int> of max_depth; a negative limit stops at the first depth, as 0 does.
depth_limit : ℕ → ℕ
depth_limit n = if ltb n 2147483648 then n else 0

-- A check that an option turns off.
abbrev pub where_asked : {A : Type 0} → Bool → (A → A) → A → A
where_asked check f a = if check then f a else a

module _ (files : Files) (options : PacmanCollectorOptions) where
  unfoldable pub resolve_path : String → String
  resolve_path path =
      files.join options.sys_root
        (if files.is_absolute path then files.relative_path path else path)

  -- The first word of a file that exists.
  abbrev word_of : (List String → Option String) → String → Option String
  word_of pick path = if files.exists path then pick (words (files.content path)) else none

  -- readOsReleaseKernel, and readProcVersionKernel where it gives nothing.
  unfoldable pub read_running_kernel : Option String
  unfolding resolve_path words
  read_running_kernel = elim (word_of first_word (resolve_path "proc/sys/kernel/osrelease")) [
    | some release ↦ some release
    | none ↦ word_of third_word (resolve_path "proc/version")
  ]

  abbrev listed : String → List (String × (String × Bool))
  listed path = if files.exists path && files.is_directory path then files.entries path else []

  unfoldable pub kernel_mismatch : Option String → Bool
  unfolding resolve_path
  kernel_mismatch none = false
  kernel_mismatch (some release) =
      let modules_path = resolve_path "usr/lib/modules" in
      files.exists modules_path && not (files.exists (files.join modules_path release))

  abbrev local_db : String → String
  local_db db_path = files.join db_path "local"

  unfoldable pub evaluate_kernel_state : PacmanCollectorMetrics → PacmanCollectorMetrics
  unfolding read_running_kernel kernel_mismatch resolve_path
  evaluate_kernel_state metrics = record metrics {
    running_kernel = read_running_kernel;
    installed_modules_dirs =
        metrics.installed_modules_dirs
        ++ map (λ e. e.1.0) (keep_if (λ e. e.1.1) (listed (resolve_path "usr/lib/modules")));
    installed_kernel_packages =
        metrics.installed_kernel_packages
        ++ map (λ e. e.1.0)
            (keep_if (λ e. e.1.1 && starts_with e.1.0 "linux-")
              (listed (local_db (resolve_path options.db_path))));
    kernel_mismatch_detected =
        metrics.kernel_mismatch_detected || kernel_mismatch read_running_kernel;
  }

  unfoldable pub lock_age : String → Option ℕ
  lock_age path = elim (files.age path) [
    | none ↦ none
    | some z ↦ elim z [ pos n ↦ some n | negsuc n ↦ none ]
  ]

  -- The process of a lock, by its directory under /proc.
  unfoldable pub check_process : ℕ → LockState → LockState
  unfolding resolve_path decimal words
  check_process pid lock =
      let proc_dir = files.join (resolve_path "proc") (decimal pid) in
      if files.exists proc_dir && files.is_directory proc_dir
      then record lock {
        is_active = true;
        process_name = word_of first_word (files.join proc_dir "comm");
      }
      else record lock { is_active = false; invalid_reason = "process_dead" }

  unfoldable pub check_pid : Option ℤ → LockState → LockState
  unfolding check_process
  check_pid none lock = record lock { invalid_reason = "invalid_pid"; is_active = false }
  check_pid (some (pos zero)) lock = record lock {
    pid = some (pos 0);
    invalid_reason = "invalid_pid";
    is_active = false;
  }
  check_pid (some (pos (suc n))) lock =
      check_process (suc n) (record lock { pid = some (pos (suc n)) })
  check_pid (some (negsuc n)) lock = record lock {
    pid = some (negsuc n);
    invalid_reason = "invalid_pid";
    is_active = false;
  }

  unfoldable pub evaluate_lock_state : LockState → LockState
  unfolding resolve_path words lock_age check_pid
  evaluate_lock_state lock =
      let lock_path = files.join (resolve_path options.db_path) "db.lck" in
      if not (files.exists lock_path)
      then record lock { exists = false }
      else let there = record lock { exists = true; lock_age_seconds = lock_age lock_path } in
        elim (first_word (words (files.content lock_path))) [
          | none ↦ record there { invalid_reason = "empty_or_unreadable_lock"; is_active = false }
          | some pid_str ↦ check_pid (files.stoi pid_str) there
        ]

  unfoldable pub evaluate_orphan_configs : PacmanCollectorMetrics → PacmanCollectorMetrics
  unfolding resolve_path walk depth_limit
  evaluate_orphan_configs metrics =
      let etc_dir = resolve_path options.etc_path in
      if not (files.exists etc_dir) || not (files.is_directory etc_dir)
      then metrics
      else let o = walk (depth_limit options.max_depth) 0 (files.below etc_dir) (record {
        pacnew = metrics.pacnew_count;
        pacsave = metrics.pacsave_count;
        found = metrics.orphan_files;
      }) in
        record metrics {
          pacnew_count = o.pacnew;
          pacsave_count = o.pacsave;
          orphan_files = o.found;
        }

  unfoldable pub is_artifact : String → Bool
  unfolding ends_with
  is_artifact filename = ends_with filename ".tmp" || starts_with filename "ALPM_DB_"

  unfoldable pub evaluate_transactions : PacmanCollectorMetrics → PacmanCollectorMetrics
  unfolding resolve_path is_artifact
  evaluate_transactions metrics =
      let artifacts =
        keep_if (λ e. is_artifact e.1.0) (listed (local_db (resolve_path options.db_path))) in
      record metrics {
        interrupted_transaction_detected =
            metrics.interrupted_transaction_detected || not (is_empty artifacts);
        transaction_artifacts = metrics.transaction_artifacts ++ map (λ e. e.0) artifacts;
      }

  unfoldable pub collect_metrics : PacmanCollectorMetrics
  unfolding resolve_path evaluate_kernel_state evaluate_lock_state evaluate_orphan_configs
      evaluate_transactions
  collect_metrics =
      if not (files.exists (resolve_path options.db_path))
      then no_metrics
      else let kernel = where_asked options.check_kernel evaluate_kernel_state no_metrics in
        let lock =
          where_asked options.check_locks (λ m. record m { lock = evaluate_lock_state m.lock })
            kernel in
        let orphans = where_asked options.check_orphans evaluate_orphan_configs lock in
        where_asked options.check_transactions evaluate_transactions orphans
