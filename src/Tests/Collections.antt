-- ===== src/Tests/Collections.antt =====
-- Runs of the collectors.
use holonightd.Prelude.{
  any-none, All-map, ℕ, zero, suc, ◌+◌, ◌-◌, ◌*◌, ◌/◌, ◌%◌, ◌^◌, ◌≤◌, ◌<◌, min, String, ◌≡◌, refl,
  sym, ap, ◌∙◌, subst, ◌≢◌, ◌↔◌, ◌⊎◌, inl, inr, Bool, true, false, not, ◌&&◌, ◌||◌, Option, none,
  some, List, [], ◌∷◌, ◌++◌, map, arith, eq_iff, ltb, leb, if◌then◌else◌, Bool-cases, Option-cases,
  length, take, is_empty, length-take-le, length-append, keep_if, any, All, All-append, Eq, ◌==◌,
  nat_eq, text_eq, is_some, Some, any-Some, Some-any, is_empty-append, is_empty-keep_if, nat_eqb,
  nat_eqb_iff,
}
use holonightd.Prelude.Text.{pos, utf8}
use Prim.Native.String.{◌++◌ as append}
use holonightd.Rules.Builtin.{
  storage_rule, systemd_rule, memory_rule, kernel_rule, pacman_lock_rule, register_built_in_rules,
}
use holonightd.Collectors.Pacman.{PacmanCollectorOptions, Files, no_trees}
use holonightd.Collectors.Pacman.Checks
use holonightd.Collectors.Pacman.Checks.{resolve_path, read_running_kernel, kernel_mismatch}
use holonightd.Collectors.Pacman.Signals.{events, lock_path, is_held, fires-collect_pacman}
use holonightd.Status.{run_status_check}
use holonightd.Status.Unreachable.{Machine, reported, run_status_check-zero}
use holonightd.Rules.Evaluation.Findings.{fires}
use holonightd.Collectors.Memory
use holonightd.Collectors.Memory.{ProcFiles, Readers, MemoryCollectorOptions}
use holonightd.Collectors.Memory.Signals.{fires-collect_memory}
use holonightd.Collectors.Memory.Counting.{watch, watch_lem}
use holonightd.Collectors.Storage
use holonightd.Collectors.Storage.{
  MountInfo, StorageCollectorOptions, StorageMetrics, unescape_mount_path,
}
use holonightd.Collectors.Storage.Pressure.{pressed, fires-collect_storage}
use holonightd.Collectors.Storage.Escapes.{escape, unescape-escape}
use holonightd.Collectors.Systemd
use holonightd.Collectors.Systemd.{
  Checked, UnitStatus, unit_failed, unit_flapping, is_unit_ignored, is_recent, collect_unit,
  prune_old_timestamps,
}
use holonightd.Collectors.Systemd.Signals.{fires-collect_systemd}
use holonightd.Collectors.Systemd.Starts.{Sorted, Reply, failure_times, collected}
use holonightd.Collectors.Systemd.Flapping.{about, reported_events, flapping_iff}
use holonightd.Tests.Samples.{sample_json, sample_std, number_document}

abbrev readers : Readers
readers = record { extract_u64 = λ s. (0, false); oom_match = λ s. none; stoi = λ s. none }

-- /proc/vmstat with a number of kills.
abbrev files : ℕ → ProcFiles
files n = record {
  pressure_memory = some [];
  meminfo = none;
  vmstat = some (("pgfault", 5) ∷ ("oom_kill", n) ∷ []);
  kmsg = none;
}

abbrev memory_options : MemoryCollectorOptions ℕ
memory_options = record {
  some_warning_threshold = 10;
  full_critical_threshold = 25;
  meminfo_warning_threshold = 85;
}

watch_two : watch sample_std readers (files 4 ∷ files 6 ∷ []) (some 3) ≡ (some 6, 3)
unfolding watch Memory.collect_metrics Memory.parse_vmstat_oom holonightd.Prelude.Map.lookup
watch_two = refl

watch_lem_example :
    (watch sample_std readers (files 4 ∷ files 6 ∷ []) (some 3)).0
    ≡ some (3 + (watch sample_std readers (files 4 ∷ files 6 ∷ []) (some 3)).1)
watch_lem_example = watch_lem sample_std readers (files 4 ∷ files 6 ∷ []) 3

fires-collect_memory_example :
    fires sample_std memory_rule
      (Memory.collect sample_std sample_json number_document memory_options readers
        (pos 1)
        (files 6)
        (some 3)).1
    ≡ false
fires-collect_memory_example =
    fires-collect_memory sample_std sample_json number_document memory_options readers (pos 1)
      (files 6) (some 3)

abbrev storage_options : StorageCollectorOptions ℕ
storage_options = record {
  warning_threshold = 85;
  critical_threshold = 95;
  auto_discover = true;
  mount_points = [];
}

abbrev root : StorageMetrics ℕ
root = record {
  mount = record { mount_path = "/"; device_node = "/dev/sda1"; fstype = "ext4"; options = "rw" };
  total_bytes = 100;
  used_bytes = 90;
  available_bytes = 10;
  percent_used = 90;
  total_inodes = 10;
  used_inodes = 1;
  free_inodes = 9;
  inode_percent_used = 10;
  is_read_only = false;
  stat_success = true;
  error_text = "";
}

fires-collect_storage_example :
    fires sample_std storage_rule
      (Storage.collect sample_std sample_json storage_options (pos 1) (root ∷ []))
    ≡ (any
          (λ m.
            m.stat_success && pressed sample_std sample_json storage_options (pos 1) m.percent_used)
          (root ∷ [])
        || any
            (λ m.
              m.stat_success
              && pressed sample_std sample_json storage_options (pos 1) m.inode_percent_used)
            (root ∷ []))
fires-collect_storage_example =
    fires-collect_storage sample_std sample_json storage_options (pos 1) (root ∷ [])

unescape-escape_example : unescape_mount_path (escape (utf8 "/my disk")) ≡ utf8 "/my disk"
unescape-escape_example = unescape-escape (utf8 "/my disk")

abbrev checked : Checked
checked = record { threshold = 2; window = 300; ignored = [] }

abbrev nginx : UnitStatus
nginx = record { name = "nginx.service"; load = "loaded"; active = "failed"; sub = "failed" }

-- The unit fails again at 200, after 100 and a collection without the bus; another unit goes with it.
abbrev history : List (ℕ × Reply)
history = (100, some (nginx ∷ [], [])) ∷ (150, none) ∷ []

abbrev sshd : UnitStatus
sshd = record nginx { name = "sshd.service" }

times-Sorted : Sorted 0 (100 ∷ 150 ∷ 200 ∷ [])
unfolding Sorted
times-Sorted = (omega arith, (omega arith, (omega arith, tt)))

is_watched : is_unit_ignored checked "nginx.service" ≡ false
unfolding is_unit_ignored
is_watched = refl

flapping_iff_example :
    let times = failure_times "nginx.service" history in
    keep_if
      (about "nginx.service")
      (Systemd.collect sample_json checked 200
        (some (sshd ∷ nginx ∷ [], []))
        (collected ℕ sample_json checked "nginx.service" is_watched history [])).1
    ≡ reported_events ℕ sample_json checked "nginx.service" is_watched 200 nginx
        (keep_if (is_recent checked 200) times ++ 200 ∷ [])
flapping_iff_example =
    flapping_iff ℕ sample_json checked "nginx.service" is_watched history 200 (sshd ∷ nginx ∷ []) []
      nginx times-Sorted refl

fires-collect_systemd_example :
    fires sample_std systemd_rule
      (Systemd.collect sample_json checked 200 (some (nginx ∷ [], [])) []).1
    ≡ false
fires-collect_systemd_example =
    fires-collect_systemd sample_std sample_json checked 200 (some (nginx ∷ [], [])) []

abbrev pacman_options : PacmanCollectorOptions
pacman_options = record {
  sys_root = "/";
  db_path = "/db";
  etc_path = "/etc";
  max_depth = 3;
  warning_threshold = 1;
  check_kernel = true;
  check_locks = true;
  check_orphans = true;
  check_transactions = true;
}

-- A machine whose kernel was replaced, with a lock that no process holds.
abbrev machine_files : Files
machine_files = record {
  is_absolute = λ p. true;
  relative_path = λ p. p;
  join = λ p q. append p (append "/" q);
  exists = λ p. any (λ known. known == p) ("/db" ∷ "/db/db.lck" ∷ []);
  is_directory = λ p. p == "/db";
  content = λ p. if p == "/db/db.lck" then "77" else "";
  entries = λ p. [];
  below = λ p. no_trees;
  age = λ p. some (pos 60);
  stoi = λ s. if s == "77" then some (pos 77) else none;
}

fires-collect_pacman_example :
    let present = machine_files.exists (resolve_path machine_files pacman_options "/db") in
    let reported = events sample_std sample_json machine_files pacman_options (pos 1) in
    (fires sample_std kernel_rule reported ≡ (
      present
      && kernel_mismatch machine_files pacman_options
          (read_running_kernel machine_files pacman_options)))
    × (fires sample_std pacman_lock_rule reported ≡ (
        present
        && (machine_files.exists (lock_path machine_files pacman_options)
            && not (is_held machine_files pacman_options))))
fires-collect_pacman_example =
    fires-collect_pacman sample_std sample_json machine_files pacman_options (pos 1)

abbrev machine : Machine sample_std
machine = record {
  checked = checked;
  systemd_now = 200;
  bus = some (nginx ∷ [], []);
  starts = [];
  storage_options = storage_options;
  mounts = root ∷ [];
  memory_options = memory_options;
  readers = readers;
  proc_files = files 6;
  baseline = some 3;
  pacman_options = pacman_options;
  pacman_metrics = Checks.collect_metrics machine_files pacman_options;
  now = pos 1;
}

run_status_check-zero_example :
    run_status_check sample_std
      (λ n. (n, "now"))
      0
      (register_built_in_rules [])
      (reported sample_std sample_json number_document machine ((true, false), (false, false)))
    ≡ 0
run_status_check-zero_example =
    run_status_check-zero sample_std sample_json number_document (λ n. (n, "now")) 0 machine
      ((true, false), (false, false))
