-- ===== src/Collectors/Storage.antt =====
-- StorageCollector of libs/health/StorageCollector.cpp. What /proc/mounts and statvfs answer is an
-- argument. Mount paths are bytes where the program unescapes them, and native strings elsewhere;
-- `of_bytes` takes the ones to the others.
pub mod Escapes
pub mod Pressure
use holonightd.Prelude.{
  any-none, All-map, ℕ, zero, suc, ◌+◌, ◌-◌, ◌*◌, ◌/◌, ◌%◌, ◌^◌, ◌≤◌, ◌<◌, min, String, ◌≡◌, refl,
  sym, ap, ◌∙◌, subst, ◌≢◌, ◌↔◌, ◌⊎◌, inl, inr, Bool, true, false, not, ◌&&◌, ◌||◌, Option, none,
  some, List, [], ◌∷◌, ◌++◌, map, arith, eq_iff, ltb, leb, if◌then◌else◌, Bool-cases, Option-cases,
  length, take, is_empty, length-take-le, length-append, keep_if, any, All, All-append, Eq, ◌==◌,
  nat_eq, text_eq, is_some, Some, any-Some, Some-any, is_empty-append, is_empty-keep_if, nat_eqb,
  nat_eqb_iff,
}
use text.Mathlib.Text.{starts_with}
use holonightd.Prelude.Text.{ℤ, pos, utf8, words, is_blank}
use holonightd.Json.{JsonLib}
use holonightd.Std.{StdLib}
use holonightd.Observation.{ObservationEvent, Severity, monostate, double, warning, error, critical}
use holonightd.Collectors.{new_event}

is_digit : ℕ → Bool
is_digit c = leb 48 c && leb c 57

-- Three digits of a byte; static_cast<char>.
octal : ℕ → ℕ → ℕ → ℕ
octal a b c = ((a - 48) * 64 + (b - 48) * 8 + (c - 48)) % 256

unfoldable pub unescape_mount_path : List ℕ → List ℕ
unfolding is_digit octal
unescape_mount_path [] = []
unescape_mount_path (x ∷ []) = x ∷ []
unescape_mount_path (x ∷ y ∷ []) = x ∷ y ∷ []
unescape_mount_path (x ∷ y ∷ z ∷ []) = x ∷ y ∷ z ∷ []
unescape_mount_path (x ∷ a ∷ b ∷ c ∷ rest) =
    let unescaped = octal a b c ∷ unescape_mount_path rest in
    let kept = x ∷ unescape_mount_path (a ∷ b ∷ c ∷ rest) in
    if nat_eqb x b'\\' && is_digit a && is_digit b && is_digit c then unescaped else kept

virtual_fstypes : List String
virtual_fstypes =
    "proc" ∷ "sysfs" ∷ "tmpfs" ∷ "devtmpfs" ∷ "cgroup" ∷ "cgroup2" ∷ "overlay" ∷ "squashfs"
    ∷ "devpts" ∷ "securityfs" ∷ "bpf" ∷ "pstore" ∷ "tracefs" ∷ "autofs" ∷ "mqueue" ∷ "hugetlbfs"
    ∷ "configfs" ∷ "debugfs" ∷ "ramfs" ∷ "rpc_pipefs" ∷ "efivarfs" ∷ "fusectl" ∷ "binfmt_misc"
    ∷ "fuse" ∷ []

is_virtual_fstype : String → Bool
unfolding virtual_fstypes
is_virtual_fstype fstype = any (λ t. fstype == t) virtual_fstypes || starts_with fstype "fuse."

is_network_fstype : String → Bool
is_network_fstype fstype =
    any (λ t. fstype == t) ("nfs" ∷ "nfs4" ∷ "cifs" ∷ "smbfs" ∷ "sshfs" ∷ "fuse.sshfs" ∷ [])

is_removable_path : String → Bool
is_removable_path path = starts_with path "/run/media/" || starts_with path "/media/"

pub record MountInfo : Type 0 where
  pub mount_path : String
  pub device_node : String
  pub fstype : String
  pub options : String

is_comment : String → Bool
is_comment line = is_blank line || starts_with line "#"

-- The first four words of a line, if it has as many.
mount_of : (List ℕ → String) → List String → Option MountInfo
mount_of of_bytes (device_node ∷ raw_mount_path ∷ fstype ∷ options ∷ more) = some (record {
  mount_path = of_bytes (unescape_mount_path (utf8 raw_mount_path));
  device_node = device_node;
  fstype = fstype;
  options = options;
})
mount_of of_bytes _ = none

is_local : MountInfo → Bool
is_local m =
    not (is_virtual_fstype m.fstype || is_network_fstype m.fstype)
    && not (is_removable_path m.mount_path)

-- The lines of /proc/mounts; none: it cannot be opened.
mounts_of : (List ℕ → String) → List String → List MountInfo
unfolding is_comment mount_of is_local
mounts_of of_bytes [] = []
mounts_of of_bytes (line ∷ lines) =
    let rest = mounts_of of_bytes lines in
    if is_comment line then rest else elim (mount_of of_bytes (words line)) [
      | none ↦ rest
      | some m ↦ if is_local m then m ∷ rest else rest
    ]

discover_mounts : (List ℕ → String) → Option (List String) → List MountInfo
unfolding mounts_of
discover_mounts of_bytes none = []
discover_mounts of_bytes (some lines) = mounts_of of_bytes lines

find_mount : String → List MountInfo → MountInfo
find_mount path [] = record {
  mount_path = path;
  device_node = "unknown";
  fstype = "unknown";
  options = "rw";
}
find_mount path (m ∷ ms) = if m.mount_path == path then m else find_mount path ms

pub record StorageCollectorOptions (Double : Type 0) : Type 0 where
  pub warning_threshold : Double
  pub critical_threshold : Double
  pub auto_discover : Bool
  pub mount_points : List String

-- The mounts that are inspected.
targets : {Double : Type 0} → StorageCollectorOptions Double → List MountInfo → List MountInfo
unfolding find_mount
targets options discovered =
    if not (is_empty options.mount_points)
    then map (λ path. find_mount path discovered) options.mount_points
    else if options.auto_discover
    then discovered
    else []

-- struct statvfs
pub record Statvfs : Type 0 where
  pub f_blocks : ℕ
  pub f_bavail : ℕ
  pub f_bfree : ℕ
  pub f_frsize : ℕ
  pub f_files : ℕ
  pub f_ffree : ℕ
  pub read_only : Bool  -- f_flag & ST_RDONLY

pub record StorageMetrics (Double : Type 0) : Type 0 where
  pub mount : MountInfo
  pub total_bytes : ℕ
  pub used_bytes : ℕ
  pub available_bytes : ℕ
  pub percent_used : Double
  pub total_inodes : ℕ
  pub used_inodes : ℕ
  pub free_inodes : ℕ
  pub inode_percent_used : Double
  pub is_read_only : Bool
  pub stat_success : Bool
  pub error_text : String

-- std::uint64_t
abbrev u64_bound : ℕ
u64_bound = 18446744073709551616

-- a - b in std::uint64_t, for a and b below its bound
minus_u64 : ℕ → ℕ → ℕ
minus_u64 a b = (a + u64_bound - b) % u64_bound

module _ (std : StdLib) where
  percent_of : ℕ → ℕ → std.Double
  percent_of part total =
      if ltb 0 total
      then std.mul (std.div (std.of_int (pos part)) (std.of_int (pos total))) (std.ratio 100 1)
      else std.ratio 0 1

  -- The answer of statvfs: a text for the error, or the numbers.
  pub inspect_mount_metrics : MountInfo → String ⊎ Statvfs → StorageMetrics std.Double
  unfolding percent_of minus_u64
  inspect_mount_metrics info (inl err) = record {
    mount = info;
    total_bytes = 0;
    used_bytes = 0;
    available_bytes = 0;
    percent_used = std.ratio 0 1;
    total_inodes = 0;
    used_inodes = 0;
    free_inodes = 0;
    inode_percent_used = std.ratio 0 1;
    is_read_only = false;
    stat_success = false;
    error_text = err;
  }
  inspect_mount_metrics info (inr stat) =
      let total = stat.f_blocks * stat.f_frsize % u64_bound in
      let available = stat.f_bavail * stat.f_frsize % u64_bound in
      let free = stat.f_bfree * stat.f_frsize % u64_bound in
      let used_inodes = if ltb stat.f_ffree stat.f_files then stat.f_files - stat.f_ffree else 0 in
      record {
        mount = info;
        total_bytes = total;
        used_bytes = if ltb free total then total - free else 0;
        available_bytes = available;
        percent_used = percent_of (minus_u64 total available) total;
        total_inodes = stat.f_files;
        used_inodes = used_inodes;
        free_inodes = stat.f_ffree;
        inode_percent_used = percent_of used_inodes stat.f_files;
        is_read_only = stat.read_only;
        stat_success = true;
        error_text = "";
      }

  unfoldable pub collect_metrics :
      (MountInfo → String ⊎ Statvfs) → List MountInfo → List (StorageMetrics std.Double)
  collect_metrics statvfs mounts = map (λ m. inspect_mount_metrics m (statvfs m)) mounts

  module _ (json : JsonLib) where
    failure_attributes : StorageMetrics std.Double → String
    failure_attributes m = json.dump (
        json.object (
          ("fstype", json.string m.mount.fstype)
          ∷ ("device_node", json.string m.mount.device_node)
          ∷ ("error", json.string m.error_text)
          ∷ []))

    attributes : StorageMetrics std.Double → String
    attributes m = json.dump (
        json.object (
          ("total_bytes", json.unsigned m.total_bytes)
          ∷ ("used_bytes", json.unsigned m.used_bytes)
          ∷ ("available_bytes", json.unsigned m.available_bytes)
          ∷ ("total_inodes", json.unsigned m.total_inodes)
          ∷ ("used_inodes", json.unsigned m.used_inodes)
          ∷ ("free_inodes", json.unsigned m.free_inodes)
          ∷ ("fstype", json.string m.mount.fstype)
          ∷ ("mount_flags", json.string m.mount.options)
          ∷ []))

    pressure_severity : StorageCollectorOptions std.Double → std.Double → Severity
    pressure_severity options percent =
        if std.le options.critical_threshold percent then critical else warning

    pressure :
        StorageCollectorOptions std.Double
        → ℤ
        → StorageMetrics std.Double
        → String
        → std.Double
        → List (ObservationEvent std.Double)
    unfolding attributes pressure_severity
    pressure options now m signal percent =
        if std.le options.warning_threshold percent
        then new_event now "storage_collector" "storage" m.mount.mount_path signal (double percent)
            (pressure_severity options percent) (attributes m)
          ∷ []
        else []

    read_only_events : ℤ → StorageMetrics std.Double → List (ObservationEvent std.Double)
    unfolding attributes
    read_only_events now m =
        if m.is_read_only
        then new_event now "storage_collector" "storage" m.mount.mount_path "read_only_filesystem"
            monostate error (attributes m)
          ∷ []
        else []

    unfoldable pub events_from_metrics :
        StorageCollectorOptions std.Double
        → ℤ
        → StorageMetrics std.Double
        → List (ObservationEvent std.Double)
    unfolding failure_attributes pressure read_only_events
    events_from_metrics options now m =
        if not m.stat_success
        then new_event now "storage_collector" "storage" m.mount.mount_path "stat_failure" monostate
            error (failure_attributes m)
          ∷ []
        else read_only_events now m
          ++ pressure options now m "space_pressure" m.percent_used
          ++ pressure options now m "inode_pressure" m.inode_percent_used

    unfoldable pub collect :
        StorageCollectorOptions std.Double
        → ℤ
        → List (StorageMetrics std.Double)
        → List (ObservationEvent std.Double)
    collect options now [] = []
    collect options now (m ∷ ms) = events_from_metrics options now m ++ collect options now ms
