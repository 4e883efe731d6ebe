-- ===== src/Collectors/Pacman.antt =====
-- PacmanCollector of libs/health/PacmanCollector.cpp. The file system is an argument.
pub mod Checks
pub mod Events
pub mod Signals
use holonightd.Prelude.{
  any-none, All-map, ℕ, zero, suc, ◌+◌, ◌-◌, ◌*◌, ◌/◌, ◌%◌, ◌^◌, ◌≤◌, ◌<◌, min, String, ◌≡◌, refl,
  sym, ap, ◌∙◌, subst, ◌≢◌, ◌↔◌, ◌⊎◌, inl, inr, Bool, true, false, not, ◌&&◌, ◌||◌, Option, none,
  some, List, [], ◌∷◌, ◌++◌, map, arith, eq_iff, ltb, leb, if◌then◌else◌, Bool-cases, Option-cases,
  length, take, is_empty, length-take-le, length-append, keep_if, any, All, All-append, Eq, ◌==◌,
  nat_eq, text_eq, is_some, Some, any-Some, Some-any, is_empty-append, is_empty-keep_if, nat_eqb,
  nat_eqb_iff,
}
use Prim.Native.String.{◌++◌ as append}
use text.Mathlib.Text.{starts_with}
use holonightd.Prelude.Text.{ℤ, pos, negsuc, decimal, is_blank, words, utf8}
use holonightd.Json.{JsonLib, or_keep}
use holonightd.Observation.{ObservationEvent, Severity, info, warning, boolean, integer}
use holonightd.Collectors.{new_event}

pub record PacmanCollectorOptions : Type 0 where
  pub sys_root : String
  pub db_path : String
  pub etc_path : String
  pub max_depth : ℕ
  pub warning_threshold : ℕ
  pub check_kernel : Bool
  pub check_locks : Bool
  pub check_orphans : Bool
  pub check_transactions : Bool

pub data FileKind : Type 0 where
  regular directory other : FileKind

-- What a recursive_directory_iterator visits, in its order, up to where it fails: each entry with
-- its depth, its path, and its file name.
mutual
  pub data Tree : Type 0 where
    tree : FileKind → String → String → Trees → Tree

  pub data Trees : Type 0 where
    no_trees : Trees
    tree_and : Tree → Trees → Trees

-- What the program uses of std::filesystem and of std::ifstream.
pub record Files : Type 0 where
  pub is_absolute : String → Bool
  pub relative_path : String → String
  -- path / path
  pub join : String → String → String
  pub exists : String → Bool
  pub is_directory : String → Bool
  -- an open stream's content; empty where the file cannot be opened
  pub content : String → String
  -- the entries of a directory: path, file name, and whether it is a directory
  pub entries : String → List (String × (String × Bool))
  -- the entries under a directory
  pub below : String → Trees
  -- now - last_write_time, in seconds; none: it cannot be read
  pub age : String → Option ℤ
  -- std::stoi; none: it throws
  pub stoi : String → Option ℤ

pub record LockState : Type 0 where
  pub exists : Bool
  pub pid : Option ℤ
  pub is_active : Bool
  pub process_name : Option String
  pub lock_age_seconds : Option ℕ
  pub invalid_reason : String

pub record PacmanCollectorMetrics : Type 0 where
  pub running_kernel : Option String
  pub kernel_mismatch_detected : Bool
  pub installed_modules_dirs : List String
  pub installed_kernel_packages : List String
  pub lock : LockState
  pub pacnew_count : ℕ
  pub pacsave_count : ℕ
  pub orphan_files : List String
  pub interrupted_transaction_detected : Bool
  pub transaction_artifacts : List String

abbrev no_lock : LockState
no_lock = record {
  exists = false;
  pid = none;
  is_active = false;
  process_name = none;
  lock_age_seconds = none;
  invalid_reason = "";
}

abbrev pub no_metrics : PacmanCollectorMetrics
no_metrics = record {
  running_kernel = none;
  kernel_mismatch_detected = false;
  installed_modules_dirs = [];
  installed_kernel_packages = [];
  lock = no_lock;
  pacnew_count = 0;
  pacsave_count = 0;
  orphan_files = [];
  interrupted_transaction_detected = false;
  transaction_artifacts = [];
}

-- stream >> word, once and for the third time.
abbrev pub first_word : List String → Option String
first_word [] = none
first_word (w ∷ ws) = some w

abbrev pub third_word : List String → Option String
third_word (a ∷ b ∷ w ∷ ws) = some w
third_word _ = none

-- name.ends_with(suffix)
unfoldable pub ends_with : String → String → Bool
ends_with String.[] suffix = is_blank suffix
ends_with (String.◌∷◌ c s) suffix =
    let shorter = ends_with s suffix in if String.◌∷◌ c s == suffix then true else shorter

-- What the walk over /etc counts.
pub record Orphans : Type 0 where
  pub pacnew : ℕ
  pub pacsave : ℕ
  pub found : List String

unfoldable pub count_orphan : FileKind → String → String → Orphans → Orphans
unfolding ends_with
count_orphan regular path filename o =
    if ends_with filename ".pacnew"
    then record o { pacnew = o.pacnew + 1; found = o.found ++ path ∷ [] }
    else if ends_with filename ".pacsave"
    then record o { pacsave = o.pacsave + 1; found = o.found ++ path ∷ [] }
    else o
count_orphan directory path filename o = o
count_orphan other path filename o = o

-- The walk does not enter what lies at the greatest depth.
unfoldable mutual
  unfolding count_orphan

  pub walk_tree : ℕ → ℕ → Tree → Orphans → Orphans
  walk_tree max_depth depth (tree kind path filename children) o =
      let here = count_orphan kind path filename o in
      let inside = walk max_depth (depth + 1) children here in
      if leb max_depth depth then here else inside

  pub walk : ℕ → ℕ → Trees → Orphans → Orphans
  walk max_depth depth no_trees o = o
  walk max_depth depth (tree_and t ts) o = walk max_depth depth ts (walk_tree max_depth depth t o)
