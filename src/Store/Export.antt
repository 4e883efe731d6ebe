-- ===== src/Store/Export.antt =====
-- EventStore::exportToJsonl of libs/storage/EventStore.cpp. The file system is an argument.
pub mod Replaced
use holonightd.Prelude.{
  any-append, any-none, All-map, ℕ, zero, suc, ◌+◌, ◌-◌, ◌*◌, ◌/◌, ◌%◌, ◌^◌, ◌≤◌, ◌<◌, min, String,
  ◌≡◌, refl, sym, ap, ◌∙◌, subst, ◌≢◌, ◌↔◌, ◌⊎◌, inl, inr, Bool, true, false, not, ◌&&◌, ◌||◌,
  Option, none, some, List, [], ◌∷◌, ◌++◌, map, arith, eq_iff, ltb, leb, if◌then◌else◌, Bool-cases,
  Option-cases, length, take, is_empty, length-take-le, length-append, keep_if, any, All,
  All-append, Eq, ◌==◌, nat_eq, text_eq, is_some, Some, any-Some, Some-any, is_empty-append,
  is_empty-keep_if, nat_eqb, nat_eqb_iff,
}
use Prim.Native.String.{◌++◌ as append}
use holonightd.Std.{StdLib}
use holonightd.Json.{JsonLib}
use holonightd.Observation.{Expected, value, unexpected, ObservationEvent}
use holonightd.Observation.Wire.{to_json}
use holonightd.Store.{Sqlite}
use holonightd.Store.Operations.{EventQuery, query}

-- What the export uses of std::filesystem and std::ofstream. A Boolean says whether it worked.
pub record Disk : Type 1 where
  pub Fs : Type 0
  -- parent_path, where there is one
  pub parent_path : String → Option String
  -- otherwise it throws
  pub create_directories : String → Fs → Fs × Bool
  -- an output stream that truncates the file
  pub open_out : String → Fs → Fs × Bool
  pub write : String → String → Fs → Fs × Bool
  -- flush and close
  pub close : String → Fs → Fs × Bool
  -- otherwise it throws
  pub remove : String → Fs → Fs × Bool
  -- none: it worked; otherwise the message
  pub rename : String → String → Fs → Fs × Option String

-- What a call leaves and returns; none: it throws.
abbrev pub Outcome : Disk → Type 0
Outcome disk = disk.Fs × Option (Expected ℕ)

unfoldable pub line_of :
    (json : JsonLib) {Double : Type 0} (real : Double → json.Json)
    (as_real : json.Json → Option Double)
    → ObservationEvent Double
    → String
unfolding to_json
line_of json real as_real event = append (to_json json real as_real event) "\n"

module _ (std : StdLib) (json : JsonLib) (real : std.Double → json.Json)
    (as_real : json.Json → Option std.Double) (sql : Sqlite) (disk : Disk) where
  -- The temporary file is removed and the error returned, unless the removal throws.
  unfoldable pub discard : String → String → disk.Fs → Outcome disk
  discard tmp_path message fs =
      let (removed, ok) = disk.remove tmp_path fs in
      (removed, (if ok then some (unexpected message) else none))

  unfoldable pub finish : String → String → ℕ → disk.Fs → Outcome disk
  unfolding discard
  finish tmp_path dest_path exported_count fs =
      let (closed, ok) = disk.close tmp_path fs in
      if not ok
      then discard tmp_path (append "Failed closing temporary export file " tmp_path) closed
      else let (renamed, refused) = disk.rename tmp_path dest_path closed in
        elim refused [
          | none ↦ (renamed, some (value exported_count))
          | some message ↦
              discard tmp_path
                (append "Failed atomic rename to destination file "
                  (append dest_path (append ": " message)))
                renamed
        ]

  unfoldable pub write_lines :
      String → String → List (ObservationEvent std.Double) → ℕ → disk.Fs → Outcome disk
  unfolding finish line_of
  write_lines tmp_path dest_path [] exported_count fs = finish tmp_path dest_path exported_count fs
  write_lines tmp_path dest_path (event ∷ events) exported_count fs =
      let (written, ok) = disk.write tmp_path (line_of json real as_real event) fs in
      elim ok [
        | false ↦
            let closed = (disk.close tmp_path written).0 in
            discard tmp_path (append "Failed writing event JSON to " tmp_path) closed
        | true ↦ write_lines tmp_path dest_path events (exported_count + 1) written
      ]

  unfoldable pub export_events :
      String → List (ObservationEvent std.Double) → disk.Fs → Outcome disk
  unfolding write_lines
  export_events dest_path events fs =
      let tmp_path = append dest_path ".tmp" in
      let (opened, ok) = disk.open_out tmp_path fs in
      elim ok [
        | false ↦ (
          opened,
          some (unexpected (append "Failed to open temporary file for export: " tmp_path)),
        )
        | true ↦ write_lines tmp_path dest_path events 0 opened
      ]

  unfoldable pub make_parent : String → disk.Fs → disk.Fs × Bool
  make_parent dest_path fs = elim (disk.parent_path dest_path) [
    | none ↦ (fs, true)
    | some parent ↦ disk.create_directories parent fs
  ]

  unfoldable pub export_to_jsonl : String → EventQuery → sql.Db → disk.Fs → Outcome disk
  unfolding query export_events make_parent
  export_to_jsonl dest_path filter db fs = elim (query std sql filter db) [
    | unexpected e ↦ (fs, some (unexpected e))
    | value events ↦
        let (made, ok) = make_parent dest_path fs in
        elim ok [ false ↦ (made, none) | true ↦ export_events dest_path events made ]
  ]
