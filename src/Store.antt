-- ===== src/Store.antt =====
-- libs/storage/EventStore.cpp: the rows of the table observation_events, and what the program uses
-- of SQLite, which is not part of the repository: an argument of the operations.
pub mod Rows
pub mod Operations
pub mod Export
pub mod Capacity
pub mod Laws
use holonightd.Prelude.{
  any-none, All-map, ℕ, zero, suc, ◌+◌, ◌-◌, ◌*◌, ◌/◌, ◌%◌, ◌^◌, ◌≤◌, ◌<◌, min, String, ◌≡◌, refl,
  sym, ap, ◌∙◌, subst, ◌≢◌, ◌↔◌, ◌⊎◌, inl, inr, Bool, true, false, not, ◌&&◌, ◌||◌, Option, none,
  some, List, [], ◌∷◌, ◌++◌, map, arith, eq_iff, ltb, leb, if◌then◌else◌, Bool-cases, Option-cases,
  length, take, is_empty, length-take-le, length-append, keep_if, any, All, All-append, Eq, ◌==◌,
  nat_eq, text_eq, is_some, Some, any-Some, Some-any, is_empty-append, is_empty-keep_if, nat_eqb,
  nat_eqb_iff,
}
use holonightd.Prelude.Text.{ℤ, pos, negsuc, decimal_ℤ}
use holonightd.Std.{StdLib}
use holonightd.Observation.{
  micros, nanos, Severity, rank, info, Expected, value, unexpected, severity_to_string,
  severity_from_string, EventValue, monostate, boolean, integer, double, text, ObservationEvent,
}
use Prim.Native.String.{String as Str, ◌++◌ as append}
use Prim.Native.Char.{code}

-- The columns that INSERT binds.
pub record Row : Type 0 where
  pub timestamp_us : ℤ
  pub source : String
  pub category : String
  pub subject : String
  pub signal : String
  pub value_type : String
  pub value_text : String
  pub severity : String
  pub attributes_json : String

pub record StoredRow : Type 0 where
  pub id : ℤ
  pub columns : Row

-- The conditions that a query appends to its WHERE clause, each with one bound value.
pub data Condition : Type 0 where
  from_time until_time source_is category_is subject_is severity_from : Condition

pub data Bound : Type 0 where
  number : ℤ → Bound
  name : String → Bound

-- The texts given to sqlite3_exec.
pub data Script : Type 0 where
  begin commit rollback wal_checkpoint : Script

-- The texts given to sqlite3_prepare_v2; that of a query says whether it has a LIMIT.
pub data Statement : Type 0 where
  insert_row delete_before delete_lowest count_rows page_count page_size : Statement
  select_rows : List Condition → Bool → Statement

-- What sqlite3_exec returns; `refused` holds its message, if it has one.
pub data Executed : Type 0 where
  ok : Executed
  refused : Option String → Executed

pub record Sqlite : Type 1 where
  -- an open connection, with its database
  pub Db : Type 0
  -- sqlite3_errmsg, of the last call
  pub errmsg : Db → String
  pub exec : Script → Db → Db × Executed
  -- none: SQLITE_OK; otherwise sqlite3_errmsg
  pub prepare : Statement → Db → Option String
  -- sqlite3_step, and then sqlite3_last_insert_rowid or sqlite3_errmsg
  pub step_insert : Row → Db → Db × Expected ℤ
  -- the rows until sqlite3_step returns another result than SQLITE_ROW, and whether that is SQLITE_DONE
  pub step_select : List Condition → Bool → List Bound → Db → List StoredRow × Bool
  -- sqlite3_step, and then sqlite3_changes or sqlite3_errmsg
  pub step_delete_before : ℤ → Db → Db × Expected ℕ
  pub step_delete_lowest : ℤ → Db → Db × Expected ℕ
  -- the first column of the row that sqlite3_step gives, if it gives one
  pub step_count : Db → Option ℤ
  pub step_page_count : Db → Option ℤ
  pub step_page_size : Db → Option ℤ

-- The bytes of text.c_str() up to the first zero byte, which is what sqlite3_bind_text copies
-- where its length is -1.
unfoldable pub c_str : String → String
c_str Str.[] = Str.[]
c_str (Str.◌∷◌ c s) = let rest = c_str s in if nat_eqb (code c) 0 then Str.[] else Str.◌∷◌ c rest

-- static_cast<int64_t> of an unsigned 64-bit number
unfoldable pub to_int64 : ℕ → ℤ
to_int64 n = if ltb n 9223372036854775808 then pos n else negsuc (18446744073709551615 - n)

-- static_cast<size_t> of a column, 0 where it is not positive
unfoldable pub from_column : Option ℤ → ℕ
from_column none = 0
from_column (some (pos n)) = n
from_column (some (negsuc n)) = 0

module _ (std : StdLib) where
  -- The columns value_type and value_text.
  unfoldable pub value_payload : EventValue std.Double → String × String
  value_payload monostate = ("none", "")
  value_payload (boolean b) = ("bool", if b then "1" else "0")
  value_payload (integer z) = ("int", decimal_ℤ z)
  value_payload (double x) = ("double", std.text_of x)
  value_payload (text s) = ("string", s)

  unfoldable pub row_of : ObservationEvent std.Double → Row
  unfolding value_payload c_str
  row_of event = record {
    timestamp_us = micros event.timestamp;
    source = c_str event.source;
    category = c_str event.category;
    subject = c_str event.subject;
    signal = c_str event.signal;
    value_type = c_str (value_payload event.value).0;
    value_text = c_str (value_payload event.value).1;
    severity = c_str (severity_to_string event.severity);
    attributes_json = c_str event.attributes_json;
  }

  abbrev pub or_zero : Option ℤ → EventValue std.Double
  or_zero none = integer (pos 0)
  or_zero (some z) = integer z

  abbrev pub or_zero_double : Option std.Double → EventValue std.Double
  or_zero_double none = double (std.of_int (pos 0))
  or_zero_double (some x) = double x

  unfoldable pub parse_value_payload : String → String → EventValue std.Double
  parse_value_payload val_type val_text =
      if val_type == "bool"
      then boolean (val_text == "1" || val_text == "true")
      else if val_type == "int"
      then or_zero (std.stoll val_text)
      else if val_type == "double"
      then or_zero_double (std.stod val_text)
      else if val_type == "string"
      then text val_text
      else monostate

  abbrev pub or_info : Expected Severity → Severity
  or_info (value s) = s
  or_info (unexpected e) = info

  unfoldable pub parse_row : StoredRow → ObservationEvent std.Double
  unfolding parse_value_payload severity_from_string
  parse_row row = record {
    id = row.id;
    timestamp = nanos row.columns.timestamp_us;
    source = row.columns.source;
    category = row.columns.category;
    subject = row.columns.subject;
    signal = row.columns.signal;
    value = parse_value_payload row.columns.value_type row.columns.value_text;
    severity = or_info (severity_from_string row.columns.severity);
    attributes_json =
        if row.columns.attributes_json == "" then "{}" else row.columns.attributes_json;
  }
