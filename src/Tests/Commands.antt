-- ===== src/Tests/Commands.antt =====
-- Runs of commands, of the daemon's loop and of the configuration.
use holonightd.Prelude.{
  ℕ, suc, String, ◌≡◌, refl, true, false, not, Option, none, some, [], ◌∷◌, arith, ltb,
  if◌then◌else◌, ◌==◌, nat_eq, text_eq, is_some,
}
use holonightd.Prelude.Text.{pos}
use holonightd.Observation.{Expected, value, unexpected}
use holonightd.Command.{
  exited, bytes, end_of_file, would_block, running, reaped, Round, start, run_rounds,
  wait_for_child, read_pipe,
}
use holonightd.Command.Capture.{IsCaptured, run_rounds-IsCaptured}
use holonightd.Command.Ending.{is_ended, is_going_on, run_rounds-kept_open, run_rounds-in_time}
use holonightd.Config.{Toml, Config, default_config}
use holonightd.Config.Sections.{from_file}
use holonightd.Config.Accepted.{IsValid, PercentLaws, from_file-IsValid}
use holonightd.Daemon.{loop, run, Stops}
use holonightd.Daemon.Stopping.{run_stops}
use holonightd.Tests.Samples.{sample_std}

abbrev chatty : Round
chatty = record {
  read = bytes (104 ∷ 105 ∷ 10 ∷ []);
  wait = running;
  stop_requested = false;
  past_deadline = false;
  grace = none;
  killed = exited 0;
}

-- The shell has ended, and a process that it left behind keeps the pipe.
abbrev held : Round
held = record chatty { read = would_block; wait = reaped (exited 0); past_deadline = true }

abbrev closed : Round
closed = record chatty { read = end_of_file; past_deadline = true }

run_rounds-IsCaptured_example :
    IsCaptured "echo" 4 []
      (chatty ∷ chatty ∷ closed ∷ [])
      start
      (run_rounds "echo" 4 (chatty ∷ chatty ∷ closed ∷ []) start)
run_rounds-IsCaptured_example = run_rounds-IsCaptured "echo" 4 (chatty ∷ chatty ∷ closed ∷ [])

run_rounds-kept_open_example :
    is_going_on (run_rounds "daemon" 4 (chatty ∷ held ∷ held ∷ []) start) ≡ true
run_rounds-kept_open_example =
    run_rounds-kept_open "daemon" 4 (chatty ∷ held ∷ held ∷ []) start refl
      (refl, (refl, (refl, tt)))

run_rounds-in_time_example : is_ended (run_rounds "echo" 4 (closed ∷ chatty ∷ []) start) ≡ true
unfolding wait_for_child read_pipe
run_rounds-in_time_example =
    run_rounds-in_time "echo" 4 closed (chatty ∷ []) start refl refl (λ e. cc)

abbrev after_three : Stops
after_three n = not (ltb n 3)

run_stops_example : is_some (run suc 4 loop 250 after_three 0 7) ≡ true
run_stops_example =
    run_stops suc 4 loop 250 after_three 0 3 7 (λ i j le h. ground arith) refl (omega arith)
      (omega arith)

mutual
  data Item : Type 0 where
    item_text : String → Item
    item_number : ℕ → Item
    item_table : Items → Item

  data Items : Type 0 where
    no_items : Items
    item_and : String → Item → Items → Items

abbrev item_at : Items → String → Option Item
item_at no_items key = none
item_at (item_and k v rest) key = if k == key then some v else item_at rest key

abbrev sample_toml : Toml ℕ
sample_toml = record {
  Node = Item;
  Table = Items;
  get = item_at;
  as_table = λ i. elim i [ item_table t ↦ some t | _ ↦ none ];
  as_array = λ i. none;
  as_integer = λ i. elim i [ item_number n ↦ some (pos n) | _ ↦ none ];
  as_double = λ i. none;
  as_string = λ i. elim i [ item_text s ↦ some s | _ ↦ none ];
  as_boolean = λ i. none;
}

abbrev config_table : Items
config_table =
    item_and "general"
      (item_table (
        item_and "interval_seconds" (item_number 60)
          (item_and "scan_root" (item_text "/srv") no_items)))
      (item_and "database" (item_table (item_and "max_events" (item_number 8) no_items)) no_items)

accepted : Expected (Config ℕ)
unfolding from_file
accepted = from_file sample_std sample_toml "c.toml" true (some (value config_table))

or_default : Expected (Config ℕ) → Config ℕ
or_default (value c) = c
or_default (unexpected e) = default_config sample_std

percent_laws : PercentLaws sample_std sample_toml
percent_laws = record { percentage_lem = λ n h. ground arith; percent-ordered = refl }

from_file-IsValid_example :
    (true ≡ true)
    × ((tbl : Items) × ((some (value config_table) ≡ some (value tbl))
          × IsValid sample_std sample_toml (or_default accepted)))
unfolding accepted or_default
from_file-IsValid_example =
    from_file-IsValid sample_std sample_toml percent_laws "c.toml" true (some (value config_table))
      (or_default accepted) refl
