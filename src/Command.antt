-- ===== src/Command.antt =====
-- CommandRunner of libs/process/CommandRunner.cpp. What a round of its loop finds at the pipe, the
-- child, the flag and the clock is an argument; forking, and the child's side, are not modelled.
pub mod Capture
pub mod Ending
use holonightd.Prelude.{
  any-append, any-none, All-map, ℕ, zero, suc, ◌+◌, ◌-◌, ◌*◌, ◌/◌, ◌%◌, ◌^◌, ◌≤◌, ◌<◌, min, String,
  ◌≡◌, refl, sym, ap, ◌∙◌, subst, ◌≢◌, ◌↔◌, ◌⊎◌, inl, inr, Bool, true, false, not, ◌&&◌, ◌||◌,
  Option, none, some, List, [], ◌∷◌, ◌++◌, map, arith, eq_iff, ltb, leb, if◌then◌else◌, Bool-cases,
  Option-cases, length, take, is_empty, length-take-le, length-append, keep_if, any, All,
  All-append, Eq, ◌==◌, nat_eq, text_eq, is_some, Some, any-Some, Some-any, is_empty-append,
  is_empty-keep_if, nat_eqb, nat_eqb_iff,
}
use Prim.Native.String.{◌++◌ as append}

-- A wait status, as the macros of sys/wait.h take it apart.
pub data Status : Type 0 where
  exited : ℕ → Status
  signaled : ℕ → Status
  other : Status

-- read: some bytes, 0, or an error; EAGAIN, EWOULDBLOCK and EINTR are `would_block`.
pub data Read : Type 0 where
  bytes : List ℕ → Read
  end_of_file would_block read_failed : Read

-- waitpid with WNOHANG: the child, no child yet or EINTR, or another error with its message.
pub data Wait : Type 0 where
  reaped : Status → Wait
  running : Wait
  wait_failed : String → Wait

pub record Round : Type 0 where
  pub read : Read
  -- asked only while the child is not finished
  pub wait : Wait
  pub stop_requested : Bool
  pub past_deadline : Bool
  -- the status that the child ends with in the grace period, if it does
  pub grace : Option Status
  -- the status that it ends with after SIGKILL
  pub killed : Status

pub record CommandResult : Type 0 where
  pub command : String
  pub exit_code : ℕ
  pub output : List ℕ
  pub timed_out : Bool
  pub cancelled : Bool
  pub output_truncated : Bool

-- The result so far, and the local variables of the loop.
pub record Loop : Type 0 where
  pub output : List ℕ
  pub output_truncated : Bool
  pub timed_out : Bool
  pub cancelled : Bool
  pub status : Status
  pub child_finished : Bool
  pub pipe_finished : Bool

abbrev pub start : Loop
start = record {
  output = [];
  output_truncated = false;
  timed_out = false;
  cancelled = false;
  status = exited 0;
  child_finished = false;
  pipe_finished = false;
}

unfoldable pub append_bounded : List ℕ → ℕ → Loop → Loop
append_bounded chunk limit s =
    let remaining = if ltb (length s.output) limit then limit - length s.output else 0 in
    let accepted = min (length chunk) remaining in
    record s {
      output = s.output ++ take accepted chunk;
      output_truncated = s.output_truncated || ltb accepted (length chunk);
    }

unfoldable pub normalized_exit_code : Status → ℕ
normalized_exit_code (exited code) = code
normalized_exit_code (signaled signal) = 128 + signal
normalized_exit_code other = 127

unfoldable pub read_pipe : ℕ → Read → Loop → Loop
unfolding append_bounded
read_pipe limit (bytes chunk) s = append_bounded chunk limit s
read_pipe limit end_of_file s = record s { pipe_finished = true }
read_pipe limit would_block s = s
read_pipe limit read_failed s = record s { pipe_finished = true }

abbrev pub is_over : Loop → Bool
is_over s = s.child_finished && s.pipe_finished

-- The child is asked to end, and then made to.
unfoldable pub terminate : Round → Loop → Loop
terminate r s =
    let marked = record s { cancelled = r.stop_requested; timed_out = not r.stop_requested } in
    elim r.grace [
      | some status ↦ record marked { child_finished = true; status = status }
      | none ↦
          if not s.child_finished
          then record marked { child_finished = true; status = r.killed }
          else marked
    ]

unfoldable pub enforce : Round → Loop → Loop
unfolding terminate
enforce r s = if not (is_over s) && (r.stop_requested || r.past_deadline) then terminate r s else s

-- What the run comes to: a result, an exception, or a loop that goes on.
pub data Run : Type 0 where
  ended : CommandResult → Run
  threw : String → Run
  going_on : Loop → Run

unfoldable pub result_of : String → Loop → CommandResult
unfolding normalized_exit_code
result_of command s = record {
  command = command;
  exit_code =
      if s.cancelled then 125 else if s.timed_out then 124 else normalized_exit_code s.status;
  output = s.output;
  timed_out = s.timed_out;
  cancelled = s.cancelled;
  output_truncated = s.output_truncated;
}

-- The child is asked for its status while it is not finished; none: the call fails.
unfoldable pub wait_for_child : Round → Loop → Option Loop
wait_for_child r s = if s.child_finished then some s else elim r.wait [
  | reaped status ↦ some (record s { child_finished = true; status = status })
  | running ↦ some s
  | wait_failed message ↦ none
]

abbrev pub message_of : Wait → String
message_of (reaped s) = ""
message_of running = ""
message_of (wait_failed message) = message

-- The loop, over the rounds that there are.
unfoldable pub run_rounds : String → ℕ → List Round → Loop → Run
unfolding read_pipe wait_for_child enforce result_of
run_rounds command limit [] s = if is_over s then ended (result_of command s) else going_on s
run_rounds command limit (r ∷ rs) s = elim (is_over s) [
  | true ↦ ended (result_of command s)
  | false ↦ elim (wait_for_child r (read_pipe limit r.read s)) [
    | none ↦ threw (append "failed to wait for command: " (message_of r.wait))
    | some waited ↦ run_rounds command limit rs (enforce r waited)
  ]
]
