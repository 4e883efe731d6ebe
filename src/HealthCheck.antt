-- ===== src/HealthCheck.antt =====
-- HealthCheckJob of libs/health/HealthCheckJob.cpp and LocalSummaryClient of
-- libs/health/LlmClient.cpp.
use holonightd.Prelude.{
  ℕ, zero, suc, ◌+◌, String, ◌≡◌, refl, ap, inl, inr, Bool, true, false, not, ◌&&◌, List, [], ◌∷◌,
  ◌++◌, map, if◌then◌else◌, Bool-cases, length, take, nat_eq, text_eq, nat_eqb,
}
use Prim.Native.String.{String as Str, ◌++◌ as append}
use Prim.Native.Char.{code}
use holonightd.Prelude.Text.{decimal, contains}
use holonightd.Command.{CommandResult}

-- std::ranges::count of '$'
unfoldable pub count_dollars : String → ℕ
count_dollars Str.[] = 0
count_dollars (Str.◌∷◌ c s) =
    let rest = count_dollars s in if nat_eqb (code c) 36 then suc rest else rest

unfoldable pub summarize : String → String
unfolding contains count_dollars
summarize input =
    if contains input "exit=0" && not (contains input "exit=1")
    then "local summary: maintenance commands completed successfully"
    else append "local summary: reviewed " (
        append (decimal (count_dollars input))
          " command blocks; inspect non-zero exits and tool output")

-- `text_of` makes a text of captured bytes.
unfoldable pub results_to_text : (List ℕ → String) → List CommandResult → String
results_to_text text_of [] = ""
results_to_text text_of (r ∷ rs) =
    append
      (append "$ " (
        append r.command (
          append "\nexit="
            (append (decimal r.exit_code) (append "\n" (append (text_of r.output) "\n"))))))
      (results_to_text text_of rs)

unfoldable pub finished_line : CommandResult → String
finished_line r = append "finished: " (
    append r.command (
      append " exit=" (
        append (decimal r.exit_code) (
          append (if r.timed_out then " timed_out=true" else "") (
            append (if r.cancelled then " cancelled=true" else "")
              (if r.output_truncated then " output_truncated=true" else ""))))))

-- The results and the lines of the loop over the commands. `stops` is what the flag is found to be
-- before each of them, `run` what CommandRunner::run returns.
unfoldable pub check_each :
    (ℕ → Bool) → (String → CommandResult) → ℕ → List String → List CommandResult × List String
unfolding finished_line
check_each stops run n [] = ([], [])
check_each stops run n (command ∷ commands) = elim (stops n) [
  | true ↦ ([], "health check cancelled: daemon stop requested" ∷ [])
  | false ↦
      let rest = check_each stops run (n + 1) commands in
      let result = run command in
      (result ∷ rest.0, append "running: " command ∷ finished_line result ∷ rest.1)
]

-- HealthCheckJob::run: the lines that it logs.
unfoldable pub run_health_check :
    (List ℕ → String) → (ℕ → Bool) → (String → CommandResult) → List String → List String
unfolding check_each results_to_text summarize
run_health_check text_of stops run [] = "health check skipped: no commands configured" ∷ []
run_health_check text_of stops run (command ∷ commands) =
    let (results, lines) = check_each stops run 0 (command ∷ commands) in
    lines ++ summarize (results_to_text text_of results) ∷ []

-- How many readings of the flag, of at most `k`, find it clear before the first that does not.
pub clear_readings : (ℕ → Bool) → ℕ → ℕ → ℕ
clear_readings stops n zero = 0
clear_readings stops n (suc k) =
    let rest = clear_readings stops (n + 1) k in if stops n then 0 else suc rest

-- The commands that run are those before the first at which the flag is found set, in their order.
pub check_each-clear_readings :
    (stops : ℕ → Bool) (run : String → CommandResult) (n : ℕ) (commands : List String)
    → (check_each stops run n commands).0
      ≡ map run (take (clear_readings stops n (length commands)) commands)
unfolding check_each clear_readings
check_each-clear_readings stops run n [] = refl
check_each-clear_readings stops run n (command ∷ commands) = elim (Bool-cases (stops n)) [
  | inl e ↦ rw (e, check_each) refl
  | inr e ↦
      rw (e, check_each)
        (ap (λ l. run command ∷ l) (check_each-clear_readings stops run (n + 1) commands))
]
