-- ===== src/Rules/Builtin/Triggers.antt =====
-- Which events make each built-in rule fire.
use holonightd.Prelude.{
  any-none, All-map, ℕ, zero, suc, ◌+◌, ◌-◌, ◌*◌, ◌/◌, ◌%◌, ◌^◌, ◌≤◌, ◌<◌, min, String, ◌≡◌, refl,
  sym, ap, ◌∙◌, subst, ◌≢◌, ◌↔◌, ◌⊎◌, inl, inr, Bool, true, false, not, ◌&&◌, ◌||◌, Option, none,
  some, List, [], ◌∷◌, ◌++◌, map, arith, eq_iff, ltb, leb, if◌then◌else◌, Bool-cases, Option-cases,
  length, take, is_empty, length-take-le, length-append, keep_if, All, All-append, Eq, ◌==◌, nat_eq,
  text_eq, is_some, Some, any-Some, Some-any, is_empty-append, is_empty-keep_if, nat_eqb,
  nat_eqb_iff,
}
use holonightd.Prelude
use holonightd.Std.{StdLib}
use holonightd.Observation.{rank}
use holonightd.Rules.Matching.{match_event_to_condition}
use holonightd.Rules.Evaluation.{Event}
use holonightd.Rules.Evaluation.Findings.{fires}
use holonightd.Rules.Builtin.{
  least_warning, kernel_rule, pacman_lock_rule, storage_rule, memory_rule, systemd_rule,
}

module _ (std : StdLib) where
  abbrev is_at_least_warning : Event std → Bool
  is_at_least_warning e = not (ltb (rank e.severity) 2)

  -- A signal of a category, at a warning or worse.
  abbrev pub raises : String → String → Event std → Bool
  raises category signal e = e.category == category && e.signal == signal && is_at_least_warning e

  condition_on_signal :
      (category signal : String) (e : Event std)
      → match_event_to_condition std e (least_warning (some category) none (some signal))
        ≡ raises category signal e
  unfolding match_event_to_condition
  condition_on_signal category signal e = ground arith

  condition_on_subject :
      (category subject signal : String) (e : Event std)
      → match_event_to_condition std e (least_warning (some category) (some subject) (some signal))
        ≡ (e.subject == subject && raises category signal e)
  unfolding match_event_to_condition
  condition_on_subject category subject signal e = ground arith

  any_same :
      (p q : Event std → Bool) (events : List (Event std))
      → ((e : Event std) → p e ≡ q e)
      → Prelude.any p events ≡ Prelude.any q events
  any_same p q [] h = refl
  any_same p q (e ∷ events) h = ground (arith, h e, any_same p q events h)

  met_signal :
      (category signal : String) (events : List (Event std))
      → Prelude.any
          (λ e. match_event_to_condition std e (least_warning (some category) none (some signal)))
          events
        ≡ Prelude.any (raises category signal) events
  met_signal category signal events = any_same _ _ events (condition_on_signal category signal)

  met_subject :
      (category subject signal : String) (events : List (Event std))
      → Prelude.any
          (λ e.
            match_event_to_condition std e
              (least_warning (some category) (some subject) (some signal)))
          events
        ≡ Prelude.any (λ e. e.subject == subject && raises category signal e) events
  met_subject category subject signal events =
      any_same _ _ events (condition_on_subject category subject signal)

  -- The systemd rule fires exactly where there is a signal unit_failed of the category systemd, at
  -- a warning or worse.
  pub fires-systemd_rule :
      (events : List (Event std))
      → fires std systemd_rule events ≡ Prelude.any (raises "systemd" "unit_failed") events
  unfolding fires
  fires-systemd_rule events = rw (met_signal "systemd" "unit_failed" events) (ground arith)

  fires-memory_rule :
      (events : List (Event std))
      → fires std memory_rule events ≡ (
          Prelude.any (raises "memory" "oom_kill") events
          || Prelude.any (raises "memory" "memory_pressure") events)
  unfolding fires
  fires-memory_rule events =
      rw (met_signal "memory" "oom_kill" events, met_signal "memory" "memory_pressure" events)
        (ground arith)

  pub fires-storage_rule :
      (events : List (Event std))
      → fires std storage_rule events ≡ (
          Prelude.any (raises "storage" "space_pressure") events
          || Prelude.any (raises "storage" "inode_pressure") events)
  unfolding fires
  fires-storage_rule events =
      rw
        (met_signal "storage" "space_pressure" events, met_signal "storage" "inode_pressure" events)
        (ground arith)

  -- None of the signals of the rules that are errors.
  abbrev pub LeavesErrorRules : Event std → Type 0
  LeavesErrorRules e =
      (raises "memory" "oom_kill" e ≡ false)
      × (raises "memory" "memory_pressure" e ≡ false)
      × (raises "systemd" "unit_failed" e ≡ false)

  pub memory_rule-quiet :
      (events : List (Event std))
      → All LeavesErrorRules events
      → fires std memory_rule events ≡ false
  memory_rule-quiet events h =
      fires-memory_rule events
      ∙ rw
          (
            any-none (raises "memory" "oom_kill") events (All-map (λ e q. q.0) events h),
            any-none (raises "memory" "memory_pressure") events (All-map (λ e q. q.1) events h),
          )
          refl

  pub systemd_rule-quiet :
      (events : List (Event std))
      → All LeavesErrorRules events
      → fires std systemd_rule events ≡ false
  systemd_rule-quiet events h =
      fires-systemd_rule events
      ∙ any-none (raises "systemd" "unit_failed") events (All-map (λ e q. q.2) events h)

  -- A signal about a subject.
  abbrev pub raises_about : String → String → String → Event std → Bool
  raises_about category subject signal e = e.subject == subject && raises category signal e

  pub fires-kernel_rule :
      (events : List (Event std))
      → fires std kernel_rule events
        ≡ Prelude.any (raises_about "package" "kernel" "pacman.kernel_mismatch") events
  unfolding fires
  fires-kernel_rule events =
      rw (met_subject "package" "kernel" "pacman.kernel_mismatch" events) (ground arith)

  pub fires-pacman_lock_rule :
      (events : List (Event std))
      → fires std pacman_lock_rule events
        ≡ Prelude.any (raises_about "package" "pacman_db" "pacman.stale_lock") events
  unfolding fires
  fires-pacman_lock_rule events =
      rw (met_subject "package" "pacman_db" "pacman.stale_lock" events) (ground arith)
