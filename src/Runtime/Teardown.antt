-- ===== src/Runtime/Teardown.antt =====
-- launch.go: `runShutdown`, by what its three phases answer: the stop of the daemon with that
-- number (0 for none), the termination of the process group, and the cleanup of the files.
use jcode_go.Common.{ℕ, false, List, [], ◌∷◌, ◌++◌, Option, none, some, ltb, if◌then◌else◌}
use jcode_go.Errors.{GoError, wrap, optional, join_all, Result, ok, err}
use jcode_go.Runtime.Process.{
  Action, signals, sigterm, tells, Killed, Answers, Outcome, stop_process, terminate_process_group,
}

abbrev daemon_errors : Result (Unit {0}) → List GoError
daemon_errors (ok t) = []
daemon_errors (err e) = wrap "stop private daemon" e ∷ []

abbrev nothing_to_end : Outcome
nothing_to_end = record { actions = []; triggered = false; cause = none }

-- The last observation, for a cleanup without an error.
abbrev cleaned_up : Option GoError → List Action
cleaned_up none = tells "shutdown_cleanup_complete" ∷ []
cleaned_up (some e) = []

-- `runShutdown`; without a process there is no group to end.
unfoldable pub run_shutdown :
    ℕ → Killed → Option (ℕ × Answers) → Option GoError → List Action × Option GoError
unfolding stop_process terminate_process_group
run_shutdown daemon stopped process cleaned =
    let has_daemon = ltb 1 daemon in
    let daemon_actions : List Action = if has_daemon then signals daemon sigterm ∷ [] else [] in
    let daemon_errs : List GoError =
      if has_daemon then daemon_errors (stop_process daemon stopped) else [] in
    let outcome : Outcome = elim process [
      | none ↦ nothing_to_end
      | some (group, a) ↦ terminate_process_group group a
    ] in
    (
      daemon_actions ++ outcome.actions ++ cleaned_up cleaned,
      join_all (daemon_errs ++ optional outcome.cause ++ optional cleaned),
    )
