-- ===== src/Runtime/Process.antt =====
-- process_unix.go: the processes of a private runtime. What the operating system answers is the
-- argument `Answers`; a process number is ℕ, where 0 stands for every number that is not positive.
pub mod Terminate
use jcode_go.Common.{
  ℕ, Bool, true, false, not, ◌&&◌, ◌||◌, List, [], ◌∷◌, ◌++◌, String, Option, none, some, leb,
  if◌then◌else◌,
}
use jcode_go.Errors.{GoError, message, wrap, optional, join_all, Result, ok, err}

pub data Sig : Type 0 where
  sigterm sigkill : Sig

-- The answer of kill(2): done, no such process, another error.
pub data Killed : Type 0 where
  sent esrch : Killed
  refused : GoError → Killed

-- What `terminateProcessGroup` does that others see: signals, and what its observer is told.
pub data Action : Type 0 where
  signals : ℕ → Sig → Action
  tells : String → Action

pub data Woken : Type 0 where
  reaped elapsed forced : Woken

-- In the order in which they are asked: whether the result of Wait is there at each of the three
-- selects with a default, what ended the grace period, what kill(2) answered, and whether the
-- result came within the last timeout.
pub record Answers : Type 0 where
  pub exited : Bool
  pub term : Killed
  pub woken : Woken
  pub late_exit : Bool
  pub probe : Killed
  pub last_exit : Bool
  pub kill : Killed
  pub in_time : Bool

pub record Outcome : Type 0 where
  pub actions : List Action
  pub triggered : Bool
  pub cause : Option GoError

abbrev invalid_group : GoError
invalid_group = message "invalid owned process group"

-- `signalProcessGroup`
unfoldable pub signal_process_group : ℕ → Killed → Option GoError
signal_process_group group answer =
    if leb group 1
    then some invalid_group
    else elim answer [ sent ↦ none | esrch ↦ none | refused e ↦ some e ]

-- `processGroupAlive`
unfoldable pub process_group_alive : ℕ → Killed → Bool × Option GoError
process_group_alive group answer =
    if leb group 1
    then (false, some invalid_group)
    else elim answer [ sent ↦ (true, none) | esrch ↦ (false, none) | refused e ↦ (true, some e) ]

-- `stopProcess`
unfoldable pub stop_process : ℕ → Killed → Result (Unit {0})
stop_process pid answer =
    if leb pid 1
    then err (message "invalid owned daemon PID")
    else elim answer [ sent ↦ ok tt | esrch ↦ ok tt | refused e ↦ err e ]

-- `startProcess`, for the number of a process that did start.
unfoldable pub start_process : Result ℕ → Result ℕ
start_process (err e) = err e
start_process (ok pid) = if leb pid 1 then err invalid_group else ok pid

abbrev pub is_reaped : Woken → Bool
is_reaped reaped = true
is_reaped _ = false

abbrev pub is_forced : Woken → Bool
is_forced forced = true
is_forced _ = false

abbrev pub noted : String → Option GoError → List GoError
noted m none = []
noted m (some e) = wrap m e ∷ []

abbrev pub reap_complete : Action
reap_complete = tells "shutdown_reap_complete"

abbrev pub reap_timeout : GoError
reap_timeout = message "reap owned process group: timeout"

-- A return after a result of Wait.
abbrev pub reaped_after : List Action → Bool → List GoError → Outcome
reaped_after actions triggered errs = record {
  actions = actions ++ reap_complete ∷ [];
  triggered = triggered;
  cause = join_all errs;
}

-- The last wait, `waitForProcessReap`, and the return.
unfoldable pub wait_for_reap : Bool → List Action → Bool → List GoError → Outcome
wait_for_reap in_time actions triggered errs =
    if in_time then reaped_after actions triggered errs else record {
      actions = actions;
      triggered = triggered;
      cause = join_all (errs ++ reap_timeout ∷ []);
    }

-- From the test whether the group is alive on.
unfoldable pub after_grace : ℕ → Answers → List Action → List GoError → Outcome
after_grace group a actions errs =
    let (alive, probe_err) = process_group_alive group a.probe in
    let triggered = is_forced a.woken in
    let checked = errs ++ noted "check owned process group after SIGTERM" probe_err in
    if not alive
    then wait_for_reap a.in_time actions triggered checked
    else if a.last_exit
    then reaped_after actions triggered checked
    else wait_for_reap a.in_time
        (actions ++ tells "shutdown_force_kill" ∷ signals group sigkill ∷ []) triggered
        (checked
          ++ noted "signal owned process group with SIGKILL" (signal_process_group group a.kill))

-- `terminateProcessGroup`
unfoldable pub terminate_process_group : ℕ → Answers → Outcome
terminate_process_group group a =
    let asked =
      signals group sigterm ∷ tells "shutdown_grace_start" ∷ tells "shutdown_grace_complete" ∷ [] in
    let errs =
      noted "signal owned process group with SIGTERM" (signal_process_group group a.term) in
    if leb group 1
    then record { actions = []; triggered = false; cause = some invalid_group }
    else if a.exited
    then record { actions = reap_complete ∷ []; triggered = false; cause = none }
    else if is_reaped a.woken || a.late_exit
    then reaped_after asked (is_forced a.woken) errs
    else after_grace group a asked errs
