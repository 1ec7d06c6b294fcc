-- ===== src/Runtime/Shutdown.antt =====
-- launch.go: `shutdown` of an instance, by the sections that `shutdownMu` guards. The test of
-- `requestShutdownEscalation` for an error that it has already is the parameter `same`.
pub mod System
pub mod Invariant
pub mod Once
use jcode_go.Common.Channel.{Signal, pending, close}
use jcode_go.Common.{
  ℕ, ◌+◌, Bool, true, false, not, ◌||◌, List, [], ◌∷◌, ◌++◌, String, Option, none, some, codes,
  if◌then◌else◌,
}
use jcode_go.Errors.{GoError, join_all, optional}
use jcode_go.Observation.{Observation, observed}

-- The fields of `launchedInstance` that `shutdownMu` guards, and what the observer was told. A
-- channel is `none` until it is made. `runs` counts the calls of `runShutdown`.
pub record Shutdown : Type 0 where
  pub started : Bool
  pub finished : Bool
  pub done : Option Signal
  pub force_kill : Option Signal
  pub force_kill_once : Bool
  pub context_errs : List GoError
  pub err : Option GoError
  pub runs : ℕ
  pub log : List Observation

unfoldable pub fresh : Shutdown
fresh = record {
  started = false;
  finished = false;
  done = none;
  force_kill = none;
  force_kill_once = false;
  context_errs = [];
  err = none;
  runs = 0;
  log = [];
}

abbrev pub or_made : Option Signal → Option Signal
or_made none = some pending
or_made (some s) = some s

abbrev pub close_made : Option Signal → Option Signal
close_made none = none
close_made (some s) = some (close s)

abbrev pub tell : Shutdown → Observation → Shutdown
tell s o = record s { log = s.log ++ o ∷ [] }

-- `shutdownDone == nil`, with both channels made at once
abbrev make_channels : Shutdown → Shutdown
make_channels s = elim s.done [
  | none ↦ record s { done = some pending; force_kill = some pending }
  | some d ↦ s
]

-- `beginShutdown` under the mutex: whether the caller owns the shutdown.
unfoldable pub begin_shutdown : Shutdown → Shutdown × Bool
begin_shutdown s =
    let made = make_channels s in
    if made.finished then (made, false) else (record made { started = true }, not made.started)

any_same : (GoError → GoError → Bool) → GoError → List GoError → Bool
any_same same cause [] = false
any_same same cause (e ∷ es) = same e cause || any_same same cause es

-- `requestShutdownEscalation` under the mutex.
unfoldable pub note_cause : (GoError → GoError → Bool) → Shutdown → GoError → Shutdown
unfolding any_same
note_cause same s cause =
    if s.finished
    then s
    else if any_same same cause s.context_errs
    then s
    else record s { context_errs = s.context_errs ++ cause ∷ [] }

-- The end of it, `shutdownForceKillOnce.Do`.
unfoldable pub force : Shutdown → Shutdown
force s =
    if s.force_kill_once
    then s
    else record s { force_kill_once = true; force_kill = close_made s.force_kill }

-- The owner's observation before `runShutdown`, and the call.
unfoldable pub enter_run : Shutdown → Shutdown
enter_run s = record (tell s (observed "shutdown_start")) { runs = s.runs + 1 }

abbrev completed : Option GoError → Observation
completed none = observed "shutdown_complete"
completed (some e) = record (observed "shutdown_complete") { error = codes "shutdown_failed" }

-- `finishShutdown`
unfoldable pub finish_shutdown : Shutdown → Option GoError → Shutdown
finish_shutdown s phase_err =
    let e = join_all (optional phase_err ++ s.context_errs) in
    tell (record s { err = e; finished = true; done = close_made s.done }) (completed e)
