-- ===== src/Runtime/Launch.antt =====
-- launch.go: the start of a private instance and of its client, as the actions that others see. What
-- the operating system, the inheritance of credentials and the connection answer is an argument.
pub mod Owned
pub mod Settled
pub mod Removable
mod Examples
use jcode_go.Common.{
  ℕ, Bool, true, false, not, ◌&&◌, List, [], ◌∷◌, ◌++◌, String, Option, none, some, codes,
  if◌then◌else◌,
}
use jcode_go.Errors.{
  GoError, message, wrap, errors_is, not_exist, optional, join_all, Result, ok, err,
}
use jcode_go.Json.Value.{ℤ}
use jcode_go.Observation.{Observation, observed}
use jcode_go.Client.State.{Client}
use jcode_go.Client.Operations.{set_instance}
use jcode_go.Runtime.Paths.{FilePath, join, dir, base}
use jcode_go.Runtime.Cleanup.{instance_owned_runtime_paths}
use jcode_go.Runtime.Settings.{
  Text, Env, LaunchOptions, with_defaults, inherit_logins, redact_secrets,
}

pub data LaunchErrorCode : Type 0 where
  missing_binary startup_failed startup_timeout handshake_failed transport_failed : LaunchErrorCode

abbrev pub code_name : LaunchErrorCode → String
code_name missing_binary = "missing_binary"
code_name startup_failed = "startup_failed"
code_name startup_timeout = "startup_timeout"
code_name handshake_failed = "handshake_failed"
code_name transport_failed = "transport_failed"

pub record LaunchError : Type 0 where
  pub code : LaunchErrorCode
  pub binary : FilePath
  pub stderr : Text
  pub cause : Option GoError

-- The fields of `launchedInstance` that `launchInstanceWithObserver` sets.
pub record Instance : Type 0 where
  pub socket_path : FilePath
  pub jcode_home : FilePath
  pub runtime_dir : FilePath
  pub owned_paths : List FilePath
  pub ephemeral : Bool
  pub cleanup_timeout : ℤ
  pub shutdown_grace_period : ℤ
  pub shutdown_reap_timeout : ℤ
  pub process_group_id : ℕ
  pub daemon_pid : ℕ

-- The arguments of `cleanupOwnedInstancePaths` that name what it removes.
pub record Holdings : Type 0 where
  pub home : FilePath
  pub runtime : FilePath
  pub paths : List FilePath
  pub temporary : Bool

-- What happens outside of the launcher: `removes_home` is `removeOwnedInstanceHome`, `cleans`
-- `cleanupOwnedInstancePaths`, `exits` the receive of the result of Wait, `terminates`
-- `terminateProcess`, `shuts_down` the `Shutdown` of the instance.
pub data Action : Type 0 where
  observes : Observation → Action
  makes_home : FilePath → Action
  removes_home : FilePath → Action
  cleans : Holdings → Action
  removes_stale : FilePath → Action
  starts : ℕ → Action
  exits terminates : Action
  shuts_down : Instance → Action

-- A round of the loop that waits for the socket.
pub data Round : Type 0 where
  accepts : Round
  has_exited : Option GoError → Round
  sleeps : Round

-- `rounds` are those before the deadline; `inherited` gives the environment with credentials.
pub record Answers : Type 0 where
  pub temp_home : Result FilePath
  pub absolute : FilePath → Result FilePath
  pub home_directory : Option GoError
  pub run_directory : Option GoError
  pub inherited : Env → Result Env
  pub binary : FilePath
  pub stderr_pipe : Option GoError
  pub started : Result ℕ
  pub rounds : List Round
  pub daemon_pid : ℕ
  pub termination : Option GoError
  pub stderr : Text

pub data Launched : Type 0 where
  launched : Instance → Launched
  failed : LaunchError → Launched

abbrev pub Run : Type 0
Run = List Action × Launched

abbrev pub note : String → Action
note kind = observes (observed kind)

abbrev pub note_error : String → LaunchErrorCode → Action
note_error kind code = observes (record (observed kind) { error = codes (code_name code) })

abbrev pub after : List Action → Run → Run
after first (actions, r) = (first ++ actions, r)

abbrev pub bare : LaunchErrorCode → GoError → LaunchError
bare code e = record { code = code; binary = []; stderr = []; cause = some e }

abbrev pub at_binary : Answers → LaunchErrorCode → GoError → LaunchError
at_binary a code e = record { code = code; binary = a.binary; stderr = []; cause = some e }

-- The first `cleanupOnError`.
abbrev pub undo_home : Bool → FilePath → List Action
undo_home ephemeral home = if ephemeral then removes_home home ∷ [] else []

-- What the second `cleanupOnError` gives to the cleanup.
abbrev pub owned : Bool → FilePath → Holdings
owned ephemeral home = record {
  home = home;
  runtime = join home (codes "run");
  paths = instance_owned_runtime_paths (join home (codes "run"));
  temporary = ephemeral;
}

abbrev pub stale : List FilePath → List Action
stale [] = []
stale (p ∷ paths) = removes_stale p ∷ stale paths

unfoldable pub instance_of : LaunchOptions → Answers → Bool → FilePath → ℕ → Instance
instance_of o a ephemeral home group = record {
  socket_path = join (join home (codes "run")) (codes "jcode-api.sock");
  jcode_home = home;
  runtime_dir = join home (codes "run");
  owned_paths = instance_owned_runtime_paths (join home (codes "run"));
  ephemeral = ephemeral;
  cleanup_timeout = o.cleanup_timeout;
  shutdown_grace_period = o.shutdown_grace_period;
  shutdown_reap_timeout = o.shutdown_reap_timeout;
  process_group_id = group;
  daemon_pid = a.daemon_pid;
}

abbrev timed_out : LaunchOptions → Answers → Bool → FilePath → Run
timed_out o a ephemeral home = (
  terminates
      ∷ cleans (owned ephemeral home)
      ∷ note_error "launch_socket_timeout" startup_timeout
      ∷ [],
  failed (record {
    code = startup_timeout;
    binary = a.binary;
    stderr = redact_secrets o.env a.stderr;
    cause = join_all (message "no API socket within the startup timeout" ∷ optional a.termination);
  }),
)

abbrev process_failed : LaunchOptions → Answers → Bool → FilePath → Option GoError → Run
process_failed o a ephemeral home cause = (
  exits ∷ cleans (owned ephemeral home) ∷ note_error "launch_process_error" startup_failed ∷ [],
  failed (record {
    code = startup_failed;
    binary = a.binary;
    stderr = redact_secrets o.env a.stderr;
    cause = cause;
  }),
)

-- The loop that waits for the socket, and what follows it.
unfoldable pub await_socket : LaunchOptions → Answers → Bool → FilePath → ℕ → List Round → Run
unfolding instance_of
await_socket o a ephemeral home group [] = timed_out o a ephemeral home
await_socket o a ephemeral home group (accepts ∷ rounds) =
    (note "launch_socket_ready" ∷ [], launched (instance_of o a ephemeral home group))
await_socket o a ephemeral home group (has_exited cause ∷ rounds) =
    process_failed o a ephemeral home cause
await_socket o a ephemeral home group (sleeps ∷ rounds) =
    await_socket o a ephemeral home group rounds

abbrev start_error : GoError → LaunchErrorCode
start_error e = if errors_is e not_exist then missing_binary else startup_failed

-- The start of the process.
unfoldable pub start_bridge : LaunchOptions → Answers → Bool → FilePath → Result ℕ → Run
unfolding await_socket
start_bridge o a ephemeral home (err e) =
    (cleans (owned ephemeral home) ∷ [], failed (at_binary a (start_error e) e))
start_bridge o a ephemeral home (ok group) =
    after (starts group ∷ note "launch_process_started" ∷ note "launch_wait_socket" ∷ [])
      (await_socket o a ephemeral home group a.rounds)

abbrev stderr_of : LaunchOptions → Answers → Option GoError
stderr_of o a = if o.inherit_stderr then none else a.stderr_pipe

abbrev with_stderr : LaunchOptions → Answers → Bool → FilePath → Option GoError → Run
with_stderr o a ephemeral home (some e) =
    (cleans (owned ephemeral home) ∷ [], failed (at_binary a startup_failed e))
with_stderr o a ephemeral home none = start_bridge o a ephemeral home a.started

abbrev with_logins : LaunchOptions → Answers → Bool → FilePath → Result Env → Run
with_logins o a ephemeral home (err e) =
    (cleans (owned ephemeral home) ∷ [], failed (bare startup_failed e))
with_logins o a ephemeral home (ok env) =
    let o' : LaunchOptions = record o { env = env } in
    with_stderr o' a ephemeral home (stderr_of o' a)

abbrev logins : LaunchOptions → Answers → Result Env
logins o a = if inherit_logins o then a.inherited o.env else ok o.env

abbrev with_run : LaunchOptions → Answers → Bool → FilePath → Option GoError → Run
with_run o a ephemeral home (some e) = (
  undo_home ephemeral home,
  failed (bare startup_failed (wrap "prepare instance runtime directory" e)),
)
with_run o a ephemeral home none =
    after (stale (instance_owned_runtime_paths (join home (codes "run"))))
      (with_logins o a ephemeral home (logins o a))

abbrev with_home : LaunchOptions → Answers → Bool → FilePath → Option GoError → Run
with_home o a ephemeral home (some e) = (undo_home ephemeral home, failed (bare startup_failed e))
with_home o a ephemeral home none = with_run o a ephemeral home a.run_directory

abbrev with_absolute : LaunchOptions → Answers → Bool → FilePath → Result FilePath → Run
with_absolute o a ephemeral home (err e) =
    (undo_home ephemeral home, failed (bare startup_failed (wrap "resolve instance home" e)))
with_absolute o a ephemeral home (ok absolute) = with_home o a ephemeral absolute a.home_directory

abbrev with_temp : LaunchOptions → Answers → Result FilePath → Run
with_temp o a (err e) = ([], failed (bare startup_failed e))
with_temp o a (ok home) =
    after (makes_home home ∷ []) (with_absolute o a true home (a.absolute home))

abbrev with_options : LaunchOptions → Answers → FilePath → Run
with_options o a [] = with_temp o a a.temp_home
with_options o a (b ∷ home) = with_absolute o a false (b ∷ home) (a.absolute (b ∷ home))

-- `launchInstanceWithObserver`
unfoldable pub launch_instance : LaunchOptions → Answers → Run
unfolding start_bridge
launch_instance options a =
    let o = with_defaults options in
    after (note "launch_prepare" ∷ []) (with_options o a o.jcode_home)

pub data LaunchResult : Type 0 where
  connected : Client → LaunchResult
  refused : LaunchError → LaunchResult

abbrev connect_failed :
    List Action → Instance → LaunchErrorCode → GoError → List Action × LaunchResult
connect_failed actions made code e = (
  actions ++ note "launch_ready" ∷ shuts_down made ∷ note_error "launch_error" code ∷ [],
  refused (bare code e),
)

-- The monitor of an instance that reports the exit of its bridge has the number `monitor`.
abbrev connected_with :
    List Action → Instance → ℕ → Option ℕ → Result Client → List Action × LaunchResult
connected_with actions made i monitor (err e) = connect_failed actions made handshake_failed e
connected_with actions made i monitor (ok c) =
    (actions ++ note "launch_ready" ∷ [], connected (set_instance c i monitor))

abbrev dialed_with :
    List Action
    → Instance
    → ℕ
    → Option ℕ
    → Option GoError
    → Result Client
    → List Action × LaunchResult
dialed_with actions made i monitor (some e) client = connect_failed actions made transport_failed e
dialed_with actions made i monitor none client = connected_with actions made i monitor client

abbrev with_instance :
    ℕ → Option ℕ → Option GoError → Result Client → Run → List Action × LaunchResult
with_instance i monitor dialed client (actions, failed e) =
    (actions ++ note_error "launch_error" e.code ∷ [], refused e)
with_instance i monitor dialed client (actions, launched instance_made) =
    dialed_with actions instance_made i monitor dialed client

-- `Launch`, with the outcome of `dialUnix` and what `NewClient` returned.
unfoldable pub launch :
    LaunchOptions
    → Answers
    → ℕ
    → Option ℕ
    → Option GoError
    → Result Client
    → List Action × LaunchResult
unfolding launch_instance
launch o a i monitor dialed client =
    let (actions, r) = with_instance i monitor dialed client (launch_instance o a) in
    (note "launch_start" ∷ actions, r)

abbrev end_instance : Run → Run
end_instance (actions, failed e) = (actions ++ note_error "launch_error" e.code ∷ [], failed e)
end_instance (actions, launched i) = (actions ++ note "launch_ready" ∷ [], launched i)

-- `LaunchInstance`
unfoldable pub launch_only : LaunchOptions → Answers → Run
unfolding launch_instance
launch_only o a = after (note "launch_start" ∷ []) (end_instance (launch_instance o a))
