-- ===== src/Runtime/Launch/Removable.antt =====
-- The removal accepts the paths of every instance that a launch makes.
use jcode_go.Common.{ℕ, ◌≡◌, Bool, true, false, List, [], ◌∷◌, Option, none, some, codes}
use jcode_go.Errors.{GoError, Result, ok, err}
use jcode_go.Runtime.Paths.{FilePath, clean, join, is_rooted}
use jcode_go.Runtime.Removal.{check_boundary}
use jcode_go.Runtime.Removal.Accepts.{instance_owned_runtime_paths-check_boundary}
use jcode_go.Runtime.Cleanup.{instance_owned_runtime_paths}
use jcode_go.Runtime.Settings.{Env, LaunchOptions, with_defaults}
use jcode_go.Runtime.Launch.{
  Action, makes_home, starts, Round, accepts, has_exited, sleeps, Answers, Instance, launched,
  failed, Run, note, after, stale, instance_of, await_socket, start_bridge, stderr_of, with_stderr,
  with_logins, logins, with_run, with_home, with_absolute, with_temp, with_options, launch_instance,
}

-- A path as `filepath.Abs` returns it.
abbrev pub IsAbsolute : FilePath → Type 0
IsAbsolute p = (is_rooted p ≡ true) × (clean p ≡ p)

abbrev pub AbsoluteResult : Result FilePath → Type 0
AbsoluteResult (err e) = Unit
AbsoluteResult (ok p) = IsAbsolute p

abbrev IsRemovable : Instance → Type 0
IsRemovable i = check_boundary (clean i.jcode_home) (clean i.runtime_dir) i.owned_paths ≡ none

abbrev pub Leaves : Run → Type 0
Leaves (actions, failed e) = Unit
Leaves (actions, launched i) = IsRemovable i

after-Leaves : (first : List Action) (run : Run) → Leaves run → Leaves (after first run)
after-Leaves first (actions, failed e) h = tt
after-Leaves first (actions, launched i) h = h

module _ (o : LaunchOptions) (a : Answers) (ephemeral : Bool) (home : FilePath)
    (h : IsAbsolute home) where
  await_socket-Leaves :
      (group : ℕ) (rounds : List Round) → Leaves (await_socket o a ephemeral home group rounds)
  unfolding await_socket instance_of
  await_socket-Leaves group [] = tt
  await_socket-Leaves group (accepts ∷ rounds) =
      instance_owned_runtime_paths-check_boundary home h.0 h.1
  await_socket-Leaves group (has_exited cause ∷ rounds) = tt
  await_socket-Leaves group (sleeps ∷ rounds) = await_socket-Leaves group rounds

  start_bridge-Leaves : (started : Result ℕ) → Leaves (start_bridge o a ephemeral home started)
  unfolding start_bridge
  start_bridge-Leaves (err e) = tt
  start_bridge-Leaves (ok group) =
      after-Leaves (starts group ∷ note "launch_process_started" ∷ note "launch_wait_socket" ∷ [])
        (await_socket o a ephemeral home group a.rounds) (await_socket-Leaves group a.rounds)

  with_stderr-Leaves : (failure : Option GoError) → Leaves (with_stderr o a ephemeral home failure)
  with_stderr-Leaves (some e) = tt
  with_stderr-Leaves none = start_bridge-Leaves a.started

module _ (o : LaunchOptions) (a : Answers) (ephemeral : Bool) (home : FilePath)
    (h : IsAbsolute home) where
  with_logins-Leaves : (env : Result Env) → Leaves (with_logins o a ephemeral home env)
  with_logins-Leaves (err e) = tt
  with_logins-Leaves (ok env) =
      let o' : LaunchOptions = record o { env = env } in
      with_stderr-Leaves o' a ephemeral home h (stderr_of o' a)

  with_run-Leaves : (failure : Option GoError) → Leaves (with_run o a ephemeral home failure)
  with_run-Leaves (some e) = tt
  with_run-Leaves none =
      after-Leaves (stale (instance_owned_runtime_paths (join home (codes "run"))))
        (with_logins o a ephemeral home (logins o a)) (with_logins-Leaves (logins o a))

  with_home-Leaves : (failure : Option GoError) → Leaves (with_home o a ephemeral home failure)
  with_home-Leaves (some e) = tt
  with_home-Leaves none = with_run-Leaves a.run_directory

with_absolute-Leaves :
    (o : LaunchOptions) (a : Answers) (ephemeral : Bool) (home : FilePath)
    (absolute : Result FilePath)
    → AbsoluteResult absolute
    → Leaves (with_absolute o a ephemeral home absolute)
with_absolute-Leaves o a ephemeral home (err e) h = tt
with_absolute-Leaves o a ephemeral home (ok absolute) h =
    with_home-Leaves o a ephemeral absolute h a.home_directory

module _ (o : LaunchOptions) (a : Answers)
    (h : (p : FilePath) → AbsoluteResult (a.absolute p)) where
  with_temp-Leaves : (temp : Result FilePath) → Leaves (with_temp o a temp)
  with_temp-Leaves (err e) = tt
  with_temp-Leaves (ok home) =
      after-Leaves (makes_home home ∷ []) (with_absolute o a true home (a.absolute home))
        (with_absolute-Leaves o a true home (a.absolute home) (h home))

  with_options-Leaves : (home : FilePath) → Leaves (with_options o a home)
  with_options-Leaves [] = with_temp-Leaves a.temp_home
  with_options-Leaves (b ∷ home) =
      with_absolute-Leaves o a false (b ∷ home) (a.absolute (b ∷ home)) (h (b ∷ home))

launch_instance-Leaves :
    (o : LaunchOptions) (a : Answers)
    → ((p : FilePath) → AbsoluteResult (a.absolute p))
    → Leaves (launch_instance o a)
unfolding launch_instance
launch_instance-Leaves options a h =
    let o = with_defaults options in
    after-Leaves (note "launch_prepare" ∷ []) (with_options o a o.jcode_home)
      (with_options-Leaves o a h o.jcode_home)

-- Where filepath.Abs returns clean rooted paths, the removal does not refuse the paths of an instance
-- that a launch made: the checks of its directories and of its four paths pass, although they are
-- made on paths that are cleaned once more.
pub launch_instance-check_boundary :
    (o : LaunchOptions) (a : Answers) {actions : List Action} {i : Instance}
    → ((p : FilePath) → AbsoluteResult (a.absolute p))
    → launch_instance o a ≡ (actions, launched i)
    → check_boundary (clean i.jcode_home) (clean i.runtime_dir) i.owned_paths ≡ none
launch_instance-check_boundary o a h is = rw is at (launch_instance-Leaves o a h)
