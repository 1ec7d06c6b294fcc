-- ===== src/Runtime/Launch/Owned.antt =====
-- The start of an instance undoes what it did where it fails.
use jcode_go.Common.{
  ℕ, ◌≡◌, refl, sym, Bool, true, false, not, ◌&&◌, ◌||◌, List, [], ◌∷◌, ◌++◌, Option, none, some,
  codes, arith, if◌then◌else◌,
}
use jcode_go.Errors.{GoError, wrap, Result, ok, err}
use jcode_go.Runtime.Paths.{FilePath, join, same_path, same_path_refl}
use jcode_go.Runtime.Cleanup.{instance_owned_runtime_paths}
use jcode_go.Runtime.Settings.{Env, LaunchOptions, with_defaults}
use jcode_go.Runtime.Launch.{
  Action, Instance, Holdings, owned, instance_of, makes_home, removes_home, cleans, starts, exits,
  terminates, shuts_down, Round, accepts, has_exited, sleeps, Answers, launched, failed, Run, note,
  after, undo_home, stale, await_socket, start_bridge, stderr_of, with_stderr, with_logins, logins,
  with_run, with_home, with_absolute, with_temp, with_options, launch_instance, LaunchError, bare,
  startup_failed,
}

unfoldable pub any : (Action → Bool) → List Action → Bool
any p [] = false
any p (a ∷ actions) = p a || any p actions

abbrev pub makes : Action → Bool
makes (makes_home p) = true
makes _ = false

abbrev pub starts_one : Action → Bool
starts_one (starts group) = true
starts_one _ = false

abbrev same_paths : List FilePath → List FilePath → Bool
same_paths [] [] = true
same_paths (p ∷ ps) (q ∷ qs) = same_path p q && same_paths ps qs
same_paths _ _ = false

-- What an instance in the home, which is temporary or not, owns: its directory for the runtime, the
-- four paths in it, and the home if that is temporary.
abbrev pub is_owned : Bool → FilePath → Holdings → Bool
is_owned ephemeral home o =
    same_path home o.home
    && same_path (join home (codes "run")) o.runtime
    && same_paths (instance_owned_runtime_paths (join home (codes "run"))) o.paths
    && (if ephemeral then o.temporary else not o.temporary)

-- What the `Shutdown` of an instance cleans up.
abbrev pub owned_by : Instance → Holdings
owned_by i = record {
  home = i.jcode_home;
  runtime = i.runtime_dir;
  paths = i.owned_paths;
  temporary = i.ephemeral;
}

-- The very home is removed, or it is cleaned up with its runtime directory.
abbrev pub tidies : Bool → FilePath → Action → Bool
tidies ephemeral home (removes_home p) = ephemeral && same_path home p
tidies ephemeral home (cleans o) = is_owned ephemeral home o
tidies ephemeral home (shuts_down i) = is_owned ephemeral home (owned_by i)
tidies ephemeral home _ = false

-- Anything is removed or cleaned up.
abbrev pub undoes : Action → Bool
undoes (removes_home p) = true
undoes (cleans o) = true
undoes (shuts_down i) = true
undoes _ = false

same_paths_refl : (ps : List FilePath) → same_paths ps ps ≡ true
same_paths_refl [] = refl
same_paths_refl (p ∷ ps) = rw (same_path_refl p, same_paths_refl ps) refl

pub owned-is_owned :
    (ephemeral : Bool) (home : FilePath) → is_owned ephemeral home (owned ephemeral home) ≡ true
owned-is_owned true home =
    let run = join home (codes "run") in
    rw (same_path_refl home, same_path_refl run, same_paths_refl (instance_owned_runtime_paths run))
      refl
owned-is_owned false home =
    let run = join home (codes "run") in
    rw (same_path_refl home, same_path_refl run, same_paths_refl (instance_owned_runtime_paths run))
      refl

-- The process is gone, or is made to go.
abbrev pub stops : Action → Bool
stops exits = true
stops terminates = true
stops (shuts_down i) = true
stops _ = false

or_assoc : (a b c : Bool) → (a || b) || c ≡ a || (b || c)
or_assoc a b c = ground arith

pub any-append : (p : Action → Bool) (xs ys : List Action) → any p (xs ++ ys) ≡ any p xs || any p ys
unfolding any
any-append p [] ys = refl
any-append p (a ∷ xs) ys = rw (any-append p xs ys) (sym (or_assoc (p a) (any p xs) (any p ys)))

-- Actions that neither make, start, stop nor tidy up.
abbrev Quiet : List Action → Type 0
Quiet xs =
    (any makes xs ≡ false)
    × (any starts_one xs ≡ false)
    × (any undoes xs ≡ false)
    × (any stops xs ≡ false)

-- The end of a launch in the home, which is temporary or not and which it must remove if it is
-- `made`: what was started is stopped.
abbrev pub Ended : Bool → Bool → FilePath → Run → Type 0
Ended made ephemeral home (actions, failed e) =
    ((not (made || any makes actions) || any (tidies ephemeral home) actions) ≡ true)
    × ((not (any starts_one actions) || (any (tidies ephemeral home) actions && any stops actions))
        ≡ true)
Ended made ephemeral home (actions, launched i) =
    (any starts_one actions ≡ true)
    × (any undoes actions ≡ false)
    × (any stops actions ≡ false)
    × (is_owned ephemeral home (owned_by i) ≡ true)

raised :
    (quiet obliged tidied begun stopped : Bool)
    → ((not obliged || tidied) ≡ true) × ((not begun || (tidied && stopped)) ≡ true)
    → ((not obliged || (quiet || tidied)) ≡ true)
      × ((not begun || ((quiet || tidied) && stopped)) ≡ true)
raised quiet obliged tidied begun stopped h = ground arith

after-Ended :
    (made ephemeral : Bool) (home : FilePath) (first : List Action) (run : Run)
    → Quiet first
    → Ended made ephemeral home run
    → Ended made ephemeral home (after first run)
after-Ended made ephemeral home first (actions, failed e) q h =
    simp any-append (simp (q.0, q.1, q.3) (raised (any (tidies ephemeral home) first) _ _ _ _ h))
after-Ended made ephemeral home first (actions, launched i) q h =
    simp any-append (simp (q.1, q.2, q.3) h)

stale-Quiet : (paths : List FilePath) → Quiet (stale paths)
unfolding any
stale-Quiet [] = (refl, refl, refl, refl)
stale-Quiet (p ∷ paths) = stale-Quiet paths

module _ (o : LaunchOptions) (a : Answers) (ephemeral : Bool) (home : FilePath) where
  awaited-Ended :
      (group : ℕ) (rounds : List Round)
      → Ended ephemeral ephemeral home (
          after
            (starts group ∷ note "launch_process_started" ∷ note "launch_wait_socket" ∷ [])
            (await_socket o a ephemeral home group rounds))
  unfolding await_socket instance_of any
  awaited-Ended group [] = simp (owned-is_owned ephemeral home) (ground arith)
  awaited-Ended group (accepts ∷ rounds) = (refl, refl, refl, owned-is_owned ephemeral home)
  awaited-Ended group (has_exited cause ∷ rounds) =
      simp (owned-is_owned ephemeral home) (ground arith)
  awaited-Ended group (sleeps ∷ rounds) = awaited-Ended group rounds

  start_bridge-Ended :
      (started : Result ℕ)
      → Ended ephemeral ephemeral home (start_bridge o a ephemeral home started)
  unfolding start_bridge any
  start_bridge-Ended (err e) = simp (owned-is_owned ephemeral home) (ground arith)
  start_bridge-Ended (ok group) = awaited-Ended group a.rounds

  with_stderr-Ended :
      (failure : Option GoError)
      → Ended ephemeral ephemeral home (with_stderr o a ephemeral home failure)
  unfolding any
  with_stderr-Ended (some e) = simp (owned-is_owned ephemeral home) (ground arith)
  with_stderr-Ended none = start_bridge-Ended a.started

module _ (o : LaunchOptions) (a : Answers) (ephemeral : Bool) (home : FilePath) where
  with_logins-Ended :
      (env : Result Env) → Ended ephemeral ephemeral home (with_logins o a ephemeral home env)
  unfolding any
  with_logins-Ended (err e) = simp (owned-is_owned ephemeral home) (ground arith)
  with_logins-Ended (ok env) =
      let o' : LaunchOptions = record o { env = env } in
      with_stderr-Ended o' a ephemeral home (stderr_of o' a)

  undo_home-Ended :
      (e : LaunchError) → Ended ephemeral ephemeral home (undo_home ephemeral home, failed e)
  unfolding any
  undo_home-Ended e = ground (arith, same_path_refl home)

  with_run-Ended :
      (failure : Option GoError)
      → Ended ephemeral ephemeral home (with_run o a ephemeral home failure)
  with_run-Ended (some e) =
      undo_home-Ended (bare startup_failed (wrap "prepare instance runtime directory" e))
  with_run-Ended none =
      let paths = instance_owned_runtime_paths (join home (codes "run")) in
      after-Ended ephemeral ephemeral home (stale paths)
        (with_logins o a ephemeral home (logins o a)) (stale-Quiet paths)
        (with_logins-Ended (logins o a))

  with_home-Ended :
      (failure : Option GoError)
      → Ended ephemeral ephemeral home (with_home o a ephemeral home failure)
  with_home-Ended (some e) = undo_home-Ended (bare startup_failed e)
  with_home-Ended none = with_run-Ended a.run_directory

-- The path of the home after filepath.Abs, or as it was where that failed.
abbrev pub resolved : Result FilePath → FilePath → FilePath
resolved (ok absolute) home = absolute
resolved (err e) home = home

abbrev temp_or_none : Answers → Result FilePath → FilePath
temp_or_none a (ok home) = resolved (a.absolute home) home
temp_or_none a (err e) = []

abbrev home_at : Answers → FilePath → FilePath
home_at a [] = temp_or_none a a.temp_home
home_at a (b ∷ home) = resolved (a.absolute (b ∷ home)) (b ∷ home)

-- The home of a launch: a temporary one if the options name none.
abbrev pub home_of : LaunchOptions → Answers → FilePath
home_of options a = home_at a (with_defaults options).jcode_home

abbrev is_none : FilePath → Bool
is_none [] = true
is_none (_ ∷ _) = false

abbrev pub is_temporary : LaunchOptions → Bool
is_temporary options = is_none (with_defaults options).jcode_home

with_absolute-Ended :
    (o : LaunchOptions) (a : Answers) (ephemeral : Bool) (home : FilePath)
    (absolute : Result FilePath)
    → Ended ephemeral ephemeral (resolved absolute home) (with_absolute o a ephemeral home absolute)
with_absolute-Ended o a ephemeral home (err e) =
    undo_home-Ended o a ephemeral home (bare startup_failed (wrap "resolve instance home" e))
with_absolute-Ended o a ephemeral home (ok absolute) =
    with_home-Ended o a ephemeral absolute a.home_directory

made-Ended :
    (home at_end : FilePath) (run : Run)
    → Ended true true at_end run
    → Ended false true at_end (after (makes_home home ∷ []) run)
unfolding any
made-Ended home at_end (actions, failed e) h = ground (arith, h)
made-Ended home at_end (actions, launched i) h = h

with_temp-Ended :
    (o : LaunchOptions) (a : Answers) (temp : Result FilePath)
    → Ended false true (temp_or_none a temp) (with_temp o a temp)
unfolding any
with_temp-Ended o a (err e) = ground arith
with_temp-Ended o a (ok home) =
    made-Ended home (resolved (a.absolute home) home)
      (with_absolute o a true home (a.absolute home))
      (with_absolute-Ended o a true home (a.absolute home))

with_options-Ended :
    (o : LaunchOptions) (a : Answers) (home : FilePath)
    → Ended false (is_none home) (home_at a home) (with_options o a home)
with_options-Ended o a [] = with_temp-Ended o a a.temp_home
with_options-Ended o a (b ∷ home) = with_absolute-Ended o a false (b ∷ home) (a.absolute (b ∷ home))

pub launch_instance-Ended :
    (o : LaunchOptions) (a : Answers)
    → Ended false (is_temporary o) (home_of o a) (launch_instance o a)
unfolding launch_instance any
launch_instance-Ended options a =
    let o = with_defaults options in
    after-Ended false (is_temporary options) (home_of options a) (note "launch_prepare" ∷ [])
      (with_options o a o.jcode_home) (refl, refl, refl, refl) (with_options-Ended o a o.jcode_home)
