-- ===== src/Runtime/Removal.antt =====
-- launch.go: the bounded removal of an instance's runtime files and of its temporary home. The two
-- loops are `retry` on fuel, one unit per attempt.
pub mod Touches
pub mod Boundary
pub mod Ends
pub mod Bounded
pub mod Accepts
mod Examples
use jcode_go.Common.{
  ℕ, zero, suc, ◌+◌, ◌-◌, Bool, true, false, not, ◌&&◌, ◌||◌, List, [], ◌∷◌, ◌++◌, Option, none,
  some, codes, ltb, leb, if◌then◌else◌,
}
use jcode_go.Errors.{GoError, message, wrap, join_all, optional}
use jcode_go.Errors as Go
use jcode_go.Json.Value.{ℤ, pos}
use jcode_go.Runtime.Paths.{FilePath, same_path, has_prefix, clean, join, dir, base}
use jcode_go.Runtime.Cleanup.{
  Kind, directory, Stat, found, absent, unknown, Os, Touch, tree, After, finite_duration,
  default_cleanup_timeout, instance_home_prefix, instance_owned_runtime_paths, is_directory,
  remove_owned_runtime_paths_once,
}

-- An attempt is the last one with its result, or names the error to return when time is up.
pub data Attempt : Type 0 where
  last : Option GoError → Attempt
  again : GoError → Attempt

abbrev pub retry_delay : ℕ
retry_delay = 50000000

abbrev pub min : ℕ → ℕ → ℕ
min a b = if leb a b then a else b

-- What `removeOwnedRuntimePaths` makes of a pass.
abbrev pub judge_pass : Option GoError × Bool → Attempt
judge_pass (none, permanent) = last none
judge_pass (some e, true) = last (some (wrap "clean owned runtime paths" e))
judge_pass (some e, false) = again (wrap "clean owned runtime paths" e)

abbrev still_exists : Option GoError → GoError
still_exists none = message "ephemeral instance home still exists"
still_exists (some e) = e

-- What `removeOwnedInstanceHome` makes of a removal and of what is there then.
abbrev pub judge_home : Option GoError → Stat → Attempt
judge_home e absent = last none
judge_home e (unknown cause) =
    last (join_all (optional e ++ wrap "inspect ephemeral instance home after removal" cause ∷ []))
judge_home e (found kind) = again (wrap "remove ephemeral instance home" (still_exists e))

abbrev pub prior : {S A : Type 0} → List Touch → Option (After S A) → Option (After S A)
prior first none = none
prior first (some (s, touched, a)) = some (s, first ++ touched, a)

-- Whether a path is there as a directory, and no symbolic link: to go on, or the result.
abbrev pub real_directory : GoError → Stat → Option (Option GoError)
real_directory e absent = some none
real_directory e (unknown cause) = some (some cause)
real_directory e (found kind) = if is_directory kind then none else some (some e)

abbrev pub inspected : Stat → (GoError → GoError) → Stat
inspected (unknown cause) f = unknown (f cause)
inspected st f = st

-- Every path is directly in the directory and one of its runtime files.
unfoldable pub member_of : FilePath → List FilePath → Bool
member_of p [] = false
member_of p (q ∷ qs) = same_path (clean q) p || member_of p qs

unfoldable pub check_owned : FilePath → List FilePath → Option GoError
unfolding member_of
check_owned runtime_dir [] = none
check_owned runtime_dir (path ∷ paths) =
    let rest = check_owned runtime_dir paths in
    if not (same_path (dir (clean path)) runtime_dir)
    then some (message "owned runtime path is outside the recorded runtime directory")
    else if not (member_of (clean path) (instance_owned_runtime_paths runtime_dir))
    then some (message "owned runtime path is not an expected private runtime file")
    else rest

-- The checks of `removeOwnedRuntimePaths` before it looks at any file, on clean directories.
unfoldable pub check_boundary : FilePath → FilePath → List FilePath → Option GoError
unfolding check_owned
check_boundary home runtime_dir paths =
    if not (same_path runtime_dir (join home (codes "run")))
    then some (message "owned runtime directory is outside the recorded home")
    else check_owned runtime_dir paths

abbrev pub nothing_owned : FilePath → FilePath → List FilePath → Bool
nothing_owned [] [] [] = true
nothing_owned _ _ _ = false

-- The ownership boundary of `removeOwnedInstanceHome`, on a clean home.
unfoldable pub is_owned_home : FilePath → FilePath → Bool
is_owned_home temp home =
    same_path (clean (dir home)) (clean temp) && has_prefix (base home) instance_home_prefix

-- `remainingCleanupDuration`
unfoldable pub remaining_cleanup_duration : ℕ → ℕ → ℤ
remaining_cleanup_duration deadline t = pos (if ltb t deadline then deadline - t else 1)

module _ {S : Type 0} (os : Os S) where
  abbrev pub waited : S → ℕ → S
  waited s zero = s
  waited s (suc d) = os.sleep s (suc d)

  abbrev pub pause : ℕ → S × ℕ → S
  pause deadline (s, t) = waited s (min retry_delay (deadline - t))

  -- The loops of both removals, until `deadline`.
  unfoldable pub retry : (S → After S Attempt) → ℕ → ℕ → S → Option (After S (Option GoError))
  retry attempt deadline zero s = none
  retry attempt deadline (suc fuel) s =
      let (s1, touched, outcome) = attempt s in
      let (s2, t) = os.now s1 in
      let rest = retry attempt deadline fuel (pause deadline (os.now s2)) in
      elim outcome [
        | last e ↦ some (s1, touched, e)
        | again e ↦ if not (ltb t deadline) then some (s2, touched, some e) else prior touched rest
      ]

  abbrev judged : After S (Option GoError × Bool) → After S Attempt
  judged (s, touched, pass) = (s, touched, judge_pass pass)

  abbrev pub runtime_attempt : FilePath → List FilePath → S → After S Attempt
  runtime_attempt runtime_dir paths s =
      judged (remove_owned_runtime_paths_once os runtime_dir paths s)

  -- The body of the loop of `removeOwnedInstanceHome`.
  unfoldable pub home_attempt : FilePath → S → After S Attempt
  home_attempt home s =
      let (s1, e) = os.remove_all s home in
      let (s2, st) = os.lstat s1 home in (s2, tree home ∷ [], judge_home e st)

  -- `deadline := time.Now().Add(timeout)` and the loop
  abbrev pub within : (S → After S Attempt) → ℕ → ℕ → S → Option (After S (Option GoError))
  within attempt timeout fuel s = let (s1, t) = os.now s in retry attempt (t + timeout) fuel s1

  abbrev pub unless_done :
      S × Option (Option GoError)
      → (S → Option (After S (Option GoError)))
      → Option (After S (Option GoError))
  unless_done (s, some e) next = some (s, [], e)
  unless_done (s, none) next = next s

  abbrev looked : S × Stat → (GoError → GoError) → GoError → S × Option (Option GoError)
  looked (s, st) f e = (s, real_directory e (inspected st f))

  unfoldable pub inspect_home : FilePath → S → S × Option (Option GoError)
  inspect_home home s =
      looked (os.lstat s home) (wrap "inspect owned home")
        (message "owned home is not a real directory")

  unfoldable pub inspect_runtime_dir : FilePath → S → S × Option (Option GoError)
  inspect_runtime_dir runtime_dir s =
      looked (os.lstat s runtime_dir) (wrap "inspect owned runtime directory")
        (message "owned runtime directory is not a real directory")

  unfoldable pub inspect_ephemeral : FilePath → S → S × Option (Option GoError)
  inspect_ephemeral home s =
      looked (os.lstat s home) (wrap "inspect ephemeral instance home")
        (message "ephemeral instance home is not a real directory")

  -- `removeOwnedRuntimePaths`
  unfoldable pub remove_owned_runtime_paths :
      FilePath → FilePath → List FilePath → ℤ → ℕ → S → Option (After S (Option GoError))
  unfolding retry check_boundary inspect_home inspect_runtime_dir
  remove_owned_runtime_paths home runtime_dir paths timeout fuel s =
      if nothing_owned home runtime_dir paths
      then some (s, [], none)
      else elim (check_boundary (clean home) (clean runtime_dir) paths) [
        | some e ↦ some (s, [], some e)
        | none ↦ unless_done (inspect_home (clean home) s) (λ s1.
            unless_done (inspect_runtime_dir (clean runtime_dir) s1) (
              within (runtime_attempt (clean runtime_dir) paths)
                (finite_duration timeout default_cleanup_timeout) fuel))
      ]

  -- `removeOwnedInstanceHome`
  unfoldable pub remove_owned_instance_home :
      FilePath → ℤ → ℕ → S → Option (After S (Option GoError))
  unfolding retry home_attempt inspect_ephemeral is_owned_home
  remove_owned_instance_home home timeout fuel s =
      if not (is_owned_home os.temp_dir (clean home))
      then some
          (s, [], some (message "ephemeral instance home is outside the SDK ownership boundary"))
      else unless_done (inspect_ephemeral (clean home) s) (
          within (home_attempt (clean home)) (finite_duration timeout default_cleanup_timeout) fuel)

  abbrev pub and_home :
      List Touch
      → Option GoError
      → Option (After S (Option GoError))
      → Option (After S (Option GoError))
  and_home touched first none = none
  and_home touched first (some (s, more, second)) =
      some (s, touched ++ more, join_all (optional first ++ optional second))

  -- The second half, for an ephemeral instance.
  abbrev pub finish :
      Bool
      → FilePath
      → ℕ
      → ℕ
      → Option (After S (Option GoError))
      → Option (After S (Option GoError))
  finish ephemeral home deadline fuel none = none
  finish false home deadline fuel (some (s, touched, e)) = some (s, touched, join_all (optional e))
  finish true home deadline fuel (some (s, touched, e)) =
      let (s', t) = os.now s in
      and_home touched e
        (remove_owned_instance_home home (remaining_cleanup_duration deadline t) fuel s')

  -- `cleanupOwnedInstancePaths`
  unfoldable pub cleanup_owned_instance_paths :
      FilePath → FilePath → List FilePath → Bool → ℤ → ℕ → S → Option (After S (Option GoError))
  unfolding remove_owned_runtime_paths remove_owned_instance_home remaining_cleanup_duration
  cleanup_owned_instance_paths home runtime_dir paths ephemeral timeout fuel s =
      let (s1, t) = os.now s in
      let deadline = t + finite_duration timeout default_cleanup_timeout in
      let (s2, t') = os.now s1 in
      finish ephemeral home deadline fuel (
        remove_owned_runtime_paths home runtime_dir paths (remaining_cleanup_duration deadline t')
          fuel s2)
