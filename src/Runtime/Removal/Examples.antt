-- ===== src/Runtime/Removal/Examples.antt =====
-- Paths, and the removal of an instance's files, on concrete inputs.
use jcode_go.Common.{
  ℕ, ◌+◌, ◌≡◌, refl, Bool, true, false, [], ◌∷◌, Option, none, some, if◌then◌else◌, codes, arith,
  All,
}
use jcode_go.Errors.{join_all, GoError}
use jcode_go.Json.Value.{pos}
use jcode_go.Runtime.Paths.{FilePath, has_prefix, same_path, clean, join, dir, base}
use jcode_go.Runtime.Cleanup.{
  Os, Kind, file, empty_directory, tree, found, absent, directory, regular, gone, entries, After,
  remove_owned_runtime_paths_once, instance_owned_runtime_paths,
}
use jcode_go.Runtime.Removal.{cleanup_owned_instance_paths}
use jcode_go.Runtime.Removal.Touches.{IsAllowed}
use jcode_go.Runtime.Removal.Boundary.{cleanup_owned_instance_paths-IsAllowed}
use jcode_go.Runtime.Removal.Ends.{IsClock}
use jcode_go.Runtime.Removal.Bounded.{cleanup_owned_instance_paths-Returns}

cleaned : clean (codes "/tmp//a/./b/../c/") ≡ codes "/tmp/a/c"
unfolding clean
cleaned = refl

relative : clean (codes "../x/../../y") ≡ codes "../../y"
unfolding clean
relative = refl

joined : join (codes "/h") (codes "run") ≡ codes "/h/run"
unfolding join
joined = refl

parent : dir (codes "/tmp/a/x.sock") ≡ codes "/tmp/a"
unfolding dir
parent = refl

named : base (codes "/tmp/home-1/") ≡ codes "home-1"
unfolding base
named = refl

-- A machine with the home of an instance, until it is removed, and a clock.
abbrev Machine : Type 0
Machine = Bool × ℕ

abbrev home : FilePath
home = codes "/tmp/jcode-sdk-instance-7"

abbrev runtime_dir : FilePath
runtime_dir = codes "/tmp/jcode-sdk-instance-7/run"

abbrev socket_path : FilePath
socket_path = codes "/tmp/jcode-sdk-instance-7/run/jcode.sock"

abbrev kind_of : FilePath → Kind
kind_of p = if same_path p socket_path then regular else directory

abbrev machine : Os Machine
machine = record {
  lstat = λ s p. (s, if s.0 then absent else found (kind_of p));
  remove = λ s p. (s, gone);
  remove_all = λ s p. ((true, s.1), none);
  read_dir = λ s p. (s, entries 0);
  now = λ s. (s, s.1);
  sleep = λ s d. (s.0, s.1 + d);
  temp_dir = codes "/tmp";
}

machine-IsClock : IsClock machine (λ s. s.1)
machine-IsClock = record {
  lstat_on = λ s p. omega arith;
  remove_on = λ s p. omega arith;
  remove_all_on = λ s p. omega arith;
  read_dir_on = λ s p. omega arith;
  now_from = λ s. omega arith;
  now_to = λ s. omega arith;
  sleep_on = λ s d. omega arith;
}

cleanup_owned_instance_paths-Returns_example :
    (r : After Machine (Option GoError)) × (cleanup_owned_instance_paths machine home runtime_dir
        (socket_path ∷ [])
        true
        (pos 10)
        12
        (false, 5)
      ≡ some r)
cleanup_owned_instance_paths-Returns_example =
    cleanup_owned_instance_paths-Returns machine (λ s. s.1) home runtime_dir (socket_path ∷ []) true
      (pos 10) 12 (false, 5) machine-IsClock (omega arith)

abbrev left : After Machine (Option GoError)
left = ((true, 5), file socket_path regular ∷ empty_directory runtime_dir ∷ tree home ∷ [], none)

cleanup_run :
    cleanup_owned_instance_paths machine home runtime_dir
      (socket_path ∷ [])
      true
      (pos 10)
      12
      (false, 5)
    ≡ some left
unfolding cleanup_owned_instance_paths same_path clean join dir instance_owned_runtime_paths
    remove_owned_runtime_paths_once has_prefix base join_all
cleanup_run = refl

cleanup_owned_instance_paths-IsAllowed_example :
    All (IsAllowed machine.temp_dir (clean home) (clean runtime_dir) true) left.1
cleanup_owned_instance_paths-IsAllowed_example =
    cleanup_owned_instance_paths-IsAllowed machine home runtime_dir (socket_path ∷ []) true (pos 10)
      12 (false, 5) cleanup_run
