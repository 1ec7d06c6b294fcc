-- ===== src/Runtime/Cleanup.antt =====
-- launch.go: the removal of an instance's files. The operating system is the record `Os` over a
-- state `S` of the machine, the files and the clock included; each of its calls gives the next
-- state, in which others may have changed files too. Instants and durations count nanoseconds.
use jcode_go.Common.{
  ℕ, zero, suc, Bool, true, false, List, [], ◌∷◌, ◌++◌, Option, none, some, codes, if◌then◌else◌,
}
use jcode_go.Errors.{GoError, message, wrap, join_all}
use jcode_go.Json.Value.{ℤ, pos, negsuc}
use jcode_go.Runtime.Paths.{FilePath, join}

pub data Kind : Type 0 where
  regular directory symlink socket other : Kind

-- `os.Lstat`: `absent` for an error with os.IsNotExist, also below.
pub data Stat : Type 0 where
  found : Kind → Stat
  absent : Stat
  unknown : GoError → Stat

pub data Removed : Type 0 where
  gone was_absent : Removed
  refused : GoError → Removed

-- `os.ReadDir`, with the number of entries.
pub data Listing : Type 0 where
  entries : ℕ → Listing
  no_directory : Listing
  unreadable : GoError → Listing

pub record Os (S : Type 0) : Type 0 where
  pub lstat : S → FilePath → S × Stat
  pub remove : S → FilePath → S × Removed
  pub remove_all : S → FilePath → S × Option GoError
  pub read_dir : S → FilePath → S × Listing
  pub now : S → S × ℕ
  pub sleep : S → ℕ → S
  pub temp_dir : FilePath

-- A removal that was asked for, with what the path was just before.
pub data Touch : Type 0 where
  file : FilePath → Kind → Touch
  empty_directory : FilePath → Touch
  tree : FilePath → Touch

-- A state, what was removed on the way to it, and a result.
abbrev pub After : Type 0 → Type 0 → Type 0
After S A = S × List Touch × A

abbrev pub instance_home_prefix : FilePath
instance_home_prefix = codes "jcode-sdk-instance-"

abbrev pub default_cleanup_timeout : ℕ
default_cleanup_timeout = 30000000000

-- `finiteDuration`
abbrev pub finite_duration : ℤ → ℕ → ℕ
finite_duration (pos zero) fallback = fallback
finite_duration (pos (suc n)) fallback = suc n
finite_duration (negsuc n) fallback = fallback

-- `instanceOwnedRuntimePaths`
unfoldable pub instance_owned_runtime_paths : FilePath → List FilePath
instance_owned_runtime_paths runtime_dir =
    join runtime_dir (codes "jcode-api.sock")
    ∷ join runtime_dir (codes "jcode.sock")
    ∷ join runtime_dir (codes "jcode-debug.sock")
    ∷ join runtime_dir (codes "jcode.sock.hash")
    ∷ []

abbrev pub removable : Kind → Bool
removable regular = true
removable socket = true
removable directory = false
removable symlink = false
removable other = false

abbrev pub is_directory : Kind → Bool
is_directory directory = true
is_directory _ = false

-- The errors of a pass, and whether one is permanent.
abbrev pub Faults : Type 0
Faults = List GoError × Bool

abbrev fault : GoError → Faults → Faults
fault e (errs, permanent) = (e ∷ errs, permanent)

abbrev permanent_fault : GoError → Faults → Faults
permanent_fault e (errs, permanent) = (e ∷ errs, true)

abbrev removal_fault : Removed → Faults → Faults
removal_fault gone fs = fs
removal_fault was_absent fs = fs
removal_fault (refused e) fs = fault (wrap "remove owned runtime file" e) fs

abbrev pub touching : {S A : Type 0} → (A → A) → List Touch → After S A → After S A
touching f first (s, touched, a) = (s, first ++ touched, f a)

module _ {S : Type 0} (os : Os S) where
  -- One path in the loop of `removeOwnedRuntimePathsOnce`, before the paths that follow.
  unfoldable pub remove_one : S × Stat → FilePath → (S → After S Faults) → After S Faults
  remove_one (s, absent) path later = later s
  remove_one (s, unknown e) path later =
      touching (permanent_fault (wrap "inspect owned runtime file" e)) [] (later s)
  remove_one (s, found kind) path later =
      if removable kind
      then (let (s', outcome) = os.remove s path in
          touching (removal_fault outcome) (file path kind ∷ []) (later s'))
      else touching (permanent_fault (message "owned runtime file has an unsafe type")) [] (later s)

  -- The loop of `removeOwnedRuntimePathsOnce`.
  unfoldable pub remove_files : List FilePath → S → After S Faults
  unfolding remove_one
  remove_files [] s = (s, [], ([], false))
  remove_files (path ∷ paths) s = remove_one (os.lstat s path) path (remove_files paths)

  abbrev pub removed_directory : FilePath → S × Removed → After S (Option GoError)
  removed_directory runtime_dir (s, gone) = (s, empty_directory runtime_dir ∷ [], none)
  removed_directory runtime_dir (s, was_absent) = (s, empty_directory runtime_dir ∷ [], none)
  removed_directory runtime_dir (s, refused e) =
      (s, empty_directory runtime_dir ∷ [], some (wrap "remove empty owned runtime directory" e))

  -- The end of `removeOwnedRuntimePathsOnce`: the directory itself, once it is empty.
  unfoldable pub remove_directory : FilePath → S × Listing → After S (Option GoError)
  remove_directory runtime_dir (s, no_directory) = (s, [], none)
  remove_directory runtime_dir (s, unreadable e) =
      (s, [], some (wrap "inspect owned runtime directory contents" e))
  remove_directory runtime_dir (s, entries zero) =
      removed_directory runtime_dir (os.remove s runtime_dir)
  remove_directory runtime_dir (s, entries (suc n)) = (s, [], none)

  abbrev temporary : Option GoError → Option GoError × Bool
  temporary e = (e, false)

  abbrev pub then_directory : FilePath → After S Faults → After S (Option GoError × Bool)
  then_directory runtime_dir (s, touched, (e ∷ errs, permanent)) =
      (s, touched, (join_all (e ∷ errs), permanent))
  then_directory runtime_dir (s, touched, ([], permanent)) =
      let (s', more, e) = remove_directory runtime_dir (os.read_dir s runtime_dir) in
      (s', touched ++ more, temporary e)

  -- `removeOwnedRuntimePathsOnce`
  unfoldable pub remove_owned_runtime_paths_once :
      FilePath → List FilePath → S → After S (Option GoError × Bool)
  unfolding remove_files remove_directory
  remove_owned_runtime_paths_once runtime_dir paths s =
      then_directory runtime_dir (remove_files paths s)
