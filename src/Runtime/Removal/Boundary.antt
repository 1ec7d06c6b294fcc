-- ===== src/Runtime/Removal/Boundary.antt =====
-- The removal of an instance's files keeps to what the instance owns.
use jcode_go.Common.{
  ℕ, ◌+◌, ◌≡◌, refl, ◌⊎◌, inl, inr, Bool, true, false, List, [], ◌∷◌, Option, none, some, codes,
  arith, All, All-append, Bool-cases, Option-cases,
}
use jcode_go.Errors.{GoError}
use jcode_go.Json.Value.{ℤ}
use jcode_go.Runtime.Paths.{
  FilePath, same_path, same_path-≡, has_prefix, clean, join, dir, base, and-true,
}
use jcode_go.Runtime.Cleanup.{
  Kind, regular, socket, Os, Touch, file, empty_directory, tree, After, removable,
  instance_home_prefix, finite_duration, default_cleanup_timeout,
}
use jcode_go.Runtime.Removal.{
  nothing_owned, finish, and_home, runtime_attempt, home_attempt, check_boundary, is_owned_home,
  unless_done, remove_owned_runtime_paths, remove_owned_instance_home, remaining_cleanup_duration,
  cleanup_owned_instance_paths, inspect_home, inspect_runtime_dir, inspect_ephemeral,
}
use jcode_go.Runtime.Removal.Touches.{
  IsRuntimeFile, IsAllowed, check_owned-All, retry-All, runtime_attempt-All, some-All,
}

removable-cases : (k : Kind) → removable k ≡ true → (k ≡ regular) ⊎ (k ≡ socket)
removable-cases k h = ground arith

check_boundary-IsRuntimeFile :
    (home runtime_dir : FilePath) (paths : List FilePath)
    → check_boundary home runtime_dir paths ≡ none
    → (runtime_dir ≡ join home (codes "run")) × All (IsRuntimeFile runtime_dir) paths
unfolding check_boundary
check_boundary-IsRuntimeFile home runtime_dir paths h =
    elim (Bool-cases (same_path runtime_dir (join home (codes "run")))) [
      | inl is ↦ (
        same_path-≡ runtime_dir (join home (codes "run")) is,
        check_owned-All runtime_dir paths (rw is at h),
      )
      | inr out ↦ cc (rw out at h)
    ]

files-allowed :
    (P : Touch → Type 0) (runtime_dir : FilePath)
    → ((p : FilePath) (kind : Kind)
        → IsRuntimeFile runtime_dir p
        → (kind ≡ regular) ⊎ (kind ≡ socket)
        → P (file p kind))
    → (paths : List FilePath) → All (IsRuntimeFile runtime_dir) paths
    → All (λ p. (kind : Kind) → removable kind ≡ true → P (file p kind)) paths
files-allowed P runtime_dir each [] h = tt
files-allowed P runtime_dir each (p ∷ paths) h =
    (λ kind r. each p kind h.0 (removable-cases kind r), files-allowed P runtime_dir each paths h.1)

module _ {S : Type 0} (os : Os S) (P : Touch → Type 0) where
  unless_done-All :
      (looked : S × Option (Option GoError)) (next : S → Option (After S (Option GoError)))
      {r : After S (Option GoError)}
      → ((s : S) → next s ≡ some r → All P r.1)
      → unless_done os looked next ≡ some r
      → All P r.1
  unless_done-All (s, some e) next each h = some-All os P h tt
  unless_done-All (s, none) next each h = each s h

  runtime_paths-All :
      (home runtime_dir : FilePath) (paths : List FilePath) (timeout : ℤ) (fuel : ℕ) (s : S)
      {r : After S (Option GoError)}
      → (check_boundary (clean home) (clean runtime_dir) paths ≡ none
          → All (λ p. (kind : Kind) → removable kind ≡ true → P (file p kind)) paths
            × P (empty_directory (clean runtime_dir)))
      → remove_owned_runtime_paths os home runtime_dir paths timeout fuel s ≡ some r
      → All P r.1
  unfolding remove_owned_runtime_paths
  runtime_paths-All home runtime_dir paths timeout fuel s owned h =
      elim (Bool-cases (nothing_owned home runtime_dir paths)) [
        | inl is ↦ some-All os P (rw is at h) tt
        | inr n ↦ elim (Option-cases (check_boundary (clean home) (clean runtime_dir) paths)) [
          | inr (e, is) ↦ some-All os P (simp (n, is) at h) tt
          | inl is ↦
              let (files, emptied) = owned is in
              unless_done-All (inspect_home os (clean home) s) _
                (λ s1. unless_done-All (inspect_runtime_dir os (clean runtime_dir) s1) _ (λ s2.
                  retry-All os P (runtime_attempt os (clean runtime_dir) paths)
                    (λ s3. runtime_attempt-All os P (clean runtime_dir) paths s3 files emptied) _
                    fuel _))
                (simp (n, is) at h)
        ]
      ]

  home_attempt-All : (home : FilePath) → P (tree home) → (s : S) → All P (home_attempt os home s).1
  unfolding home_attempt
  home_attempt-All home h s = (h, tt)

  home-All :
      (home : FilePath) (timeout : ℤ) (fuel : ℕ) (s : S) {r : After S (Option GoError)}
      → (is_owned_home os.temp_dir (clean home) ≡ true → P (tree (clean home)))
      → remove_owned_instance_home os home timeout fuel s ≡ some r
      → All P r.1
  unfolding remove_owned_instance_home
  home-All home timeout fuel s owned h =
      elim (Bool-cases (is_owned_home os.temp_dir (clean home))) [
        | inr n ↦ some-All os P (rw n at h) tt
        | inl is ↦
            unless_done-All (inspect_ephemeral os (clean home) s) _
              (λ s1.
                retry-All os P (home_attempt os (clean home))
                  (home_attempt-All (clean home) (owned is)) _ fuel _)
              (rw is at h)
      ]

  and_home-All :
      (touched : List Touch) (first : Option GoError) (second : Option (After S (Option GoError)))
      {r : After S (Option GoError)}
      → All P touched
      → ((r' : After S (Option GoError)) → second ≡ some r' → All P r'.1)
      → and_home os touched first second ≡ some r
      → All P r.1
  and_home-All touched first none f each h = cc
  and_home-All touched first (some (s, more, e)) f each h =
      some-All os P h (All-append P touched more f (each (s, more, e) refl))

  finish-All :
      (ephemeral : Bool) (home : FilePath) (deadline fuel : ℕ)
      (first : Option (After S (Option GoError))) {r : After S (Option GoError)}
      → ((r' : After S (Option GoError)) → first ≡ some r' → All P r'.1)
      → (ephemeral ≡ true → is_owned_home os.temp_dir (clean home) ≡ true → P (tree (clean home)))
      → finish os ephemeral home deadline fuel first ≡ some r
      → All P r.1
  finish-All ephemeral home deadline fuel none each owned h = ground arith
  finish-All false home deadline fuel (some (s, touched, e)) each owned h =
      some-All os P h (each (s, touched, e) refl)
  finish-All true home deadline fuel (some (s, touched, e)) each owned h =
      let (s', t) = os.now s in
      and_home-All touched e _ (each (s, touched, e) refl)
        (λ r' is. home-All home (remaining_cleanup_duration deadline t) fuel s' (owned refl) is) h

is_owned_home-boundary :
    (temp home : FilePath)
    → is_owned_home temp home ≡ true
    → (clean (dir home) ≡ clean temp) × (has_prefix (base home) instance_home_prefix ≡ true)
unfolding is_owned_home
is_owned_home-boundary temp home h =
    let (same, named) =
      and-true (same_path (clean (dir home)) (clean temp))
        (has_prefix (base home) instance_home_prefix) h in
    (same_path-≡ (clean (dir home)) (clean temp) same, named)

-- A cleanup removes nothing but what the instance owns: a regular file or a socket with one of the
-- four names, directly in the runtime directory; that directory, which is `run` of the home; and,
-- for an ephemeral instance alone, its home, if that is in the directory for temporary files and
-- named as one that the SDK made.
pub cleanup_owned_instance_paths-IsAllowed :
    {S : Type 0} (os : Os S) (home runtime_dir : FilePath) (paths : List FilePath)
    (ephemeral : Bool) (timeout : ℤ) (fuel : ℕ) (s : S) {r : After S (Option GoError)}
    → cleanup_owned_instance_paths os home runtime_dir paths ephemeral timeout fuel s ≡ some r
    → All (IsAllowed os.temp_dir (clean home) (clean runtime_dir) ephemeral) r.1
unfolding cleanup_owned_instance_paths
cleanup_owned_instance_paths-IsAllowed os home runtime_dir paths ephemeral timeout fuel s h =
    let (s1, t) = os.now s in
    let deadline = t + finite_duration timeout default_cleanup_timeout in
    let (s2, t') = os.now s1 in
    let left = remaining_cleanup_duration deadline t' in
    let P = IsAllowed os.temp_dir (clean home) (clean runtime_dir) ephemeral in
    finish-All os P ephemeral home deadline fuel _
      (λ r' is.
        runtime_paths-All os P home runtime_dir paths left fuel s2
          (λ b.
            let (run, files) =
              check_boundary-IsRuntimeFile (clean home) (clean runtime_dir) paths b in
            (files-allowed P (clean runtime_dir) (λ p kind f k. (f, k)) paths files, (refl, run)))
          is)
      (λ e o. let (p, n) = is_owned_home-boundary os.temp_dir (clean home) o in (e, refl, p, n)) h
