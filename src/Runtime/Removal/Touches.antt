-- ===== src/Runtime/Removal/Touches.antt =====
-- What the removal of an instance's files can remove.
use jcode_go.Common.{
  ℕ, zero, suc, ◌≡◌, refl, ◌⊎◌, inl, inr, Bool, true, List, [], ◌∷◌, Option, none, some, codes,
  arith, All, All-append, ltb, Bool-cases,
}
use jcode_go.Errors.{GoError}
use jcode_go.Runtime.Paths.{FilePath, same_path, same_path-≡, has_prefix, clean, join, dir, base}
use jcode_go.Runtime.Cleanup.{
  Kind, regular, socket, Stat, found, absent, unknown, Removed, gone, was_absent, refused,
  removed_directory, then_directory, Listing, entries, no_directory, unreadable, Faults, Os, Touch,
  file, empty_directory, tree, After, removable, instance_home_prefix, instance_owned_runtime_paths,
  remove_one, remove_files, remove_directory, remove_owned_runtime_paths_once,
}
use jcode_go.Runtime.Removal.{
  Attempt, prior, last, again, retry, runtime_attempt, check_owned, member_of,
}

-- A path is one of a list, up to `Clean`.
abbrev pub Among : FilePath → List FilePath → Type 0
Among p [] = ⊥
Among p (q ∷ qs) = (clean q ≡ p) ⊎ Among p qs

-- A file to remove: directly in the runtime directory and with one of its four names.
abbrev pub IsRuntimeFile : FilePath → FilePath → Type 0
IsRuntimeFile runtime_dir p =
    (dir (clean p) ≡ runtime_dir) × Among (clean p) (instance_owned_runtime_paths runtime_dir)

-- What may be removed, for clean directories.
abbrev pub IsAllowed : FilePath → FilePath → FilePath → Bool → Touch → Type 0
IsAllowed temp home runtime_dir ephemeral (file p kind) =
    IsRuntimeFile runtime_dir p × ((kind ≡ regular) ⊎ (kind ≡ socket))
IsAllowed temp home runtime_dir ephemeral (empty_directory p) =
    (p ≡ runtime_dir) × (p ≡ join home (codes "run"))
IsAllowed temp home runtime_dir ephemeral (tree p) =
    (ephemeral ≡ true)
    × (p ≡ home)
    × (clean (dir p) ≡ clean temp)
    × (has_prefix (base p) instance_home_prefix ≡ true)

member_of-Among : (p : FilePath) (qs : List FilePath) → member_of p qs ≡ true → Among p qs
unfolding member_of
member_of-Among p [] h = cc
member_of-Among p (q ∷ qs) h = elim (Bool-cases (same_path (clean q) p)) [
  | inl is ↦ inl (same_path-≡ (clean q) p is)
  | inr other ↦ inr (member_of-Among p qs (rw other at h))
]

pub check_owned-All :
    (runtime_dir : FilePath) (paths : List FilePath)
    → check_owned runtime_dir paths ≡ none
    → All (IsRuntimeFile runtime_dir) paths
unfolding check_owned
check_owned-All runtime_dir [] h = tt
check_owned-All runtime_dir (p ∷ paths) h =
    elim (Bool-cases (same_path (dir (clean p)) runtime_dir)) [
      | inr out ↦ cc (rw out at h)
      | inl inside ↦
          elim (Bool-cases (member_of (clean p) (instance_owned_runtime_paths runtime_dir))) [
            | inr out ↦ cc (simp (inside, out) at h)
            | inl is ↦ (
              (
                same_path-≡ (dir (clean p)) runtime_dir inside,
                member_of-Among (clean p) (instance_owned_runtime_paths runtime_dir) is,
              ),
              check_owned-All runtime_dir paths (simp (inside, is) at h),
            )
          ]
    ]

pub Attempt-cases :
    (a : Attempt) → ((e : Option GoError) × (a ≡ last e)) ⊎ ((e : GoError) × (a ≡ again e))
Attempt-cases (last e) = inl (e, refl)
Attempt-cases (again e) = inr (e, refl)

module _ {S : Type 0} (os : Os S) (P : Touch → Type 0) where
  remove_one-All :
      (looked : S × Stat) (p : FilePath) (later : S → After S Faults)
      → ((kind : Kind) → removable kind ≡ true → P (file p kind))
      → ((s : S) → All P (later s).1)
      → All P (remove_one os looked p later).1
  unfolding remove_one
  remove_one-All (s, absent) p later ok rest = rest s
  remove_one-All (s, unknown e) p later ok rest = rest s
  remove_one-All (s, found kind) p later ok rest = elim (Bool-cases (removable kind)) [
    | inl h ↦ rw h (ok kind h, rest _)
    | inr h ↦ rw h (rest s)
  ]

  remove_files-All :
      (paths : List FilePath) (s : S)
      → All (λ p. (kind : Kind) → removable kind ≡ true → P (file p kind)) paths
      → All P (remove_files os paths s).1
  unfolding remove_files
  remove_files-All [] s h = tt
  remove_files-All (p ∷ paths) s h =
      remove_one-All (os.lstat s p) p (remove_files os paths) h.0
        (λ s'. remove_files-All paths s' h.1)

  removed_directory-All :
      (runtime_dir : FilePath) (outcome : S × Removed)
      → P (empty_directory runtime_dir)
      → All P (removed_directory os runtime_dir outcome).1
  removed_directory-All runtime_dir (s, gone) h = (h, tt)
  removed_directory-All runtime_dir (s, was_absent) h = (h, tt)
  removed_directory-All runtime_dir (s, refused e) h = (h, tt)

  remove_directory-All :
      (runtime_dir : FilePath) (listed : S × Listing)
      → P (empty_directory runtime_dir)
      → All P (remove_directory os runtime_dir listed).1
  unfolding remove_directory
  remove_directory-All runtime_dir (s, no_directory) h = tt
  remove_directory-All runtime_dir (s, unreadable e) h = tt
  remove_directory-All runtime_dir (s, entries (suc n)) h = tt
  remove_directory-All runtime_dir (s, entries zero) h =
      removed_directory-All runtime_dir (os.remove s runtime_dir) h

  then_directory-All :
      (runtime_dir : FilePath) (pass : After S Faults)
      → All P pass.1
      → P (empty_directory runtime_dir)
      → All P (then_directory os runtime_dir pass).1
  then_directory-All runtime_dir (s, touched, (e ∷ errs, permanent)) h d = h
  then_directory-All runtime_dir (s, touched, ([], permanent)) h d =
      All-append P touched _ h (remove_directory-All runtime_dir (os.read_dir s runtime_dir) d)

  pub runtime_attempt-All :
      (runtime_dir : FilePath) (paths : List FilePath) (s : S)
      → All (λ p. (kind : Kind) → removable kind ≡ true → P (file p kind)) paths
      → P (empty_directory runtime_dir)
      → All P (runtime_attempt os runtime_dir paths s).1
  unfolding remove_owned_runtime_paths_once
  runtime_attempt-All runtime_dir paths s h d =
      then_directory-All runtime_dir (remove_files os paths s) (remove_files-All paths s h) d

  pub some-All : {A : Type 0} {x r : After S A} → some x ≡ some r → All P x.1 → All P r.1
  some-All e h = ground (arith, e, h)

  pub prior-All :
      (first : List Touch) (rest : Option (After S (Option GoError))) {r : After S (Option GoError)}
      → All P first
      → ((r' : After S (Option GoError)) → rest ≡ some r' → All P r'.1)
      → prior first rest ≡ some r
      → All P r.1
  prior-All first none f h e = cc
  prior-All first (some (s, touched, a)) f h e =
      some-All e (All-append P first touched f (h (s, touched, a) refl))

  pub retry-All :
      (attempt : S → After S Attempt)
      → ((s : S) → All P (attempt s).1)
      → (deadline fuel : ℕ) (s : S) {r : After S (Option GoError)}
      → retry os attempt deadline fuel s ≡ some r
      → All P r.1
  unfolding retry
  retry-All attempt each deadline zero s h = cc
  retry-All attempt each deadline (suc fuel) s h = elim (Attempt-cases (attempt s).2) [
    | inl (e, is) ↦ some-All (rw (is, retry) at h) (each s)
    | inr (e, is) ↦
        let (s1, touched, outcome) = attempt s in
        let (s2, t) = os.now s1 in
        elim (Bool-cases (ltb t deadline)) [
          | inl early ↦
              prior-All touched (retry os attempt deadline fuel _) (each s)
                (λ r' e'. retry-All attempt each deadline fuel _ e') (simp (is, early, retry) at h)
          | inr late ↦ some-All (simp (is, late, retry) at h) (each s)
        ]
  ]
