-- ===== src/Runtime/Removal/Ends.antt =====
-- The removal of an instance's files ends.
use jcode_go.Common.{
  ℕ, zero, suc, ◌+◌, ◌-◌, ◌≤◌, ◌<◌, ◌≡◌, ◌⊎◌, inl, inr, List, [], ◌∷◌, ◌++◌, Option, none, some,
  arith, ltb, Bool-cases, refl,
}
use jcode_go.Runtime.Paths.{FilePath}
use jcode_go.Runtime.Cleanup.{
  Stat, found, absent, unknown, Removed, gone, was_absent, refused, Listing, entries, no_directory,
  unreadable, Faults, removable, removed_directory, then_directory, Os, Touch, After,
  remove_owned_runtime_paths_once, remove_files, remove_one, remove_directory,
}
use jcode_go.Runtime.Removal.{
  Attempt, retry, runtime_attempt, home_attempt, prior, waited, pause, min, retry_delay,
}
use jcode_go.Runtime.Removal.Touches.{Attempt-cases}

-- The clock of a state does not go back in a call, `time.Now` reads it, and `time.Sleep` takes as
-- long as it was asked to.
pub record IsClock {S : Type 0} (os : Os S) (clock : S → ℕ) : Type 0 where
  pub lstat_on : (s : S) (p : FilePath) → clock s ≤ clock (os.lstat s p).0
  pub remove_on : (s : S) (p : FilePath) → clock s ≤ clock (os.remove s p).0
  pub remove_all_on : (s : S) (p : FilePath) → clock s ≤ clock (os.remove_all s p).0
  pub read_dir_on : (s : S) (p : FilePath) → clock s ≤ clock (os.read_dir s p).0
  pub now_from : (s : S) → clock s ≤ (os.now s).1
  pub now_to : (s : S) → (os.now s).1 ≤ clock (os.now s).0
  pub sleep_on : (s : S) (d : ℕ) → clock s + d ≤ clock (os.sleep s d)

-- There is a result, in a state whose clock has come to `n`.
abbrev pub Returns : {S A : Type 0} → (S → ℕ) → ℕ → Option (After S A) → Type 0
Returns {S} {A} clock n o = (r : After S A) × (o ≡ some r) × (n ≤ clock r.0)

prior-Returns :
    {S A : Type 0} (clock : S → ℕ) (n : ℕ) (first : List Touch) (rest : Option (After S A))
    → Returns clock n rest
    → Returns clock n (prior first rest)
prior-Returns clock n first none (r, is, on) = cc
prior-Returns clock n first (some (s, touched, a)) (r, is, on) =
    ((s, first ++ touched, a), refl, ground (arith, is, on))

early-or-late : (t deadline : ℕ) → (t < deadline) ⊎ (deadline ≤ t)
early-or-late t deadline = ground arith

min-pos : (t deadline : ℕ) → t < deadline → 1 ≤ min retry_delay (deadline - t)
min-pos t deadline h = ground arith

module _ {S : Type 0} (os : Os S) (clock : S → ℕ) (laws : IsClock os clock) where
  abbrev pub Onward : (S → After S Attempt) → Type 0
  Onward attempt = (s : S) → clock s ≤ clock (attempt s).0

  waited-on : (s : S) (d : ℕ) → clock s + d ≤ clock (waited os s d)
  waited-on s zero = omega arith
  waited-on s (suc d) = laws.sleep_on s (suc d)

  -- After a pause some time has passed, or the deadline has.
  pause-on :
      (deadline : ℕ) (s : S)
      → (clock s + 1 ≤ clock (pause os deadline (os.now s)))
        ⊎ (deadline ≤ clock (pause os deadline (os.now s)))
  pause-on deadline s =
      let (s', t) = os.now s in
      let d = min retry_delay (deadline - t) in
      let slept = waited-on s' d in
      elim (early-or-late t deadline) [
        | inl e ↦ inl (omega (arith, slept, min-pos t deadline e, laws.now_from s, laws.now_to s))
        | inr l ↦ inr (omega (arith, slept, l, laws.now_to s))
      ]

  module _ (attempt : S → After S Attempt) (on : Onward attempt) (deadline n : ℕ) where
    round-Returns :
        (fuel : ℕ) (s : S)
        → n ≤ clock s
        → ((os.now (attempt s).0).1 < deadline
            → Returns clock n (
                retry os attempt deadline fuel
                  (pause os deadline (os.now (os.now (attempt s).0).0))))
        → Returns clock n (retry os attempt deadline (suc fuel) s)
    unfolding retry
    round-Returns fuel s from later =
        let (s1, touched, outcome) = attempt s in
        let (s2, t) = os.now s1 in
        elim (Attempt-cases outcome) [
          | inl (e, is) ↦ rw (is, retry) (_, refl, omega (arith, from, on s))
          | inr (e, is) ↦ elim (Bool-cases (ltb t deadline)) [
            | inr late ↦
                simp (is, late, retry)
                  (_, refl, omega (arith, from, on s, laws.now_from s1, laws.now_to s1))
            | inl early ↦
                simp (is, early, retry)
                  (prior-Returns clock n touched _ (later (ground (arith, early))))
          ]
        ]

    pub retry-Returns :
        (fuel : ℕ) (s : S)
        → n ≤ clock s
        → deadline < clock s + fuel
        → Returns clock n (retry os attempt deadline (suc fuel) s)
    retry-Returns zero s from h =
        round-Returns zero s from
          (λ e. absurd (omega (arith, e, h, on s, laws.now_from (attempt s).0)))
    retry-Returns (suc fuel) s from h =
        let s1 = (attempt s).0 in
        let s2 = (os.now s1).0 in
        let s3 = pause os deadline (os.now s2) in
        round-Returns (suc fuel) s from (λ e.
          let (passed, left) : (n ≤ clock s3) × (deadline < clock s3 + fuel) =
            elim (pause-on deadline s2) [
              | inl p ↦ (
                omega (arith, p, from, on s, laws.now_from s1, laws.now_to s1),
                omega (arith, p, h, on s, laws.now_from s1, laws.now_to s1),
              )
              | inr p ↦ (
                omega (arith, p, from, e, on s, laws.now_from s1),
                omega (arith, p, h, e, on s, laws.now_from s1),
              )
            ] in
          retry-Returns fuel s3 passed left)

  remove_one-on :
      (looked : S × Stat) (p : FilePath) (later : S → After S Faults)
      → ((s : S) → clock s ≤ clock (later s).0)
      → clock looked.0 ≤ clock (remove_one os looked p later).0
  unfolding remove_one
  remove_one-on (s, absent) p later on = on s
  remove_one-on (s, unknown e) p later on = on s
  remove_one-on (s, found kind) p later on = elim (Bool-cases (removable kind)) [
    | inr h ↦ rw h (on s)
    | inl h ↦ rw h (omega (arith, laws.remove_on s p, on (os.remove s p).0))
  ]

  remove_files-on : (paths : List FilePath) (s : S) → clock s ≤ clock (remove_files os paths s).0
  unfolding remove_files
  remove_files-on [] s = omega arith
  remove_files-on (p ∷ paths) s = omega (
    arith,
    laws.lstat_on s p,
    remove_one-on (os.lstat s p) p (remove_files os paths) (remove_files-on paths),
  )

  removed_directory-on :
      (runtime_dir : FilePath) (outcome : S × Removed)
      → clock outcome.0 ≤ clock (removed_directory os runtime_dir outcome).0
  removed_directory-on runtime_dir (s, gone) = omega arith
  removed_directory-on runtime_dir (s, was_absent) = omega arith
  removed_directory-on runtime_dir (s, refused e) = omega arith

  remove_directory-on :
      (runtime_dir : FilePath) (listed : S × Listing)
      → clock listed.0 ≤ clock (remove_directory os runtime_dir listed).0
  unfolding remove_directory
  remove_directory-on runtime_dir (s, no_directory) = omega arith
  remove_directory-on runtime_dir (s, unreadable e) = omega arith
  remove_directory-on runtime_dir (s, entries (suc n)) = omega arith
  remove_directory-on runtime_dir (s, entries zero) = omega (
    arith,
    laws.remove_on s runtime_dir,
    removed_directory-on runtime_dir (os.remove s runtime_dir),
  )

  then_directory-on :
      (runtime_dir : FilePath) (pass : After S Faults)
      → clock pass.0 ≤ clock (then_directory os runtime_dir pass).0
  then_directory-on runtime_dir (s, touched, (e ∷ errs, permanent)) = omega arith
  then_directory-on runtime_dir (s, touched, ([], permanent)) = omega (
    arith,
    laws.read_dir_on s runtime_dir,
    remove_directory-on runtime_dir (os.read_dir s runtime_dir),
  )

  pub runtime_attempt-on :
      (runtime_dir : FilePath) (paths : List FilePath)
      → Onward (runtime_attempt os runtime_dir paths)
  unfolding remove_owned_runtime_paths_once
  runtime_attempt-on runtime_dir paths s =
      omega
        (arith, remove_files-on paths s, then_directory-on runtime_dir (remove_files os paths s))

  pub home_attempt-on : (home : FilePath) → Onward (home_attempt os home)
  unfolding home_attempt
  home_attempt-on home s =
      omega (arith, laws.remove_all_on s home, laws.lstat_on (os.remove_all s home).0 home)
