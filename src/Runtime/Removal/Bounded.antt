-- ===== src/Runtime/Removal/Bounded.antt =====
-- The removal of an instance's files is bounded by its timeout.
use jcode_go.Common.{
  ℕ, zero, suc, ◌+◌, ◌≤◌, ◌<◌, ◌≡◌, inl, inr, Bool, true, false, List, Option, none, some, arith,
  Bool-cases, Option-cases, refl,
}
use jcode_go.Errors.{GoError}
use jcode_go.Json.Value.{ℤ}
use jcode_go.Runtime.Paths.{FilePath, clean}
use jcode_go.Runtime.Cleanup.{Os, Touch, After, finite_duration, default_cleanup_timeout}
use jcode_go.Runtime.Removal.{
  Attempt, nothing_owned, finish, and_home, check_boundary, is_owned_home, inspect_home,
  inspect_runtime_dir, inspect_ephemeral, runtime_attempt, home_attempt, within, unless_done,
  remove_owned_runtime_paths, remove_owned_instance_home, remaining_cleanup_duration,
  cleanup_owned_instance_paths,
}
use jcode_go.Runtime.Removal.Ends.{
  IsClock, Returns, Onward, retry-Returns, runtime_attempt-on, home_attempt-on,
}

-- A timeout of nought or less is the default, and what is left of it is no more.
finite_duration-pos : (t : ℤ) → 1 ≤ finite_duration t default_cleanup_timeout
finite_duration-pos t = ground arith

remaining-bound :
    (t t' timeout fuel : ℕ)
    → t ≤ t'
    → 1 ≤ timeout
    → timeout < fuel
    → finite_duration (remaining_cleanup_duration (t + timeout) t') default_cleanup_timeout < fuel
unfolding remaining_cleanup_duration
remaining-bound t t' timeout fuel h p f = ground (arith, h, p, f)

module _ {S : Type 0} (os : Os S) (clock : S → ℕ) (laws : IsClock os clock) where
  within-Returns :
      (attempt : S → After S Attempt)
      → Onward os clock laws attempt
      → (timeout fuel n : ℕ) (s : S) → timeout < fuel
      → n ≤ clock s
      → Returns clock n (within os attempt timeout (suc fuel) s)
  within-Returns attempt on timeout fuel n s h from =
      let from' = laws.now_from s in
      let to = laws.now_to s in
      retry-Returns os clock laws attempt on ((os.now s).1 + timeout) n fuel (os.now s).0
        (omega (arith, from, from', to)) (omega (arith, h, to))

  unless_done-Returns :
      (looked : S × Option (Option GoError)) (next : S → Option (After S (Option GoError))) (n : ℕ)
      → n ≤ clock looked.0
      → ((s : S) → n ≤ clock s → Returns clock n (next s))
      → Returns clock n (unless_done os looked next)
  unless_done-Returns (s, some e) next n from each = (_, refl, from)
  unless_done-Returns (s, none) next n from each = each s from

  runtime_paths-Returns :
      (home runtime_dir : FilePath) (paths : List FilePath) (timeout : ℤ) (fuel n : ℕ) (s : S)
      → finite_duration timeout default_cleanup_timeout < fuel
      → n ≤ clock s
      → Returns clock n (remove_owned_runtime_paths os home runtime_dir paths timeout (suc fuel) s)
  unfolding remove_owned_runtime_paths inspect_home inspect_runtime_dir
  runtime_paths-Returns home runtime_dir paths timeout fuel n s h from =
      elim (Bool-cases (nothing_owned home runtime_dir paths)) [
        | inl is ↦ rw is (_, refl, from)
        | inr some_owned ↦
            elim (Option-cases (check_boundary (clean home) (clean runtime_dir) paths)) [
              | inr (e, is) ↦ simp (some_owned, is) (_, refl, from)
              | inl is ↦
                  simp (some_owned, is)
                    (unless_done-Returns (inspect_home os (clean home) s) _ n
                      (omega (arith, from, laws.lstat_on s (clean home)))
                      (λ s1 from1.
                        unless_done-Returns (inspect_runtime_dir os (clean runtime_dir) s1) _ n
                          (omega (arith, from1, laws.lstat_on s1 (clean runtime_dir)))
                          (λ s2 from2.
                            within-Returns (runtime_attempt os (clean runtime_dir) paths)
                              (runtime_attempt-on os clock laws (clean runtime_dir) paths)
                              (finite_duration timeout default_cleanup_timeout) fuel n s2 h from2)))
            ]
      ]

  home-Returns :
      (home : FilePath) (timeout : ℤ) (fuel n : ℕ) (s : S)
      → finite_duration timeout default_cleanup_timeout < fuel
      → n ≤ clock s
      → Returns clock n (remove_owned_instance_home os home timeout (suc fuel) s)
  unfolding remove_owned_instance_home inspect_ephemeral
  home-Returns home timeout fuel n s h from =
      elim (Bool-cases (is_owned_home os.temp_dir (clean home))) [
        | inr outside ↦ rw outside (_, refl, from)
        | inl is ↦ rw is (
            unless_done-Returns (inspect_ephemeral os (clean home) s) _ n
              (omega (arith, from, laws.lstat_on s (clean home)))
              (λ s1 from1.
                within-Returns (home_attempt os (clean home))
                  (home_attempt-on os clock laws (clean home))
                  (finite_duration timeout default_cleanup_timeout) fuel n s1 h from1))
      ]

  and_home-Returns :
      (touched : List Touch) (first : Option GoError) (n : ℕ)
      (second : Option (After S (Option GoError)))
      → Returns clock n second
      → Returns clock n (and_home os touched first second)
  and_home-Returns touched first n none (r, is, on) = cc
  and_home-Returns touched first n (some (s, more, e)) (r, is, on) =
      (_, refl, ground (arith, is, on))

  finish-Returns :
      (ephemeral : Bool) (home : FilePath) (t timeout fuel : ℕ)
      (first : Option (After S (Option GoError)))
      → 1 ≤ timeout
      → timeout < fuel
      → Returns clock t first
      → Returns clock t (finish os ephemeral home (t + timeout) (suc fuel) first)
  finish-Returns ephemeral home t timeout fuel none p h (r, is, on) = cc
  finish-Returns false home t timeout fuel (some (s, touched, e)) p h (r, is, on) =
      (_, refl, ground (arith, is, on))
  finish-Returns true home t timeout fuel (some (s, touched, e)) p h (r, is, on) =
      let on' : t ≤ clock s = ground (arith, is, on) in
      let late : t ≤ (os.now s).1 = omega (arith, on', laws.now_from s) in
      and_home-Returns touched e t _ (
        home-Returns home (remaining_cleanup_duration (t + timeout) (os.now s).1) fuel t
          (os.now s).0 (remaining-bound t (os.now s).1 timeout fuel late p h)
          (omega (arith, late, laws.now_to s)))

-- On a clock that does not go back, a cleanup returns, whatever the file system answers: fuel for two
-- attempts more than its timeout has nanoseconds is enough for each of its two loops.
pub cleanup_owned_instance_paths-Returns :
    {S : Type 0} (os : Os S) (clock : S → ℕ) (home runtime_dir : FilePath) (paths : List FilePath)
    (ephemeral : Bool) (timeout : ℤ) (fuel : ℕ) (s : S)
    → IsClock os clock
    → finite_duration timeout default_cleanup_timeout + 1 < fuel
    → (r : After S (Option GoError)) × (cleanup_owned_instance_paths os home runtime_dir paths
          ephemeral timeout fuel s
        ≡ some r)
unfolding cleanup_owned_instance_paths
cleanup_owned_instance_paths-Returns os clock home runtime_dir paths ephemeral timeout zero s laws
      h =
    absurd (omega (arith, h))
cleanup_owned_instance_paths-Returns os clock home runtime_dir paths ephemeral timeout (suc fuel) s
      laws h =
    let (s1, t) = os.now s in
    let (s2, t') = os.now s1 in
    let total = finite_duration timeout default_cleanup_timeout in
    let p = finite_duration-pos timeout in
    let enough : total < fuel = omega (arith, h) in
    let late : t ≤ t' = omega (arith, laws.now_to s, laws.now_from s1) in
    let (r, is, on) = finish-Returns os clock laws ephemeral home t total fuel _ p enough (
      runtime_paths-Returns os clock laws home runtime_dir paths
        (remaining_cleanup_duration (t + total) t') fuel t s2
        (remaining-bound t t' total fuel late p enough) (omega (arith, late, laws.now_to s1))) in
    (r, is)
