-- ===== src/Runtime/Credentials/Confined.antt =====
-- The inheritance of credentials writes to the private home alone.
use jcode_go.Common.{
  ◌≡◌, ◌≢◌, ◌⊎◌, arith, false, List, [], ◌∷◌, Option, none, some, All, All-append,
}
use jcode_go.Errors.{GoError, ok, err}
use jcode_go.Runtime.Paths.{FilePath, same_path, same_path_refl, join, dir}
use jcode_go.Runtime.Cleanup.{Stat, found, absent, unknown}
use jcode_go.Runtime.Credentials.{
  Files, Write, makes_directory, restricts, removes, links, copies, Written, ◌>>>◌, with_context,
  doing, quietly, config_name, legacy_codex_auth_source, legacy_codex_auth_destination,
  credential_files, check_directory, ensure_private_directory, copied, copy_owner_only,
}

abbrev pub Listed : FilePath → List FilePath → Type 0
Listed p [] = ⊥
Listed p (q ∷ qs) = (q ≡ p) ⊎ Listed p qs

-- The credential file of that name, or the legacy file, from where it is to where it belongs.
abbrev pub IsCopy : FilePath → FilePath → FilePath → FilePath → Type 0
IsCopy from to a b =
    ((a ≡ join from config_name) × (b ≡ join to config_name))
    ⊎ ((a ≡ join (dir from) legacy_codex_auth_source) × (b ≡ join to legacy_codex_auth_destination))

abbrev pub IsPrivate : FilePath → FilePath → Type 0
IsPrivate to p = (p ≡ to) ⊎ (p ≡ dir (join to legacy_codex_auth_destination))

-- What may be written.
abbrev pub IsConfined : FilePath → FilePath → Write → Type 0
IsConfined from to (makes_directory p) = IsPrivate to p
IsConfined from to (restricts p) = IsPrivate to p
IsConfined from to (removes p) =
    (name : FilePath) × Listed name credential_files × (p ≡ join to name)
IsConfined from to (links a b) =
    (name : FilePath) × Listed name credential_files
    × (name ≢ config_name)
    × (a ≡ join from name)
    × (b ≡ join to name)
IsConfined from to (copies a b) = IsCopy from to a b

pub differ : (p q : FilePath) → same_path p q ≡ false → p ≢ q
differ p q h e = ground (arith, same_path_refl p, rw e at h)

-- Everything written is of a kind.
pub record Keeps {S A : Type 0} (P : Write → Type 0) (w : Written S A) : Type 0 where
  pub all : All P w.1

module _ {S : Type 0} (P : Write → Type 0) where
  >>>-All :
      {A B : Type 0} (first : Written S A) (next : S → A → Written S B)
      → All P first.1
      → ((s : S) (a : A) → Keeps P (next s a))
      → All P (first >>> next).1
  unfolding ◌>>>◌
  >>>-All (s, writes, err e) next h each = h
  >>>-All (s, writes, ok a) next h each = All-append P writes (next s a).1 h (each s a).all

  pub >>>-Keeps :
      {A B : Type 0} {first : Written S A} {next : S → A → Written S B}
      → Keeps P first
      → ((s : S) (a : A) → Keeps P (next s a))
      → Keeps P (first >>> next)
  >>>-Keeps {first = first} {next = next} h each = record { all = >>>-All first next h.all each }

  with_context-All :
      {A : Type 0} (f : GoError → GoError) (first : Written S A)
      → All P first.1
      → All P (with_context f first).1
  with_context-All f (s, writes, err e) h = h
  with_context-All f (s, writes, ok a) h = h

  pub with_context-Keeps :
      {A : Type 0} (f : GoError → GoError) (first : Written S A)
      → Keeps P first
      → Keeps P (with_context f first)
  with_context-Keeps f first h = record { all = with_context-All f first h.all }

  doing-All : (w : Write) (outcome : S × Option GoError) → P w → All P (doing w outcome).1
  doing-All w (s, none) h = (h, tt)
  doing-All w (s, some e) h = (h, tt)

  pub doing-Keeps : (w : Write) (outcome : S × Option GoError) → P w → Keeps P (doing w outcome)
  doing-Keeps w outcome h = record { all = doing-All w outcome h }

  quietly-All : (outcome : S × Option GoError) → All P (quietly outcome).1
  quietly-All (s, none) = tt
  quietly-All (s, some e) = tt

  quietly-Keeps : (outcome : S × Option GoError) → Keeps P (quietly outcome)
  quietly-Keeps outcome = record { all = quietly-All outcome }

  check_directory-All : (looked : S × Stat) → All P (check_directory looked).1
  check_directory-All (s, absent) = tt
  check_directory-All (s, unknown e) = tt
  check_directory-All (s, found kind) = tt

module _ {S : Type 0} (fs : Files S) (P : Write → Type 0) where
  pub ensure_private_directory-Keeps :
      (p : FilePath) (s : S)
      → P (makes_directory p)
      → P (restricts p)
      → Keeps P (ensure_private_directory fs p s)
  unfolding ensure_private_directory
  ensure_private_directory-Keeps p s m r =
      >>>-Keeps P
        (>>>-Keeps P (doing-Keeps P (makes_directory p) (fs.mkdir_all s p) m)
          (λ s1 u. record { all = check_directory-All P (fs.lstat s1 p) }))
        (λ s2 u. doing-Keeps P (restricts p) (fs.chmod s2 p) r)

  copied-All : (outcome : S × Option GoError) → All P (copied fs outcome).1
  copied-All (s, none) = quietly-All P (fs.close s)
  copied-All (s, some e) = tt

  pub copy_owner_only-Keeps :
      (a b : FilePath) (s : S) → P (copies a b) → Keeps P (copy_owner_only fs a b s)
  unfolding copy_owner_only
  copy_owner_only-Keeps a b s c =
      >>>-Keeps P
        (>>>-Keeps P (quietly-Keeps P (fs.open_file s a))
          (λ s1 u. doing-Keeps P (copies a b) (fs.create s1 b) c))
        (λ s2 u. record { all = copied-All (fs.copy s2) })
