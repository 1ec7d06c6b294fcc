-- ===== src/Runtime/Credentials/Inherited.antt =====
-- Every write of an inheritance of credentials, from its definitions.
use jcode_go.Common.{◌≡◌, ◌≢◌, refl, ap, ◌⊎◌, inl, inr, List, [], ◌∷◌, All, Bool-cases}
use jcode_go.Errors.{Result}
use jcode_go.Runtime.Paths.{FilePath, same_path, same_path-≡, clean, join, dir}
use jcode_go.Runtime.Cleanup.{Stat, found, absent, unknown}
use jcode_go.Runtime.Credentials.{
  Files, links, Written, config_name, legacy_codex_auth_source, legacy_codex_auth_destination,
  credential_files, is_regular, placed, inherit_file, if_there, inherit_files, legacy_there,
  inherit_legacy_codex_auth, inherit_credentials,
}
use jcode_go.Runtime.Credentials.Confined.{
  Listed, IsConfined, Keeps, differ, >>>-Keeps, with_context-Keeps, doing-Keeps,
  ensure_private_directory-Keeps, copy_owner_only-Keeps,
}

module _ {S : Type 0} (fs : Files S) (from to : FilePath) where
  abbrev Kept : {A : Type 0} → Written S A → Type 0
  Kept w = Keeps (IsConfined from to) w

  nothing : {A : Type 0} {s : S} {r : Result A} → Kept (s, [], r)
  nothing = record { all = tt }

  placed-Kept :
      (name : FilePath) (s : S) → Listed name credential_files → Kept (placed fs from to name s)
  placed-Kept name s l = elim (Bool-cases (same_path name config_name)) [
    | inl is ↦
        let e = same_path-≡ name config_name is in
        rw is (
          copy_owner_only-Keeps fs (IsConfined from to) (join from name) (join to name) s
            (inl (ap (λ n. join from n) e, ap (λ n. join to n) e)))
    | inr n ↦ rw n (
        doing-Keeps (IsConfined from to) (links (join from name) (join to name))
          (fs.symlink s (join from name) (join to name))
          (name, l, differ name config_name n, refl, refl))
  ]

  inherit_file-Kept :
      (name : FilePath) (s : S)
      → Listed name credential_files
      → Kept (inherit_file fs from to name s)
  unfolding inherit_file
  inherit_file-Kept name s l =
      >>>-Keeps (IsConfined from to)
        (>>>-Keeps (IsConfined from to) (record { all = ((name, l, refl), tt) })
          (λ s1 u. placed-Kept name s1 l))
        (λ s2 u. record { all = tt })

  if_there-Kept :
      (name : FilePath) (looked : S × Stat)
      → Listed name credential_files
      → Kept (if_there fs from to name looked)
  if_there-Kept name (s, st) l = elim (Bool-cases (is_regular st)) [
    | inl r ↦ rw r (inherit_file-Kept name s l)
    | inr r ↦ rw r (record { all = tt })
  ]

  inherit_files-Kept :
      (names : List FilePath) (s : S)
      → All (λ n. Listed n credential_files) names
      → Kept (inherit_files fs from to names s)
  unfolding inherit_files
  inherit_files-Kept [] s h = record { all = tt }
  inherit_files-Kept (name ∷ names) s h =
      >>>-Keeps (IsConfined from to) (if_there-Kept name (fs.stat s (join from name)) h.0)
        (λ s1 first.
          >>>-Keeps (IsConfined from to) (inherit_files-Kept names s1 h.1)
            (λ s2 others. record { all = tt }))

  legacy_there-Kept : (looked : S × Stat) → Kept (legacy_there fs from to looked)
  legacy_there-Kept (s, absent) = record { all = tt }
  legacy_there-Kept (s, unknown e) = record { all = tt }
  legacy_there-Kept (s, found kind) = elim (Bool-cases (is_regular (found kind))) [
    | inr r ↦ rw r (record { all = tt })
    | inl r ↦
        let parent = dir (join to legacy_codex_auth_destination) in
        rw r (
          >>>-Keeps (IsConfined from to)
            (>>>-Keeps (IsConfined from to)
              (with_context-Keeps (IsConfined from to) _ _ (
                ensure_private_directory-Keeps fs (IsConfined from to) parent s (inr refl)
                  (inr refl)))
              (λ s1 u.
                with_context-Keeps (IsConfined from to) _ _
                  (copy_owner_only-Keeps fs (IsConfined from to) _ _ s1 (inr (refl, refl)))))
            (λ s2 u. record { all = tt }))
  ]

  legacy-Kept : (s : S) → Kept (inherit_legacy_codex_auth fs from to s)
  unfolding inherit_legacy_codex_auth
  legacy-Kept s = legacy_there-Kept (fs.lstat s (join (dir from) legacy_codex_auth_source))

-- An inheritance of credentials, in whatever order it takes the files, writes nothing where the two
-- homes are the same. Otherwise it makes and restricts no directory but the private home and the one
-- for the legacy file, removes and links credential files in the private home alone, each link to
-- the file of its name and never for the mutable configuration, and copies that configuration and
-- the legacy file alone, from the user's home to the private one.
pub inherit_credentials-IsConfined :
    {S : Type 0} (fs : Files S) (from to : FilePath) (names : List FilePath) (s : S)
    → All (λ n. Listed n credential_files) names
    → All (IsConfined from to) (inherit_credentials fs from to names s).1
      × ((clean from ≢ clean to) ⊎ ((inherit_credentials fs from to names s).1 ≡ []))
unfolding inherit_credentials
inherit_credentials-IsConfined fs from to names s h =
    elim (Bool-cases (same_path (clean from) (clean to))) [
      | inl is ↦ rw is (tt, inr refl)
      | inr n ↦ (
        rw n (
            (>>>-Keeps (IsConfined from to)
              (>>>-Keeps (IsConfined from to)
                (ensure_private_directory-Keeps fs (IsConfined from to) to s (inl refl) (inl refl))
                (λ s1 u. inherit_files-Kept fs from to names s1 h))
              (λ s2 inherited.
                >>>-Keeps (IsConfined from to) (legacy-Kept fs from to s2)
                  (λ s3 legacy. record { all = tt }))).all),
        inl (differ (clean from) (clean to) n),
      )
    ]
