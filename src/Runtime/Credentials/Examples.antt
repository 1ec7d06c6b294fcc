-- ===== src/Runtime/Credentials/Examples.antt =====
-- An inheritance of the configuration, one credential file and the legacy file.
use jcode_go.Common.{◌≡◌, ◌≢◌, refl, ◌⊎◌, inl, inr, List, [], ◌∷◌, none, codes, All, if◌then◌else◌}
use jcode_go.Runtime.Paths.{FilePath, same_path, clean, join, dir}
use jcode_go.Runtime.Cleanup.{regular, directory, found}
use jcode_go.Runtime.Credentials.{
  Files, ◌>>>◌, makes_directory, restricts, removes, links, copies, credential_files,
  inherit_credentials,
}
use jcode_go.Runtime.Credentials.Confined.{Listed, IsConfined}
use jcode_go.Runtime.Credentials.Inherited.{inherit_credentials-IsConfined}

abbrev user_home : FilePath
user_home = codes "/u/.jcode"

abbrev private_home : FilePath
private_home = codes "/p"

abbrev legacy : FilePath
legacy = codes "/u/.codex/auth.json"

abbrev Disk : Type 0
Disk = Unit {0}

abbrev disk : Files Disk
disk = record {
  mkdir_all = λ s p. (s, none);
  chmod = λ s p. (s, none);
  lstat = λ s p. (s, found (if same_path p legacy then regular else directory));
  stat = λ s p. (s, found regular);
  remove = λ s p. s;
  symlink = λ s a b. (s, none);
  open_file = λ s p. (s, none);
  create = λ s p. (s, none);
  copy = λ s. (s, none);
  close = λ s. (s, none);
}

abbrev order : List FilePath
order = codes "config.toml" ∷ codes "auth.json" ∷ []

order-Listed : All (λ n. Listed n credential_files) order
order-Listed = (inr (inr (inr (inr (inr (inr (inl refl)))))), (inl refl, tt))

writes_of :
    (inherit_credentials disk user_home private_home order tt).1
    ≡ makes_directory (codes "/p")
      ∷ restricts (codes "/p")
      ∷ removes (codes "/p/config.toml")
      ∷ copies (codes "/u/.jcode/config.toml") (codes "/p/config.toml")
      ∷ removes (codes "/p/auth.json")
      ∷ links (codes "/u/.jcode/auth.json") (codes "/p/auth.json")
      ∷ makes_directory (codes "/p/external/.codex")
      ∷ restricts (codes "/p/external/.codex")
      ∷ copies (codes "/u/.codex/auth.json") (codes "/p/external/.codex/auth.json")
      ∷ []
unfolding inherit_credentials same_path clean ◌>>>◌ join dir
writes_of = refl

inherit_credentials-IsConfined_example :
    All
      (IsConfined user_home private_home)
      (inherit_credentials disk user_home private_home order tt).1
    × ((clean user_home ≢ clean private_home)
        ⊎ ((inherit_credentials disk user_home private_home order tt).1 ≡ []))
inherit_credentials-IsConfined_example =
    inherit_credentials-IsConfined disk user_home private_home order tt order-Listed
