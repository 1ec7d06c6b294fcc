-- ===== src/Runtime/Credentials.antt =====
-- launch.go: the inheritance of credentials by a private home. The file system is the record `Files`
-- over a state `S`; a range over the map `credentialFiles` takes its names in the order of an
-- argument.
pub mod Confined
pub mod Inherited
mod Examples
use jcode_go.Common.{
  Bool, true, false, not, ◌&&◌, ◌||◌, List, [], ◌∷◌, ◌++◌, Option, none, some, codes, if◌then◌else◌,
}
use jcode_go.Errors.{GoError, sentinel, not_exist, message, wrap, Result, ok, err}
use jcode_go.Runtime.Paths.{FilePath, same_path, clean, join, dir}
use jcode_go.Runtime.Cleanup.{Kind, regular, directory, Stat, found, absent, unknown, is_directory}
use jcode_go.Runtime.Settings.{Text, Env, put_env}

-- `stat` follows symbolic links and `lstat` does not; `open_file` and `create` prepare the copy that
-- `copy` and `close` finish.
pub record Files (S : Type 0) : Type 0 where
  pub mkdir_all : S → FilePath → S × Option GoError
  pub chmod : S → FilePath → S × Option GoError
  pub lstat : S → FilePath → S × Stat
  pub stat : S → FilePath → S × Stat
  pub remove : S → FilePath → S
  pub symlink : S → FilePath → FilePath → S × Option GoError
  pub open_file : S → FilePath → S × Option GoError
  pub create : S → FilePath → S × Option GoError
  pub copy : S → S × Option GoError
  pub close : S → S × Option GoError

-- A change of the file system that was asked for, of the path that it names last.
pub data Write : Type 0 where
  makes_directory restricts removes : FilePath → Write
  links copies : FilePath → FilePath → Write

-- A state, what was written on the way to it, and a result.
abbrev pub Written : Type 0 → Type 0 → Type 0
Written S A = S × List Write × Result A

-- What follows a result without an error.
infixl 5 ◌>>>◌
unfoldable pub ◌>>>◌ : {S A B : Type 0} → Written S A → (S → A → Written S B) → Written S B
(s, writes, err e) >>> next = (s, writes, err e)
(s, writes, ok a) >>> next = let (s', more, r) = next s a in (s', writes ++ more, r)

abbrev pub with_context : {S A : Type 0} → (GoError → GoError) → Written S A → Written S A
with_context f (s, writes, err e) = (s, writes, err (f e))
with_context f (s, writes, ok a) = (s, writes, ok a)

abbrev pub doing : {S : Type 0} → Write → S × Option GoError → Written S (Unit {0})
doing w (s, none) = (s, w ∷ [], ok tt)
doing w (s, some e) = (s, w ∷ [], err e)

abbrev pub quietly : {S : Type 0} → S × Option GoError → Written S (Unit {0})
quietly (s, none) = (s, [], ok tt)
quietly (s, some e) = (s, [], err e)

abbrev pub returning : {S A : Type 0} → S → A → Written S A
returning s a = (s, [], ok a)

abbrev pub config_name : FilePath
config_name = codes "config.toml"

abbrev pub legacy_codex_auth_source : FilePath
legacy_codex_auth_source = codes ".codex/auth.json"

abbrev pub legacy_codex_auth_destination : FilePath
legacy_codex_auth_destination = codes "external/.codex/auth.json"

-- `credentialFiles`
abbrev pub credential_files : List FilePath
credential_files =
    codes "auth.json"
    ∷ codes "openai-auth.json"
    ∷ codes "antigravity_oauth.json"
    ∷ codes "gemini_oauth.json"
    ∷ codes "google_oauth.json"
    ∷ codes "google_credentials.json"
    ∷ config_name
    ∷ []

abbrev pub is_regular : Stat → Bool
is_regular (found regular) = true
is_regular _ = false

abbrev not_real : GoError
not_real = message "instance home must be a real directory"

abbrev pub check_directory : {S : Type 0} → S × Stat → Written S (Unit {0})
check_directory (s, absent) = (s, [], err (sentinel not_exist))
check_directory (s, unknown e) = (s, [], err e)
check_directory (s, found kind) = (s, [], if is_directory kind then ok tt else err not_real)

module _ {S : Type 0} (fs : Files S) where
  -- `ensurePrivateDirectory`
  unfoldable pub ensure_private_directory : FilePath → S → Written S (Unit {0})
  ensure_private_directory path s =
      doing (makes_directory path) (fs.mkdir_all s path)
      >>> (λ s1 u. check_directory (fs.lstat s1 path))
      >>> (λ s2 u. doing (restricts path) (fs.chmod s2 path))

  abbrev closed : S × Option GoError → S → Written S (Unit {0})
  closed (s, none) s' = (s', [], ok tt)
  closed (s, some e) s' = (s', [], err e)

  abbrev pub copied : S × Option GoError → Written S (Unit {0})
  copied (s, none) = quietly (fs.close s)
  copied (s, some e) = ((fs.close s).0, [], err e)

  -- `copyOwnerOnly`
  unfoldable pub copy_owner_only : FilePath → FilePath → S → Written S (Unit {0})
  copy_owner_only from to s =
      quietly (fs.open_file s from)
      >>> (λ s1 u. doing (copies from to) (fs.create s1 to))
      >>> (λ s2 u. copied (fs.copy s2))

  abbrev pub placed : FilePath → FilePath → FilePath → S → Written S (Unit {0})
  placed from to name s =
      if same_path name config_name
      then copy_owner_only (join from name) (join to name) s
      else doing (links (join from name) (join to name))
          (fs.symlink s (join from name) (join to name))

  -- The body of the loop of `InheritCredentials`, for a file that is there.
  unfoldable pub inherit_file : FilePath → FilePath → FilePath → S → Written S (List FilePath)
  unfolding copy_owner_only
  inherit_file from to name s =
      (fs.remove s (join to name), removes (join to name) ∷ [], ok tt)
      >>> (λ s1 u. placed from to name s1)
      >>> (λ s2 u. returning s2 (name ∷ []))

  abbrev pub if_there : FilePath → FilePath → FilePath → S × Stat → Written S (List FilePath)
  if_there from to name (s, st) =
      if is_regular st then inherit_file from to name s else returning s []

  -- The loop of `InheritCredentials`.
  unfoldable pub inherit_files : FilePath → FilePath → List FilePath → S → Written S (List FilePath)
  unfolding inherit_file
  inherit_files from to [] s = returning s []
  inherit_files from to (name ∷ names) s =
      if_there from to name (fs.stat s (join from name)) >>> (λ s1 first.
        inherit_files from to names s1 >>> (λ s2 others. returning s2 (first ++ others)))

  abbrev pub legacy_there : FilePath → FilePath → S × Stat → Written S Bool
  legacy_there from to (s, absent) = returning s false
  legacy_there from to (s, unknown e) = (s, [], err (wrap "inspecting legacy Codex auth" e))
  legacy_there from to (s, found kind) =
      if is_regular (found kind)
      then with_context (wrap "creating private legacy Codex auth directory")
          (ensure_private_directory (dir (join to legacy_codex_auth_destination)) s)
        >>> (λ s1 u. with_context (wrap "copying legacy Codex auth") (
            copy_owner_only (join (dir from) legacy_codex_auth_source)
              (join to legacy_codex_auth_destination) s1))
        >>> (λ s2 u. returning s2 true)
      else (s, [], err (message "legacy Codex auth must be a regular file"))

  -- `inheritLegacyCodexAuth`
  unfoldable pub inherit_legacy_codex_auth : FilePath → FilePath → S → Written S Bool
  unfolding ensure_private_directory copy_owner_only
  inherit_legacy_codex_auth from to s =
      legacy_there from to (fs.lstat s (join (dir from) legacy_codex_auth_source))

  abbrev with_legacy : List FilePath → Bool → List FilePath
  with_legacy names legacy = if legacy then names ++ legacy_codex_auth_destination ∷ [] else names

  -- `InheritCredentials`
  unfoldable pub inherit_credentials :
      FilePath → FilePath → List FilePath → S → Written S (List FilePath)
  unfolding inherit_files inherit_legacy_codex_auth ensure_private_directory
  inherit_credentials from to names s =
      if same_path (clean from) (clean to)
      then (s, [], err (message "instance home must differ from user's jcode home"))
      else ensure_private_directory to s
        >>> (λ s1 u. inherit_files from to names s1)
        >>> (λ s2 inherited.
            inherit_legacy_codex_auth from to s2
            >>> (λ s3 legacy. returning s3 (with_legacy inherited legacy)))

abbrev allow_legacy_codex_auth_env : Text
allow_legacy_codex_auth_env = codes "JCODE_ALLOW_CODEX_LEGACY_AUTH"

has_key : Text → Env → Bool
has_key key [] = false
has_key key ((k, v) ∷ env) = same_path k key || has_key key env

has_path : FilePath → List FilePath → Bool
has_path p [] = false
has_path p (q ∷ qs) = same_path q p || has_path p qs

-- `inheritLaunchCredentials`, on the environment of the options and what was inherited.
unfoldable pub inherit_launch_credentials : Env → Result (List FilePath) → Result Env
unfolding has_key has_path
inherit_launch_credentials env (err e) = err e
inherit_launch_credentials env (ok inherited) =
    if has_path legacy_codex_auth_destination inherited
      && not (has_key allow_legacy_codex_auth_env env)
    then ok (put_env allow_legacy_codex_auth_env (codes "1") env)
    else ok env

abbrev default_home : Result FilePath → FilePath
default_home (err e) = codes ".jcode"
default_home (ok home) = join home (codes ".jcode")

-- `userJcodeHome`, by the variable JCODE_HOME and os.UserHomeDir.
unfoldable pub user_jcode_home : FilePath → Result FilePath → FilePath
user_jcode_home [] home = default_home home
user_jcode_home (b ∷ p) home = b ∷ p
