-- ===== src/Runtime/Settings.antt =====
-- launch.go: the options of a private instance, and what the bridge is started with. Texts are
-- lists of runes; a Go map is the list of its entries in the order of a range over it.
use jcode_go.Common.{
  ℕ, zero, suc, ◌+◌, ◌-◌, Bool, true, false, not, ◌&&◌, ◌||◌, List, [], ◌∷◌, ◌++◌, Option, none,
  some, codes, leb, length, if◌then◌else◌,
}
use jcode_go.Json.Value.{ℤ, pos}
use jcode_go.Session.Calls.{is_space}
use jcode_go.Runtime.Paths.{FilePath, same_path, has_prefix, join}
use jcode_go.Runtime.Cleanup.{finite_duration, default_cleanup_timeout}

abbrev pub Text : Type 0
Text = List ℕ

abbrev pub Env : Type 0
Env = List (Text × Text)

pub record LaunchOptions : Type 0 where
  pub jcode_home : FilePath
  pub working_dir : FilePath
  pub inherit_logins : Option Bool
  pub binary : FilePath
  pub provider : Text
  pub model : Text
  pub env : Env
  pub startup_timeout : ℤ
  pub cleanup_timeout : ℤ
  pub shutdown_grace_period : ℤ
  pub shutdown_reap_timeout : ℤ
  pub inherit_stderr : Bool

abbrev default_shutdown_grace_period : ℕ
default_shutdown_grace_period = 5000000000

abbrev default_shutdown_reap_timeout : ℕ
default_shutdown_reap_timeout = 5000000000

-- `withDefaults`
unfoldable pub with_defaults : LaunchOptions → LaunchOptions
with_defaults o = record o {
  startup_timeout = pos (finite_duration o.startup_timeout 30000000000);
  cleanup_timeout = pos (finite_duration o.cleanup_timeout default_cleanup_timeout);
  shutdown_grace_period =
      pos (finite_duration o.shutdown_grace_period default_shutdown_grace_period);
  shutdown_reap_timeout =
      pos (finite_duration o.shutdown_reap_timeout default_shutdown_reap_timeout);
}

abbrev or_true : Option Bool → Bool
or_true none = true
or_true (some b) = b

-- `inheritLogins`
unfoldable pub inherit_logins : LaunchOptions → Bool
inherit_logins o = or_true o.inherit_logins

-- `strings.TrimSpace`
unfoldable pub trim_left : Text → Text
trim_left [] = []
trim_left (r ∷ rs) = let rest = trim_left rs in if is_space r then rest else r ∷ rs

abbrev unless_space : ℕ → Text → Text
unless_space r [] = if is_space r then [] else r ∷ []
unless_space r (s ∷ rs) = r ∷ s ∷ rs

unfoldable pub trim_right : Text → Text
trim_right [] = []
trim_right (r ∷ rs) = unless_space r (trim_right rs)

unfoldable pub trim_space : Text → Text
unfolding trim_left trim_right
trim_space t = trim_right (trim_left t)

abbrev selection : Text → Text → List Text
selection flag [] = []
selection flag (r ∷ rs) = flag ∷ (r ∷ rs) ∷ []

-- `launchArgs`
unfoldable pub launch_args : LaunchOptions → FilePath → List Text
unfolding trim_space
launch_args o socket_path =
    selection (codes "--provider") (trim_space o.provider)
    ++ selection (codes "--model") (trim_space o.model)
    ++ codes "api-bridge" ∷ codes "--api-socket" ∷ socket_path ∷ []

-- An assignment to a map, and one for every entry of another.
unfoldable pub put_env : Text → Text → Env → Env
put_env key value [] = (key, value) ∷ []
put_env key value ((k, v) ∷ env) =
    let rest = put_env key value env in
    if same_path k key then (key, value) ∷ env else (k, v) ∷ rest

unfoldable pub put_all : Env → Env → Env
unfolding put_env
put_all [] env = env
put_all ((key, value) ∷ entries) env = put_all entries (put_env key value env)

-- `launchEnvironment`, as the map that its strings are made of; `inherited` is the environment of
-- the process, cut at the first `=` of each entry.
unfoldable pub launch_environment : Env → FilePath → FilePath → FilePath → Env → Env
unfolding put_all
launch_environment inherited home runtime_dir socket_path overrides = put_all overrides (
    put_env (codes "JCODE_SOCKET") (join runtime_dir (codes "jcode.sock")) (
      put_env (codes "JCODE_API_SOCKET") socket_path (
        put_env (codes "JCODE_RUNTIME_DIR") runtime_dir
          (put_env (codes "JCODE_HOME") home (put_all inherited [])))))

-- `strings.Contains` and `strings.ToLower`, for ASCII keys.
unfoldable pub contains : Text → Text → Bool
unfolding has_prefix
contains [] word = has_prefix [] word
contains (r ∷ rs) word = has_prefix (r ∷ rs) word || contains rs word

abbrev lower : ℕ → ℕ
lower r = if leb 65 r && leb r 90 then r + 32 else r

unfoldable pub to_lower : Text → Text
to_lower [] = []
to_lower (r ∷ rs) = lower r ∷ to_lower rs

-- `strings.ReplaceAll` of a word that is not empty: `skip` counts what is left of an occurrence.
unfoldable pub replace_from : Text → Text → ℕ → Text → Text
unfolding has_prefix
replace_from word by skip [] = []
replace_from word by (suc skip) (r ∷ rs) = replace_from word by skip rs
replace_from word by zero (r ∷ rs) =
    let kept = replace_from word by zero rs in
    let replaced = replace_from word by (length word - 1) rs in
    if has_prefix (r ∷ rs) word then by ++ replaced else r ∷ kept

abbrev redacted : Text
redacted = codes "[REDACTED]"

unfoldable pub is_secret : Text → Bool
unfolding contains to_lower
is_secret key =
    contains (to_lower key) (codes "key")
    || contains (to_lower key) (codes "token")
    || contains (to_lower key) (codes "secret")

abbrev is_empty : Text → Bool
is_empty [] = true
is_empty (r ∷ rs) = false

-- `redactSecrets`
unfoldable pub redact_secrets : Env → Text → Text
unfolding is_secret replace_from
redact_secrets [] text = text
redact_secrets ((key, value) ∷ overrides) text =
    redact_secrets overrides (
      if not (is_empty value) && is_secret key then replace_from value redacted zero text else text)

abbrev drop : ℕ → Text → Text
drop zero text = text
drop (suc n) [] = []
drop (suc n) (r ∷ rs) = drop n rs

-- `readTail`, for what it could read.
unfoldable pub read_tail : ℕ → Text → Text
unfolding trim_space
read_tail limit text = trim_space (drop (length text - limit) text)
