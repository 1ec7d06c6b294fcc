-- ===== src/Runtime/Registry.antt =====
-- launch.go: the search for the daemon of an instance in its registry, and for the jcode binary. The
-- file system answers by path, and a range over a Go map takes its entries in the order given.
use jcode_go.Common.{
  ℕ, zero, suc, Bool, true, false, not, ◌&&◌, ◌||◌, List, [], ◌∷◌, Option, none, some, codes,
  if◌then◌else◌,
}
use jcode_go.Errors.{Result, ok, err}
use jcode_go.Json.Value.{ℤ, pos, negsuc}
use jcode_go.Runtime.Paths.{FilePath, same_path, clean, join, dir}
use jcode_go.Runtime.Cleanup.{directory, Stat, found}
use jcode_go.Runtime.Credentials.{is_regular}

pub record Entry : Type 0 where
  pub socket : FilePath
  pub pid : ℤ

abbrev is_real_directory : Stat → Bool
is_real_directory (found directory) = true
is_real_directory _ = false

-- `entry.PID > 1`
abbrev pid_of : ℤ → Option ℕ
pid_of (pos zero) = none
pid_of (pos (suc zero)) = none
pid_of (pos (suc (suc n))) = some (suc (suc n))
pid_of (negsuc n) = none

unfoldable pub find_daemon : FilePath → List Entry → ℕ
find_daemon wanted [] = 0
find_daemon wanted (e ∷ entries) =
    let rest = find_daemon wanted entries in
    if same_path (clean e.socket) wanted
    then (elim (pid_of e.pid) [ none ↦ rest | some pid ↦ pid ])
    else rest

abbrev is_empty : FilePath → Bool
is_empty [] = true
is_empty (b ∷ p) = false

abbrev daemon_in : FilePath → Option (List Entry) → ℕ
daemon_in wanted none = 0
daemon_in wanted (some entries) = find_daemon wanted entries

-- `readDaemonPID`: `read` gives the entries of a registry that can be read and decoded.
unfoldable pub read_daemon_pid :
    FilePath → FilePath → (FilePath → Stat) → (FilePath → Option (List Entry)) → ℕ
unfolding find_daemon
read_daemon_pid home runtime_dir lstat read =
    let h = clean home in
    let r = clean runtime_dir in
    let registry = join h (codes "servers.json") in
    if is_empty home || is_empty runtime_dir
    then 0
    else if not (same_path r (join h (codes "run")))
    then 0
    else if not (is_real_directory (lstat h) && is_real_directory (lstat r))
    then 0
    else if not (is_regular (lstat registry))
    then 0
    else daemon_in (clean (join r (codes "jcode.sock"))) (read registry)

abbrev is_file : Stat → Bool
is_file (found directory) = false
is_file (found _) = true
is_file _ = false

abbrev beside : Result FilePath → (FilePath → Stat) → FilePath
beside (err e) stat = codes "jcode"
beside (ok current) stat =
    let candidate = join (dir current) (codes "jcode") in
    if is_file (stat candidate) then candidate else codes "jcode"

-- `selectBinary`, by os.Executable.
unfoldable pub select_binary : FilePath → Result FilePath → (FilePath → Stat) → FilePath
select_binary [] executable stat = beside executable stat
select_binary (b ∷ p) executable stat = b ∷ p
