-- ===== src/Connect.antt =====
-- connect.go: `Connect` and the choice of its socket. The transport and `NewClient` are arguments by
-- what they return; a variable of the environment that is not set is empty.
use jcode_go.Common.{[], ◌∷◌, Option, none, some, codes}
use jcode_go.Errors.{GoError, Result, ok, err}
use jcode_go.Client.State.{Client}
use jcode_go.Runtime.Paths.{FilePath, join}

pub record Environment : Type 0 where
  pub api_socket : FilePath
  pub runtime_dir : FilePath
  pub xdg_runtime_dir : FilePath
  pub user_home : Result FilePath
  pub temp_dir : FilePath

abbrev socket_name : FilePath
socket_name = codes "jcode-api.sock"

abbrev home_socket : FilePath → Result FilePath → FilePath
home_socket temp (ok home) = join (join (join home (codes ".jcode")) (codes "run")) socket_name
home_socket temp (err e) = join temp socket_name

abbrev socket_in : FilePath → FilePath → FilePath
socket_in [] otherwise = otherwise
socket_in (b ∷ directory) otherwise = join (b ∷ directory) socket_name

abbrev or_else : FilePath → FilePath → FilePath
or_else [] otherwise = otherwise
or_else (b ∷ p) otherwise = b ∷ p

-- `apiSocketPath`
unfoldable pub api_socket_path : Environment → FilePath
api_socket_path env = or_else env.api_socket (
    socket_in env.runtime_dir
      (socket_in env.xdg_runtime_dir (home_socket env.temp_dir env.user_home)))

abbrev dialed : Option GoError → Result Client → Result Client
dialed (some e) client = err e
dialed none client = client

-- `Connect`: `dial` is the outcome of the transport's factory on a path, `new_client` what `NewClient`
-- returns on its transport.
unfoldable pub connect :
    Environment → FilePath → (FilePath → Option GoError) → Result Client → Result Client
unfolding api_socket_path
connect env socket_path dial new_client =
    dialed (dial (or_else socket_path (api_socket_path env))) new_client
