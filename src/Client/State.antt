-- ===== src/Client/State.antt =====
-- client.go: the fields of `Client`. The maps `pending` and `subs` are tables by number; an entry
-- stays in its table when it leaves the map, since the goroutine that made it still holds it. A
-- loop over a map changes each entry by itself, so it is one function on all entries.
use jcode_go.Common.Channel.{Signal, pending}
use jcode_go.Common.{
  ℕ, Bool, true, false, List, [], ◌∷◌, ◌++◌, String, Option, none, some, ◌==◌, if◌then◌else◌,
}
use jcode_go.Errors.{GoError}
use jcode_go.Observation.{
  State, connecting, connected, disconnected, reconnecting, closing, Observation, observed,
}
use jcode_go.Observation as Obs
use jcode_go.Client.Options.{Options}
use jcode_go.Client.Subscriber.{Subscriber}
use jcode_go.Client.Request.{Request}

abbrev pub Table : Type 0 → Type 0
Table A = ℕ → Option A

abbrev pub enter : {A : Type 0} → Table A → ℕ → A → Table A
enter m k a j = if k == j then some a else m j

abbrev map_entry : {A : Type 0} → (A → A) → Option A → Option A
map_entry f none = none
map_entry f (some a) = some (f a)

-- A change of one entry, and of all.
abbrev pub alter : {A : Type 0} → (A → A) → ℕ → Table A → Table A
alter f k m j = if k == j then map_entry f (m j) else m j

abbrev pub each : {A : Type 0} → (A → A) → Table A → Table A
each f m j = map_entry f (m j)

-- `instance` is the private runtime that the client owns, `monitor` the number of its installed
-- bridge monitor with `canceled` for those that were cancelled; `wire_open` says whether the
-- current transport is open, `stopped` lists the instances that the client shut down, and `log` is
-- what its observer was told.
pub record Client : Type 0 where
  pub options : Options
  pub state : State
  pub capabilities : List String
  pub session_id : String
  pub requests : Table Request
  pub subs : Table Subscriber
  pub next_id : ℕ
  pub next_sub : ℕ
  pub closed : Signal
  pub close_once : Bool
  pub close_err : Option GoError
  pub wire_open : Bool
  pub instance_id : Option ℕ
  pub monitor : Option ℕ
  pub canceled : ℕ → Bool
  pub stopped : List ℕ
  pub log : List Observation

abbrev pub emit : Client → Observation → Client
emit c o = record c { log = c.log ++ o ∷ [] }

-- `setState`
abbrev pub set_state : Client → State → Client
set_state c s = record c {
  state = s;
  log = c.log ++ record (observed "state") { state = some s } ∷ [];
}

abbrev pub is_connected : State → Bool
is_connected connected = true
is_connected _ = false

abbrev pub is_disconnected : State → Bool
is_disconnected disconnected = true
is_disconnected _ = false

abbrev pub is_closed : State → Bool
is_closed Obs.State.closed = true
is_closed _ = false

abbrev pub is_closing : State → Bool
is_closing closing = true
is_closing _ = false

-- The client that `NewClient` builds, before its handshake.
unfoldable pub new_client : Options → Client
new_client o = record {
  options = o;
  state = connecting;
  capabilities = [];
  session_id = o.session_id;
  requests = λ _. none;
  subs = λ _. none;
  next_id = 0;
  next_sub = 0;
  closed = pending;
  close_once = false;
  close_err = none;
  wire_open = true;
  instance_id = none;
  monitor = none;
  canceled = λ _. false;
  stopped = [];
  log = observed "connect_start" ∷ record (observed "state") { state = some connecting } ∷ [];
}
