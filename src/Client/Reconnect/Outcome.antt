-- ===== src/Client/Reconnect/Outcome.antt =====
-- What `Reconnect` leaves behind, and how long it waits.
use jcode_go.Common.{ℕ, suc, ◌≤◌, ◌<◌, ◌≡◌, ◌≢◌, Bool, true, Option, none, some, All, length}
use jcode_go.Errors.{GoError, Result}
use jcode_go.Observation.{connected}
use jcode_go.Protocol.Event.{ServerFrame}
use jcode_go.Client.State.{Client}
use jcode_go.Client.Reconnect.{Attempt, Reconnected}

-- Connected with no error, or an error and not connected.
abbrev pub Decided : Option GoError → Client → Type 0
Decided none c = (c.state ≡ connected) × (c.wire_open ≡ true)
Decided (some e) c = c.state ≢ connected

-- An attempt that came back has decided.
abbrev Settles : Option (Client × Option GoError) → Type 0
Settles none = ⊥
Settles (some (c, e)) = Decided e c

-- A request that came back left the transport as it was.
abbrev Asks : Bool → Option (Client × Result ServerFrame) → Type 0
Asks wire none = ⊥
Asks wire (some (c, reply)) = c.wire_open ≡ wire

-- Neither request of the attempt fails to be written.
abbrev pub Writes : Attempt → Type 0
Writes a = (a.hello_write ≡ none) × (a.attach_write ≡ none)

-- `Reconnect` came back, after no more attempts than rounds, waits within the limit, and no more
-- waits than rounds.
abbrev Good : ℕ → ℕ → Option Reconnected → Type 0
Good max left none = ⊥
Good max left (some r) =
    Decided r.cause r.client
    × (r.tried ≤ left)
    × All (λ d. d ≤ max) r.slept
    × (length r.slept ≤ left)

-- After an attempt there are fewer waits than attempts and rounds.
abbrev Begun : ℕ → ℕ → Option Reconnected → Type 0
Begun max left none = ⊥
Begun max left (some r) =
    Decided r.cause r.client
    × (0 < r.tried)
    × (r.tried ≤ suc left)
    × All (λ d. d ≤ max) r.slept
    × (length r.slept ≤ left)
