-- ===== src/Client/Invariant.antt =====
-- What holds of a client in every interleaving of its goroutines.
pub mod Tables
pub mod Changes
pub mod Sections
pub mod Steps
use jcode_go.Common.Channel.{Signal, pending, closed}
use jcode_go.Common.{
  ℕ, ◌+◌, ◌<◌, ◌≡◌, Bool, true, false, Option, none, some, arith, ◌==◌, if◌then◌else◌,
}
use jcode_go.Client.Subscriber.{Subscriber}
use jcode_go.Client.Subscriber as Sub
use jcode_go.Client.Request.{Request}
use jcode_go.Client.Request as Req
use jcode_go.Client.State.{Client, Table}
use jcode_go.Client.System.{World, Closer, unbegun, announced, signalled, drained, swept, ended}

abbrev pub Holds : {A : Type 0} → (A → Type 0) → Option A → Type 0
Holds P none = Unit
Holds P (some a) = P a

-- Every entry of a table.
abbrev pub Every : {A : Type 0} → (A → Type 0) → Table A → Type 0
Every P m = (id : ℕ) → Holds P (m id)

-- No entry has a number above the counter.
abbrev pub Fresh : {A : Type 0} → ℕ → Table A → Type 0
Fresh n m = (id : ℕ) → n < id → m id ≡ none

abbrev pub IsUnlisted : Subscriber → Type 0
IsUnlisted s = s.listed ≡ false

-- Where `closeWith` stands: the client is closed from its second section on, and no subscriber is
-- in the map after its fourth.
abbrev pub Follows : Closer → Client → Type 0
Follows unbegun c = (c.closed ≡ pending) × (c.close_once ≡ false)
Follows (announced i e) c = (c.closed ≡ pending) × (c.close_once ≡ true)
Follows (signalled i e) c = (c.closed ≡ closed) × (c.close_once ≡ true)
Follows (drained i e) c = (c.closed ≡ closed) × (c.close_once ≡ true)
Follows (swept i) c = (c.closed ≡ closed) × (c.close_once ≡ true) × Every IsUnlisted c.subs
Follows ended c = (c.closed ≡ closed) × (c.close_once ≡ true) × Every IsUnlisted c.subs

pub record Inv (w : World) : Type 0 where
  pub subscribers : Every Sub.IsSound w.client.subs
  pub requests : Every Req.IsSound w.client.requests
  pub fresh_subs : Fresh w.client.next_sub w.client.subs
  pub fresh_ids : Fresh w.client.next_id w.client.requests
  pub close : Follows w.closer w.client
