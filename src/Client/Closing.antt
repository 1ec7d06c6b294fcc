-- ===== src/Client/Closing.antt =====
-- How a closed client and a lost connection end what waits on the client.
use jcode_go.Common.Channel.{pending, closed}
use jcode_go.Common.{
  ℕ, ◌≡◌, refl, ap, ◌∙◌, Bool, true, false, not, [], ◌∷◌, Option, some, arith, inl, inr,
  Option-cases, if◌then◌else◌,
}
use jcode_go.Errors.{GoError, sentinel, err_closed, err_disconnected, err}
use jcode_go.Observation.{State, disconnected}
use jcode_go.Observation as Obs
use jcode_go.Client.Subscriber.{Subscriber, close_listed, fail_turn}
use jcode_go.Client.Subscriber as Sub
use jcode_go.Client.Request.{Request, abandon}
use jcode_go.Client.Request as Req
use jcode_go.Client.State.{Client, Table, each}
use jcode_go.Client.Operations.{
  close_with, signal_close, abandon_requests, close_subscribers, begin_close, end_close,
  begin_request, disconnect, drop_connection, stays, request_state_error,
}
use jcode_go.Client.Ownership.{close_sections, close_with-first}

-- A subscriber that was closed with the error: what was queued is kept for the reader.
abbrev pub ended : GoError → Subscriber → Subscriber
ended e s = record s {
  listed = false;
  once = true;
  err = some e;
  errors = e ∷ [];
  done = closed;
  events_done = closed;
  errors_done = closed;
}

begin_close-kept :
    (c : Client)
    → ((begin_close c).subs ≡ c.subs)
      × ((begin_close c).requests ≡ c.requests)
      × ((begin_close c).closed ≡ c.closed)
unfolding begin_close
begin_close-kept c = ground arith

pub close_sections_kept :
    (i : Option ℕ) (c : Client) (e : GoError) (internal observed : Bool)
    → ((close_sections i c e).state ≡ Obs.State.closed)
      × (c.closed ≡ pending
          → begin_request (close_sections i c e) internal observed ≡ err (sentinel err_closed))
      × ((id : ℕ) → (close_sections i c e).requests id ≡ each abandon c.requests id)
      × ((id : ℕ) → (close_sections i c e).subs id ≡ each (close_listed (some e)) c.subs id)
unfolding close_sections signal_close abandon_requests close_subscribers end_close begin_request
    request_state_error
close_sections_kept i c e internal observed = (refl, λ h. ground arith, λ id. refl, λ id. refl)

-- Every entry of the table has the property.
abbrev pub Entries {ℓ} : {A : Type 0} → (A → Type ℓ) → Table A → Type ℓ
Entries P m = (id : ℕ) (a : _) → m id ≡ some a → P a

each-same :
    {A : Type 0} (f g : A → A) (m : Table A) (id : ℕ)
    → ((a : A) → m id ≡ some a → f a ≡ g a)
    → each f m id ≡ each g m id
each-same f g m id h = elim (Option-cases (m id)) [
  | inl none_there ↦ rw none_there refl
  | inr (a, there) ↦ rw there (ap some (h a there))
]

abbrev lost : GoError → Bool → Subscriber → Subscriber
lost e terminal = if terminal then close_listed (some e) else fail_turn (sentinel err_disconnected)

disconnect-drop :
    (c : Client) (e : GoError) (terminal : Bool)
    → stays c.state terminal ≡ false
    → disconnect c e terminal ≡ drop_connection c e terminal
unfolding disconnect
disconnect-drop c e terminal h = rw (disconnect, h) refl

drop_connection_lem :
    (c : Client) (e : GoError) (terminal : Bool)
    → ((drop_connection c e terminal).state ≡ disconnected)
      × ((drop_connection c e terminal).wire_open ≡ false)
      × ((drop_connection c e terminal).subs ≡ each (lost e terminal) c.subs)
      × ((drop_connection c e terminal).requests ≡ each abandon c.requests)
unfolding drop_connection
drop_connection_lem c e terminal = (ground arith, refl, refl, refl)

-- A request that the map lists finds its channel closed without a reply; others are left.
abbrev pub abandoned : Request → Request
abandoned r = if r.listed then record r { listed = false; reply_done = closed } else r

-- A subscription that the map lists ends with the error; others are left.
abbrev pub ended_if_listed : GoError → Subscriber → Subscriber
ended_if_listed e s = if s.listed then ended e s else s

-- The end of a connection: with its error for every subscription if that is terminal, and with
-- ErrDisconnected for those of turns if it is not.
abbrev pub lost_if_listed : GoError → Bool → Subscriber → Subscriber
lost_if_listed e terminal s =
    if not s.listed
    then s
    else if terminal
    then ended e s
    else if s.turn
    then ended (sentinel err_disconnected) s
    else s

abandon-abandoned : (r : Request) → Req.IsSound r → abandon r ≡ abandoned r
unfolding abandon
abandon-abandoned r h = ground arith

close_listed-ended_if_listed :
    (e : GoError) (s : Subscriber) → Sub.IsSound s → close_listed (some e) s ≡ ended_if_listed e s
unfolding close_listed
close_listed-ended_if_listed e s h = ground arith

lost-lost_if_listed :
    (e : GoError) (terminal : Bool) (s : Subscriber)
    → Sub.IsSound s
    → lost e terminal s ≡ lost_if_listed e terminal s
unfolding close_listed fail_turn
lost-lost_if_listed e true s h = ground arith
lost-lost_if_listed e false s h = ground arith

module _ (c : Client) (e : GoError) (sound : Entries Sub.IsSound c.subs)
    (fresh : Entries Req.IsSound c.requests) where
  -- The first `closeWith` of a client whose subscriptions and requests are sound, with no other
  -- step between its sections, leaves the client closed. Every subscription that the map listed ends
  -- with the error, its queue kept, every request that it listed finds its channel closed without a
  -- reply, the others are left as they were, and every new request is refused with ErrClosed.
  pub close_with_ends :
      (internal observed : Bool)
      → c.close_once ≡ false
      → c.closed ≡ pending
      → ((close_with c e).state ≡ Obs.State.closed)
        × ((id : ℕ) → (close_with c e).subs id ≡ each (ended_if_listed e) c.subs id)
        × ((id : ℕ) → (close_with c e).requests id ≡ each abandoned c.requests id)
        × (begin_request (close_with c e) internal observed ≡ err (sentinel err_closed))
  close_with_ends internal observed once open' =
      let b = begin_close c in
      let (subs, requests, same) = begin_close-kept c in
      let (state, refused, replies, streams) =
        close_sections_kept c.instance_id b e internal observed in
      rw (close_with-first c e once) (
        state,
        λ id.
            streams id
            ∙ ap (λ m. each (close_listed (some e)) m id) subs
            ∙ each-same (close_listed (some e)) (ended_if_listed e) c.subs id
                (λ s is. close_listed-ended_if_listed e s (sound id s is)),
        λ id.
            replies id
            ∙ ap (λ m. each abandon m id) requests
            ∙ each-same abandon abandoned c.requests id
                (λ r is. abandon-abandoned r (fresh id r is)),
        refused (same ∙ open'),
      )

  -- A connection that is lost while the client is up, or a terminal error on one that is lost
  -- already, on a client whose subscriptions and requests are sound, with no other step between the
  -- sections of `disconnect`: the client is disconnected and its transport closed. Every request
  -- that the map listed finds its channel closed. Every subscription that it listed ends with the
  -- error if that is terminal, with ErrDisconnected if it belongs to a turn, and stays for the next
  -- connection otherwise. The others are left as they were.
  pub disconnect_ends :
      (terminal : Bool)
      → stays c.state terminal ≡ false
      → ((disconnect c e terminal).state ≡ disconnected)
        × ((disconnect c e terminal).wire_open ≡ false)
        × ((id : ℕ)
            → (disconnect c e terminal).subs id ≡ each (lost_if_listed e terminal) c.subs id)
        × ((id : ℕ) → (disconnect c e terminal).requests id ≡ each abandoned c.requests id)
  disconnect_ends terminal h =
      let (state, wire, subs, requests) = drop_connection_lem c e terminal in
      rw (disconnect-drop c e terminal h) (
        state,
        wire,
        λ id.
            ap (λ m. m id) subs
            ∙ each-same (lost e terminal) (lost_if_listed e terminal) c.subs id
                (λ s is. lost-lost_if_listed e terminal s (sound id s is)),
        λ id.
            ap (λ m. m id) requests
            ∙ each-same abandon abandoned c.requests id
                (λ r is. abandon-abandoned r (fresh id r is)),
      )
