-- ===== src/Client/Subscriber.antt =====
-- client.go: `subscriber` and the operations on one subscriber under `subsMu`.
use jcode_go.Common.Channel.{Signal, pending, closed, panicked, close}
use jcode_go.Common.{
  ℕ, ◌≤◌, ◌≡◌, ◌≢◌, Bool, true, false, not, List, [], ◌∷◌, ◌++◌, Option, none, some, arith, length,
  length-append, ltb, if◌then◌else◌,
}
use jcode_go.Errors.{GoError, sentinel, err_subscriber_overflow, err_closed}
use jcode_go.Session.TypedEvent.{Event}

-- `events` is a channel of capacity `room`, `errors` one of capacity 1; `listed` says that the map
-- `subs` of the client holds the subscriber.
pub record Subscriber : Type 0 where
  pub listed : Bool
  pub events : List Event
  pub room : ℕ
  pub errors : List GoError
  pub done : Signal
  pub events_done : Signal
  pub errors_done : Signal
  pub once : Bool
  pub err : Option GoError
  pub turn : Bool

-- `case <-c.closed`
abbrev pub is_signalled : Signal → Bool
is_signalled pending = false
is_signalled closed = true
is_signalled panicked = true

-- `subscribeOwned`: on a closed client the channels are closed from the start.
unfoldable pub new_subscriber : Bool → ℕ → Bool → Subscriber
new_subscriber client_closed buffer turn = record {
  listed = not client_closed;
  events = [];
  room = buffer;
  errors = [];
  done = pending;
  events_done = if client_closed then closed else pending;
  errors_done = if client_closed then closed else pending;
  once = false;
  err = if client_closed then some (sentinel err_closed) else none;
  turn = turn;
}

abbrev error_items : Option GoError → List GoError
error_items none = []
error_items (some e) = e ∷ []

-- `closeSubscriberLocked`
unfoldable pub close_subscriber : Option GoError → Subscriber → Subscriber
close_subscriber e s = if s.once then record s { listed = false } else record s {
  listed = false;
  once = true;
  err = e;
  errors = s.errors ++ error_items e;
  done = close s.done;
  events_done = close s.events_done;
  errors_done = close s.errors_done;
}

-- The select of `readLoop` on the map's subscriber: gone, taken, or full. A send on a closed
-- channel panics.
offer : Event → Subscriber → Subscriber
unfolding close_subscriber
offer e s = elim s.done [
  | pending ↦ elim s.events_done [
    | pending ↦
        if ltb (length s.events) s.room
        then record s { events = s.events ++ e ∷ [] }
        else close_subscriber (some (sentinel err_subscriber_overflow)) s
    | closed ↦ record s { events_done = panicked }
    | panicked ↦ s
  ]
  | closed ↦ record s { listed = false }
  | panicked ↦ record s { listed = false }
]

-- The body of the loop over `subs` in `readLoop`.
unfoldable pub deliver : Event → Subscriber → Subscriber
unfolding offer
deliver e s = if s.listed then offer e s else s

-- `unsubscribe`, and the body of the loops of `closeWith` and `disconnect`.
unfoldable pub close_listed : Option GoError → Subscriber → Subscriber
unfolding close_subscriber
close_listed e s = if s.listed then close_subscriber e s else s

-- The body of the loop of `failTurnSubscribers`.
unfoldable pub fail_turn : GoError → Subscriber → Subscriber
unfolding close_subscriber
fail_turn e s = if s.listed then (if s.turn then close_subscriber (some e) s else s) else s

abbrev pub Unclosed : Subscriber → Type 0
Unclosed s =
    (s.once ≡ false)
    × (s.done ≡ pending)
    × (s.events_done ≡ pending)
    × (s.errors_done ≡ pending)
    × (s.errors ≡ [])
    × (s.err ≡ none)

abbrev pub Closed : Subscriber → Type 0
Closed s =
    (s.done ≢ panicked)
    × (s.events_done ≡ closed)
    × (s.errors_done ≡ closed)
    × (length s.errors ≤ 1)

-- A listed subscriber has its channels open and was told no error; another has them closed. The
-- channels never hold more than their capacity, and none was closed twice or written after.
pub record IsSound (s : Subscriber) : Type 0 where
  pub bounded : length s.events ≤ s.room
  pub life : if s.listed then Unclosed s else Closed s

pub new_subscriber-IsSound :
    (client_closed : Bool) (buffer : ℕ) (turn : Bool)
    → IsSound (new_subscriber client_closed buffer turn)
unfolding new_subscriber
new_subscriber-IsSound true buffer turn = ground arith
new_subscriber-IsSound false buffer turn = ground arith

pub new_subscriber-unlisted :
    (c : Signal) (buffer : ℕ) (turn : Bool)
    → c ≡ closed
    → (new_subscriber (is_signalled c) buffer turn).listed ≡ false
unfolding new_subscriber
new_subscriber-unlisted c buffer turn h = rw h

pub deliver-IsSound : (e : Event) (s : Subscriber) → IsSound s → IsSound (deliver e s)
unfolding deliver
deliver-IsSound e s h = ground (arith, length-append s.events (e ∷ []))

pub close_listed-IsSound :
    (e : Option GoError) (s : Subscriber) → IsSound s → IsSound (close_listed e s)
unfolding close_listed
close_listed-IsSound e s h = ground arith

pub fail_turn-IsSound : (e : GoError) (s : Subscriber) → IsSound s → IsSound (fail_turn e s)
unfolding fail_turn
fail_turn-IsSound e s h = ground arith
