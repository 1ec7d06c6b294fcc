-- ===== src/Client/System.antt =====
-- A client among its goroutines: callers that subscribe, unsubscribe, send requests and give up,
-- the reader, `disconnect`, the bridge watcher and `closeWith`. A step is one section that a mutex
-- guards; the sections of one call may have steps of others between them. `disconnect` and
-- `Reconnect` enter by their sections, the state that they set being any.
use jcode_go.Common.{ℕ, ◌+◌, ◌<◌, ◌^◌, ◌≡◌, Bool, false, [], ◌∷◌, Option}
use jcode_go.Errors.{GoError, ok}
use jcode_go.Observation.{State}
use jcode_go.Protocol.Event.{ServerFrame}
use jcode_go.Session.TypedEvent.{Event}
use jcode_go.Client.Options.{Options}
use jcode_go.Client.Subscriber.{Subscriber}
use jcode_go.Client.State.{Client, alter, set_state, new_client}
use jcode_go.Client.Operations.{
  subscribe_owned, unsubscribe, fail_turn_subscribers, dispatch_reply, dispatch_event,
  remove_pending, begin_request, set_instance, detach_instance, bridge_exits, begin_close,
  signal_close, abandon_requests, close_subscribers, end_close,
}

-- How far `closeWith` has come, with the instance it will shut down and its error.
pub data Closer : Type 0 where
  unbegun : Closer
  announced : Option ℕ → GoError → Closer
  signalled : Option ℕ → GoError → Closer
  drained : Option ℕ → GoError → Closer
  swept : Option ℕ → Closer
  ended : Closer

pub record World : Type 0 where
  pub client : Client
  pub closer : Closer

abbrev pub with_client : World → Client → World
with_client w c = record w { client = c }

-- The receive of an event in `Subscription.Next`.
unfoldable pub take_event : Subscriber → Subscriber
take_event s = elim s.events [ [] ↦ s | _ ∷ rest ↦ record s { events = rest } ]

-- The receive of an error.
unfoldable pub take_error : Subscriber → Subscriber
take_error s = elim s.errors [ [] ↦ s | _ ∷ rest ↦ record s { errors = rest } ]

pub data Step (w : World) : World → Type 0 where
  subscribes :
      (buffer : ℕ) (turn : Bool)
      → w.client.next_sub + 1 < 2 ^ 64
      → Step w (with_client w (subscribe_owned w.client buffer turn).0)
  unsubscribes : (id : ℕ) → Step w (with_client w (unsubscribe w.client id))
  takes_event :
      (id : ℕ)
      → Step w (with_client w (record (w.client) { subs = alter take_event id w.client.subs }))
  takes_error :
      (id : ℕ)
      → Step w (with_client w (record (w.client) { subs = alter take_error id w.client.subs }))
  reads_event : (e : Event) → Step w (with_client w (dispatch_event w.client e))
  reads_reply : (id : ℕ) (f : ServerFrame) → Step w (with_client w (dispatch_reply w.client id f))
  requests :
      (internal observed : Bool) (entered : Client × ℕ)
      → w.client.next_id + 1 < 2 ^ 64
      → begin_request w.client internal observed ≡ ok entered
      → Step w (with_client w entered.0)
  gives_up : (id : ℕ) → Step w (with_client w (remove_pending w.client id))
  sets_state : (s : State) → Step w (with_client w (set_state w.client s))
  abandons : Step w (with_client w (abandon_requests w.client))
  drops_all : (e : GoError) → Step w (with_client w (close_subscribers w.client e))
  drops_turns : (e : GoError) → Step w (with_client w (fail_turn_subscribers e w.client))
  adopts : (i : ℕ) (monitor : Option ℕ) → Step w (with_client w (set_instance w.client i monitor))
  detaches : Step w (with_client w (detach_instance w.client).0)
  bridge_ends : (m : ℕ) → Step w (with_client w (bridge_exits w.client m))
  close_begins :
      (e : GoError)
      → w.client.close_once ≡ false
      → Step w (record { client = begin_close w.client; closer = announced w.client.instance_id e })
  close_signals :
      (i : Option ℕ) (e : GoError)
      → w.closer ≡ announced i e
      → Step w (record { client = signal_close w.client e; closer = signalled i e })
  close_drains :
      (i : Option ℕ) (e : GoError)
      → w.closer ≡ signalled i e
      → Step w (record { client = abandon_requests w.client; closer = drained i e })
  close_sweeps :
      (i : Option ℕ) (e : GoError)
      → w.closer ≡ drained i e
      → Step w (record { client = close_subscribers w.client e; closer = swept i })
  close_ends :
      (i : Option ℕ)
      → w.closer ≡ swept i
      → Step w (record { client = end_close w.client i; closer = ended })

pub data Reach (w : World) : World → Type 0 where
  here : Reach w w
  next : {v u : World} → Reach w v → Step v u → Reach w u

unfoldable pub start : Options → World
start o = record { client = new_client o; closer = unbegun }
