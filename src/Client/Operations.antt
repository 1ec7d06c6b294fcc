-- ===== src/Client/Operations.antt =====
-- client.go: the sections of the client's methods that a mutex guards, and what they are made of.
use jcode_go.Common.Channel.{close}
use jcode_go.Common.{
  ℕ, ◌+◌, ◌%◌, ◌^◌, Bool, true, false, not, ◌&&◌, ◌||◌, List, [], ◌∷◌, ◌++◌, String, Option, none,
  some, codes, ◌==◌, if◌then◌else◌,
}
use jcode_go.Errors.{
  GoError, sentinel, err_closed, err_disconnected, err_bridge_exited, err_frame_too_large,
  err_transport_closed, eof, errors_is, Result, ok, err,
}
use jcode_go.Observation.{State, closing, disconnected, Observation, observed}
use jcode_go.Observation as Obs
use jcode_go.Protocol.Event.{ServerFrame}
use jcode_go.Session.TypedEvent.{Event}
use jcode_go.Client.Subscriber.{is_signalled, new_subscriber, deliver, close_listed, fail_turn}
use jcode_go.Client.Request.{new_request, reply_to, remove, abandon}
use jcode_go.Client.State.{
  Client, enter, alter, each, set_state, is_connected, is_disconnected, is_closed, is_closing,
}

-- `atomic.Uint64.Add(1)`
abbrev pub bump : ℕ → ℕ
bump n = (n + 1) % 2 ^ 64

-- `errorKind`
unfoldable pub error_kind : GoError → String
error_kind e =
    if errors_is e eof
    then "eof"
    else if errors_is e err_frame_too_large
    then "frame_too_large"
    else if errors_is e err_transport_closed
    then "transport_closed"
    else "transport_error"

-- `subscribeOwned`: the number of the new subscription.
unfoldable pub subscribe_owned : Client → ℕ → Bool → Client × ℕ
subscribe_owned c buffer turn =
    let id = bump c.next_sub in
    (
      record c {
        next_sub = id;
        subs = enter c.subs id (new_subscriber (is_signalled c.closed) buffer turn);
      },
      id,
    )

-- `unsubscribe`
unfoldable pub unsubscribe : Client → ℕ → Client
unsubscribe c id = record c { subs = alter (close_listed none) id c.subs }

-- `failTurnSubscribers`
unfoldable pub fail_turn_subscribers : GoError → Client → Client
fail_turn_subscribers e c = record c { subs = each (fail_turn e) c.subs }

abbrev fallback_error : State → GoError
fallback_error s = if is_closed s then sentinel err_closed else sentinel err_disconnected

-- `subscriptionError`: the error of the subscriber, in the map or not, or else the client's.
unfoldable pub subscription_error : Client → ℕ → GoError
subscription_error c id = elim (c.subs id) [
  | none ↦ fallback_error c.state
  | some s ↦ elim s.err [ none ↦ fallback_error c.state | some e ↦ e ]
]

-- `readLoop`, for a frame with `reply_to`.
unfoldable pub dispatch_reply : Client → ℕ → ServerFrame → Client
dispatch_reply c id f = record c { requests = alter (reply_to f) id c.requests }

-- `readLoop`, for an asynchronous event.
unfoldable pub dispatch_event : Client → Event → Client
dispatch_event c e = record c { subs = each (deliver e) c.subs }

-- `removePending`
unfoldable pub remove_pending : Client → ℕ → Client
remove_pending c id = record c { requests = alter remove id c.requests }

-- The guard of `disconnect`.
abbrev pub stays : State → Bool → Bool
stays s terminal = is_closed s || is_closing s || (is_disconnected s && not terminal)

-- `disconnect` behind its guard
unfoldable pub drop_connection : Client → GoError → Bool → Client
drop_connection c e terminal =
    let told : Client = if is_disconnected c.state then c else set_state c disconnected in
    record told {
      wire_open = false;
      requests = each abandon c.requests;
      subs =
          each (if terminal then close_listed (some e) else fail_turn (sentinel err_disconnected))
            c.subs;
      log = told.log ++ record (observed "disconnect") { error = codes (error_kind e) } ∷ [];
    }

-- `disconnect`
unfoldable pub disconnect : Client → GoError → Bool → Client
unfolding drop_connection
disconnect c e terminal = if stays c.state terminal then c else drop_connection c e terminal

-- `requestStateError`
unfoldable pub request_state_error : Client → GoError
request_state_error c = if is_closed c.state then sentinel err_closed else sentinel err_disconnected

-- The entry in `pending`, under its new number.
unfoldable pub enter_request : Client → Bool → Client × ℕ
enter_request c observed =
    let id = bump c.next_id in
    (record c { next_id = id; requests = enter c.requests id (new_request observed) }, id)

-- `requestWithReplyObserver`, up to that entry.
unfoldable pub begin_request : Client → Bool → Bool → Result (Client × ℕ)
unfolding request_state_error
begin_request c internal observed =
    if not internal && not (is_connected c.state)
    then err (request_state_error c)
    else if is_signalled c.closed
    then err (sentinel err_closed)
    else ok (enter_request c observed)

-- `cancelBridgeMonitorLocked`
abbrev pub cancel_bridge_monitor : Client → Client
cancel_bridge_monitor c = elim c.monitor [
  | none ↦ c
  | some m ↦ record c { monitor = none; canceled = λ k. (k == m) || c.canceled k }
]

-- `setInstance`, for an instance with a monitor of that number, or with none.
unfoldable pub set_instance : Client → ℕ → Option ℕ → Client
set_instance c i monitor = record (cancel_bridge_monitor c) {
  instance_id = some i;
  monitor = monitor;
}

abbrev pub is_ending : State → Bool
is_ending s = is_closing s || is_closed s

-- `DetachInstance`
unfoldable pub detach_instance : Client → Client × Option ℕ
detach_instance c = elim c.instance_id [
  | none ↦ (c, none)
  | some i ↦
      if is_ending c.state
      then (c, none)
      else (record (cancel_bridge_monitor c) { instance_id = none }, some i)
]

abbrev same_monitor : Option ℕ → ℕ → Bool
same_monitor none m = false
same_monitor (some k) m = k == m

abbrev owns : Option ℕ → Bool
owns none = false
owns (some _) = true

-- `watchBridgeExit`, once the bridge has exited.
unfoldable pub bridge_exits : Client → ℕ → Client
unfolding fail_turn_subscribers
bridge_exits c m =
    if not (same_monitor c.monitor m) || not (owns c.instance_id) || is_ending c.state
    then c
    else if c.canceled m
    then c
    else record (fail_turn_subscribers (sentinel err_bridge_exited) c) { monitor = none }

-- `closeWith`, section by section.
unfoldable pub begin_close : Client → Client
begin_close c =
    set_state (record (cancel_bridge_monitor c) { instance_id = none; close_once = true }) closing

unfoldable pub signal_close : Client → GoError → Client
signal_close c e = record c { close_err = some e; closed = close c.closed; wire_open = false }

unfoldable pub abandon_requests : Client → Client
abandon_requests c = record c { requests = each abandon c.requests }

unfoldable pub close_subscribers : Client → GoError → Client
close_subscribers c e = record c { subs = each (close_listed (some e)) c.subs }

abbrev pub shut_down : Option ℕ → List ℕ → List ℕ
shut_down none stopped = stopped
shut_down (some i) stopped = stopped ++ i ∷ []

unfoldable pub end_close : Client → Option ℕ → Client
end_close c i = record (set_state c Obs.State.closed) { stopped = shut_down i c.stopped }

-- `closeWith` with nothing in between
unfoldable pub close_with : Client → GoError → Client
close_with c e =
    if c.close_once
    then c
    else end_close (close_subscribers (abandon_requests (signal_close (begin_close c) e)) e)
        c.instance_id
