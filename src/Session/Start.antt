-- ===== src/Session/Start.antt =====
-- session.go: `StartTurn`, and the stream of typed events. The lifecycle's context is done from the
-- start with the cause `lifecycle`, or not; `outcome` is that of the write, before which no other
-- goroutine takes a step here.
use jcode_go.Common.{ℕ, ◌+◌, true, String, Option, none, some, if◌then◌else◌}
use jcode_go.Errors.{GoError, sentinel, wrap, event_error, err_turn_no_reply, Result, ok, err}
use jcode_go.Observation.{observed}
use jcode_go.Protocol.Event as Wire
use jcode_go.Protocol.Event.{error}
use jcode_go.Protocol.Request.{RawRequest}
use jcode_go.Session.Sending.{SendOptions, validate_send_options, new_send_message_request}
use jcode_go.Session.TypedEvent.{TypedEvent, Event, decode_typed_event}
use jcode_go.Client.State.{Client, emit}
use jcode_go.Client.Calls.{notify}
use jcode_go.Client.Operations.{subscribe_owned, unsubscribe}
use jcode_go.Turn.Result.{turn_result_of_error}
use jcode_go.Turn.State.{Turn, new_turn, mark_write_complete}

-- A turn that was started, with the number of its subscription.
abbrev pub Started : Type 0
Started = Turn × ℕ

abbrev or_nil : Option GoError → GoError → GoError
or_nil (some e) otherwise = e
or_nil none otherwise = otherwise

-- From the notification on. A turn that fails tells the observer and closes its subscription.
abbrev pub started : Client → Turn → ℕ → Option GoError → Client × Result Started
started c t id none = (c, ok (mark_write_complete t, id))
started c t id (some e) =
    let r = turn_result_of_error e in
    let told = emit c (record (observed "turn_terminal") { outcome = some r.kind }) in
    (unsubscribe told id, err (wrap "send turn message" (or_nil r.cause e)))

unfoldable pub begin_turn : Client → Option GoError → Client × Result Started
begin_turn c outcome =
    let (subscribed, id) = subscribe_owned c (c.options.event_buffer + 2) true in
    let (told, failure) = notify subscribed "send_message" outcome in
    started told (new_turn c.options.event_buffer) id failure

abbrev encoded : Client → Option GoError → Result RawRequest → Client × Result Started
encoded c outcome (err e) = (c, err (wrap "encode turn message" e))
encoded c outcome (ok req) = begin_turn c outcome

abbrev checked :
    Client
    → SendOptions
    → Option GoError
    → Option GoError
    → Result RawRequest
    → Result (Unit {0})
    → Client × Result Started
checked c o lifecycle outcome req (err e) = (c, err e)
checked c o lifecycle outcome req (ok valid) =
    if o.no_reply then (c, err (sentinel err_turn_no_reply)) else elim lifecycle [
      | some cause ↦ (c, err (wrap "start turn lifecycle" cause))
      | none ↦ encoded (emit c (observed "turn_start")) outcome req
    ]

-- `StartTurn`
unfoldable pub start_turn :
    (String → Option ℕ)
    → ℕ
    → String
    → Client
    → String
    → SendOptions
    → Option GoError
    → Option GoError
    → Client × Result Started
unfolding begin_turn
start_turn parse now session c content o lifecycle outcome =
    checked c o lifecycle outcome (new_send_message_request session content o)
      (validate_send_options parse o now)

-- `TypedEventStream.Next`, for what its subscription returned.
abbrev typed_of : Event → Wire.Event → Result TypedEvent
typed_of e (error code m provider_code) = err (event_error code m provider_code)
typed_of e _ = decode_typed_event e

unfoldable pub next_typed : Result Event → Result TypedEvent
next_typed (err e) = err e
next_typed (ok e) = typed_of e e.frame.event
