-- ===== src/Turn/Dispatch.antt =====
-- turn.go: one round of the loop of `dispatch`, and the end of it.
use jcode_go.Common.Channel.{close}
use jcode_go.Common.{
  Bool, true, false, List, [], ◌∷◌, String, Option, none, some, str_eq, codes, if◌then◌else◌,
}
use jcode_go.Errors.{event_error, wrap, Result, ok, err}
use jcode_go.Observation.{Observation, observed, provider_error, protocol_error}
use jcode_go.Protocol.Event as Wire
use jcode_go.Protocol.Event.{error}
use jcode_go.Session.Identifier.{sanitize, bounded_message, unknown_kind, unknown_type}
use jcode_go.Session.TypedEvent.{
  TypedEvent, SemanticClass, advisory_lifecycle, Event, semantic_class_of, typed_event_type,
  new_compatibility_error, decode_typed_event,
}
use jcode_go.Turn.Result.{because, protocol_turn_error, turn_result_of_error}
use jcode_go.Turn.State.{
  Turn, accepted, TurnState, cancel_requested, emit, finish_acceptance, finish_terminal,
  publish_event, finish_turn_done, overflow_result, emit_terminal, close_subscription,
}

-- Where the goroutine of `dispatch` stands: before the next event, between the two guarded
-- sections for message_accepted, before the deferred close of the channel, or gone.
pub data Phase : Type 0 where
  waiting noting closing stopped : Phase

abbrev pub advisory_ignored : String → TypedEvent → Observation
advisory_ignored kind e =
    let k = sanitize (codes kind) unknown_kind in
    let t = sanitize (codes (typed_event_type e)) unknown_type in
    record (observed "turn_advisory_ignored") {
      error = bounded_message k t;
      event_kind = k;
      event_type = t;
      disposition = "advisory_lifecycle";
    }

-- `ignoreAdvisory`
unfoldable pub ignore_advisory : Turn → String → TypedEvent → Turn
ignore_advisory t kind e =
    if t.advisory_warned
    then t
    else emit (record t { advisory_warned = true }) (advisory_ignored kind e)

abbrev pub over : Turn × Bool → Turn × Phase
over (t, _) = (t, closing)

-- The end of a round, for a decoded event of the class.
unfoldable pub handle_class : Turn → String → TypedEvent → Option SemanticClass → Turn × Phase
unfolding ignore_advisory
handle_class t kind e none =
    over (
      finish_terminal t
        (because protocol_error (new_compatibility_error kind (typed_event_type e))))
handle_class t kind e (some advisory_lifecycle) = (ignore_advisory t kind e, waiting)
handle_class t kind e (some _) =
    if str_eq kind "turn_done"
    then over (finish_turn_done t e)
    else (let (t', published) = publish_event t e in
        if published then (t', waiting) else over (finish_terminal t' overflow_result))

unfoldable pub handle_decoded : Turn → String → Result TypedEvent → Turn × Phase
unfolding handle_class
handle_decoded t kind (err e) =
    over (finish_terminal t (because protocol_error (protocol_turn_error e)))
handle_decoded t kind (ok e) = handle_class t kind e (semantic_class_of e)

unfoldable pub note_first : Turn → Turn
note_first t =
    if t.first_event
    then emit (record t { first_event = false }) (observed "turn_first_event")
    else t

unfoldable pub handle_wire : Turn → Event → Wire.Event → Turn × Phase
unfolding handle_decoded
handle_wire t e (error code m provider_code) = over (
    finish_terminal t
      (because provider_error (wrap "turn failed" (event_error code "" provider_code))))
handle_wire t e _ = handle_decoded t e.kind (decode_typed_event e)

-- An event other than message_accepted, once `turn_first_event` is reported.
unfoldable pub handle_event : Turn → Event → Turn × Phase
unfolding handle_wire
handle_event t e = handle_wire t e e.frame.event

-- The first guarded section for message_accepted, and the observation.
unfoldable pub accept : Turn → Turn
accept t =
    let (t', set) = finish_acceptance t none in
    if set then emit t' (observed "turn_prompt_accepted") else t'

abbrev asked_to_cancel : TurnState → Bool
asked_to_cancel cancel_requested = true
asked_to_cancel _ = false

-- The second guarded section for message_accepted.
unfoldable pub note_accepted : Turn → Turn
note_accepted t =
    if t.is_over then t else if asked_to_cancel t.state then t else record t { state = accepted }

-- A round of the loop, for what `subscription.Next` returned.
unfoldable pub receive : Turn → Result Event → Turn × Phase
unfolding note_first handle_event accept
receive t (err e) = over (finish_terminal t (turn_result_of_error e))
receive t (ok e) =
    if str_eq e.kind "message_accepted" then (accept t, noting) else handle_event (note_first t) e

-- `defer close(t.events)`
unfoldable pub close_events : Turn → Turn
close_events t = record t { events_done = close t.events_done }

-- `dispatch` with nothing in between, its announcement of the end included, on what the subscription delivers; a turn whose inputs run
-- out is still waiting.
abbrev continue : (Turn → Turn × Phase) → Turn × Phase → Turn × Phase
continue next (t, waiting) = next t
continue next (t, noting) = next (note_accepted t)
continue next (t, closing) = (close_events (close_subscription (emit_terminal t)), stopped)
continue next (t, stopped) = (t, stopped)

unfoldable pub dispatch : List (Result Event) → Turn → Turn × Phase
unfolding receive emit_terminal close_subscription
dispatch [] t = (t, waiting)
dispatch (input ∷ inputs) t = continue (dispatch inputs) (receive t input)
