-- ===== src/Turn/Result.antt =====
-- turn.go: terminal results, and their classes for the errors that end a subscription.
use jcode_go.Common.{Bool, true, false, ◌||◌, Option, none, some, if◌then◌else◌}
use jcode_go.Errors.{
  GoError, sentinel, message, event_error, compatibility, option_error, wrap, join, errors_is,
  err_bridge_exited, err_closed, err_subscriber_overflow, err_malformed_frame, err_invalid_frame,
  err_frame_too_large, err_disconnected, err_protocol_failure,
}
use jcode_go.Observation.{
  TurnResultKind, protocol_error, subscriber_overflow, bridge_exited, transport_disconnected,
  client_closed,
}

-- `cause` is the field Err, `none` for nil.
pub record TurnResult : Type 0 where
  pub kind : TurnResultKind
  pub cause : Option GoError

-- `isProtocolError`
unfoldable pub is_protocol_error : GoError → Bool
is_protocol_error e =
    errors_is e err_malformed_frame
    || errors_is e err_invalid_frame
    || errors_is e err_frame_too_large

-- `errors.As(err, &compatibility)`
unfoldable pub find_compatibility : GoError → Option GoError
find_compatibility (compatibility k t) = some (compatibility k t)
find_compatibility (wrap m e) = find_compatibility e
find_compatibility (join a b) =
    let later = find_compatibility b in
    elim (find_compatibility a) [ some c ↦ some c | none ↦ later ]
find_compatibility (sentinel s) = none
find_compatibility (message m) = none
find_compatibility (event_error c m p) = none
find_compatibility (option_error f) = none

abbrev add_cause : Bool → GoError → GoError → GoError
add_cause true cause e = join e cause
add_cause false cause e = e

-- `protocolTurnError`
unfoldable pub protocol_turn_error : GoError → GoError
unfolding find_compatibility
protocol_turn_error e = elim (find_compatibility e) [
  | some c ↦ c
  | none ↦ add_cause (errors_is e err_frame_too_large) (sentinel err_frame_too_large) (
      add_cause (errors_is e err_invalid_frame) (sentinel err_invalid_frame) (
        add_cause (errors_is e err_malformed_frame) (sentinel err_malformed_frame)
          (sentinel err_protocol_failure)))
]

abbrev pub because : TurnResultKind → GoError → TurnResult
because kind e = record { kind = kind; cause = some e }

-- `turnResultFromSubscriptionError`
unfoldable pub turn_result_of_error : GoError → TurnResult
unfolding is_protocol_error protocol_turn_error
turn_result_of_error e =
    if errors_is e err_bridge_exited
    then because bridge_exited (sentinel err_bridge_exited)
    else if errors_is e err_closed
    then because client_closed (sentinel err_closed)
    else if errors_is e err_subscriber_overflow
    then because subscriber_overflow (sentinel err_subscriber_overflow)
    else if is_protocol_error e
    then because protocol_error (protocol_turn_error e)
    else because transport_disconnected (sentinel err_disconnected)
