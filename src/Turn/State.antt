-- ===== src/Turn/State.antt =====
-- turn.go: the fields of a `Turn` and the sections that its mutex guards, one function each.
use jcode_go.Common.Channel.{Signal, pending, closed, panicked, close}
use jcode_go.Common.{
  ℕ, ◌+◌, Bool, true, false, List, [], ◌∷◌, ◌++◌, String, Option, none, some, length, ltb, leb,
  codes, if◌then◌else◌,
}
use jcode_go.Errors.{
  GoError, sentinel, err_subscriber_overflow, err_turn_canceled, errors_is, deadline_exceeded,
  context_canceled, err_closed, err_disconnected,
}
use jcode_go.Observation.{Observation, observed, completed, canceled, subscriber_overflow}
use jcode_go.Session.TypedEvent.{TypedEvent}
use jcode_go.Turn.Result.{TurnResult, because}

pub data TurnState : Type 0 where
  starting awaiting_acceptance accepted cancel_requested terminal : TurnState

-- The shared cancel attempt: not begun, its request under way, its outcome known.
pub data CancelAttempt : Type 0 where
  idle running finished : CancelAttempt

-- What the goroutine that ended the turn has still to do after it gave the mutex back: call
-- `emitTerminal` with the result, then close the subscription.
pub data Announcing : Type 0 where
  not_ended : Announcing
  to_emit : TurnResult → Announcing
  to_close announced : Announcing

-- `queue` is the channel `events` of capacity `buffer + 1`; `first_event` is the variable of
-- `dispatch`; `released` says that the turn closed its subscription; `log` is what its client's
-- observer was told by the turn.
pub record Turn : Type 0 where
  pub buffer : ℕ
  pub queue : List TypedEvent
  pub events_done : Signal
  pub state : TurnState
  pub acceptance_set : Bool
  pub acceptance_err : Option GoError
  pub accepted_done : Signal
  pub is_over : Bool
  pub result : Option TurnResult
  pub terminal_done : Signal
  pub attempt : CancelAttempt
  pub cancel_asked : Bool
  pub cancel_err : Option GoError
  pub cancel_done : Signal
  pub advisory_warned : Bool
  pub first_event : Bool
  pub announcing : Announcing
  pub released : Bool
  pub log : List Observation

-- `newTurn`
unfoldable pub new_turn : ℕ → Turn
new_turn buffer = record {
  buffer = buffer;
  queue = [];
  events_done = pending;
  state = starting;
  acceptance_set = false;
  acceptance_err = none;
  accepted_done = pending;
  is_over = false;
  result = none;
  terminal_done = pending;
  attempt = idle;
  cancel_asked = false;
  cancel_err = none;
  cancel_done = pending;
  advisory_warned = false;
  first_event = true;
  announcing = not_ended;
  released = false;
  log = [];
}

abbrev pub emit : Turn → Observation → Turn
emit t o = record t { log = t.log ++ o ∷ [] }

abbrev is_starting : TurnState → Bool
is_starting starting = true
is_starting _ = false

abbrev is_cancel_requested : TurnState → Bool
is_cancel_requested cancel_requested = true
is_cancel_requested _ = false

-- `markWriteComplete`
unfoldable pub mark_write_complete : Turn → Turn
mark_write_complete t = if is_starting t.state then record t { state = awaiting_acceptance } else t

-- `finishAcceptance`
unfoldable pub finish_acceptance : Turn → Option GoError → Turn × Bool
finish_acceptance t e = if t.acceptance_set then (t, false) else (
  record t { acceptance_set = true; acceptance_err = e; accepted_done = close t.accepted_done },
  true,
)

-- `finishTerminalLocked`, once it has found the turn not over. Its caller is left to announce the
-- result.
unfoldable pub settle : Turn → TurnResult → Turn
unfolding finish_acceptance
settle t r =
    let a = (finish_acceptance t r.cause).0 in
    record a {
      is_over = true;
      state = terminal;
      result = some r;
      terminal_done = close a.terminal_done;
      announcing = to_emit r;
    }

-- `finishTerminalLocked`
unfoldable pub finish_terminal_locked : Turn → TurnResult → Turn × Bool
unfolding settle
finish_terminal_locked t r = if t.is_over then (t, false) else (settle t r, true)

-- `finishTerminal`, up to its `Unlock`
unfoldable pub finish_terminal : Turn → TurnResult → Turn × Bool
unfolding finish_terminal_locked
finish_terminal t r = finish_terminal_locked t r

-- `emitTerminal`, by the goroutine that ended the turn
unfoldable pub emit_terminal : Turn → Turn
emit_terminal t = elim t.announcing [
  | to_emit r ↦
      emit (record t { announcing = to_close })
        (record (observed "turn_terminal") { outcome = some r.kind })
  | not_ended ↦ t
  | to_close ↦ t
  | announced ↦ t
]

-- `t.subscription.Close()`, by the goroutine that ended the turn
unfoldable pub close_subscription : Turn → Turn
close_subscription t = elim t.announcing [
  | to_close ↦ record t { released = true; announcing = announced }
  | to_emit r ↦ t
  | not_ended ↦ t
  | announced ↦ t
]

-- A send on the channel of events, with `select` and a default: whether it was taken. A send on a
-- closed channel panics.
unfoldable pub try_send : Turn → TypedEvent → Turn × Bool
try_send t e = elim t.events_done [
  | pending ↦
      if ltb (length t.queue) (t.buffer + 1)
      then (record t { queue = t.queue ++ e ∷ [] }, true)
      else (t, false)
  | closed ↦ (record t { events_done = panicked }, false)
  | panicked ↦ (t, false)
]

-- `publishEvent`
unfoldable pub publish_event : Turn → TypedEvent → Turn × Bool
unfolding try_send
publish_event t e =
    if t.is_over
    then (t, false)
    else if leb t.buffer (length t.queue)
    then (t, false)
    else try_send t e

-- `TurnResult` of turn_done
abbrev pub done_result : Bool → TurnResult
done_result true = because canceled (sentinel err_turn_canceled)
done_result false = record { kind = completed; cause = none }

abbrev pub overflow_result : TurnResult
overflow_result = because subscriber_overflow (sentinel err_subscriber_overflow)

-- `finishTurnDone`, up to its `Unlock`
unfoldable pub finish_turn_done : Turn → TypedEvent → Turn × Bool
unfolding try_send settle
finish_turn_done t e =
    let (sent, taken) = try_send t e in
    let r : TurnResult = if taken then done_result t.cancel_asked else overflow_result in
    if t.is_over then (t, false) else (settle sent r, taken)

-- The reply observer of `requestCancel`, for a reply that is OK.
unfoldable pub observe_cancel_ok : Turn → Turn
observe_cancel_ok t =
    if t.is_over then t else record t { cancel_asked = true; state = cancel_requested }

-- The body of `cancelOnce.Do` in `Cancel`, under the once: a turn that is over starts no request.
unfoldable pub begin_cancel : Turn → Turn
begin_cancel t = elim t.attempt [
  | idle ↦
      if t.is_over
      then record t { attempt = finished; cancel_done = close t.cancel_done }
      else emit (record t { attempt = running }) (observed "turn_cancel_request_start")
  | running ↦ t
  | finished ↦ t
]

-- `turnCancelErrorKind`
unfoldable pub turn_cancel_error_kind : GoError → String
turn_cancel_error_kind e =
    if errors_is e deadline_exceeded
    then "request_timeout"
    else if errors_is e context_canceled
    then "request_canceled"
    else if errors_is e err_closed
    then "client_closed"
    else if errors_is e err_disconnected
    then "disconnected"
    else "request_failed"

-- The end of `runCancel`.
unfoldable pub finish_cancel : Turn → Option GoError → Turn
finish_cancel t e =
    let logged : Turn = elim e [
      | none ↦ emit t (observed "turn_cancel_request_complete")
      | some cause ↦ emit t (record (observed "turn_cancel_request_error") {
        error = codes (turn_cancel_error_kind cause);
      })
    ] in
    record logged { attempt = finished; cancel_err = e; cancel_done = close t.cancel_done }
