-- ===== src/Turn/Callers.antt =====
-- turn.go: what the callers of `Accepted`, `Next`, `Wait` and `waitCancel` see. The argument `quit`
-- is the error of the caller's context, if it is done; `none` as a result means that the call waits.
use jcode_go.Common.Channel.{Signal, pending, closed, panicked}
use jcode_go.Common.{List, [], ◌∷◌, String, Option, none, some, if◌then◌else◌}
use jcode_go.Errors.{GoError, sentinel, wrap, eof, Result, ok, err}
use jcode_go.Session.TypedEvent.{TypedEvent}
use jcode_go.Turn.Result.{TurnResult}
use jcode_go.Turn.State.{Turn}

abbrev pub unless_gone {ℓ} : {A : Type ℓ} → String → Option GoError → Option (Result A)
unless_gone m none = none
unless_gone m (some e) = some (err (wrap m e))

-- `acceptanceResult` behind `Accepted`: `ok` is a nil error.
abbrev pub acceptance : Option GoError → Result (Unit {0})
acceptance none = ok tt
acceptance (some e) = err e

-- `Accepted`
unfoldable pub accepted_by : Turn → Option GoError → Option (Result (Unit {0}))
accepted_by t quit =
    if t.acceptance_set
    then some (acceptance t.acceptance_err)
    else unless_gone "wait for turn acceptance" quit

abbrev cause_of : Option TurnResult → Option GoError
cause_of none = none
cause_of (some r) = r.cause

abbrev pub or_eof : Option GoError → Result TypedEvent
or_eof none = err (sentinel eof)
or_eof (some e) = err e

-- `nextResult`, for a closed channel
unfoldable pub closed_result : Turn → Result TypedEvent
closed_result t = if t.is_over then or_eof (cause_of t.result) else err (sentinel eof)

next_empty : Turn → Signal → Option GoError → Option (Result TypedEvent × Turn)
unfolding closed_result
next_empty t pending none = none
next_empty t pending (some e) = some (err (wrap "wait for turn event" e), t)
next_empty t _ quit = some (closed_result t, t)

next_from : Turn → List TypedEvent → Option GoError → Option (Result TypedEvent × Turn)
unfolding next_empty
next_from t [] quit = next_empty t t.events_done quit
next_from t (e ∷ rest) quit = some (ok e, record t { queue = rest })

-- `Next`: an event that is there wins over a context that is done, on both ways through the select.
unfoldable pub next_event : Turn → Option GoError → Option (Result TypedEvent × Turn)
unfolding next_from
next_event t quit = next_from t t.queue quit

abbrev pub outcome_of : Option TurnResult → Result TurnResult
outcome_of (some r) = ok r
outcome_of none = err (sentinel eof)

-- `Wait`; the zero result of a turn that is over does not occur, and reads as an error here.
unfoldable pub wait_for : Turn → Option GoError → Option (Result TurnResult)
wait_for t quit =
    if t.is_over then some (outcome_of t.result) else unless_gone "wait for turn completion" quit

-- `waitCancel`: a context that is done on entry wins.
unfoldable pub wait_cancel : Turn → Option GoError → Option (Result (Unit {0}))
wait_cancel t (some e) = some (err (wrap "wait for turn cancellation" e))
wait_cancel t none = elim t.cancel_done [
  | pending ↦ none
  | closed ↦ some (acceptance t.cancel_err)
  | panicked ↦ some (acceptance t.cancel_err)
]
