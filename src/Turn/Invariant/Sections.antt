-- ===== src/Turn/Invariant/Sections.antt =====
-- turn.go: each section that the mutex guards keeps a turn sound.
use jcode_go.Common.{
  ℕ, ◌≡◌, ◌≢◌, refl, true, [], ◌∷◌, String, Option, none, some, arith, length-append, codes, inl,
  inr, Bool-cases,
}
use jcode_go.Errors.{GoError}
use jcode_go.Observation.{Observation, observed}
use jcode_go.Session.TypedEvent.{TypedEvent}
use jcode_go.Turn.Result.{TurnResult, turn_result_of_error}
use jcode_go.Turn.State.{
  Turn, idle, running, new_turn, mark_write_complete, finish_acceptance, finish_terminal,
  publish_event, finish_turn_done, observe_cancel_ok, begin_cancel, finish_cancel,
  turn_cancel_error_kind, emit, to_emit, emit_terminal, close_subscription,
}
use jcode_go.Turn.Dispatch.{accept, note_first, ignore_advisory, advisory_ignored, note_accepted}
use jcode_go.Turn.System.{start, take_event}
use jcode_go.Turn.Invariant.{outcomes-append, Caused, IsSound, Inv}

pub start-Inv : (buffer : ℕ) → Inv (start buffer)
unfolding start new_turn
start-Inv buffer = ground arith

pub finish_terminal-IsSound :
    (t : Turn) (r : TurnResult)
    → Caused r.kind r.cause
    → IsSound t
    → IsSound (finish_terminal t r).0
unfolding finish_terminal
finish_terminal-IsSound t r c s = ground arith

pub emit_terminal-IsSound :
    (t : Turn) (r : TurnResult) → t.announcing ≡ to_emit r → IsSound t → IsSound (emit_terminal t)
unfolding emit_terminal
emit_terminal-IsSound t r h s = ground (
  arith,
  outcomes-append t.log (record (observed "turn_terminal") { outcome = some r.kind } ∷ []),
)

pub close_subscription-IsSound : (t : Turn) → IsSound t → IsSound (close_subscription t)
unfolding close_subscription
close_subscription-IsSound t s = ground arith

pub finish_terminal-over : (t : Turn) (r : TurnResult) → (finish_terminal t r).0.is_over ≡ true
unfolding finish_terminal
finish_terminal-over t r = ground arith

pub finish_terminal-events :
    (t : Turn) (r : TurnResult) → (finish_terminal t r).0.events_done ≡ t.events_done
unfolding finish_terminal
finish_terminal-events t r = ground arith

pub publish_event-IsSound : (t : Turn) (e : TypedEvent) → IsSound t → IsSound (publish_event t e).0
unfolding publish_event
publish_event-IsSound t e s = ground (arith, length-append t.queue (e ∷ []))

pub finish_turn_done-IsSound :
    (t : Turn) (e : TypedEvent) → IsSound t → IsSound (finish_turn_done t e).0
unfolding finish_turn_done
finish_turn_done-IsSound t e s = ground (arith, length-append t.queue (e ∷ []))

pub emit-IsSound : (t : Turn) (o : Observation) → o.outcome ≡ none → IsSound t → IsSound (emit t o)
emit-IsSound t o h s = ground (arith, outcomes-append t.log (o ∷ []))

pub warned-IsSound : (t : Turn) → IsSound t → IsSound (record t { advisory_warned = true })
warned-IsSound t s = ground arith

-- StartTurn, watchLifecycle, markWriteComplete and the cancel attempt.
pub turn_result_of_error-Caused :
    (e : GoError) → Caused (turn_result_of_error e).kind (turn_result_of_error e).cause
unfolding turn_result_of_error
turn_result_of_error-Caused e = ground arith

pub mark_write_complete-IsSound : (t : Turn) → IsSound t → IsSound (mark_write_complete t)
unfolding mark_write_complete
mark_write_complete-IsSound t s = ground arith

pub observe_cancel_ok-IsSound :
    (t : Turn) → t.attempt ≢ idle → IsSound t → IsSound (observe_cancel_ok t)
unfolding observe_cancel_ok
observe_cancel_ok-IsSound t h s = ground arith

pub begin_cancel-IsSound : (t : Turn) → IsSound t → IsSound (begin_cancel t)
unfolding begin_cancel
begin_cancel-IsSound t s =
    ground (arith, outcomes-append t.log (observed "turn_cancel_request_start" ∷ []))

pub finish_cancel-IsSound :
    (t : Turn) (e : Option GoError) → t.attempt ≡ running → IsSound t → IsSound (finish_cancel t e)
unfolding finish_cancel
finish_cancel-IsSound t none h s =
    ground (arith, outcomes-append t.log (observed "turn_cancel_request_complete" ∷ []))
finish_cancel-IsSound t (some e) h s = ground (
  arith,
  outcomes-append t.log (
      record (observed "turn_cancel_request_error") { error = codes (turn_cancel_error_kind e) }
      ∷ []),
)

pub take_event-IsSound : (t : Turn) → IsSound t → IsSound (take_event t)
unfolding take_event
take_event-IsSound t s = ground arith

pub accept-IsSound : (t : Turn) → IsSound t → IsSound (accept t)
unfolding accept finish_acceptance
accept-IsSound t s = ground (arith, outcomes-append t.log (observed "turn_prompt_accepted" ∷ []))

pub note_accepted-IsSound : (t : Turn) → IsSound t → IsSound (note_accepted t)
unfolding note_accepted
note_accepted-IsSound t s = ground arith

pub note_first-IsSound : (t : Turn) → IsSound t → IsSound (note_first t)
unfolding note_first
note_first-IsSound t s = ground (arith, outcomes-append t.log (observed "turn_first_event" ∷ []))

pub ignore_advisory-IsSound :
    (t : Turn) (kind : String) (e : TypedEvent) → IsSound t → IsSound (ignore_advisory t kind e)
unfolding ignore_advisory
ignore_advisory-IsSound t kind e s = elim (Bool-cases t.advisory_warned) [
  | inl h ↦ simp h s
  | inr h ↦ simp h (
      emit-IsSound (record t { advisory_warned = true }) (advisory_ignored kind e) refl
        (warned-IsSound t s))
]
