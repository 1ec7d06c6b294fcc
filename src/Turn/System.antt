-- ===== src/Turn/System.antt =====
-- A turn among the goroutines that share it: its dispatcher, the watcher of its lifecycle, its
-- starter, its cancel attempt and the caller who reads its events. A step is one section that the
-- mutex guards, one operation on a channel, or one of the two calls by which the end is announced
-- after the mutex was given back; they interleave in any order. A round of the dispatcher is one
-- step, with the observations other than turn_terminal that it makes. `closes` may also come before
-- the announcement of the same goroutine, which adds interleavings.
use jcode_go.Common.{ℕ, ◌≡◌, ◌≢◌, Bool, [], ◌∷◌, Option, if◌then◌else◌}
use jcode_go.Errors.{GoError, wrap, Result}
use jcode_go.Observation.{lifecycle_canceled, lifecycle_deadline_exceeded}
use jcode_go.Session.TypedEvent.{Event}
use jcode_go.Turn.Result.{TurnResult, because, turn_result_of_error}
use jcode_go.Turn.State.{
  Turn, idle, running, new_turn, mark_write_complete, finish_terminal, observe_cancel_ok,
  begin_cancel, finish_cancel, to_emit, to_close, emit_terminal, close_subscription,
}
use jcode_go.Turn.Dispatch.{
  Phase, waiting, noting, closing, stopped, receive, note_accepted, close_events,
}

pub record System : Type 0 where
  pub turn : Turn
  pub phase : Phase

-- `watchLifecycle`, once its context is done: by its deadline or not, and with what cause.
unfoldable pub end_lifecycle : Turn → Bool → GoError → Turn
end_lifecycle t expired cause =
    (finish_terminal t (
      because (if expired then lifecycle_deadline_exceeded else lifecycle_canceled)
        (wrap "turn lifecycle ended" cause))).0

-- `StartTurn`, when the message could not be written.
unfoldable pub fail_start : Turn → GoError → Turn
fail_start t e = (finish_terminal t (turn_result_of_error e)).0

-- The receive of `Next`, when an event is there.
unfoldable pub take_event : Turn → Turn
take_event t = elim t.queue [ [] ↦ t | _ ∷ rest ↦ record t { queue = rest } ]

abbrev pub at : Turn × Phase → System
at (t, p) = record { turn = t; phase = p }

pub data Step (s : System) : System → Type 0 where
  receives : (input : Result Event) → s.phase ≡ waiting → Step s (at (receive s.turn input))
  notes : s.phase ≡ noting → Step s (at (note_accepted s.turn, waiting))
  closes : s.phase ≡ closing → Step s (at (close_events s.turn, stopped))
  lifecycle_ends :
      (expired : Bool) (cause : GoError) → Step s (at (end_lifecycle s.turn expired cause, s.phase))
  tells :
      (r : TurnResult) → s.turn.announcing ≡ to_emit r → Step s (at (emit_terminal s.turn, s.phase))
  releases : s.turn.announcing ≡ to_close → Step s (at (close_subscription s.turn, s.phase))
  write_completes : Step s (at (mark_write_complete s.turn, s.phase))
  start_fails : (e : GoError) → Step s (at (fail_start s.turn e, s.phase))
  cancel_begins : Step s (at (begin_cancel s.turn, s.phase))
  cancel_observed : s.turn.attempt ≢ idle → Step s (at (observe_cancel_ok s.turn, s.phase))
  cancel_ends :
      (e : Option GoError)
      → s.turn.attempt ≡ running
      → Step s (at (finish_cancel s.turn e, s.phase))
  takes : Step s (at (take_event s.turn, s.phase))

pub data Reach (s : System) : System → Type 0 where
  here : Reach s s
  next : {t u : System} → Reach s t → Step t u → Reach s u

unfoldable pub start : ℕ → System
start buffer = record { turn = new_turn buffer; phase = waiting }
