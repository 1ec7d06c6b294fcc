-- ===== src/Turn/Invariant/Steps.antt =====
-- turn.go: every step of every goroutine keeps the invariant.
use jcode_go.Common.{◌≡◌, ◌∙◌, true, Option, arith}
use mathlib.Core.Path.{subst}
use jcode_go.Errors.{GoError}
use jcode_go.Turn.Result.{TurnResult}
use jcode_go.Turn.State.{
  Turn, mark_write_complete, observe_cancel_ok, begin_cancel, finish_cancel, finish_terminal,
  emit_terminal, close_subscription,
}
use jcode_go.Turn.Dispatch.{Phase, waiting, noting, closing, stopped, note_accepted, close_events}
use jcode_go.Turn.System.{
  System, Step, receives, notes, closes, lifecycle_ends, tells, releases, write_completes,
  start_fails, cancel_begins, cancel_observed, cancel_ends, takes, Reach, here, next, at,
  take_event, end_lifecycle, fail_start,
}
use jcode_go.Turn.Invariant.{Ends, IsSound, Inv}
use jcode_go.Turn.Invariant.Sections.{
  finish_terminal-IsSound, finish_terminal-over, finish_terminal-events,
  turn_result_of_error-Caused, mark_write_complete-IsSound, observe_cancel_ok-IsSound,
  begin_cancel-IsSound, emit_terminal-IsSound, close_subscription-IsSound, finish_cancel-IsSound,
  take_event-IsSound, note_accepted-IsSound,
}
use jcode_go.Turn.Invariant.Rounds.{receive-Handles}

-- A section that leaves the channel of events alone and does not undo the end.
abbrev Keeps : Turn → Turn → Type 0
Keeps t u = (u.events_done ≡ t.events_done) × (t.is_over ≡ true → u.is_over ≡ true)

Ends-Keeps : (p : Phase) (t u : Turn) → Keeps t u → Ends p t → Ends p u
Ends-Keeps waiting t u (k, o) h = k ∙ h
Ends-Keeps noting t u (k, o) h = k ∙ h
Ends-Keeps closing t u (k, o) h = (k ∙ h.0, o h.1)
Ends-Keeps stopped t u (k, o) h = (k ∙ h.0, o h.1)

mark_write_complete-Keeps : (t : Turn) → Keeps t (mark_write_complete t)
unfolding mark_write_complete
mark_write_complete-Keeps t = ground arith

observe_cancel_ok-Keeps : (t : Turn) → Keeps t (observe_cancel_ok t)
unfolding observe_cancel_ok
observe_cancel_ok-Keeps t = ground arith

begin_cancel-Keeps : (t : Turn) → Keeps t (begin_cancel t)
unfolding begin_cancel
begin_cancel-Keeps t = ground arith

finish_cancel-Keeps : (t : Turn) (e : Option GoError) → Keeps t (finish_cancel t e)
unfolding finish_cancel
finish_cancel-Keeps t e = ground arith

take_event-Keeps : (t : Turn) → Keeps t (take_event t)
unfolding take_event
take_event-Keeps t = ground arith

note_accepted-Keeps : (t : Turn) → Keeps t (note_accepted t)
unfolding note_accepted
note_accepted-Keeps t = ground arith

emit_terminal-Keeps : (t : Turn) → Keeps t (emit_terminal t)
unfolding emit_terminal
emit_terminal-Keeps t = ground arith

close_subscription-Keeps : (t : Turn) → Keeps t (close_subscription t)
unfolding close_subscription
close_subscription-Keeps t = ground arith

ended : (t : Turn) (r : TurnResult) → Keeps t (finish_terminal t r).0
ended t r = (finish_terminal-events t r, λ _. finish_terminal-over t r)

closes-Inv : (t : Turn) → IsSound t → Ends closing t → Inv (at (close_events t, stopped))
unfolding close_events
closes-Inv t s h = ground arith

-- Every section of every goroutine, in any order, keeps the turn sound: each of its channels is
-- closed with its flag and never twice, there is a result exactly when the turn is over, one
-- slot of the event channel is free until then, and the channel is closed only after the end.
pub Step-Inv : {s u : System} → Step s u → Inv s → Inv u
unfolding end_lifecycle fail_start
Step-Inv {s} (receives input w) i =
    receive-Handles s.turn input i.0 (subst (λ p. Ends p s.turn) w i.1)
Step-Inv {s} (notes w) i = (
  note_accepted-IsSound s.turn i.0,
  (note_accepted-Keeps s.turn).0 ∙ subst (λ p. Ends p s.turn) w i.1,
)
Step-Inv {s} (closes w) i = closes-Inv s.turn i.0 (subst (λ p. Ends p s.turn) w i.1)
Step-Inv {s} (lifecycle_ends expired cause) i = (
  finish_terminal-IsSound s.turn _ (ground arith) i.0,
  Ends-Keeps s.phase s.turn _ (ended s.turn _) i.1,
)
Step-Inv {s} (tells r h) i = (
  emit_terminal-IsSound s.turn r h i.0,
  Ends-Keeps s.phase s.turn _ (emit_terminal-Keeps s.turn) i.1,
)
Step-Inv {s} (releases h) i = (
  close_subscription-IsSound s.turn i.0,
  Ends-Keeps s.phase s.turn _ (close_subscription-Keeps s.turn) i.1,
)
Step-Inv {s} write_completes i = (
  mark_write_complete-IsSound s.turn i.0,
  Ends-Keeps s.phase s.turn _ (mark_write_complete-Keeps s.turn) i.1,
)
Step-Inv {s} (start_fails e) i = (
  finish_terminal-IsSound s.turn _ (turn_result_of_error-Caused e) i.0,
  Ends-Keeps s.phase s.turn _ (ended s.turn _) i.1,
)
Step-Inv {s} cancel_begins i =
    (begin_cancel-IsSound s.turn i.0, Ends-Keeps s.phase s.turn _ (begin_cancel-Keeps s.turn) i.1)
Step-Inv {s} (cancel_observed h) i = (
  observe_cancel_ok-IsSound s.turn h i.0,
  Ends-Keeps s.phase s.turn _ (observe_cancel_ok-Keeps s.turn) i.1,
)
Step-Inv {s} (cancel_ends e h) i = (
  finish_cancel-IsSound s.turn e h i.0,
  Ends-Keeps s.phase s.turn _ (finish_cancel-Keeps s.turn e) i.1,
)
Step-Inv {s} takes i =
    (take_event-IsSound s.turn i.0, Ends-Keeps s.phase s.turn _ (take_event-Keeps s.turn) i.1)

-- Whatever interleaving leads from a sound system to another: each flag of the turn agrees with the
-- channel that is closed with it, no channel is closed twice or written after it was closed, the
-- queue keeps its reserved slot until the end, a turn that is over has a result, of which the
-- observer was told once or which the goroutine that ended the turn is still to tell, the turn closes
-- its subscription only after that, and the channel of events is closed exactly when the dispatcher
-- has stopped.
pub Reach-Inv : {s u : System} → Inv s → Reach s u → Inv u
Reach-Inv i here = i
Reach-Inv i (next r st) = Step-Inv st (Reach-Inv i r)
