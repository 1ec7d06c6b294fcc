-- ===== src/Turn/Invariant.antt =====
-- What holds of a turn in every interleaving of the goroutines that share it.
pub mod Sections
pub mod Rounds
pub mod Steps
use jcode_go.Common.Channel.{Signal, pending, closed}
use jcode_go.Common.{
  ℕ, suc, ◌+◌, ◌≤◌, ◌<◌, ◌≡◌, ◌≢◌, refl, ◌⊎◌, ◌↔◌, Bool, true, false, List, [], ◌∷◌, ◌++◌, String,
  Option, none, some, arith, length, length-append, codes, str_eq, sym, inl, inr, Bool-cases, ◌∙◌,
  if◌then◌else◌,
}
use jcode_go.Errors.{GoError, wrap, Result, ok, err}
use jcode_go.Observation.{
  Observation, observed, TurnResultKind, completed, canceled, subscriber_overflow,
}
use jcode_go.Session.TypedEvent.{
  TypedEvent, Event, SemanticClass, content_progress, advisory_lifecycle,
  terminal as terminal_class, permission, tool_effect, semantic_class_of, decode_typed_event,
}
use jcode_go.Protocol.Event as Wire
use jcode_go.Protocol.Event.{hello_ok, ok_reply, error, raw_event, unknown_event}
use jcode_go.Turn.Result.{TurnResult, because, turn_result_of_error}
use jcode_go.Turn.State.{
  Turn, TurnState, terminal, idle, running, finished, CancelAttempt, new_turn, mark_write_complete,
  finish_acceptance, settle, finish_terminal, try_send, overflow_result, publish_event,
  finish_turn_done, observe_cancel_ok, begin_cancel, finish_cancel, turn_cancel_error_kind, emit,
  Announcing, not_ended, to_emit, to_close, announced, emit_terminal, close_subscription,
}
use jcode_go.Turn.Dispatch.{
  Phase, waiting, noting, closing, stopped, receive, accept, note_first, ignore_advisory,
  advisory_ignored, over, handle_class, handle_decoded, handle_event, handle_wire, note_accepted,
  close_events,
}
use jcode_go.Turn.System.{System, Step, Reach, start, at, take_event, end_lifecycle, fail_start}

-- How many terminal outcomes the observer was told.
abbrev pub outcomes : List Observation → ℕ
outcomes [] = 0
outcomes (o ∷ os) = elim o.outcome [ none ↦ outcomes os | some _ ↦ suc (outcomes os) ]

pub outcomes-append : (os ps : List Observation) → outcomes (os ++ ps) ≡ outcomes os + outcomes ps
outcomes-append [] ps = omega arith
outcomes-append (o ∷ os) ps = ground (arith, outcomes-append os ps)

-- A flag and the channel that is closed with it.
abbrev pub Signals : Bool → Signal → Type 0
Signals true s = s ≡ closed
Signals false s = s ≡ pending

abbrev pub Ends : Phase → Turn → Type 0
Ends waiting t = t.events_done ≡ pending
Ends noting t = t.events_done ≡ pending
Ends closing t = (t.events_done ≡ pending) × (t.is_over ≡ true)
Ends stopped t = (t.events_done ≡ closed) × (t.is_over ≡ true)

-- Only a completed turn has no error.
abbrev pub Caused : TurnResultKind → Option GoError → Type 0
Caused kind none = kind ≡ completed
Caused kind (some _) = kind ≢ completed

abbrev pub Settled : Option TurnResult → Type 0
Settled none = ⊥
Settled (some r) = Caused r.kind r.cause

-- After the end the observer is told one outcome, and the subscription is closed after that.
abbrev pub Announced : Announcing → Turn → Type 0
Announced not_ended t = ⊥
Announced (to_emit r) t = (t.result ≡ some r) × (outcomes t.log ≡ 0) × (t.released ≡ false)
Announced to_close t = (outcomes t.log ≡ 1) × (t.released ≡ false)
Announced announced t = (outcomes t.log ≡ 1) × (t.released ≡ true)

-- Before the end there is no outcome and one slot of the channel is free; after it there is one.
abbrev pub Outcome : Bool → Turn → Type 0
Outcome false t =
    (t.result ≡ none)
    × (t.state ≢ terminal)
    × (length t.queue ≤ t.buffer)
    × (outcomes t.log ≡ 0)
    × (t.released ≡ false)
    × (t.announcing ≡ not_ended)
Outcome true t =
    Settled t.result
    × (t.state ≡ terminal)
    × (length t.queue ≤ t.buffer + 1)
    × (t.acceptance_set ≡ true)
    × Announced t.announcing t

abbrev pub Attempted : CancelAttempt → Turn → Type 0
Attempted idle t = (t.cancel_done ≡ pending) × (t.cancel_asked ≡ false)
Attempted running t = t.cancel_done ≡ pending
Attempted finished t = t.cancel_done ≡ closed

pub record IsSound (t : Turn) : Type 0 where
  pub acceptance : Signals t.acceptance_set t.accepted_done
  pub ending : Signals t.is_over t.terminal_done
  pub outcome : Outcome t.is_over t
  pub attempted : Attempted t.attempt t

abbrev pub Inv : System → Type 0
Inv s = IsSound s.turn × Ends s.phase s.turn
