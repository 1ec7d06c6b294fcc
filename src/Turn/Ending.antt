-- ===== src/Turn/Ending.antt =====
-- The outcome of a turn is settled once, and is what its callers are told from then on.
use mathlib.Core.Path.{subst}
use jcode_go.Common.{
  ℕ, ◌≡◌, ◌≢◌, refl, inl, inr, ◌↔◌, ◌⊎◌, ◌∙◌, true, [], String, Option, none, some, arith, str_eq,
  Bool-cases, if◌then◌else◌,
}
use jcode_go.Errors.{GoError, Result, ok, err}
use jcode_go.Observation.{completed}
use jcode_go.Protocol.Event as Wire
use jcode_go.Protocol.Event.{hello_ok, ok_reply, error, raw_event, unknown_event}
use jcode_go.Session.TypedEvent.{
  TypedEvent, Event, SemanticClass, content_progress, advisory_lifecycle, terminal, permission,
  tool_effect, semantic_class_of, decode_typed_event,
}
use jcode_go.Turn.Result.{TurnResult}
use jcode_go.Turn.State.{
  Turn, mark_write_complete, finish_terminal, publish_event, finish_turn_done, overflow_result,
  observe_cancel_ok, begin_cancel, finish_cancel, finish_acceptance, to_emit, emit_terminal,
  close_subscription,
}
use jcode_go.Turn.Dispatch.{
  waiting, stopped, over, handle_class, handle_decoded, handle_wire, handle_event, note_first,
  accept, note_accepted, receive, close_events,
}
use jcode_go.Turn.System.{
  System, Step, receives, notes, closes, lifecycle_ends, tells, releases, write_completes,
  start_fails, cancel_begins, cancel_observed, cancel_ends, takes, Reach, here, next, start,
  take_event, end_lifecycle, fail_start,
}
use jcode_go.Turn.Callers.{accepted_by, or_eof, next_event, wait_for}
use jcode_go.Turn.Invariant.{Ends, IsSound, Inv, outcomes}
use jcode_go.Turn.Invariant.Sections.{start-Inv}
use jcode_go.Turn.Invariant.Steps.{Reach-Inv}

-- The turn is over with acceptance settled.
abbrev pub IsEnded : Turn → Type 0
IsEnded t = (t.is_over ≡ true) × (t.acceptance_set ≡ true)

-- Nothing that a caller can wait for has changed.
abbrev pub Same : Turn → Turn → Type 0
Same t u =
    (u.is_over ≡ t.is_over)
    × (u.result ≡ t.result)
    × (u.acceptance_set ≡ t.acceptance_set)
    × (u.acceptance_err ≡ t.acceptance_err)

pub Same-trans : (t u v : Turn) → Same t u → Same u v → Same t v
Same-trans t u v a b = (b.0 ∙ a.0, b.1 ∙ a.1, b.2 ∙ a.2, b.3 ∙ a.3)

module _ (t : Turn) (o : IsEnded t) where
  finish_terminal-Same : (r : TurnResult) → Same t (finish_terminal t r).0
  unfolding finish_terminal
  finish_terminal-Same r = ground arith

  publish-Same :
      (e : TypedEvent)
      → Same t
          (let (t', published) = publish_event t e in
            (if published then (t', waiting) else over (finish_terminal t' overflow_result))).0
  unfolding publish_event finish_terminal
  publish-Same e = ground arith

  content-Same :
      (kind : String) (e : TypedEvent)
      → Same t
          (if str_eq kind "turn_done"
            then over (finish_turn_done t e)
            else (let (t', published) = publish_event t e in
                if published then (t', waiting) else over (finish_terminal t' overflow_result))).0
  unfolding publish_event finish_terminal finish_turn_done
  content-Same kind e = ground arith

  handle_class-Same :
      (kind : String) (e : TypedEvent) (c : Option SemanticClass)
      → Same t (handle_class t kind e c).0
  unfolding handle_class
  handle_class-Same kind e none = finish_terminal-Same _
  handle_class-Same kind e (some advisory_lifecycle) = ground arith
  handle_class-Same kind e (some content_progress) = content-Same kind e
  handle_class-Same kind e (some terminal) = content-Same kind e
  handle_class-Same kind e (some permission) = content-Same kind e
  handle_class-Same kind e (some tool_effect) = content-Same kind e

  handle_decoded-Same : (kind : String) (e : Result TypedEvent) → Same t (handle_decoded t kind e).0
  unfolding handle_decoded
  handle_decoded-Same kind (err e) = finish_terminal-Same _
  handle_decoded-Same kind (ok e) = handle_class-Same kind e (semantic_class_of e)

  handle_wire-Same : (e : Event) (v : Wire.Event) → Same t (handle_wire t e v).0
  unfolding handle_wire
  handle_wire-Same e (error c m p) = finish_terminal-Same _
  handle_wire-Same e _ = handle_decoded-Same e.kind (decode_typed_event e)

  accept-Same : Same t (accept t)
  unfolding accept finish_acceptance
  accept-Same = ground arith

  note_first-Same : Same t (note_first t)
  unfolding note_first
  note_first-Same = ground arith

receive-Same : (t : Turn) → IsEnded t → (input : Result Event) → Same t (receive t input).0
unfolding receive
receive-Same t o (err e) = finish_terminal-Same t o _
receive-Same t o (ok e) = elim (Bool-cases (str_eq e.kind "message_accepted")) [
  | inl b ↦ rw b (accept-Same t o)
  | inr b ↦
      let first = note_first-Same t o in
      rw b (
        Same-trans t (note_first t) (handle_event (note_first t) e).0 first
          (handle_wire-Same (note_first t) (first.0 ∙ o.0, first.2 ∙ o.1) e e.frame.event))
]

note_accepted-Same : (t : Turn) → IsEnded t → Same t (note_accepted t)
unfolding note_accepted
note_accepted-Same t o = ground arith

pub Inv-IsEnded : (s : System) → Inv s → s.turn.is_over ≡ true → IsEnded s.turn
Inv-IsEnded s i o = ground arith

-- No step changes the outcome or the acceptance of a turn that is over.
pub Step-Same : {s u : System} → Step s u → IsEnded s.turn → Same s.turn u.turn
unfolding end_lifecycle fail_start mark_write_complete begin_cancel observe_cancel_ok finish_cancel
    take_event close_events emit_terminal close_subscription
Step-Same {s} (receives input w) o = receive-Same s.turn o input
Step-Same {s} (notes w) o = note_accepted-Same s.turn o
Step-Same {s} (closes w) o = (refl, refl, refl, refl)
Step-Same {s} (lifecycle_ends expired cause) o = finish_terminal-Same s.turn o _
Step-Same {s} (tells r h) o = ground arith
Step-Same {s} (releases h) o = ground arith
Step-Same {s} write_completes o = ground arith
Step-Same {s} (start_fails e) o = finish_terminal-Same s.turn o _
Step-Same {s} cancel_begins o = ground arith
Step-Same {s} (cancel_observed h) o = ground arith
Step-Same {s} (cancel_ends e h) o = ground arith
Step-Same {s} takes o = ground arith

Reach-Same : {s u : System} → IsEnded s.turn → Reach s u → Same s.turn u.turn
Reach-Same o here = (refl, refl, refl, refl)
Reach-Same {s} {u} o (next {t = m} r st) =
    let before = Reach-Same o r in
    Same-trans s.turn m.turn u.turn before (Step-Same st (before.0 ∙ o.0, before.2 ∙ o.1))

announced_once :
    (t : Turn) (r : TurnResult)
    → t.result ≡ some r
    → IsSound t
    → t.is_over ≡ true
    → (outcomes t.log ≡ 1) ⊎ ((outcomes t.log ≡ 0) × (t.announcing ≡ to_emit r))
announced_once t r is s o = ground arith

released_once : (t : Turn) → IsSound t → t.released ≡ true → outcomes t.log ≡ 1
released_once t s h = ground arith

settled_result : (t : Turn) → IsSound t → t.is_over ≡ true → (r : TurnResult) × (t.result ≡ some r)
settled_result t s o = ground arith

-- Once a turn is over, in whatever interleaving it ended and whatever happens later: there is one
-- result, every `Wait` answers it at once whether or not its context is done, every `Accepted`
-- answers what it answered at the end, and the observer was told exactly one terminal outcome, or
-- none yet, while the goroutine that ended the turn is still to tell it that result. The turn closes
-- its subscription only after the observer was told.
pub Reach-settled :
    {s u : System} (buffer : ℕ)
    → Reach (start buffer) s
    → Reach s u
    → s.turn.is_over ≡ true
    → (r : TurnResult) × (s.turn.result ≡ some r)
      × ((quit : Option GoError) → wait_for u.turn quit ≡ some (ok r))
      × ((quit : Option GoError)
          → (accepted_by u.turn quit ≡ accepted_by s.turn quit) × (accepted_by s.turn quit ≢ none))
      × ((outcomes u.turn.log ≡ 1) ⊎ ((outcomes u.turn.log ≡ 0) × (u.turn.announcing ≡ to_emit r)))
      × (u.turn.released ≡ true → outcomes u.turn.log ≡ 1)
unfolding wait_for accepted_by
Reach-settled {s} {u} buffer before after o =
    let i = Reach-Inv (start-Inv buffer) before in
    let e = Inv-IsEnded s i o in
    let same = Reach-Same e after in
    let j = Reach-Inv i after in
    let (r, is) = settled_result s.turn i.0 o in
    (
      r,
      is,
      λ quit. ground arith,
      λ quit. ground arith,
      announced_once u.turn r (same.1 ∙ is) j.0 (same.0 ∙ o),
      λ h. released_once u.turn j.0 h,
    )

-- When the dispatcher has stopped and the caller has read every event, `Next` answers io.EOF for a
-- completed turn, and the error of the result for any other.
pub Reach-stopped :
    {s : System} (buffer : ℕ) (quit : Option GoError)
    → Reach (start buffer) s
    → s.phase ≡ stopped
    → s.turn.queue ≡ []
    → (r : TurnResult) × (s.turn.result ≡ some r)
      × (next_event s.turn quit ≡ some (or_eof r.cause, s.turn))
      × ((r.cause ≡ none) ↔ (r.kind ≡ completed))
unfolding next_event
Reach-stopped {s} buffer quit before p q =
    let i = Reach-Inv (start-Inv buffer) before in
    let over' : Ends stopped s.turn = subst (λ p. Ends p s.turn) p i.1 in
    let (r, is) = settled_result s.turn i.0 over'.1 in (r, is, ground arith, ground arith)
