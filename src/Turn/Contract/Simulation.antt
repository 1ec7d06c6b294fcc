-- ===== src/Turn/Contract/Simulation.antt =====
-- Every interleaving of a turn's goroutines is one of its promise.
use jcode_go.Common.{
  ℕ, ◌≡◌, ◌≢◌, refl, ◌∙◌, ◌⊎◌, inl, inr, true, false, String, Option, none, some, arith, str_eq,
  Bool-cases, if◌then◌else◌,
}
use jcode_go.Errors.{GoError, Result, ok, err}
use jcode_go.Protocol.Event as Wire
use jcode_go.Protocol.Event.{hello_ok, ok_reply, error, raw_event, unknown_event}
use jcode_go.Session.TypedEvent.{
  TypedEvent, Event, SemanticClass, content_progress, advisory_lifecycle, terminal, permission,
  tool_effect, semantic_class_of, decode_typed_event,
}
use jcode_go.Turn.Result.{TurnResult}
use jcode_go.Turn.State.{
  Turn, new_turn, mark_write_complete, finish_terminal, publish_event, try_send, finish_turn_done,
  overflow_result, done_result, observe_cancel_ok, begin_cancel, finish_cancel, finish_acceptance,
  emit_terminal, close_subscription,
}
use jcode_go.Turn.Dispatch.{
  waiting, over, handle_class, handle_decoded, handle_wire, handle_event, note_first, accept,
  note_accepted, receive, close_events, ignore_advisory,
}
use jcode_go.Turn.System.{
  System, Step, receives, notes, closes, lifecycle_ends, tells, releases, write_completes,
  start_fails, cancel_begins, cancel_observed, cancel_ends, takes, Reach, here, next, start,
  take_event, end_lifecycle, fail_start,
}
use jcode_go.Turn.Invariant.{Inv}
use jcode_go.Turn.Invariant.Sections.{start-Inv}
use jcode_go.Turn.Invariant.Steps.{Reach-Inv}
use jcode_go.Turn.Ending.{Same, Step-Same, Inv-IsEnded}
use jcode_go.Turn.Callers.{accepted_by, wait_for}
use jcode_go.Turn.Contract.{
  Promise, under_way, kept, acceptance_at_end, Move, accepts, ends, Moves, stays, moves,
  acceptance_of, promise, promised_acceptance, promised_outcome,
}

abbrev Accepts : Turn → Turn → Type 0
Accepts t u =
    (u.is_over ≡ false)
    × (t.acceptance_set ≡ false)
    × (u.acceptance_set ≡ true)
    × (u.acceptance_err ≡ none)

abbrev Settles : Turn → TurnResult → Turn → Type 0
Settles t r u =
    (u.is_over ≡ true)
    × (u.result ≡ some r)
    × (u.acceptance_err ≡ (if t.acceptance_set then t.acceptance_err else r.cause))

-- What a section does to the promise of a turn under way.
abbrev Effect : Turn → Turn → Type 0
Effect t u = Same t u ⊎ Accepts t u ⊎ ((r : TurnResult) × Settles t r u)

abbrev Simulates : Turn → Turn → Type 0
Simulates t u = (promise u ≡ promise t) ⊎ Move (promise t) (promise u)

Effect-Simulates : (t u : Turn) → t.is_over ≡ false → Effect t u → Simulates t u
unfolding promise
Effect-Simulates t u o (inl s) = inl (ground (arith, o, s))
Effect-Simulates t u o (inr (inl a)) =
    let before : promise t ≡ under_way none = ground (arith, o, a) in
    let after : promise u ≡ under_way (some none) = ground (arith, a) in
    inr (rw (before, after) accepts)
Effect-Simulates t u o (inr (inr (r, s))) =
    let before : promise t ≡ under_way (acceptance_of t) = ground (arith, o) in
    let after : promise u ≡ kept (acceptance_at_end (acceptance_of t) r) r = ground (arith, s) in
    inr (rw (before, after) (ends (acceptance_of t) r))

Same-Simulates : (t u : Turn) → Same t u → Simulates t u
unfolding promise
Same-Simulates t u s = inl (ground (arith, s))

after-Same : (t u v : Turn) → Same t u → Effect u v → Effect t v
after-Same t u v s e = ground (arith, s, e)

module _ (t : Turn) (o : t.is_over ≡ false) where
  finish_terminal-Effect : (r : TurnResult) → Effect t (finish_terminal t r).0
  unfolding finish_terminal
  finish_terminal-Effect r = inr (inr (r, ground arith))

  accept-Effect : Effect t (accept t)
  unfolding accept finish_acceptance
  accept-Effect = ground arith

  note_first-Same : Same t (note_first t)
  unfolding note_first
  note_first-Same = ground arith

  publish-Same : (e : TypedEvent) → Same t (publish_event t e).0
  unfolding publish_event
  publish-Same e = ground arith

  done-Effect : (e : TypedEvent) → Effect t (finish_turn_done t e).0
  unfolding finish_turn_done
  done-Effect e =
      inr (
        inr
          (if (try_send t e).1 then done_result t.cancel_asked else overflow_result, ground arith))

over-Effect :
    (t u : Turn)
    → t.is_over ≡ false
    → Same t u
    → (r : TurnResult) → Effect t (finish_terminal u r).0
over-Effect t u o s r =
    after-Same t u (finish_terminal u r).0 s (finish_terminal-Effect u (s.0 ∙ o) r)

module _ (t : Turn) (o : t.is_over ≡ false) where
  publish-Effect :
      (e : TypedEvent)
      → Effect t
          (let (t', published) = publish_event t e in
            (if published then (t', waiting) else over (finish_terminal t' overflow_result))).0
  publish-Effect e =
      let same = publish-Same t o e in
      let t' = (publish_event t e).0 in
      elim (Bool-cases (publish_event t e).1) [
        | inl p ↦ rw p (inl same)
        | inr p ↦ rw p (over-Effect t t' o same overflow_result)
      ]

  content-Effect :
      (kind : String) (e : TypedEvent)
      → Effect t
          (if str_eq kind "turn_done"
            then over (finish_turn_done t e)
            else (let (t', published) = publish_event t e in
                if published then (t', waiting) else over (finish_terminal t' overflow_result))).0
  content-Effect kind e = elim (Bool-cases (str_eq kind "turn_done")) [
    | inl d ↦ rw d (done-Effect t o e)
    | inr d ↦ rw d (publish-Effect e)
  ]

  handle_class-Effect :
      (kind : String) (e : TypedEvent) (c : Option SemanticClass)
      → Effect t (handle_class t kind e c).0
  unfolding handle_class ignore_advisory
  handle_class-Effect kind e none = finish_terminal-Effect t o _
  handle_class-Effect kind e (some advisory_lifecycle) = inl (ground arith)
  handle_class-Effect kind e (some content_progress) = content-Effect kind e
  handle_class-Effect kind e (some terminal) = content-Effect kind e
  handle_class-Effect kind e (some permission) = content-Effect kind e
  handle_class-Effect kind e (some tool_effect) = content-Effect kind e

  handle_decoded-Effect :
      (kind : String) (e : Result TypedEvent) → Effect t (handle_decoded t kind e).0
  unfolding handle_decoded
  handle_decoded-Effect kind (err e) = finish_terminal-Effect t o _
  handle_decoded-Effect kind (ok e) = handle_class-Effect kind e (semantic_class_of e)

  handle_wire-Effect : (e : Event) (v : Wire.Event) → Effect t (handle_wire t e v).0
  unfolding handle_wire
  handle_wire-Effect e (error c m p) = finish_terminal-Effect t o _
  handle_wire-Effect e _ = handle_decoded-Effect e.kind (decode_typed_event e)

receive-Effect :
    (t : Turn) → t.is_over ≡ false → (input : Result Event) → Effect t (receive t input).0
unfolding receive handle_event
receive-Effect t o (err e) = finish_terminal-Effect t o _
receive-Effect t o (ok e) = elim (Bool-cases (str_eq e.kind "message_accepted")) [
  | inl b ↦ rw b (accept-Effect t o)
  | inr b ↦
      let first = note_first-Same t o in
      rw b (
        after-Same t (note_first t) (handle_event (note_first t) e).0 first
          (handle_wire-Effect (note_first t) (first.0 ∙ o) e e.frame.event))
]

-- A step of a turn under way.
open-Effect : {s u : System} → Step s u → s.turn.is_over ≡ false → Effect s.turn u.turn
unfolding end_lifecycle fail_start mark_write_complete begin_cancel observe_cancel_ok finish_cancel
    take_event close_events note_accepted emit_terminal close_subscription
open-Effect {s} (receives input w) o = receive-Effect s.turn o input
open-Effect {s} (notes w) o = inl (ground arith)
open-Effect {s} (closes w) o = inl (refl, refl, refl, refl)
open-Effect {s} (lifecycle_ends expired cause) o = finish_terminal-Effect s.turn o _
open-Effect {s} (tells r h) o = inl (ground arith)
open-Effect {s} (releases h) o = inl (ground arith)
open-Effect {s} write_completes o = inl (ground arith)
open-Effect {s} (start_fails e) o = finish_terminal-Effect s.turn o _
open-Effect {s} cancel_begins o = inl (ground arith)
open-Effect {s} (cancel_observed h) o = inl (ground arith)
open-Effect {s} (cancel_ends e h) o = inl (ground arith)
open-Effect {s} takes o = inl (ground arith)

Step-Simulates : {s u : System} → Inv s → Step s u → Simulates s.turn u.turn
Step-Simulates {s} {u} i st = elim (Bool-cases s.turn.is_over) [
  | inl o ↦ Same-Simulates s.turn u.turn (Step-Same st (Inv-IsEnded s i o))
  | inr o ↦ Effect-Simulates s.turn u.turn o (open-Effect st o)
]

then_simulates :
    {p : Promise} (t u : Turn) → Moves p (promise t) → Simulates t u → Moves p (promise u)
then_simulates t u before (inl same) = rw same before
then_simulates t u before (inr move) = moves before move

Reach-Moves : {s u : System} → Inv s → Reach s u → Moves (promise s.turn) (promise u.turn)
Reach-Moves i here = stays
Reach-Moves i (next {t = m} {u = u} r st) =
    then_simulates m.turn u.turn (Reach-Moves i r) (Step-Simulates (Reach-Inv i r) st)

kept_stays : {p q : Promise} → Move p q → (e : Option GoError) (r : TurnResult) → p ≢ kept e r
kept_stays accepts e r h = cc
kept_stays (ends a d) e r h = cc

Moves-kept :
    {p q : Promise}
    → Moves p q
    → (e : Option GoError) (r : TurnResult) → p ≡ kept e r
    → q ≡ kept e r
Moves-kept stays e r h = h
Moves-kept (moves ms m) e r h = absurd (kept_stays m e r (Moves-kept ms e r h))

start-promise : (buffer : ℕ) → promise (start buffer).turn ≡ under_way none
unfolding promise start new_turn
start-promise buffer = refl

-- Whatever runs of a turn's goroutines lead from its start to one state and from there to another,
-- the promise machine makes its moves along: the promise starts open, and that of the second state
-- is reached by the machine from that of the first, by an acceptance without an error at most once,
-- then by one outcome with which an acceptance that is still open takes the error of that outcome.
-- A promise that is kept in the first state is the same in the second. And what the callers of
-- `Accepted` and `Wait` hear in the second state is what its promise holds.
pub Reach-promise :
    {s u : System} (buffer : ℕ)
    → Reach (start buffer) s
    → Reach s u
    → (promise (start buffer).turn ≡ under_way none)
      × Moves (promise (start buffer).turn) (promise s.turn)
      × Moves (promise s.turn) (promise u.turn)
      × ((e : Option GoError) (r : TurnResult)
          → promise s.turn ≡ kept e r
          → promise u.turn ≡ kept e r)
      × ((quit : Option GoError)
          → accepted_by u.turn quit ≡ promised_acceptance (promise u.turn) quit)
      × ((quit : Option GoError) → wait_for u.turn quit ≡ promised_outcome (promise u.turn) quit)
unfolding promise accepted_by wait_for
Reach-promise {s} {u} buffer before after =
    let i = Reach-Inv (start-Inv buffer) before in
    let j = (Reach-Inv i after).0 in
    let moved = Reach-Moves i after in
    (
      start-promise buffer,
      Reach-Moves (start-Inv buffer) before,
      moved,
      λ e r h. Moves-kept moved e r h,
      λ quit. ground (arith, j),
      λ quit. ground (arith, j),
    )
