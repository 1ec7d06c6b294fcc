-- ===== src/Turn/Order.antt =====
-- What `dispatch` leaves for the caller: the typed events in the order of the server.
use jcode_go.Common.Channel.{pending}
use jcode_go.Common.{
  ℕ, ◌+◌, ◌≤◌, ◌<◌, ◌≡◌, refl, sym, ◌∙◌, ap, Bool, true, false, List, [], ◌∷◌, ◌++◌, String, Option,
  some, arith, length, length-append, map, append_assoc, append-nil, str_eq,
}
use mathlib.Core.Path.{subst}
use jcode_go.Errors.{Result, ok}
use jcode_go.Protocol.Event as Wire
use jcode_go.Protocol.Event.{error}
use jcode_go.Session.TypedEvent.{
  TypedEvent, Event, SemanticClass, content_progress, permission, tool_effect, terminal,
  semantic_class_of, decode_typed_event,
}
use jcode_go.Turn.Result.{TurnResult}
use jcode_go.Turn.State.{
  Turn, new_turn, finish_terminal, finish_turn_done, publish_event, done_result, overflow_result,
  emit_terminal, close_subscription,
}
use jcode_go.Turn.Dispatch.{
  Phase, waiting, stopped, receive, handle_event, handle_wire, handle_decoded, handle_class,
  note_first, dispatch, close_events, over,
}

abbrev is_error : Wire.Event → Bool
is_error (error c m p) = true
is_error _ = false

abbrev is_progress : Option SemanticClass → Bool
is_progress (some content_progress) = true
is_progress (some permission) = true
is_progress (some tool_effect) = true
is_progress _ = false

abbrev is_final : Option SemanticClass → Bool
is_final (some terminal) = true
is_final _ = false

-- An event of the running turn that decodes into the value.
pub record IsContent (e : Event) (v : TypedEvent) : Type 0 where
  pub not_acceptance : str_eq e.kind "message_accepted" ≡ false
  pub not_done : str_eq e.kind "turn_done" ≡ false
  pub not_error : is_error e.frame.event ≡ false
  pub decodes : decode_typed_event e ≡ ok v
  pub progresses : is_progress (semantic_class_of v) ≡ true

-- The event that ends the turn.
pub record IsDone (e : Event) (v : TypedEvent) : Type 0 where
  pub not_acceptance : str_eq e.kind "message_accepted" ≡ false
  pub done : str_eq e.kind "turn_done" ≡ true
  pub not_error : is_error e.frame.event ≡ false
  pub decodes : decode_typed_event e ≡ ok v
  pub ends : is_final (semantic_class_of v) ≡ true

abbrev pub Contents : List Event → List TypedEvent → Type 0
Contents [] [] = Unit {0}
Contents (e ∷ es) (v ∷ vs) = IsContent e v × Contents es vs
Contents _ _ = ⊥

abbrev pub arrived : List Event → List (Result Event)
arrived = map λ e. ok e

abbrev IsRunning : Turn → Type 0
IsRunning t = (t.is_over ≡ false) × (t.events_done ≡ pending) × (t.cancel_asked ≡ false)

abbrev pushed : Turn → TypedEvent → Turn
pushed t v = record t { queue = t.queue ++ v ∷ [] }

handle_wire-decoded :
    (t : Turn) (e : Event) (v : TypedEvent) (w : Wire.Event)
    → is_error w ≡ false
    → decode_typed_event e ≡ ok v
    → handle_wire t e w ≡ handle_class t e.kind v (semantic_class_of v)
unfolding handle_wire handle_decoded
handle_wire-decoded t e v (error c m p) h d = cc
handle_wire-decoded t e v _ h d = rw d

handle_class-progress :
    (t : Turn) (kind : String) (v : TypedEvent) (c : Option SemanticClass)
    → str_eq kind "turn_done" ≡ false
    → is_progress c ≡ true
    → IsRunning t
    → length t.queue < t.buffer
    → handle_class t kind v c ≡ (pushed t v, waiting)
unfolding handle_class publish_event
handle_class-progress t kind v c k h r l = ground arith

note_first-IsRunning :
    (t : Turn)
    → IsRunning t
    → IsRunning (note_first t)
      × ((note_first t).queue ≡ t.queue)
      × ((note_first t).buffer ≡ t.buffer)
unfolding note_first
note_first-IsRunning t r = ground arith

receive-content :
    (t : Turn) (e : Event) (v : TypedEvent)
    → IsContent e v
    → IsRunning t
    → length t.queue < t.buffer
    → receive t (ok e) ≡ (pushed (note_first t) v, waiting)
unfolding receive handle_event
receive-content t e v c r l =
    let (r', q, b) = note_first-IsRunning t r in
    rw (c.not_acceptance) (
      handle_wire-decoded (note_first t) e v e.frame.event c.not_error c.decodes
      ∙ handle_class-progress (note_first t) e.kind v (semantic_class_of v) c.not_done c.progresses
          r' (ground arith))

-- After the events the dispatcher waits with the values behind what was queued before.
dispatch_content :
    (es : List Event) (vs : List TypedEvent) (later : List (Result Event)) (t : Turn)
    → Contents es vs
    → IsRunning t
    → length t.queue + length vs ≤ t.buffer
    → (u : Turn) × (dispatch (arrived es ++ later) t ≡ dispatch later u)
      × IsRunning u
      × (u.queue ≡ t.queue ++ vs)
      × (u.buffer ≡ t.buffer)
unfolding dispatch
dispatch_content [] [] later t c r l = (t, refl, r, sym (append-nil t.queue), refl)
dispatch_content [] (v ∷ vs) later t c r l = absurd c
dispatch_content (e ∷ es) [] later t c r l = absurd c
dispatch_content (e ∷ es) (v ∷ vs) later t c r l =
    let (r', q, b) = note_first-IsRunning t r in
    let (u, same, running, queue, buffer) =
      dispatch_content es vs later (pushed (note_first t) v) c.1 r'
        (omega (arith, ap length q, length-append (note_first t).queue (v ∷ []))) in
    (
      u,
      rw (receive-content t e v c.0 r (omega arith)) same,
      running,
      queue ∙ (append_assoc (note_first t).queue (v ∷ []) vs ∙ ap (λ xs. xs ++ v ∷ vs) q),
      buffer ∙ b,
    )

-- The end of a run: its last event, and the channel closed behind it.
pub record IsRun (r : Turn × Phase) (queue : List TypedEvent) (result : TurnResult) : Type 0 where
  pub stops : r.1 ≡ stopped
  pub queued : r.0.queue ≡ queue
  pub ends : r.0.result ≡ some result

handle_class-done :
    (t : Turn) (kind : String) (v : TypedEvent) (c : Option SemanticClass)
    → str_eq kind "turn_done" ≡ true
    → is_final c ≡ true
    → handle_class t kind v c ≡ over (finish_turn_done t v)
unfolding handle_class
handle_class-done t kind v c k h = ground arith

announced-IsRun :
    (t : Turn) (q : List TypedEvent) (r : TurnResult)
    → IsRun (close_events t, stopped) q r
    → IsRun (close_events (close_subscription (emit_terminal t)), stopped) q r
unfolding close_events close_subscription emit_terminal
announced-IsRun t q r h = ground (arith, h)

finish_turn_done-running :
    (t : Turn) (v : TypedEvent)
    → IsRunning t
    → length t.queue ≤ t.buffer
    → IsRun (close_events (finish_turn_done t v).0, stopped) (t.queue ++ v ∷ []) (done_result false)
unfolding finish_turn_done close_events
finish_turn_done-running t v r l = ground arith

dispatch_done :
    (t : Turn) (e : Event) (v : TypedEvent) (later : List (Result Event))
    → IsDone e v
    → IsRunning t
    → length t.queue ≤ t.buffer
    → IsRun (dispatch (ok e ∷ later) t) (t.queue ++ v ∷ []) (done_result false)
unfolding dispatch receive handle_event
dispatch_done t e v later d r l =
    let (r', q, b) = note_first-IsRunning t r in
    rw
      (
        d.not_acceptance,
        handle_wire-decoded (note_first t) e v e.frame.event d.not_error d.decodes,
        handle_class-done (note_first t) e.kind v (semantic_class_of v) d.done d.ends,
      )
      (subst
        (λ xs.
          IsRun
            (
              close_events
                  (close_subscription (emit_terminal (finish_turn_done (note_first t) v).0)),
              stopped,
            )
            (xs ++ v ∷ []) (done_result false))
        q
        (announced-IsRun (finish_turn_done (note_first t) v).0 _ _
          (finish_turn_done-running (note_first t) v r' (ground arith))))

handle_class-full :
    (t : Turn) (kind : String) (v : TypedEvent) (c : Option SemanticClass)
    → str_eq kind "turn_done" ≡ false
    → is_progress c ≡ true
    → IsRunning t
    → length t.queue ≡ t.buffer
    → handle_class t kind v c ≡ over (finish_terminal t overflow_result)
unfolding handle_class publish_event
handle_class-full t kind v c k h r l = ground arith

finish_terminal-running :
    (t : Turn) (r : TurnResult)
    → IsRunning t
    → IsRun (close_events (finish_terminal t r).0, stopped) t.queue r
unfolding finish_terminal close_events
finish_terminal-running t result r = ground arith

dispatch_full :
    (t : Turn) (e : Event) (v : TypedEvent) (later : List (Result Event))
    → IsContent e v
    → IsRunning t
    → length t.queue ≡ t.buffer
    → IsRun (dispatch (ok e ∷ later) t) t.queue overflow_result
unfolding dispatch receive handle_event
dispatch_full t e v later c r l =
    let (r', q, b) = note_first-IsRunning t r in
    rw
      (
        c.not_acceptance,
        handle_wire-decoded (note_first t) e v e.frame.event c.not_error c.decodes,
        handle_class-full (note_first t) e.kind v (semantic_class_of v) c.not_done c.progresses r'
            (ground arith),
      )
      (subst
        (λ xs.
          IsRun
            (
              close_events (
                  close_subscription
                    (emit_terminal (finish_terminal (note_first t) overflow_result).0)),
              stopped,
            )
            xs overflow_result)
        q
        (announced-IsRun (finish_terminal (note_first t) overflow_result).0 _ _
          (finish_terminal-running (note_first t) overflow_result r')))

new_turn-IsRunning :
    (buffer : ℕ)
    → IsRunning (new_turn buffer)
      × ((new_turn buffer).queue ≡ [])
      × ((new_turn buffer).buffer ≡ buffer)
unfolding new_turn
new_turn-IsRunning buffer = (ground arith, refl, refl)

module _ (buffer : ℕ) (es : List Event) (vs : List TypedEvent) (c : Contents es vs) where
  -- No more content events than the buffer holds, unread by the caller, and then turn_done: the
  -- dispatcher stops with the turn completed, and the queue holds every event in the order of the
  -- server, turn_done last.
  pub dispatch_in_order :
      (e : Event) (v : TypedEvent) (later : List (Result Event))
      → IsDone e v
      → length vs ≤ buffer
      → IsRun
          (dispatch (arrived es ++ ok e ∷ later) (new_turn buffer))
          (vs ++ v ∷ [])
          (done_result false)
  dispatch_in_order e v later d l =
      let (r, q, b) = new_turn-IsRunning buffer in
      let (u, same, running, queue, size) =
        dispatch_content es vs (ok e ∷ later) (new_turn buffer) c r (ground arith) in
      rw same (
        subst (λ xs. IsRun (dispatch (ok e ∷ later) u) (xs ++ v ∷ []) (done_result false))
          (queue ∙ ap (λ xs. xs ++ vs) q)
          (dispatch_done u e v later d running (ground (arith, queue ∙ ap (λ xs. xs ++ vs) q))))

  -- One content event more than the buffer holds: the turn ends with subscriber_overflow, and the
  -- caller can still read the events before it.
  pub dispatch_overflow :
      (e : Event) (v : TypedEvent) (later : List (Result Event))
      → IsContent e v
      → length vs ≡ buffer
      → IsRun (dispatch (arrived es ++ ok e ∷ later) (new_turn buffer)) vs overflow_result
  dispatch_overflow e v later d l =
      let (r, q, b) = new_turn-IsRunning buffer in
      let (u, same, running, queue, size) =
        dispatch_content es vs (ok e ∷ later) (new_turn buffer) c r (ground arith) in
      rw same (
        subst (λ xs. IsRun (dispatch (ok e ∷ later) u) xs overflow_result)
          (queue ∙ ap (λ xs. xs ++ vs) q)
          (dispatch_full u e v later d running (ground (arith, queue ∙ ap (λ xs. xs ++ vs) q))))
