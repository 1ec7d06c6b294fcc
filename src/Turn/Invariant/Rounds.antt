-- ===== src/Turn/Invariant/Rounds.antt =====
-- turn.go: each round of `dispatch` keeps a turn sound and its channel of events open.
use jcode_go.Common.Channel.{pending}
use jcode_go.Common.{
  ◌≡◌, true, String, Option, none, some, arith, str_eq, inl, inr, Bool-cases, ◌∙◌, if◌then◌else◌,
}
use jcode_go.Errors.{Result, ok, err}
use jcode_go.Session.TypedEvent.{
  TypedEvent, Event, SemanticClass, content_progress, advisory_lifecycle,
  terminal as terminal_class, permission, tool_effect, semantic_class_of, decode_typed_event,
}
use jcode_go.Protocol.Event as Wire
use jcode_go.Protocol.Event.{hello_ok, ok_reply, error, raw_event, unknown_event}
use jcode_go.Turn.Result.{TurnResult}
use jcode_go.Turn.State.{
  Turn, finish_acceptance, finish_terminal, overflow_result, publish_event, finish_turn_done,
}
use jcode_go.Turn.Dispatch.{
  Phase, waiting, receive, accept, note_first, ignore_advisory, over, handle_class, handle_decoded,
  handle_event, handle_wire,
}
use jcode_go.Turn.System.{at}
use jcode_go.Turn.Invariant.{Caused, IsSound, Inv}
use jcode_go.Turn.Invariant.Sections.{
  finish_terminal-IsSound, finish_terminal-over, finish_terminal-events, publish_event-IsSound,
  finish_turn_done-IsSound, turn_result_of_error-Caused, accept-IsSound, note_first-IsSound,
  ignore_advisory-IsSound,
}

pub publish_event-open :
    (t : Turn) (e : TypedEvent)
    → t.events_done ≡ pending
    → (publish_event t e).0.events_done ≡ pending
unfolding publish_event
publish_event-open t e h = ground arith

pub finish_turn_done-over :
    (t : Turn) (e : TypedEvent)
    → t.events_done ≡ pending
    → ((finish_turn_done t e).0.events_done ≡ pending) × ((finish_turn_done t e).0.is_over ≡ true)
unfolding finish_turn_done
finish_turn_done-over t e h = ground arith

-- A handler that ends the round for a turn whose channel is open.
abbrev Handles : Turn × Phase → Type 0
Handles r = Inv (at r)

pub finish-Handles :
    (t : Turn) (r : TurnResult)
    → Caused r.kind r.cause
    → IsSound t
    → t.events_done ≡ pending
    → Handles (over (finish_terminal t r))
finish-Handles t r c s h =
    (finish_terminal-IsSound t r c s, (finish_terminal-events t r ∙ h, finish_terminal-over t r))

pub done-Handles :
    (t : Turn) (e : TypedEvent)
    → IsSound t
    → t.events_done ≡ pending
    → Handles (over (finish_turn_done t e))
done-Handles t e s h = (finish_turn_done-IsSound t e s, finish_turn_done-over t e h)

pub publish-Handles :
    (t : Turn) (e : TypedEvent)
    → IsSound t
    → t.events_done ≡ pending
    → Handles (
        let (t', published) = publish_event t e in
        if published then (t', waiting) else over (finish_terminal t' overflow_result))
publish-Handles t e s h =
    let s' = publish_event-IsSound t e s in
    let h' = publish_event-open t e h in
    elim (Bool-cases (publish_event t e).1) [
      | inl b ↦ rw b (s', h')
      | inr b ↦ rw b (finish-Handles (publish_event t e).0 overflow_result (λ e. cc) s' h')
    ]

pub stay-Handles :
    (t : Turn) (kind : String) (e : TypedEvent)
    → IsSound t
    → t.events_done ≡ pending
    → Handles (ignore_advisory t kind e, waiting)
unfolding ignore_advisory
stay-Handles t kind e s h = (ignore_advisory-IsSound t kind e s, ground arith)

pub content-Handles :
    (t : Turn) (kind : String) (e : TypedEvent)
    → IsSound t
    → t.events_done ≡ pending
    → Handles (
        if str_eq kind "turn_done"
        then over (finish_turn_done t e)
        else (let (t', published) = publish_event t e in
            if published then (t', waiting) else over (finish_terminal t' overflow_result)))
content-Handles t kind e s h = elim (Bool-cases (str_eq kind "turn_done")) [
  | inl b ↦ rw b (done-Handles t e s h)
  | inr b ↦ rw b (publish-Handles t e s h)
]

pub handle_class-Handles :
    (t : Turn) (kind : String) (e : TypedEvent) (c : Option SemanticClass)
    → IsSound t
    → t.events_done ≡ pending
    → Handles (handle_class t kind e c)
unfolding handle_class
handle_class-Handles t kind e none s h = finish-Handles t _ (λ e. cc) s h
handle_class-Handles t kind e (some advisory_lifecycle) s h = stay-Handles t kind e s h
handle_class-Handles t kind e (some content_progress) s h = content-Handles t kind e s h
handle_class-Handles t kind e (some terminal_class) s h = content-Handles t kind e s h
handle_class-Handles t kind e (some permission) s h = content-Handles t kind e s h
handle_class-Handles t kind e (some tool_effect) s h = content-Handles t kind e s h

pub handle_decoded-Handles :
    (t : Turn) (kind : String) (e : Result TypedEvent)
    → IsSound t
    → t.events_done ≡ pending
    → Handles (handle_decoded t kind e)
unfolding handle_decoded
handle_decoded-Handles t kind (err e) s h = finish-Handles t _ (λ e. cc) s h
handle_decoded-Handles t kind (ok e) s h = handle_class-Handles t kind e (semantic_class_of e) s h

pub handle_event-Handles :
    (t : Turn) (e : Event) → IsSound t → t.events_done ≡ pending → Handles (handle_event t e)
unfolding handle_event
handle_event-Handles t e s h = go e.frame.event
  where
    decoded : Handles (handle_decoded t e.kind (decode_typed_event e))
    decoded = handle_decoded-Handles t e.kind (decode_typed_event e) s h

    go : (v : Wire.Event) → Handles (handle_wire t e v)
    go (error c m p) = finish-Handles t _ (λ e. cc) s h
    go (hello_ok v n c) = decoded
    go ok_reply = decoded
    go (raw_event k fs) = decoded
    go (unknown_event k fs) = decoded

pub accept-open : (t : Turn) → (accept t).events_done ≡ t.events_done
unfolding accept finish_acceptance
accept-open t = ground arith

pub note_first-open : (t : Turn) → (note_first t).events_done ≡ t.events_done
unfolding note_first
note_first-open t = ground arith

pub receive-Handles :
    (t : Turn) (input : Result Event)
    → IsSound t
    → t.events_done ≡ pending
    → Handles (receive t input)
unfolding receive
receive-Handles t (err e) s h = finish-Handles t _ (turn_result_of_error-Caused e) s h
receive-Handles t (ok e) s h = elim (Bool-cases (str_eq e.kind "message_accepted")) [
  | inl b ↦ rw b (accept-IsSound t s, accept-open t ∙ h)
  | inr b ↦
      rw b (handle_event-Handles (note_first t) e (note_first-IsSound t s) (note_first-open t ∙ h))
]
