-- ===== src/Turn/Examples.antt =====
-- Turns on concrete events, and runs of the dispatcher on them.
use jcode_go.Common.{
  ◌≡◌, ◌≢◌, refl, ◌↔◌, Bool, true, false, [], ◌∷◌, ◌++◌, String, Option, none, some, arith, ◌⊎◌,
}
use jcode_go.Errors.{GoError, ok, err, wrap, message, sentinel, err_invalid_frame, errors_is}
use jcode_go.Observation.{completed, protocol_error, transport_disconnected}
use jcode_go.Json.Value.{pos, text, Fields, end, member, Json, object, number}
use jcode_go.Protocol.Event.{raw_event}
use jcode_go.Session.EventType.{text_delta, turn_done, schema}
use jcode_go.Json.Schema.{fits}
use jcode_go.Session.TypedEvent.{
  TypedEvent, typed, Event, decode_typed_event, semantic_class_of, lookup,
}
use jcode_go.Turn.Result.{TurnResult, turn_result_of_error}
use jcode_go.Turn.State.{
  new_turn, done_result, overflow_result, finish_turn_done, to_emit, to_close, emit_terminal,
  close_subscription,
}
use jcode_go.Turn.Dispatch.{stopped, dispatch, receive, close_events}
use jcode_go.Turn.System.{
  System, Reach, here, next, start, at, receives, tells, releases, closes, takes, take_event,
}
use jcode_go.Turn.Invariant.{Inv, outcomes}
use jcode_go.Turn.Invariant.Sections.{start-Inv}
use jcode_go.Turn.Invariant.Steps.{Reach-Inv}
use jcode_go.Turn.Callers.{wait_for, accepted_by, next_event, or_eof}
use jcode_go.Turn.Ending.{Reach-settled, Reach-stopped}
use jcode_go.Turn.Reserve.{Reach-finish_turn_done}
use jcode_go.Client.Options.{Options}
use jcode_go.Client.State.{Client, new_client}
use jcode_go.Client.Subscriber.{new_subscriber, new_subscriber-IsSound}
use jcode_go.Client.Operations.{subscribe_owned, stays, subscription_error}
use jcode_go.Client.Reader.{round}
use jcode_go.Turn.Causes.{IsTyped, round-protocol_error}
use jcode_go.Json.Fields.{get}
use jcode_go.Protocol.Decode.{
  decode_server_frame, decode_version, decode_reply_to, decode_tag, decode_event, decode_failure,
}
use jcode_go.Turn.Order.{IsContent, IsDone, IsRun, arrived, dispatch_in_order, dispatch_overflow}

abbrev event : String → Fields → Event
event kind fs = record {
  frame = record { v = pos 1; reply_to = none; event = raw_event kind fs };
  kind = kind;
  fields = some fs;
}

abbrev word : String → Fields
word s = member "session_id" (text "s1") (member "text" (text s) end)

abbrev hello : Event
hello = event "text_delta" (word "hello")

abbrev world : Event
world = event "text_delta" (word "world")

abbrev done : Event
done = event "turn_done" (member "session_id" (text "s1") end)

abbrev hello_value : TypedEvent
hello_value = typed text_delta (word "hello")

abbrev world_value : TypedEvent
world_value = typed text_delta (word "world")

abbrev done_value : TypedEvent
done_value = typed turn_done (member "session_id" (text "s1") end)

hello-IsContent : IsContent hello hello_value
unfolding decode_typed_event lookup fits schema semantic_class_of
hello-IsContent = record {
  not_acceptance = refl;
  not_done = refl;
  not_error = refl;
  decodes = refl;
  progresses = refl;
}

world-IsContent : IsContent world world_value
unfolding decode_typed_event lookup fits schema semantic_class_of
world-IsContent = record {
  not_acceptance = refl;
  not_done = refl;
  not_error = refl;
  decodes = refl;
  progresses = refl;
}

done-IsDone : IsDone done done_value
unfolding decode_typed_event lookup fits schema semantic_class_of
done-IsDone = record {
  not_acceptance = refl;
  done = refl;
  not_error = refl;
  decodes = refl;
  ends = refl;
}

dispatch_in_order_example :
    IsRun
      (dispatch (arrived (hello ∷ world ∷ []) ++ ok done ∷ []) (new_turn 2))
      (hello_value ∷ world_value ∷ done_value ∷ [])
      (done_result false)
dispatch_in_order_example =
    dispatch_in_order 2 (hello ∷ world ∷ []) (hello_value ∷ world_value ∷ [])
      (hello-IsContent, (world-IsContent, tt)) done done_value [] done-IsDone (omega arith)

dispatch_overflow_example :
    IsRun
      (dispatch (arrived (hello ∷ []) ++ ok world ∷ []) (new_turn 1))
      (hello_value ∷ [])
      overflow_result
dispatch_overflow_example =
    dispatch_overflow 1 (hello ∷ []) (hello_value ∷ []) (hello-IsContent, tt) world world_value []
      world-IsContent refl

-- A turn that hears turn_done, whose dispatcher tells the observer, closes the subscription and the
-- channel, and that is then read.
abbrev heard : System
heard = at (receive (new_turn 2) (ok done))

abbrev told : System
told = at (emit_terminal heard.turn, heard.phase)

abbrev free : System
free = at (close_subscription told.turn, told.phase)

abbrev shut : System
shut = at (close_events free.turn, stopped)

abbrev read : System
read = at (take_event shut.turn, stopped)

to_heard : Reach (start 2) heard
unfolding start
to_heard = next here (receives (ok done) refl)

heard_ends : heard.turn.announcing ≡ to_emit (done_result false)
unfolding receive new_turn decode_typed_event lookup fits schema semantic_class_of finish_turn_done
heard_ends = refl

told_closes : told.turn.announcing ≡ to_close
unfolding receive new_turn decode_typed_event lookup fits schema semantic_class_of finish_turn_done
    emit_terminal
told_closes = refl

to_shut : Reach heard shut
unfolding receive decode_typed_event lookup fits schema semantic_class_of
to_shut =
    next (next (next here (tells (done_result false) heard_ends)) (releases told_closes))
      (closes refl)

to_read : Reach (start 2) read
unfolding start receive decode_typed_event lookup fits schema semantic_class_of
to_read =
    next
      (next (next (next to_heard (tells (done_result false) heard_ends)) (releases told_closes))
        (closes refl))
      takes

heard_over : heard.turn.is_over ≡ true
unfolding receive new_turn decode_typed_event lookup fits schema semantic_class_of finish_turn_done
heard_over = refl

Reach-settled_example :
    (r : TurnResult) × (heard.turn.result ≡ some r)
    × ((quit : Option GoError) → wait_for shut.turn quit ≡ some (ok r))
    × ((quit : Option GoError)
        → (accepted_by shut.turn quit ≡ accepted_by heard.turn quit)
          × (accepted_by heard.turn quit ≢ none))
    × ((outcomes shut.turn.log ≡ 1)
        ⊎ ((outcomes shut.turn.log ≡ 0) × (shut.turn.announcing ≡ to_emit r)))
    × (shut.turn.released ≡ true → outcomes shut.turn.log ≡ 1)
Reach-settled_example = Reach-settled 2 to_heard to_shut heard_over

read_empty : read.turn.queue ≡ []
unfolding receive new_turn take_event close_events emit_terminal close_subscription
    decode_typed_event lookup fits schema semantic_class_of finish_turn_done
read_empty = refl

Reach-stopped_example :
    (r : TurnResult) × (read.turn.result ≡ some r)
    × (next_event read.turn none ≡ some (or_eof r.cause, read.turn))
    × ((r.cause ≡ none) ↔ (r.kind ≡ completed))
Reach-stopped_example = Reach-stopped 2 none to_read refl read_empty

Reach-Inv_example : Inv shut
Reach-Inv_example = Reach-Inv (Reach-Inv (start-Inv 2) to_heard) to_shut

fresh_over : (start 2).turn.is_over ≡ false
unfolding start new_turn
fresh_over = refl

Reach-finish_turn_done_example :
    ((finish_turn_done (start 2).turn done_value).1 ≡ true)
    × ((finish_turn_done (start 2).turn done_value).0.queue
        ≡ (start 2).turn.queue ++ done_value ∷ [])
    × ((finish_turn_done (start 2).turn done_value).0.result
        ≡ some (done_result (start 2).turn.cancel_asked))
Reach-finish_turn_done_example = Reach-finish_turn_done 2 done_value here fresh_over

-- A frame without a version, and an error event whose code is a number.
abbrev unversioned : Json
unversioned = object (member "v" (number (pos 0)) end)

unversioned_refused :
    decode_server_frame (some unversioned)
    ≡ err (wrap "missing or invalid v" (sentinel err_invalid_frame))
unfolding decode_server_frame get decode_version
unversioned_refused = refl

-- A client with one subscription of a turn, which receives that frame.
abbrev options : Options
options = record {
  client_name = "jcode-sdk-go";
  max_frame_size = 0;
  event_buffer = 2;
  request_buffer = 1;
  request_timeout = 30;
  session_id = "";
  reconnect = record { max_attempts = 1; backoff = 0; max_backoff = 30; resume = false };
}

abbrev listening : Client
listening = (subscribe_owned (new_client options) 2 true).0

listening_up : stays listening.state true ≡ false
unfolding subscribe_owned new_client
listening_up = refl

listening_subs : listening.subs 1 ≡ some (new_subscriber false 2 true)
unfolding subscribe_owned new_client
listening_subs = refl

listening_listed : (new_subscriber false 2 true).listed ≡ true
unfolding new_subscriber
listening_listed = refl

turn_open : (new_turn 2).is_over ≡ false
unfolding new_turn
turn_open = refl

abbrev bad_version : GoError
bad_version = wrap "missing or invalid v" (sentinel err_invalid_frame)

abbrev after_round : Client × Bool
after_round = round (λ bytes. some unversioned) listening (ok [])

round-protocol_error_example :
    (after_round.1 ≡ false)
    × (subscription_error after_round.0 1 ≡ bad_version)
    × ((receive (new_turn 2) (err (subscription_error after_round.0 1))).0.result
        ≡ some (turn_result_of_error bad_version))
    × (((turn_result_of_error bad_version).kind ≡ protocol_error) ⊎ IsTyped (some unversioned))
round-protocol_error_example =
    round-protocol_error (λ bytes. some unversioned) [] listening bad_version 1
      (new_subscriber false 2 true) (new_turn 2) unversioned_refused listening_up listening_subs
      (new_subscriber-IsSound false 2 true) listening_listed turn_open

abbrev mistyped : Json
mistyped =
    object (
      member "v" (number (pos 1)) (member "ev" (text "error") (member "code" (number (pos 5)) end)))

mistyped_refused :
    (e : GoError) × (decode_server_frame (some mistyped) ≡ err e)
    × ((turn_result_of_error e).kind ≡ transport_disconnected)
unfolding decode_server_frame get decode_version decode_reply_to decode_tag decode_event
    decode_failure turn_result_of_error errors_is
mistyped_refused = (
  wrap "decode error event"
      (message "json: cannot unmarshal into a Go struct field of type string"),
  refl,
  refl,
)
