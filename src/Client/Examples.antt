-- ===== src/Client/Examples.antt =====
-- A client on concrete frames.
use jcode_go.Common.Channel.{pending, closed}
use jcode_go.Common.{
  ℕ, ◌+◌, ◌≤◌, ◌<◌, ◌≡◌, refl, ◌⊎◌, true, false, [], ◌∷◌, ◌++◌, Option, none, some, arith, length,
  if◌then◌else◌, codes, ◌==◌,
}
use jcode_go.Errors.{sentinel, eof, err_closed, err_subscriber_overflow, ok, err}
use jcode_go.Observation.{State, connecting, connected, disconnected}
use jcode_go.Observation as Obs
use jcode_go.Json.Value.{pos, number, text, Json, object, end, member}
use jcode_go.Json.Fields.{get, keep, to_map}
use jcode_go.Framing.{Bytes, Reader, write}
use jcode_go.Framing.Trip.{write_all}
use jcode_go.Protocol.Event.{ServerFrame, raw_event, hello_ok, ok_reply, is_known_event}
use jcode_go.Protocol.Decode.{
  decode_server_frame, decode_version, decode_reply_to, decode_tag, decode_event,
}
use jcode_go.Client.Options.{Options}
use jcode_go.Client.Subscriber.{Subscriber, new_subscriber, new_subscriber-IsSound}
use jcode_go.Client.Request.{Request, new_request, new_request-IsSound}
use jcode_go.Client.State.{Client, new_client, each}
use jcode_go.Client.Subscriber as Sub
use jcode_go.Client.Request as Req
use jcode_go.Client.Operations.{
  subscribe_owned, begin_request, enter_request, dispatch_event, dispatch_reply, subscription_error,
  disconnect, close_with, set_instance, detach_instance, stays, begin_close, is_ending,
}
use jcode_go.Client.System.{World, Reach, here, next, start, subscribes, close_begins, announced}
use jcode_go.Client.Invariant.{Inv}
use jcode_go.Client.Invariant.Steps.{Reach-world-Inv}
use jcode_go.Client.Delivery.{dispatch_event-deliver, dispatch_reply_once}
use jcode_go.Client.Closing.{
  Entries, abandoned, ended_if_listed, lost_if_listed, close_with_ends, disconnect_ends,
}
use jcode_go.Client.Ownership.{detach_instance-close_with, close_with-set_instance}
use jcode_go.Client.Handshake.{connect, Answered, connect_outcome}
use jcode_go.Client.Reader.{
  read_loop, read_loop_returns, read_loop-write_all, handle_all, Carries, event_of,
}

abbrev options : Options
options = record {
  client_name = "jcode-sdk-go";
  max_frame_size = 0;
  event_buffer = 2;
  request_buffer = 1;
  request_timeout = 30;
  session_id = "";
  reconnect = record { max_attempts = 1; backoff = 0; max_backoff = 30; resume = false };
}

abbrev subscribed : Client
subscribed = (subscribe_owned (new_client options) 2 true).0

-- A client with one subscription of a turn and one request, both with the number 1.
abbrev busy : Client
busy = (enter_request subscribed true).0

abbrev stream : Subscriber
stream = new_subscriber false 2 true

busy_subs : busy.subs 1 ≡ some stream
unfolding enter_request subscribe_owned new_client
busy_subs = refl

busy_requests : busy.requests 1 ≡ some (new_request true)
unfolding enter_request subscribe_owned new_client
busy_requests = refl

stream_listed : stream.listed ≡ true
unfolding new_subscriber
stream_listed = refl

request_listed : (new_request true).listed ≡ true
unfolding new_request
request_listed = refl

subscribed_once : subscribed.close_once ≡ false
unfolding subscribe_owned new_client
subscribed_once = refl

-- The first section of `closeWith`, after a subscription.
abbrev closing_world : World
closing_world = record {
  client = begin_close subscribed;
  closer = announced subscribed.instance_id (sentinel err_closed);
}

to_closing : Reach (start options) closing_world
unfolding start new_client
to_closing =
    next (next here (subscribes 2 true (omega arith)))
      (close_begins (sentinel err_closed) subscribed_once)

Reach-world-Inv_example : Inv closing_world
Reach-world-Inv_example = Reach-world-Inv options to_closing

abbrev pong_frame : ServerFrame
pong_frame = record { v = pos 1; reply_to = none; event = raw_event "pong" end }

abbrev reply_frame : ServerFrame
reply_frame = record { v = pos 1; reply_to = some 1; event = ok_reply }

dispatch_event-deliver_example :
    ((stream.listed ≡ true)
      × (length stream.events < stream.room)
      × ((dispatch_event busy (event_of pong_frame)).subs 1
          ≡ some (record stream { events = stream.events ++ event_of pong_frame ∷ [] })))
    ⊎ ((stream.listed ≡ true)
        × (stream.room ≤ length stream.events)
        × ((s' : Subscriber) × ((dispatch_event busy (event_of pong_frame)).subs 1 ≡ some s')
            × (s'.events ≡ stream.events)
            × (s'.listed ≡ false)
            × (s'.events_done ≡ closed)
            × (s'.errors ≡ sentinel err_subscriber_overflow ∷ [])
            × (subscription_error (dispatch_event busy (event_of pong_frame)) 1
                ≡ sentinel err_subscriber_overflow)))
    ⊎ ((stream.listed ≡ false) × ((dispatch_event busy (event_of pong_frame)).subs 1 ≡ some stream))
dispatch_event-deliver_example =
    dispatch_event-deliver busy (event_of pong_frame) 1 stream busy_subs
      (new_subscriber-IsSound false 2 true)

dispatch_reply_once_example :
    ((r' : Request) × ((dispatch_reply busy 1 reply_frame).requests 1 ≡ some r')
      × (r'.frames ≡ reply_frame ∷ [])
      × (r'.listed ≡ false)
      × (r'.reply_done ≡ pending)
      × (r'.told ≡ (
          if (new_request true).observed
          then (new_request true).told ++ reply_frame ∷ []
          else (new_request true).told)))
    × ((dispatch_reply busy 1 reply_frame).requests 2 ≡ busy.requests 2)
    × (dispatch_reply (dispatch_reply busy 1 reply_frame) 1 pong_frame
        ≡ dispatch_reply busy 1 reply_frame)
dispatch_reply_once_example =
    dispatch_reply_once busy 1 reply_frame (new_request true) busy_requests pong_frame 2
      (new_request-IsSound true) request_listed (λ e. omega (arith, e))

busy_open : (busy.close_once ≡ false) × (busy.closed ≡ pending) × (busy.instance_id ≡ none)
unfolding enter_request subscribe_owned new_client
busy_open = (refl, refl, refl)

busy_sound : Entries Sub.IsSound busy.subs
unfolding enter_request subscribe_owned new_client
busy_sound id s is = ground (arith, new_subscriber-IsSound false 2 true)

busy_fresh : Entries Req.IsSound busy.requests
unfolding enter_request subscribe_owned new_client
busy_fresh id r is = ground (arith, new_request-IsSound true)

close_with_ends_example :
    ((close_with busy (sentinel err_closed)).state ≡ Obs.State.closed)
    × ((id : ℕ)
        → (close_with busy (sentinel err_closed)).subs id
          ≡ each (ended_if_listed (sentinel err_closed)) busy.subs id)
    × ((id : ℕ)
        → (close_with busy (sentinel err_closed)).requests id ≡ each abandoned busy.requests id)
    × (begin_request (close_with busy (sentinel err_closed)) false true ≡ err (sentinel err_closed))
close_with_ends_example =
    close_with_ends busy (sentinel err_closed) busy_sound busy_fresh false true busy_open.0
      busy_open.1

busy_stays : stays busy.state false ≡ false
unfolding enter_request subscribe_owned new_client
busy_stays = refl

disconnect_ends_example :
    ((disconnect busy (sentinel eof) false).state ≡ disconnected)
    × ((disconnect busy (sentinel eof) false).wire_open ≡ false)
    × ((id : ℕ)
        → (disconnect busy (sentinel eof) false).subs id
          ≡ each (lost_if_listed (sentinel eof) false) busy.subs id)
    × ((id : ℕ)
        → (disconnect busy (sentinel eof) false).requests id ≡ each abandoned busy.requests id)
disconnect_ends_example = disconnect_ends busy (sentinel eof) busy_sound busy_fresh false busy_stays

-- The client owns instance 5, watched by monitor 6.
abbrev owner : Client
owner = set_instance busy 5 (some 6)

owner_owns : (owner.instance_id ≡ some 5) × (owner.close_once ≡ false)
unfolding set_instance enter_request subscribe_owned new_client
owner_owns = (refl, refl)

owner_up : is_ending owner.state ≡ false
unfolding set_instance enter_request subscribe_owned new_client
owner_up = refl

detach_instance-close_with_example :
    ((detach_instance owner).1 ≡ some 5)
    × ((detach_instance (detach_instance owner).0).1 ≡ none)
    × ((close_with (detach_instance owner).0 (sentinel err_closed)).stopped ≡ owner.stopped)
detach_instance-close_with_example =
    detach_instance-close_with owner 5 (sentinel err_closed) owner_owns.0 owner_up owner_owns.1

close_with-set_instance_example :
    ((close_with owner (sentinel err_closed)).stopped ≡ busy.stopped ++ 5 ∷ [])
    × (close_with (close_with owner (sentinel err_closed)) (sentinel eof)
        ≡ close_with owner (sentinel err_closed))
    × ((detach_instance (close_with owner (sentinel err_closed))).1 ≡ none)
close_with-set_instance_example =
    close_with-set_instance busy 5 (some 6) (sentinel err_closed) (sentinel eof) busy_open.0

abbrev hello_frame : ServerFrame
hello_frame = record {
  v = pos 1;
  reply_to = some 1;
  event = hello_ok (pos 1) "jcode" ("cancel" ∷ []);
}

connect_outcome_example : Answered "cancel" (ok hello_frame) (connect busy (ok hello_frame))
connect_outcome_example = connect_outcome busy (ok hello_frame) "cancel" busy_open.0

-- The frame of an event, with the only value that the parser of these examples knows.
abbrev pong_bytes : Bytes
pong_bytes = codes "{'v':1,'ev':'pong'}"

abbrev parse : Bytes → Option Json
parse bytes =
    if length bytes == length pong_bytes
    then some (object (member "v" (number (pos 1)) (member "ev" (text "pong") end)))
    else none

pong-Carries : Carries parse 100 (pong_bytes, pong_frame)
unfolding decode_server_frame get decode_version decode_reply_to decode_tag decode_event keep to_map
    is_known_event
pong-Carries = (record { one_line = ground arith; no_return = refl; decodes = refl }, refl)

abbrev source : Bytes → Reader
source bytes = record { rest = bytes; ending = sentinel eof }

abbrev pong_line : Bytes
pong_line = pong_bytes ++ b'\n' ∷ []

pong_written : write_all 100 (pong_bytes ∷ pong_bytes ∷ []) ≡ ok (pong_line ++ pong_line)
unfolding write_all write
pong_written = refl

read_loop-write_all_example :
    read_loop parse (2 + 1) 100 (source ((pong_line ++ pong_line) ++ [])) busy
    ≡ read_loop parse 1 100 (source []) (handle_all busy (pong_frame ∷ pong_frame ∷ []))
read_loop-write_all_example =
    read_loop-write_all parse 100 ((pong_bytes, pong_frame) ∷ (pong_bytes, pong_frame) ∷ []) []
      (pong_line ++ pong_line) (sentinel eof) busy 1 (pong-Carries, (pong-Carries, tt)) pong_written

read_loop_returns_example :
    (c' : Client) × (read_loop parse 30 100 (source pong_line) busy ≡ some c')
read_loop_returns_example = read_loop_returns parse 100 30 (source pong_line) busy (omega arith)
