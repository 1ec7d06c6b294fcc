-- ===== src/Session/Send/Examples.antt =====
-- A message whose acceptance arrives.
use jcode_go.Common.{ℕ, ◌≡◌, refl, false, [], ◌∷◌, String, Option, none, some}
use jcode_go.Errors.{Result, ok}
use jcode_go.Observation.{connected}
use jcode_go.Json.Value.{pos, object, end}
use jcode_go.Protocol.Event.{raw_event}
use jcode_go.Protocol.Request.{RawRequest, new_raw_request}
use jcode_go.Session.TypedEvent.{Event}
use jcode_go.Session.Sending.{
  SendOptions, validate_send_options, new_send_message_request, send_message_fields,
}
use jcode_go.Client.Options.{Options}
use jcode_go.Client.State.{Client, new_client}
use jcode_go.Client.Operations.{bump}
use jcode_go.Session.Send.{Course, send, IsUnlisted, IsAccepted, send-IsUnlisted}

abbrev options : Options
options = record {
  client_name = "jcode-sdk-go";
  max_frame_size = 0;
  event_buffer = 2;
  request_buffer = 1;
  request_timeout = 30;
  session_id = "";
  reconnect = record { max_attempts = 1; backoff = 0; max_backoff = 30; resume = false };
}

abbrev client : Client
client = record (new_client options) { state = connected }

abbrev plain : SendOptions
plain = record {
  images = [];
  no_reply = false;
  max_turns = pos 0;
  token_budget = pos 0;
  deadline = "";
}

abbrev acceptance_event : Event
acceptance_event = record {
  frame = record { v = pos 1; reply_to = none; event = raw_event "message_accepted" end };
  kind = "message_accepted";
  fields = some end;
}

abbrev course : Course
course = record { outcome = none; meanwhile = λ c. c; inputs = ok acceptance_event ∷ [] }

abbrev no_deadline : String → Option ℕ
no_deadline t = none

abbrev success : Result (Unit {0})
success = ok tt

abbrev sent : Client
sent = (send no_deadline 7 "s1" client "hi" plain course).0

plain_valid : validate_send_options no_deadline plain 7 ≡ ok tt
unfolding validate_send_options
plain_valid = refl

abbrev request : RawRequest
request = record { req = "send_message"; fields = object (send_message_fields "s1" "hi" plain) }

plain_request : new_send_message_request "s1" "hi" plain ≡ ok request
unfolding new_send_message_request new_raw_request
plain_request = refl

sends : send no_deadline 7 "s1" client "hi" plain course ≡ (sent, some (ok tt))
unfolding send validate_send_options new_send_message_request new_client new_raw_request
sends = refl

send-IsUnlisted_example :
    IsUnlisted (sent.subs (bump client.next_sub))
    × (success ≡ ok tt → (course.outcome ≡ none) × IsAccepted course.inputs)
send-IsUnlisted_example =
    send-IsUnlisted no_deadline 7 "s1" client "hi" plain course plain_valid plain_request refl sends
