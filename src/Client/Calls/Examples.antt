-- ===== src/Client/Calls/Examples.antt =====
-- The ends of a request on a concrete client.
use jcode_go.Common.{◌≡◌, refl, false, some}
use jcode_go.Errors.{sentinel, eof, deadline_exceeded}
use jcode_go.Client.Options.{Options}
use jcode_go.Client.Request.{Request, new_request, new_request-IsSound}
use jcode_go.Client.State.{Client, new_client}
use jcode_go.Client.Operations.{enter_request}
use jcode_go.Client.Calls.{gave_up, finish_request, write_request}
use jcode_go.Client.Calls.Ends.{heard, finish_request-unlisted, write_request-unlisted}

abbrev options : Options
options = record {
  client_name = "jcode-sdk-go";
  max_frame_size = 0;
  event_buffer = 2;
  request_buffer = 1;
  request_timeout = 30;
  session_id = "";
  reconnect = record { max_attempts = 1; backoff = 0; max_backoff = 30; resume = false };
}

abbrev asking : Client
asking = (enter_request (new_client options) false).0

asked : asking.requests 1 ≡ some (new_request false)
unfolding enter_request new_client
asked = refl

finish_request-unlisted_example :
    ((finish_request asking 1 "ping" (gave_up (sentinel deadline_exceeded))).1
      ≡ heard (gave_up (sentinel deadline_exceeded)))
    × ((r : Request) × ((finish_request asking 1 "ping"
              (gave_up (sentinel deadline_exceeded))).0.requests
            1
          ≡ some r)
        × (r.listed ≡ false))
finish_request-unlisted_example =
    finish_request-unlisted asking 1 "ping" (gave_up (sentinel deadline_exceeded))
      (new_request false) asked (new_request-IsSound false) tt

write_request-unlisted_example :
    ((write_request asking 1 "ping" (some (sentinel eof))).1 ≡ some (sentinel eof))
    × ((r : Request) × ((write_request asking 1 "ping" (some (sentinel eof))).0.requests 1 ≡ some r)
        × (r.listed ≡ false))
write_request-unlisted_example =
    write_request-unlisted asking 1 "ping" (sentinel eof) (new_request false) asked
