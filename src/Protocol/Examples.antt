-- ===== src/Protocol/Examples.antt =====
-- Frames and requests on concrete members.
use jcode_go.Common.{◌≡◌, refl, String, some, none, arith, str_eq, if◌then◌else◌}
use jcode_go.Errors.{ok}
use jcode_go.Json.Value.{pos, number, text, object, Fields, end, member}
use jcode_go.Json.Fields.{get}
use jcode_go.Protocol.Request.{RawRequest, new_raw_request, marshal_frame, get-marshal_frame}
use jcode_go.Protocol.Decode.{encode_server_frame, decode_server_frame, is_reserved}
use jcode_go.Protocol.Trip.{plain_event, decode-encode}

-- A payload that tries to take the place of the frame's own key.
abbrev payload : Fields
payload = member "text" (text "hi") (member "ev" (text "other") end)

decode-encode_example :
    (fs : Fields) × (rest : Fields) × (encode_server_frame (pos 1) (some 7) "text_delta" payload
      ≡ ok fs)
    × (decode_server_frame (some (object fs))
        ≡ ok (record { v = pos 1; reply_to = some 7; event = plain_event "text_delta" rest }))
    × ((k : String) → get k rest ≡ (if is_reserved k then none else get k payload))
decode-encode_example =
    decode-encode 0 (some 7) "text_delta" payload (omega arith) (omega arith)
      (refl, refl, refl, refl)

-- A request whose fields try to take the place of the frame's number.
abbrev fields : Fields
fields = member "session_id" (text "s1") (member "id" (number (pos 9)) end)

abbrev request : RawRequest
request = record { req = "cancel"; fields = object fields }

request_made : new_raw_request "cancel" (ok (object fields)) ≡ ok request
unfolding new_raw_request
request_made = refl

get-marshal_frame_example :
    (out : Fields) × (marshal_frame (record { v = 1; id = 3; request = request }) ≡ ok out)
    × ((k : String)
        → get k out ≡ (
            if str_eq "id" k
            then some (number (pos 3))
            else if str_eq "v" k
            then some (number (pos 1))
            else if str_eq "req" k
            then some (text "cancel")
            else get k fields))
get-marshal_frame_example = get-marshal_frame 1 3 "cancel" fields request_made
