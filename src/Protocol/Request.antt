-- ===== src/Protocol/Request.antt =====
-- protocol/protocol.go: raw requests and the client frame that wraps one.
use jcode_go.Common.{ℕ, ◌≡◌, String, some, arith, str_eq, if◌then◌else◌}
use jcode_go.Errors.{sentinel, wrap, err_invalid_frame, Result, ok, err, ◌>>=◌}
use jcode_go.Json.Value.{pos, Json, number, text, object, Fields}
use jcode_go.Json.Fields.{get, put, to_map, get-put, get-to_map}

pub record RawRequest : Type 0 where
  pub req : String
  pub fields : Json

pub record ClientFrame : Type 0 where
  pub v : ℕ
  pub id : ℕ
  pub request : RawRequest

abbrev as_object : Json → Result Fields
as_object (object fs) = ok fs
as_object _ = err (wrap "request fields must be an object" (sentinel err_invalid_frame))

-- `NewRawRequest`, for what json.Marshal returned for the fields.
unfoldable pub new_raw_request : String → Result Json → Result RawRequest
new_raw_request req payload =
    if str_eq req ""
    then err (wrap "request tag is empty" (sentinel err_invalid_frame))
    else do value ← payload; fs ← as_object value; ok (record { req = req; fields = object fs })

-- `RawRequest.MarshalJSON`
unfoldable pub marshal_request : RawRequest → Result Fields
marshal_request r =
    if str_eq r.req ""
    then err (wrap "invalid request" (sentinel err_invalid_frame))
    else do fs ← as_object r.fields; ok (put "req" (text r.req) (to_map fs))

-- `ClientFrame.MarshalJSON`
unfoldable pub marshal_frame : ClientFrame → Result Fields
unfolding marshal_request
marshal_frame f = do
  fs ← marshal_request f.request
  ok (put "id" (number (pos f.id)) (put "v" (number (pos f.v)) fs))

abbrev sent : ℕ → ℕ → RawRequest → ClientFrame
sent v id r = record { v = v; id = id; request = r }

abbrev on_wire : ℕ → ℕ → String → Fields → Fields
on_wire v id req fs =
    put "id" (number (pos id)) (put "v" (number (pos v)) (put "req" (text req) (to_map fs)))

marshal_frame-new_raw_request :
    (v id : ℕ) (req : String) (fs : Fields) {r : RawRequest}
    → new_raw_request req (ok (object fs)) ≡ ok r
    → marshal_frame (sent v id r) ≡ ok (on_wire v id req fs)
unfolding marshal_frame new_raw_request
marshal_frame-new_raw_request v id req fs e = ground arith

-- A request that `NewRawRequest` made can always be sent: its frame marshals, the tag, the version
-- and the number reach the wire whatever the request's own fields are called, and every other
-- field reaches it unchanged.
pub get-marshal_frame :
    (v id : ℕ) (req : String) (fs : Fields) {r : RawRequest}
    → new_raw_request req (ok (object fs)) ≡ ok r
    → (out : Fields) × (marshal_frame (sent v id r) ≡ ok out)
      × ((k : String)
          → get k out ≡ (
              if str_eq "id" k
              then some (number (pos id))
              else if str_eq "v" k
              then some (number (pos v))
              else if str_eq "req" k
              then some (text req)
              else get k fs))
get-marshal_frame v id req fs e = (
  on_wire v id req fs,
  marshal_frame-new_raw_request v id req fs e,
  λ k. simp (get-put, get-to_map),
)
