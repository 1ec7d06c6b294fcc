-- ===== src/Protocol/Trip.antt =====
-- A frame that `EncodeServerFrame` made is read back by `DecodeServerFrame`.
use jcode_go.Common.{
  ℕ, suc, ◌<◌, ◌≡◌, Bool, false, not, String, Option, none, some, arith, str_eq, eq_iff,
  if◌then◌else◌,
}
use jcode_go.Errors.{ok}
use jcode_go.Json.Value.{pos, number, text, object, Fields, member}
use jcode_go.Json.Fields.{get, keep, to_map, get-keep, get-to_map}
use jcode_go.Protocol.Event.{Event, raw_event, unknown_event, is_known_event}
use jcode_go.Protocol.Decode.{
  decode_version, decode_reply_to, decode_tag, decode_event, decode_server_frame,
  encode_server_frame, is_reserved, reply_member,
}

-- The events that have no type of their own.
abbrev pub IsPlain : String → Type 0
IsPlain kind =
    (str_eq kind "" ≡ false)
    × (str_eq kind "hello_ok" ≡ false)
    × (str_eq kind "ok" ≡ false)
    × (str_eq kind "error" ≡ false)

abbrev pub Fits64 : Option ℕ → Type 0
Fits64 none = Unit {0}
Fits64 (some id) = id < 18446744073709551616

abbrev pub plain_event : String → Fields → Event
plain_event kind payload =
    if is_known_event kind then raw_event kind payload else unknown_event kind payload

-- A key that belongs to the event, not to the frame.
abbrev pub is_open : String → Bool
is_open key = not (is_reserved key)

abbrev pub wire : ℕ → Option ℕ → String → Fields → Fields
wire n reply_to kind fields =
    member "v" (number (pos (suc n)))
      (member "ev" (text kind) (reply_member reply_to (keep is_open fields)))

abbrev pub payload : Fields → Fields
payload fs = keep is_open (to_map fs)

get-wire_v :
    (n : ℕ) (reply_to : Option ℕ) (kind : String) (fields : Fields)
    → get "v" (wire n reply_to kind fields) ≡ some (number (pos (suc n)))
unfolding get
get-wire_v n none kind fields = ground (arith, get-keep is_open "v" fields)
get-wire_v n (some id) kind fields = ground (arith, get-keep is_open "v" fields)

get-wire_ev :
    (n : ℕ) (reply_to : Option ℕ) (kind : String) (fields : Fields)
    → get "ev" (wire n reply_to kind fields) ≡ some (text kind)
unfolding get
get-wire_ev n none kind fields = ground (arith, get-keep is_open "ev" fields)
get-wire_ev n (some id) kind fields = ground (arith, get-keep is_open "ev" fields)

decode-wire_reply_to :
    (n : ℕ) (reply_to : Option ℕ) (kind : String) (fields : Fields)
    → Fits64 reply_to
    → decode_reply_to (get "reply_to" (wire n reply_to kind fields)) ≡ ok reply_to
unfolding get decode_reply_to
decode-wire_reply_to n none kind fields h = ground (arith, get-keep is_open "reply_to" fields)
decode-wire_reply_to n (some id) kind fields h = ground (arith, get-keep is_open "reply_to" fields)

get-payload :
    (n : ℕ) (reply_to : Option ℕ) (kind : String) (fields : Fields) (k : String)
    → get k (payload (wire n reply_to kind fields)) ≡ (if is_reserved k then none else get k fields)
unfolding get
get-payload n none kind fields k =
    rw (get-keep, get-to_map)
      (ground (
        arith,
        get-keep is_open k fields,
        eq_iff "ev" k,
        eq_iff k "ev",
        eq_iff "v" k,
        eq_iff k "v",
      ))
get-payload n (some id) kind fields k =
    rw (get-keep, get-to_map)
      (ground (
        arith,
        get-keep is_open k fields,
        eq_iff "ev" k,
        eq_iff k "ev",
        eq_iff "v" k,
        eq_iff k "v",
        eq_iff "reply_to" k,
        eq_iff k "reply_to",
      ))

decode_tag-text : (kind : String) → str_eq kind "" ≡ false → decode_tag (some (text kind)) ≡ ok kind
unfolding decode_tag
decode_tag-text kind h = rw h

decode_event-plain :
    (kind : String) (fs : Fields)
    → IsPlain kind
    → decode_event kind fs ≡ ok (plain_event kind (payload fs))
unfolding decode_event
decode_event-plain kind fs h = ground arith

decode_version-pos :
    (n : ℕ)
    → suc n < 9223372036854775808
    → decode_version (some (number (pos (suc n)))) ≡ ok (pos (suc n))
unfolding decode_version
decode_version-pos n h = ground arith

-- For a kind with no type of its own, a positive version and numbers that fit: the frame is
-- encoded, and decoding it gives the version, the reply number and the kind again, with an event
-- that has every field of the original under its key, but for the three keys of the frame.
pub decode-encode :
    (n : ℕ) (reply_to : Option ℕ) (kind : String) (fields : Fields)
    → suc n < 9223372036854775808
    → Fits64 reply_to
    → IsPlain kind
    → (fs : Fields) × (rest : Fields) × (encode_server_frame (pos (suc n)) reply_to kind fields
        ≡ ok fs)
      × (decode_server_frame (some (object fs))
          ≡ ok (record { v = pos (suc n); reply_to = reply_to; event = plain_event kind rest }))
      × ((k : String) → get k rest ≡ (if is_reserved k then none else get k fields))
unfolding encode_server_frame decode_server_frame
decode-encode n reply_to kind fields small fits plain = (
  wire n reply_to kind fields,
  payload (wire n reply_to kind fields),
  ground arith,
  rw (
    get-wire_v n reply_to kind fields,
    decode_version-pos n small,
    decode-wire_reply_to n reply_to kind fields fits,
    get-wire_ev n reply_to kind fields,
    decode_tag-text kind plain.0,
    decode_event-plain kind (wire n reply_to kind fields) plain,
  ),
  get-payload n reply_to kind fields,
)
