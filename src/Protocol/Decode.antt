-- ===== src/Protocol/Decode.antt =====
-- protocol/protocol.go: `DecodeServerFrame` and `EncodeServerFrame`.
use jcode_go.Common.{
  ℕ, suc, Bool, false, not, ◌||◌, List, [], ◌∷◌, String, Option, none, some, ltb, str_eq,
  if◌then◌else◌,
}
use jcode_go.Errors.{
  sentinel, message, wrap, err_invalid_frame, err_malformed_frame, Result, ok, err, ◌>>=◌,
}
use jcode_go.Json.Value.{
  ℤ, pos, negsuc, Json, null, number, text, array, object, Items, nil, cons, Fields, end, member,
}
use jcode_go.Json.Fields.{get, keep, to_map}
use jcode_go.Json.Schema.{fold_eq, is_int64, is_uint}
use jcode_go.Protocol.Event.{
  Event, hello_ok, ok_reply, error, raw_event, unknown_event, ServerFrame, is_known_event,
}

abbrev invalid {ℓ} : {A : Type ℓ} → String → Result A
invalid m = err (wrap m (sentinel err_invalid_frame))

-- json.Unmarshal(object["v"], &frame.V) and the test that follows it.
unfoldable pub decode_version : Option Json → Result ℤ
decode_version (some (number (pos (suc n)))) =
    if is_int64 (pos (suc n)) then ok (pos (suc n)) else invalid "missing or invalid v"
decode_version _ = invalid "missing or invalid v"

unfoldable pub decode_reply_to : Option Json → Result (Option ℕ)
decode_reply_to none = ok none
decode_reply_to (some null) = ok none
decode_reply_to (some (number (pos n))) =
    if is_uint 18446744073709551616 (pos n) then ok (some n) else invalid "invalid reply_to"
decode_reply_to (some _) = invalid "invalid reply_to"

unfoldable pub decode_tag : Option Json → Result String
decode_tag (some (text kind)) = if str_eq kind "" then invalid "missing event tag" else ok kind
decode_tag _ = invalid "missing event tag"

abbrev pub is_reserved : String → Bool
is_reserved key = str_eq key "v" || str_eq key "reply_to" || str_eq key "ev"

-- json.Unmarshal of one member into a field of a struct: of type string, int, []string.
abbrev into_string : Json → String → Result String
into_string null old = ok old
into_string (text s) old = ok s
into_string _ old = err (message "json: cannot unmarshal into a Go struct field of type string")

abbrev into_int : Json → ℤ → Result ℤ
into_int null old = ok old
into_int (number n) old = if is_int64 n then ok n else err (message "json: number out of range")
into_int _ old = err (message "json: cannot unmarshal into a Go struct field of type int")

into_strings : Items → Result (List String)
into_strings nil = ok []
into_strings (cons x xs) = do s ← into_string x ""; ss ← into_strings xs; ok (s ∷ ss)

abbrev into_slice : Json → List String → Result (List String)
into_slice null old = ok []
into_slice (array xs) old = into_strings xs
into_slice _ old = err (message "json: cannot unmarshal into a Go struct field of type []string")

pub record Hello : Type 0 where
  pub version : ℤ
  pub server : String
  pub capabilities : List String

pub record Failure : Type 0 where
  pub code : String
  pub message : String
  pub provider_code : String

-- The members in the order of the text, each into the field of its name up to case.
decode_hello : Fields → Hello → Result Hello
unfolding into_strings
decode_hello end h = ok h
decode_hello (member k v fs) h =
    let set : Result Hello =
      if fold_eq k "version"
      then (do n ← into_int v h.version; ok (record h { version = n }))
      else if fold_eq k "server"
      then (do s ← into_string v h.server; ok (record h { server = s }))
      else if fold_eq k "capabilities"
      then (do c ← into_slice v h.capabilities; ok (record h { capabilities = c }))
      else ok h in
    set >>= decode_hello fs

unfoldable pub decode_failure : Fields → Failure → Result Failure
decode_failure end f = ok f
decode_failure (member k v fs) f =
    let set : Result Failure =
      if fold_eq k "code"
      then (do s ← into_string v f.code; ok (record f { code = s }))
      else if fold_eq k "message"
      then (do s ← into_string v f.message; ok (record f { message = s }))
      else if fold_eq k "provider_code"
      then (do s ← into_string v f.provider_code; ok (record f { provider_code = s }))
      else ok f in
    set >>= decode_failure fs

abbrev context {ℓ} : {A : Type ℓ} → String → Result A → Result A
context m (ok a) = ok a
context m (err e) = err (wrap m e)

-- The `switch kind` of `DecodeServerFrame`, on all the members of the frame.
unfoldable pub decode_event : String → Fields → Result Event
unfolding decode_hello decode_failure
decode_event kind fs =
    if str_eq kind "hello_ok"
    then (do
      h ←
          context "decode hello_ok"
            (decode_hello fs (record { version = pos 0; server = ""; capabilities = [] }))
      ok (hello_ok h.version h.server h.capabilities))
    else if str_eq kind "ok"
    then ok ok_reply
    else if str_eq kind "error"
    then (do
      f ←
          context "decode error event"
            (decode_failure fs (record { code = ""; message = ""; provider_code = "" }))
      ok (error f.code f.message f.provider_code))
    else if is_known_event kind
    then ok (raw_event kind (keep (λ key. not (is_reserved key)) (to_map fs)))
    else ok (unknown_event kind (keep (λ key. not (is_reserved key)) (to_map fs)))

-- `DecodeServerFrame`, for the value that the bytes denote; `none` stands for bytes that are no JSON.
unfoldable pub decode_server_frame : Option Json → Result ServerFrame
unfolding decode_version decode_reply_to decode_tag decode_event
decode_server_frame (some (object fs)) = do
  v ← decode_version (get "v" fs)
  reply_to ← decode_reply_to (get "reply_to" fs)
  kind ← decode_tag (get "ev" fs)
  event ← decode_event kind fs
  ok (record { v = v; reply_to = reply_to; event = event })
decode_server_frame (some null) =
    err (wrap "server frame is not an object" (sentinel err_invalid_frame))
decode_server_frame _ = err (wrap "decode server frame" (sentinel err_malformed_frame))

abbrev is_positive : ℤ → Bool
is_positive (pos n) = ltb 0 n
is_positive (negsuc n) = false

abbrev pub reply_member : Option ℕ → Fields → Fields
reply_member none fs = fs
reply_member (some id) fs = member "reply_to" (number (pos id)) fs

-- `EncodeServerFrame`: the object that it marshals.
unfoldable pub encode_server_frame : ℤ → Option ℕ → String → Fields → Result Fields
encode_server_frame v reply_to kind fields =
    if not (is_positive v) || str_eq kind ""
    then err (wrap "invalid server frame" (sentinel err_invalid_frame))
    else ok (
        member "v" (number v) (
          member "ev" (text kind)
            (reply_member reply_to (keep (λ key. not (is_reserved key)) fields))))
