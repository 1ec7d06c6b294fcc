-- ===== src/Session/Calls.antt =====
-- session.go: the calls that create, attach and fork sessions. The client's `Request` is an argument,
-- from the client and the request to the client and what it returned. The texts of errors for
-- unexpected replies are kept less the kind of the reply that they end in.
use jcode_go.Common.{
  ℕ, Bool, true, not, ◌&&◌, ◌||◌, List, [], ◌∷◌, String, none, some, codes, leb, ◌==◌, str_eq,
  if◌then◌else◌,
}
use jcode_go.Errors.{
  GoError, message, option_error, event_error, errors_is, deadline_exceeded, context_canceled,
  Result, ok, err,
}
use jcode_go.Json.Value.{Json, text, object, Fields, end, member}
use jcode_go.Json.Schema.{Schema, struct, column, no_column, fits, fold_eq}
use jcode_go.Observation.{Observation, observed}
use jcode_go.Protocol.Event.{
  Event, hello_ok, ok_reply, error, raw_event, unknown_event, ServerFrame, fields_json,
}
use jcode_go.Protocol.Request.{RawRequest, new_raw_request}
use jcode_go.Session.EventType.{session_info}
use jcode_go.Session.Sending.{unless_empty}
use jcode_go.Client.State.{Client, emit}

-- `info` is the text that `Info` was decoded from.
pub record Session : Type 0 where
  pub id : String
  pub info : Fields

abbrev pub Requester : Type 0
Requester = Client → RawRequest → Client × Result ServerFrame

pub record CreateSessionOptions : Type 0 where
  pub working_dir : String
  pub profile : String

-- `unicode.IsSpace`
abbrev pub is_space : ℕ → Bool
is_space r =
    leb 9 r && leb r 13
    || r == 32
    || r == 0x85
    || r == 0xa0
    || r == 0x1680
    || leb 0x2000 r && leb r 0x200a
    || r == 0x2028
    || r == 0x2029
    || r == 0x202f
    || r == 0x205f
    || r == 0x3000

-- `strings.TrimSpace(text) == ""`
all_space : List ℕ → Bool
all_space [] = true
all_space (r ∷ rs) = is_space r && all_space rs

-- `validateCreateSessionOptions`
unfoldable pub validate_create_session_options : CreateSessionOptions → Result (Unit {0})
unfolding all_space
validate_create_session_options o =
    if not (str_eq o.profile "") && all_space (codes o.profile)
    then err (option_error "profile")
    else ok tt

abbrev session_response : Schema
session_response = struct (column "session" session_info no_column)

abbrev into_id : Json → String → String
into_id (text s) old = s
into_id _ old = old

-- The member session_id of an object, where it has one.
unfoldable pub id_in : Fields → String → String
id_in end old = old
id_in (member k v fs) old = id_in fs (if fold_eq k "session_id" then into_id v old else old)

abbrev id_of : Json → String → String
id_of (object fs) old = id_in fs old
id_of _ old = old

unfoldable pub session_id_in : Fields → String → String
unfolding id_in
session_id_in end old = old
session_id_in (member k v fs) old =
    session_id_in fs (if fold_eq k "session" then id_of v old else old)

-- json.Unmarshal into the response, and the `Session` made of it.
unfoldable pub decode_session : Fields → Result Session
unfolding session_id_in
decode_session fs =
    if fits (object fs) session_response
    then ok (record { id = session_id_in fs ""; info = fs })
    else err (message "json: cannot unmarshal into a Go struct")

abbrev with_fields : String → Event → (Fields → Result Session) → Result Session
with_fields call event next = elim (fields_json event) [
  | none ↦ err (message call)
  | some fs ↦ next fs
]

abbrev pub create_fields : CreateSessionOptions → Fields
create_fields o =
    unless_empty (str_eq o.working_dir "") "working_dir" (text o.working_dir)
      (unless_empty (str_eq o.profile "") "profile" (text o.profile) end)

abbrev request_failure : GoError → String
request_failure e =
    if errors_is e deadline_exceeded
    then "request_timeout"
    else if errors_is e context_canceled
    then "request_canceled"
    else "request_failed"

abbrev invalid_reply : Result Session → String × Result Session
invalid_reply (ok s) = ("", ok s)
invalid_reply (err e) = ("invalid_reply", err e)

-- What `CreateSession` reports as its error, and returns, for what its request returned.
unfoldable pub judge_reply : Result ServerFrame → String × Result Session
unfolding decode_session
judge_reply (err e) = (request_failure e, err e)
judge_reply (ok f) = elim f.event [
  | error code m provider_code ↦ (code, err (event_error code m provider_code))
  | hello_ok v s c ↦ ("unexpected_reply", err (message "unexpected create_session reply"))
  | ok_reply ↦ ("unexpected_reply", err (message "unexpected create_session reply"))
  | raw_event kind fs ↦ invalid_reply (decode_session fs)
  | unknown_event kind fs ↦ invalid_reply (decode_session fs)
]

abbrev create_observation : String → String → Observation
create_observation kind e = record (observed kind) { request = "create_session"; error = codes e }

abbrev report : Client → String × Result Session → Client × Result Session
report c (e, ok s) = (emit c (create_observation "create_session_ok" ""), ok s)
report c (e, err cause) = (emit c (create_observation "create_session_error" e), err cause)

abbrev after_request : Client × Result ServerFrame → Client × Result Session
after_request (c, reply) = report c (judge_reply reply)

abbrev ask : Requester → Client → Result RawRequest → Client × Result Session
ask request c (err e) = report c ("request_encode", err e)
ask request c (ok req) = after_request (request c req)

-- `CreateSession`
unfoldable pub create_session : Requester → Client → CreateSessionOptions → Client × Result Session
unfolding judge_reply
create_session request c o = elim (validate_create_session_options o) [
  | err e ↦ (c, err e)
  | ok _ ↦
      ask request (emit c (create_observation "create_session_start" ""))
        (new_raw_request "create_session" (ok (object (create_fields o))))
]

abbrev session_field : String → Fields
session_field id = member "session_id" (text id) end

abbrev attached : Result ServerFrame → Result Session
attached (err e) = err e
attached (ok f) = with_fields "unexpected attach_session reply" f.event decode_session

abbrev then_judge :
    (Result ServerFrame → Result Session) → Client × Result ServerFrame → Client × Result Session
then_judge judge (c, reply) = (c, judge reply)

abbrev call :
    Requester
    → Client
    → Result RawRequest
    → (Result ServerFrame → Result Session)
    → Client × Result Session
call request c (err e) judge = (c, err e)
call request c (ok req) judge = then_judge judge (request c req)

-- `AttachSession`
unfoldable pub attach_session : Requester → Client → String → Client × Result Session
unfolding decode_session
attach_session request c id =
    call request c (new_raw_request "attach_session" (ok (object (session_field id)))) attached

abbrev pub unexpected_fork : Result Session
unexpected_fork = err (message "unexpected fork_session reply")

abbrev forked : Result ServerFrame → Result Session
forked (err e) = err e
forked (ok f) = elim f.event [
  | error code m provider_code ↦ err (event_error code m provider_code)
  | hello_ok v s c ↦ unexpected_fork
  | ok_reply ↦ unexpected_fork
  | raw_event kind fs ↦ if str_eq kind "session_forked" then decode_session fs else unexpected_fork
  | unknown_event kind fs ↦
      if str_eq kind "session_forked" then decode_session fs else unexpected_fork
]

-- `ForkSession`
unfoldable pub fork_session : Requester → Client → String → Client × Result Session
unfolding decode_session
fork_session request c id =
    call request c (new_raw_request "fork_session" (ok (object (session_field id)))) forked
