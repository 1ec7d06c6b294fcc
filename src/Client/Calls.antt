-- ===== src/Client/Calls.antt =====
-- client.go: `requestWithReplyObserver` after its entry into `pending`, and `Notify`. The outcome of
-- `encoder.Write` and the case that the last select takes are arguments.
pub mod Ends
mod Examples
use jcode_go.Common.Channel.{closed, pending}
use jcode_go.Common.{
  ℕ, ◌≡◌, Bool, true, false, not, List, [], ◌∷◌, ◌++◌, String, Option, none, some, codes,
  if◌then◌else◌,
}
use jcode_go.Errors.{
  GoError, sentinel, err_closed, err_disconnected, deadline_exceeded, context_canceled, errors_is,
  Result, ok, err,
}
use jcode_go.Observation.{Observation, observed}
use jcode_go.Protocol.Event.{ServerFrame}
use jcode_go.Client.Request.{Request}
use jcode_go.Client.Subscriber.{is_signalled}
use jcode_go.Client.State.{Client, emit, is_connected}
use jcode_go.Client.Operations.{bump, disconnect, remove_pending, request_state_error, error_kind}

abbrev about : String → String → Observation
about kind req = record (observed kind) { request = req }

abbrev failed : String → String → String → Observation
failed kind req e = record (observed kind) { request = req; error = codes e }

abbrev written : Client → String → Option GoError → Client
written c req none = emit c (about "request_write_complete" req)
written c req (some e) = emit c (failed "request_write_error" req (error_kind e))

-- The observations around the write.
abbrev pub told_write : Client → String → Option GoError → Client
told_write c req outcome =
    emit (written (emit c (about "request_write_start" req)) req outcome) (about "request" req)

-- The write of a request, with the observations around it.
unfoldable pub write_request : Client → ℕ → String → Option GoError → Client × Option GoError
write_request c id req outcome =
    let told = told_write c req outcome in
    elim outcome [
      | none ↦ (told, none)
      | some e ↦ (disconnect (remove_pending told id) e false, some e)
    ]

-- `requestContextError`
unfoldable pub request_context_error : GoError → String
request_context_error e =
    if errors_is e deadline_exceeded
    then "deadline_exceeded"
    else if errors_is e context_canceled
    then "canceled"
    else "context_done"

-- The case of the last select: a receive from the reply channel with its frame or closed, the
-- context with its error, the close of the client.
pub data Waited : Type 0 where
  replied : ServerFrame → Waited
  reply_closed : Waited
  gave_up : GoError → Waited
  client_closed : Waited

-- The last select of a request.
unfoldable pub finish_request : Client → ℕ → String → Waited → Client × Result ServerFrame
finish_request c id req (replied f) = (emit c (about "request_reply" req), ok f)
finish_request c id req reply_closed =
    (emit c (failed "request_error" req "disconnected"), err (sentinel err_disconnected))
finish_request c id req (gave_up e) =
    (emit (remove_pending c id) (failed "request_timeout" req (request_context_error e)), err e)
finish_request c id req client_closed =
    (emit (remove_pending c id) (failed "request_error" req "closed"), err (sentinel err_closed))

-- When the select can take the case.
abbrev pub CanTake : Request → Waited → Type 0
CanTake r (replied f) = r.frames ≡ f ∷ []
CanTake r reply_closed = (r.frames ≡ []) × (r.reply_done ≡ closed)
CanTake r (gave_up e) = Unit
CanTake r client_closed = Unit

-- `Notify`
unfoldable pub notify : Client → String → Option GoError → Client × Option GoError
notify c req outcome =
    if not (is_connected c.state)
    then (c, some (request_state_error c))
    else if is_signalled c.closed
    then (c, some (sentinel err_closed))
    else (let told = emit (record c { next_id = bump c.next_id }) (about "request" req) in
        elim outcome [ none ↦ (told, none) | some e ↦ (disconnect told e false, some e) ])
