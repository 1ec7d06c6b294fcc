-- ===== src/Session/TypedEvent.antt =====
-- session.go: the typed events, their semantic classes and `decodeTypedEvent`. A decoded event is its Go type with the members that it was decoded from.
pub mod Coverage
use jcode_go.Common.{
  ℕ, Bool, true, false, List, [], ◌∷◌, String, Option, none, some, str_eq, codes, if◌then◌else◌,
}
use jcode_go.Errors.{GoError, compatibility, Result, ok, err}
use jcode_go.Json.Value.{Json, object, Fields}
use jcode_go.Json.Schema.{fits}
use jcode_go.Protocol.Event.{ServerFrame}
use jcode_go.Session.Identifier.{sanitize, unknown_kind, unknown_type}
use jcode_go.Session.EventType.{
  EventType, schema, type_name, text_delta, reasoning_delta, reasoning_done, tool_start,
  tool_input_delta, tool_exec, tool_done, side_pane_images, token_usage, turn_done,
  background_progress, message_accepted, permission_request, session_status, connection_phase,
  session_forked, wake_requested, model_info, models, runtime_info, credential_updated,
  file_content, files, text_matches, file_status, compacted, session_renamed,
}

pub data TypedEvent : Type 0 where
  typed : EventType → Fields → TypedEvent
  unknown : String → Option Fields → TypedEvent

-- `typedEventType`
unfoldable pub typed_event_type : TypedEvent → String
unfolding type_name
typed_event_type (typed t fs) = type_name t
typed_event_type (unknown k fs) = "jcode.UnknownEvent"

pub data SemanticClass : Type 0 where
  content_progress advisory_lifecycle terminal permission tool_effect : SemanticClass

class_of_type : EventType → Option SemanticClass
class_of_type text_delta = some content_progress
class_of_type reasoning_delta = some content_progress
class_of_type tool_start = some content_progress
class_of_type tool_input_delta = some content_progress
class_of_type tool_done = some content_progress
class_of_type side_pane_images = some content_progress
class_of_type token_usage = some content_progress
class_of_type reasoning_done = some advisory_lifecycle
class_of_type background_progress = some advisory_lifecycle
class_of_type message_accepted = some advisory_lifecycle
class_of_type session_status = some advisory_lifecycle
class_of_type connection_phase = some advisory_lifecycle
class_of_type model_info = some advisory_lifecycle
class_of_type turn_done = some terminal
class_of_type permission_request = some permission
class_of_type tool_exec = some tool_effect
class_of_type _ = none

-- `SemanticClassOf`
unfoldable pub semantic_class_of : TypedEvent → Option SemanticClass
unfolding class_of_type
semantic_class_of (typed t fs) = class_of_type t
semantic_class_of (unknown k fs) = none

-- The cases of the switch of `decodeTypedEvent`.
abbrev pub decoders : List (String × EventType)
decoders =
    ("text_delta", text_delta)
    ∷ ("reasoning_delta", reasoning_delta)
    ∷ ("reasoning_done", reasoning_done)
    ∷ ("tool_start", tool_start)
    ∷ ("tool_input_delta", tool_input_delta)
    ∷ ("tool_exec", tool_exec)
    ∷ ("tool_done", tool_done)
    ∷ ("side_pane_images", side_pane_images)
    ∷ ("token_usage", token_usage)
    ∷ ("turn_done", turn_done)
    ∷ ("background_progress", background_progress)
    ∷ ("message_accepted", message_accepted)
    ∷ ("permission_request", permission_request)
    ∷ ("session_status", session_status)
    ∷ ("connection_phase", connection_phase)
    ∷ ("session_forked", session_forked)
    ∷ ("wake_requested", wake_requested)
    ∷ ("model_info", model_info)
    ∷ ("models", models)
    ∷ ("runtime_info", runtime_info)
    ∷ ("credential_updated", credential_updated)
    ∷ ("file_content", file_content)
    ∷ ("files", files)
    ∷ ("text_matches", text_matches)
    ∷ ("file_status", file_status)
    ∷ ("compacted", compacted)
    ∷ ("session_renamed", session_renamed)
    ∷ []

unfoldable pub lookup {ℓ} : {A : Type ℓ} → String → List (String × A) → Option A
lookup k [] = none
lookup k ((j, a) ∷ m) = if str_eq j k then some a else lookup k m

-- client.go: `Event`, a server event with its kind and its fields.
pub record Event : Type 0 where
  pub frame : ServerFrame
  pub kind : String
  pub fields : Option Fields

-- `newCompatibilityError`
unfoldable pub new_compatibility_error : String → String → GoError
new_compatibility_error kind event_type =
    compatibility (sanitize (codes kind) unknown_kind) (sanitize (codes event_type) unknown_type)

-- `event.Decode(value)` into the struct of the type, after the test that the fields are an object.
decode_as : Event → EventType → Option Fields → Result TypedEvent
decode_as e t none = err (new_compatibility_error e.kind (type_name t))
decode_as e t (some fs) =
    if fits (object fs) (schema t)
    then ok (typed t fs)
    else err (new_compatibility_error e.kind (type_name t))

decode_to : Event → Option EventType → Result TypedEvent
unfolding decode_as
decode_to e none = ok (unknown e.kind e.fields)
decode_to e (some t) = decode_as e t e.fields

-- `decodeTypedEvent`
unfoldable pub decode_typed_event : Event → Result TypedEvent
unfolding decode_to
decode_typed_event e = decode_to e (lookup e.kind decoders)
