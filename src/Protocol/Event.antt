-- ===== src/Protocol/Event.antt =====
-- protocol/protocol.go: the event types, their wire tags and the table of known events.
use jcode_go.Common.{ℕ, Bool, false, List, [], ◌∷◌, String, Option, none, some, ◌||◌, str_eq}
use jcode_go.Json.Value.{ℤ, Fields}

pub data Event : Type 0 where
  hello_ok : ℤ → String → List String → Event
  ok_reply : Event
  error : String → String → String → Event
  raw_event : String → Fields → Event
  unknown_event : String → Fields → Event

pub record ServerFrame : Type 0 where
  pub v : ℤ
  pub reply_to : Option ℕ
  pub event : Event

-- `EventKind`
unfoldable pub event_kind : Event → String
event_kind (hello_ok v s c) = "hello_ok"
event_kind ok_reply = "ok"
event_kind (error c m p) = "error"
event_kind (raw_event kind fields) = kind
event_kind (unknown_event kind fields) = kind

-- `FieldsJSON`
unfoldable pub fields_json : Event → Option Fields
fields_json (raw_event kind fields) = some fields
fields_json (unknown_event kind fields) = some fields
fields_json _ = none

abbrev pub known_events : List String
known_events =
    "hello_ok" ∷ "ok" ∷ "error" ∷ "sessions" ∷ "attached" ∷ "history" ∷ "pong" ∷ "text_delta"
    ∷ "reasoning_delta" ∷ "reasoning_done" ∷ "tool_start" ∷ "tool_input_delta" ∷ "tool_exec"
    ∷ "tool_done" ∷ "side_pane_images" ∷ "token_usage" ∷ "turn_done" ∷ "background_progress"
    ∷ "message_accepted" ∷ "permission_request" ∷ "session_status" ∷ "model_info" ∷ "models"
    ∷ "runtime_info" ∷ "credential_updated" ∷ "file_content" ∷ "files" ∷ "text_matches"
    ∷ "file_status" ∷ "compacted" ∷ "connection_phase" ∷ "session_renamed" ∷ "session_forked"
    ∷ "wake_requested" ∷ []

pub member_of : String → List String → Bool
member_of k [] = false
member_of k (j ∷ js) = str_eq j k || member_of k js

-- `IsKnownEvent`
unfoldable pub is_known_event : String → Bool
unfolding member_of
is_known_event kind = member_of kind known_events
