-- ===== src/Session/EventType.antt =====
-- session.go: the types of typed events, and the struct that each is decoded into.
use jcode_go.Common.{String}
use jcode_go.Json.Schema.{
  Schema, string, int64, uint64, uint32, float64, bool, slice, pointer, struct, Columns, no_column,
  column,
}

pub data EventType : Type 0 where
  text_delta reasoning_delta reasoning_done tool_start tool_input_delta tool_exec : EventType
  tool_done side_pane_images token_usage turn_done background_progress : EventType
  message_accepted permission_request session_status connection_phase : EventType
  session_forked wake_requested model_info models runtime_info credential_updated : EventType
  file_content files text_matches file_status compacted session_renamed : EventType

abbrev pub id_and : Columns → Schema
id_and cs = struct (column "session_id" string cs)

abbrev one : String → Schema → Columns
one name s = column name s no_column

abbrev pub session_info : Schema
session_info = id_and (
    column "working_dir" string (
      column "title" string (
        column "status" string (
          column "transcript_bytes" uint64
            (column "archived" bool (one "archived_at_ms" uint64))))))

abbrev image_source : Schema
image_source = struct (column "kind" string (column "tool_name" string (one "role" string)))

abbrev image_anchor : Schema
image_anchor = struct (column "kind" string (column "id" string (one "ordinal" uint64)))

abbrev rendered_image : Schema
rendered_image = struct (
    column "media_type" string (
      column "data" string (
        column "label" (pointer string)
          (column "source" image_source (one "anchor" (pointer image_anchor))))))

abbrev model_route_info : Schema
model_route_info = struct (
    column "model" string (
      column "provider" string
        (column "api_method" string (column "available" bool (one "detail" string)))))

abbrev text_match : Schema
text_match =
    struct
      (column "path" string (column "line" uint32 (column "column" uint32 (one "preview" string))))

abbrev model_columns : Columns → Columns
model_columns rest =
    column "provider" string (column "model" string (column "reasoning_effort" string rest))

-- The struct of each type, by its json tags.
unfoldable pub schema : EventType → Schema
schema text_delta = id_and (one "text" string)
schema reasoning_delta = id_and (one "text" string)
schema reasoning_done = id_and (one "duration_secs" float64)
schema tool_start = id_and (column "call_id" string (one "name" string))
schema tool_input_delta = id_and (column "call_id" string (one "delta" string))
schema tool_exec = id_and (column "call_id" string (one "name" string))
schema tool_done =
    id_and
      (column "call_id" string (column "name" string (column "output" string (one "error" string))))
schema side_pane_images = id_and (one "images" (slice rendered_image))
schema token_usage =
    id_and (column "input" int64 (column "output" int64 (one "cache_read_input" int64)))
schema turn_done = id_and no_column
schema background_progress = id_and (
    column "task_id" string (
      column "label" string (column "percent" float64 (column "summary" string (one "done" bool)))))
schema message_accepted = id_and no_column
schema permission_request =
    id_and (column "request_id" string (column "tool_name" string (one "description" string)))
schema session_status = id_and (one "status" string)
schema connection_phase = id_and (one "phase" string)
schema session_forked = struct (one "session" session_info)
schema wake_requested = id_and (column "reason" string (one "notification" string))
schema model_info = id_and (model_columns no_column)
schema models = id_and (column "models" (slice string) (one "current" string))
schema runtime_info = id_and (model_columns (one "routes" (slice model_route_info)))
schema credential_updated = struct (column "provider" string (one "configured" bool))
schema file_content =
    id_and
      (column "path" string (column "content" string (column "size" uint64 (one "truncated" bool))))
schema files = id_and (one "paths" (slice string))
schema text_matches = id_and (one "matches" (slice text_match))
schema file_status = id_and (
    column "path" string (
      column "exists" bool (
        column "kind" string
          (column "size" (pointer uint64) (one "modified_ms" (pointer uint64))))))
schema compacted = id_and (one "message" string)
schema session_renamed = id_and (column "title" (pointer string) (one "display_title" string))

-- `reflect.TypeOf(event).String()` of a pointer to the struct
unfoldable pub type_name : EventType → String
type_name text_delta = "*jcode.TextDelta"
type_name reasoning_delta = "*jcode.ReasoningDelta"
type_name reasoning_done = "*jcode.ReasoningDone"
type_name tool_start = "*jcode.ToolStart"
type_name tool_input_delta = "*jcode.ToolInputDelta"
type_name tool_exec = "*jcode.ToolExec"
type_name tool_done = "*jcode.ToolDone"
type_name side_pane_images = "*jcode.SidePaneImages"
type_name token_usage = "*jcode.TokenUsage"
type_name turn_done = "*jcode.TurnDone"
type_name background_progress = "*jcode.BackgroundProgress"
type_name message_accepted = "*jcode.MessageAccepted"
type_name permission_request = "*jcode.PermissionRequest"
type_name session_status = "*jcode.SessionStatus"
type_name connection_phase = "*jcode.ConnectionPhase"
type_name session_forked = "*jcode.SessionForked"
type_name wake_requested = "*jcode.WakeRequested"
type_name model_info = "*jcode.ModelInfo"
type_name models = "*jcode.Models"
type_name runtime_info = "*jcode.RuntimeInfo"
type_name credential_updated = "*jcode.CredentialUpdated"
type_name file_content = "*jcode.FileContent"
type_name files = "*jcode.Files"
type_name text_matches = "*jcode.TextMatches"
type_name file_status = "*jcode.FileStatus"
type_name compacted = "*jcode.Compacted"
type_name session_renamed = "*jcode.SessionRenamed"
