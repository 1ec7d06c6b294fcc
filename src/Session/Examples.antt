-- ===== src/Session/Examples.antt =====
-- Identifiers and typed events on concrete inputs.
use jcode_go.Common.{
  String, ℕ, ◌≤◌, ◌≡◌, refl, ◌⊎◌, ◌↔◌, true, false, List, [], ◌∷◌, some, none, arith, length, take,
  codes, Option, not, str_eq, if◌then◌else◌,
}
use jcode_go.Errors.{ok}
use jcode_go.Json.Value.{array, pos, text, Fields, end, member, number, boolean}
use jcode_go.Json.Schema.{fits}
use jcode_go.Protocol.Event.{raw_event, is_known_event}
use jcode_go.Session.EventType.{turn_done, schema}
use jcode_go.Json.Fields.{get}
use jcode_go.Protocol.Request.{RawRequest, marshal_frame}
use jcode_go.Session.Sending.{
  SendOptions, IsValid, is_zero, unless, no_images, pairs, validate_send_options,
  validate_send_options-ok, new_send_message_request, marshal_frame-new_send_message_request,
}
use jcode_go.Session.Identifier.{
  truncate_utf8, is_continuation, byte_at, sanitize, IsPlain, max_compatibility_identifier_bytes,
  max_compatibility_diagnostic_bytes, bounded_message, full_message, truncate_utf8_lem,
  sanitize_bounds, bounded_message_whole, unknown_kind,
}
use jcode_go.Session.TypedEvent.{
  Event, typed, terminal, semantic_class_of, decode_typed_event, lookup,
}
use jcode_go.Session.TypedEvent.Coverage.{decode_typed_event-terminal}

-- `aé`, cut in the middle of its second character.
abbrev accented : List ℕ
accented = 97 ∷ 195 ∷ 169 ∷ []

truncate_utf8_lem_example :
    (length (truncate_utf8 accented 2) ≤ 2)
    × ((truncate_utf8 accented 2 ≡ accented)
        ⊎ ((cut : ℕ) × (truncate_utf8 accented 2 ≡ take cut accented)
            × ((cut ≡ 0) ⊎ (is_continuation (byte_at accented cut) ≡ false))))
truncate_utf8_lem_example = truncate_utf8_lem accented 2

unknown_kind-IsPlain : IsPlain unknown_kind
unknown_kind-IsPlain = ground arith

sanitize_bounds_example :
    (length (sanitize (codes "new event\n") unknown_kind) ≤ max_compatibility_identifier_bytes)
    × IsPlain (sanitize (codes "new event\n") unknown_kind)
sanitize_bounds_example = sanitize_bounds (codes "new event\n") unknown_kind unknown_kind-IsPlain

bounded_message_whole_example :
    (bounded_message (codes "new") [] ≡ full_message (codes "new") [])
    × (length (bounded_message (codes "new") []) ≤ max_compatibility_diagnostic_bytes)
bounded_message_whole_example = bounded_message_whole (codes "new") []

abbrev fields : Fields
fields = member "session_id" (text "s1") end

abbrev done : Event
done = record {
  frame = record { v = pos 1; reply_to = none; event = raw_event "turn_done" fields };
  kind = "turn_done";
  fields = some fields;
}

done_decodes : decode_typed_event done ≡ ok (typed turn_done fields)
unfolding decode_typed_event lookup fits schema
done_decodes = refl

decode_typed_event-terminal_example :
    (is_known_event done.kind ≡ true)
    × ((semantic_class_of (typed turn_done fields) ≡ some terminal) ↔ (done.kind ≡ "turn_done"))
decode_typed_event-terminal_example = decode_typed_event-terminal done turn_done fields done_decodes

-- Two turns at most, before the tenth nanosecond; the only instant that the parser knows.
abbrev limited : SendOptions
limited = record {
  images = ("image/png", "aGk=") ∷ [];
  no_reply = false;
  max_turns = pos 2;
  token_budget = pos 0;
  deadline = "t10";
}

abbrev parse : String → Option ℕ
parse s = if str_eq s "t10" then some 10 else none

validate_send_options-ok_example :
    (validate_send_options parse limited 3 ≡ ok tt) ↔ IsValid parse limited 3
validate_send_options-ok_example = validate_send_options-ok parse limited 3

marshal_frame-new_send_message_request_example :
    (r : RawRequest) × (out : Fields) × (new_send_message_request "s1" "hi" limited ≡ ok r)
    × (marshal_frame (record { v = 1; id = 4; request = r }) ≡ ok out)
    × (get "req" out ≡ some (text "send_message"))
    × (get "id" out ≡ some (number (pos 4)))
    × (get "session_id" out ≡ some (text "s1"))
    × (get "content" out ≡ some (text "hi"))
    × (get "images" out ≡ unless (no_images limited.images) (array (pairs limited.images)))
    × (get "no_reply" out ≡ unless (not limited.no_reply) (boolean true))
    × (get "max_turns" out ≡ unless (is_zero limited.max_turns) (number limited.max_turns))
    × (get "token_budget" out ≡ unless (is_zero limited.token_budget) (number limited.token_budget))
    × (get "deadline" out ≡ unless (str_eq limited.deadline "") (text limited.deadline))
marshal_frame-new_send_message_request_example =
    marshal_frame-new_send_message_request 1 4 "s1" "hi" limited
