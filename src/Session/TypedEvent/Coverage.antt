-- ===== src/Session/TypedEvent/Coverage.antt =====
-- The switch of `decodeTypedEvent` against the table of known events and the semantic classes.
use jcode_go.Common.{
  ◌≡◌, refl, ◌↔◌, inl, inr, Bool, true, false, ◌&&◌, List, [], ◌∷◌, String, Option, some, arith,
  str_eq, eq_iff, Bool-cases,
}
use mathlib.Core.Path.{subst}
use jcode_go.Errors.{ok}
use jcode_go.Json.Value.{Fields}
use jcode_go.Protocol.Event.{is_known_event}
use jcode_go.Session.EventType.{EventType}
use jcode_go.Session.TypedEvent.{
  typed, SemanticClass, terminal, semantic_class_of, decoders, lookup, Event, decode_typed_event,
}

abbrev is_terminal : Option SemanticClass → Bool
is_terminal (some terminal) = true
is_terminal _ = false

abbrev agrees : Bool → Bool → Bool
agrees true b = b
agrees false true = false
agrees false false = true

every : (String → EventType → Bool) → List (String × EventType) → Bool
every q [] = true
every q ((j, t) ∷ m) = q j t && every q m

every-lookup :
    (q : String → EventType → Bool) (k : String) (m : List (String × EventType)) (t : EventType)
    → every q m ≡ true
    → lookup k m ≡ some t
    → q k t ≡ true
unfolding every lookup
every-lookup q k [] t h e = cc
every-lookup q k ((j, s) ∷ m) t h e = elim (Bool-cases (str_eq j k)) [
  | inl same ↦ subst (λ x. q x t ≡ true) ((eq_iff j k).0 same) (ground arith)
  | inr other ↦ ground (arith, every-lookup q k m t)
]

abbrev sound : String → EventType → Bool
sound k t =
    is_known_event k
    && agrees (is_terminal (semantic_class_of (typed t Fields.end))) (str_eq k "turn_done")

decoders-sound : every sound decoders ≡ true
unfolding every is_known_event semantic_class_of
decoders-sound = refl

decode_typed_event-lookup :
    (e : Event) (t : EventType) (fs : Fields)
    → decode_typed_event e ≡ ok (typed t fs)
    → lookup e.kind decoders ≡ some t
unfolding decode_typed_event
decode_typed_event-lookup e t fs h = ground arith

-- The dispatcher ends a turn by the wire tag and classifies by type: the two agree. An event that
-- decodes into a type of the program has a known kind, and it is of the terminal class exactly
-- when its kind is turn_done.
pub decode_typed_event-terminal :
    (e : Event) (t : EventType) (fs : Fields)
    → decode_typed_event e ≡ ok (typed t fs)
    → (is_known_event e.kind ≡ true)
      × ((semantic_class_of (typed t fs) ≡ some terminal) ↔ (e.kind ≡ "turn_done"))
unfolding semantic_class_of
decode_typed_event-terminal e t fs h = ground (
  arith,
  every-lookup sound e.kind decoders t decoders-sound (decode_typed_event-lookup e t fs h),
  eq_iff e.kind "turn_done",
)
