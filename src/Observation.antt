-- ===== src/Observation.antt =====
-- client.go: `State` and `Observation`; turn.go: `TurnResultKind`. An observer is the list of what
-- it was told, oldest first.
use jcode_go.Common.{ℕ, List, String, Option, none}

pub data State : Type 0 where
  connecting connected disconnected reconnecting closing closed : State

pub data TurnResultKind : Type 0 where
  completed canceled lifecycle_canceled lifecycle_deadline_exceeded : TurnResultKind
  provider_error protocol_error subscriber_overflow bridge_exited : TurnResultKind
  transport_disconnected client_closed : TurnResultKind

pub record Observation : Type 0 where
  pub kind : String
  pub state : Option State
  pub request : String
  pub error : List ℕ
  pub attempts : ℕ
  pub event_kind : List ℕ
  pub event_type : List ℕ
  pub disposition : String
  pub outcome : Option TurnResultKind

-- `Observation{Kind: kind}`
abbrev pub observed : String → Observation
observed kind = record {
  kind = kind;
  state = none;
  request = "";
  error = List.[];
  attempts = 0;
  event_kind = List.[];
  event_type = List.[];
  disposition = "";
  outcome = none;
}
