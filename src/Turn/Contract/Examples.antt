-- ===== src/Turn/Contract/Examples.antt =====
-- The promise of a turn that was accepted and then canceled.
use jcode_go.Common.{◌≡◌, refl, false, Option, none, some}
use jcode_go.Errors.{GoError, sentinel, context_canceled, ok}
use jcode_go.Json.Value.{pos, end}
use jcode_go.Protocol.Event.{raw_event}
use jcode_go.Session.TypedEvent.{Event}
use jcode_go.Turn.Dispatch.{receive}
use jcode_go.Turn.System.{
  System, Reach, here, next, start, at, receives, lifecycle_ends, end_lifecycle,
}
use jcode_go.Turn.Result.{TurnResult}
use jcode_go.Turn.Callers.{wait_for, accepted_by}
use jcode_go.Turn.Contract.{Moves, under_way, kept, promise, promised_acceptance, promised_outcome}
use jcode_go.Turn.Contract.Simulation.{Reach-promise}

abbrev acceptance_event : Event
acceptance_event = record {
  frame = record { v = pos 1; reply_to = none; event = raw_event "message_accepted" end };
  kind = "message_accepted";
  fields = some end;
}

abbrev heard : System
heard = at (receive (start 2).turn (ok acceptance_event))

abbrev canceled : System
canceled = at (end_lifecycle heard.turn false (sentinel context_canceled), heard.phase)

to_heard : Reach (start 2) heard
unfolding start
to_heard = next here (receives (ok acceptance_event) refl)

to_canceled : Reach heard canceled
to_canceled = next here (lifecycle_ends false (sentinel context_canceled))

Reach-promise_example :
    (promise (start 2).turn ≡ under_way none)
    × Moves (promise (start 2).turn) (promise heard.turn)
    × Moves (promise heard.turn) (promise canceled.turn)
    × ((e : Option GoError) (r : TurnResult)
        → promise heard.turn ≡ kept e r
        → promise canceled.turn ≡ kept e r)
    × ((quit : Option GoError)
        → accepted_by canceled.turn quit ≡ promised_acceptance (promise canceled.turn) quit)
    × ((quit : Option GoError)
        → wait_for canceled.turn quit ≡ promised_outcome (promise canceled.turn) quit)
Reach-promise_example = Reach-promise 2 to_heard to_canceled
