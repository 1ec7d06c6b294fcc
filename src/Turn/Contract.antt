-- ===== src/Turn/Contract.antt =====
-- What a turn promises to those that hold it: an acceptance and an outcome, each given once.
pub mod Simulation
mod Examples
use jcode_go.Common.{Option, none, some, if◌then◌else◌}
use jcode_go.Errors.{GoError, Result, ok}
use jcode_go.Turn.Result.{TurnResult}
use jcode_go.Turn.State.{Turn}
use jcode_go.Turn.Callers.{unless_gone, acceptance}

-- A promise under way, with its acceptance where that is settled, or kept.
pub data Promise : Type 0 where
  under_way : Option (Option GoError) → Promise
  kept : Option GoError → TurnResult → Promise

abbrev pub acceptance_at_end : Option (Option GoError) → TurnResult → Option GoError
acceptance_at_end none r = r.cause
acceptance_at_end (some e) r = e

-- The message is accepted without an error, or the turn ends and settles what is still open.
pub data Move : Promise → Promise → Type 0 where
  accepts : Move (under_way none) (under_way (some none))
  ends :
      (a : Option (Option GoError)) (r : TurnResult)
      → Move (under_way a) (kept (acceptance_at_end a r) r)

pub data Moves (p : Promise) : Promise → Type 0 where
  stays : Moves p p
  moves : {q r : Promise} → Moves p q → Move q r → Moves p r

abbrev pub acceptance_of : Turn → Option (Option GoError)
acceptance_of t = if t.acceptance_set then some t.acceptance_err else none

abbrev promised_by : Option TurnResult → Option (Option GoError) → Option GoError → Promise
promised_by none a e = under_way a
promised_by (some r) a e = kept e r

-- The promise that a turn stands for.
unfoldable pub promise : Turn → Promise
promise t =
    if t.is_over
    then promised_by t.result (acceptance_of t) t.acceptance_err
    else under_way (acceptance_of t)

-- What a holder of the promise hears, if its context is done with the error `quit` or is not.
abbrev pub promised_acceptance : Promise → Option GoError → Option (Result (Unit {0}))
promised_acceptance (under_way none) quit = unless_gone "wait for turn acceptance" quit
promised_acceptance (under_way (some e)) quit = some (acceptance e)
promised_acceptance (kept e r) quit = some (acceptance e)

abbrev pub promised_outcome : Promise → Option GoError → Option (Result TurnResult)
promised_outcome (under_way a) quit = unless_gone "wait for turn completion" quit
promised_outcome (kept e r) quit = some (ok r)
