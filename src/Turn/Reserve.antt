-- ===== src/Turn/Reserve.antt =====
-- The slot of the event channel that is kept for turn_done.
use jcode_go.Common.Channel.{pending}
use jcode_go.Common.{ℕ, ◌≡◌, true, false, [], ◌∷◌, ◌++◌, some, arith}
use jcode_go.Session.TypedEvent.{TypedEvent}
use jcode_go.Turn.State.{Turn, finish_turn_done, done_result}
use jcode_go.Turn.Dispatch.{Phase, waiting, noting, closing, stopped}
use jcode_go.Turn.System.{System, Reach, start}
use jcode_go.Turn.Invariant.{IsSound, Ends}
use jcode_go.Turn.Invariant.Sections.{start-Inv}
use jcode_go.Turn.Invariant.Steps.{Reach-Inv}

finish_turn_done-fits :
    (t : Turn) (e : TypedEvent)
    → IsSound t
    → t.is_over ≡ false
    → t.events_done ≡ pending
    → ((finish_turn_done t e).1 ≡ true)
      × ((finish_turn_done t e).0.queue ≡ t.queue ++ e ∷ [])
      × ((finish_turn_done t e).0.result ≡ some (done_result t.cancel_asked))
unfolding finish_turn_done
finish_turn_done-fits t e s o h = ground arith

open_when_waiting : (p : Phase) (t : Turn) → t.is_over ≡ false → Ends p t → t.events_done ≡ pending
open_when_waiting waiting t o h = h
open_when_waiting noting t o h = h
open_when_waiting closing t o h = h.0
open_when_waiting stopped t o h = cc

-- In every interleaving, a turn_done that reaches a turn which is not over finds its reserved slot:
-- the event is the last of the queue, the turn does not overflow, and its result is canceled if the
-- server confirmed a cancellation before, and completed if not.
pub Reach-finish_turn_done :
    {s : System} (buffer : ℕ) (e : TypedEvent)
    → Reach (start buffer) s
    → s.turn.is_over ≡ false
    → ((finish_turn_done s.turn e).1 ≡ true)
      × ((finish_turn_done s.turn e).0.queue ≡ s.turn.queue ++ e ∷ [])
      × ((finish_turn_done s.turn e).0.result ≡ some (done_result s.turn.cancel_asked))
Reach-finish_turn_done {s} buffer e before o =
    let i = Reach-Inv (start-Inv buffer) before in
    finish_turn_done-fits s.turn e i.0 o (open_when_waiting s.phase s.turn o i.1)
