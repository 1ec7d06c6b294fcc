-- ===== src/Client/Request.antt =====
-- client.go: `pendingRequest` and the operations on one pending request under `pendingMu`.
use jcode_go.Common.Channel.{Signal, pending, panicked, close}
use jcode_go.Common.{
  ◌≤◌, ◌≡◌, ◌≢◌, Bool, true, false, List, [], ◌∷◌, ◌++◌, arith, length, if◌then◌else◌,
}
use jcode_go.Protocol.Event.{ServerFrame}

-- `reply` is a channel of capacity 1, `frames` what it holds and `reply_done` whether it is closed;
-- `listed` says that the map `pending` of the client holds the request, `observed` that it has an
-- `onReply`, and `told` what that was called with.
pub record Request : Type 0 where
  pub listed : Bool
  pub observed : Bool
  pub frames : List ServerFrame
  pub reply_done : Signal
  pub told : List ServerFrame

unfoldable pub new_request : Bool → Request
new_request observed = record {
  listed = true;
  observed = observed;
  frames = [];
  reply_done = pending;
  told = [];
}

-- What `readLoop` does with a correlated reply.
unfoldable pub reply_to : ServerFrame → Request → Request
reply_to f r =
    if r.listed
    then record r {
      listed = false;
      frames = r.frames ++ f ∷ [];
      told = if r.observed then r.told ++ f ∷ [] else r.told;
    }
    else r

-- `removePending`
unfoldable pub remove : Request → Request
remove r = record r { listed = false }

-- The body of the loops over the pending requests in `closeWith` and `disconnect`.
unfoldable pub abandon : Request → Request
abandon r = if r.listed then record r { listed = false; reply_done = close r.reply_done } else r

-- The state of the map and the channel together: a pending request has heard nothing, and no other
-- got more than one reply or had its channel closed twice.
pub record IsSound (r : Request) : Type 0 where
  pub once : length r.frames ≤ 1
  pub untouched : r.listed ≡ true → (r.frames ≡ []) × (r.reply_done ≡ pending)
  pub sane : r.reply_done ≢ panicked

pub new_request-IsSound : (observed : Bool) → IsSound (new_request observed)
unfolding new_request
new_request-IsSound observed = ground arith

pub reply_to-IsSound : (f : ServerFrame) (r : Request) → IsSound r → IsSound (reply_to f r)
unfolding reply_to
reply_to-IsSound f r h = ground arith

pub remove-IsSound : (r : Request) → IsSound r → IsSound (remove r)
unfolding remove
remove-IsSound r h = ground arith

pub abandon-IsSound : (r : Request) → IsSound r → IsSound (abandon r)
unfolding abandon
abandon-IsSound r h = ground arith
