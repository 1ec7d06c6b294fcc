-- ===== src/Runtime/Shutdown/System.antt =====
-- An instance among the goroutines that shut it down: any number of callers of `shutdown`, and the
-- contexts that ask for its escalation.
use jcode_go.Common.Channel.{closed}
use jcode_go.Common.{ℕ, ◌≡◌, Bool, Option, none, some, ◌==◌, if◌then◌else◌}
use jcode_go.Errors.{GoError}
use jcode_go.Runtime.Shutdown.{
  Shutdown, fresh, begin_shutdown, note_cause, force, enter_run, finish_shutdown,
}

-- Where a call of `shutdown` stands: not made, the owner before and after `runShutdown`, at
-- `<-done`, returned.
pub data Caller : Type 0 where
  outside owning : Caller
  finishing : Option GoError → Caller
  waiting : Caller
  returned : Option GoError → Caller

-- `owner` is the caller that owns the shutdown, if one did begin as its owner.
pub record World : Type 0 where
  pub instance_state : Shutdown
  pub callers : ℕ → Caller
  pub owner : Option ℕ

abbrev pub move : (ℕ → Caller) → ℕ → Caller → ℕ → Caller
move callers k c j = if k == j then c else callers j

abbrev pub begun : World → ℕ → Shutdown × Bool → World
begun w k p = record {
  instance_state = p.0;
  callers = move w.callers k (if p.1 then owning else waiting);
  owner = if p.1 then some k else w.owner;
}

abbrev pub at : World → Shutdown → ℕ → Caller → World
at w s k c = record { instance_state = s; callers = move w.callers k c; owner = w.owner }

pub data Step (same : GoError → GoError → Bool) (w : World) : World → Type 0 where
  begins :
      (k : ℕ) → w.callers k ≡ outside → Step same w (begun w k (begin_shutdown w.instance_state))
  runs :
      (k : ℕ) (e : Option GoError)
      → w.callers k ≡ owning
      → Step same w (at w (enter_run w.instance_state) k (finishing e))
  finishes :
      (k : ℕ) (e : Option GoError)
      → w.callers k ≡ finishing e
      → Step same w (at w (finish_shutdown w.instance_state e) k waiting)
  returns :
      (k : ℕ)
      → w.callers k ≡ waiting
      → w.instance_state.done ≡ some closed
      → Step same w (at w w.instance_state k (returned w.instance_state.err))
  notes :
      (cause : GoError)
      → Step same w (record w { instance_state = note_cause same w.instance_state cause })
  forces : Step same w (record w { instance_state = force w.instance_state })

pub data Reach (same : GoError → GoError → Bool) (w : World) : World → Type 0 where
  here : Reach same w w
  next : {u v : World} → Reach same w u → Step same u v → Reach same w v

unfoldable pub start : World
start = record { instance_state = fresh; callers = λ _. outside; owner = none }
