-- ===== src/Runtime/Shutdown/Invariant.antt =====
-- What holds of the shutdown of an instance, and of each of its callers.
use jcode_go.Common.Channel.{Signal, pending, closed, panicked}
use jcode_go.Common.{
  ℕ, ◌≤◌, ◌≡◌, ◌≢◌, ◌⊎◌, inl, inr, Bool, true, false, Option, none, some, arith, ◌==◌, ==_iff,
  Bool-cases, if◌then◌else◌,
}
use mathlib.Core.Path.{subst}
use jcode_go.Errors.{GoError}
use jcode_go.Runtime.Shutdown.{
  Shutdown, begin_shutdown, note_cause, force, enter_run, finish_shutdown,
}
use jcode_go.Runtime.Shutdown.System.{
  Caller, outside, owning, finishing, waiting, returned, World, move,
}

-- What holds of a caller, given the instance and who owns its shutdown.
abbrev pub Stands : Shutdown → Option ℕ → ℕ → Caller → Type 0
Stands s owner k outside = Unit {0}
Stands s owner k owning =
    (owner ≡ some k) × (s.started ≡ true) × (s.finished ≡ false) × (s.runs ≡ 0)
Stands s owner k (finishing e) =
    (owner ≡ some k) × (s.started ≡ true) × (s.finished ≡ false) × (s.runs ≡ 1)
Stands s owner k waiting = s.started ≡ true
Stands s owner k (returned e) = (s.finished ≡ true) × (s.err ≡ e)

-- The channel `shutdownDone` against the two flags.
abbrev pub Flags : Bool → Bool → Shutdown → Type 0
Flags false false s = (s.done ≡ none) × (s.runs ≡ 0) × (s.force_kill ≡ none)
Flags true false s = (s.done ≡ some pending) × (s.runs ≤ 1)
Flags true true s = (s.done ≡ some closed) × (s.runs ≡ 1)
Flags false true s = ⊥

abbrev pub Forced : Bool → Option Signal → Type 0
Forced once none = Unit {0}
Forced false (some c) = c ≡ pending
Forced true (some c) = c ≢ panicked

pub record IsSound (s : Shutdown) : Type 0 where
  pub flags : Flags s.started s.finished s
  pub forced : Forced s.force_kill_once s.force_kill

-- As long as the shutdown is not finished, its owner is there to finish it.
abbrev pub Leads : Bool → Bool → World → Type 0
Leads true false w =
    (k : ℕ) × (w.owner ≡ some k)
    × ((w.callers k ≡ owning) ⊎ ((e : Option GoError) × (w.callers k ≡ finishing e)))
Leads false f w = w.owner ≡ none
Leads true true w = Unit {0}

pub record Inv (w : World) : Type 0 where
  pub sound : IsSound w.instance_state
  pub stands : (k : ℕ) → Stands w.instance_state w.owner k (w.callers k)
  pub leads : Leads w.instance_state.started w.instance_state.finished w

pub begin_shutdown-IsSound : (s : Shutdown) → IsSound s → IsSound (begin_shutdown s).0
unfolding begin_shutdown
begin_shutdown-IsSound s h = ground arith

pub note_cause-IsSound :
    (same : GoError → GoError → Bool) (s : Shutdown) (c : GoError)
    → IsSound s
    → IsSound (note_cause same s c)
unfolding note_cause
note_cause-IsSound same s c h = ground arith

pub force-IsSound : (s : Shutdown) → IsSound s → IsSound (force s)
unfolding force
force-IsSound s h = ground arith

pub enter_run-IsSound :
    (s : Shutdown)
    → IsSound s
    → s.started ≡ true
    → s.finished ≡ false
    → s.runs ≡ 0
    → IsSound (enter_run s)
unfolding enter_run
enter_run-IsSound s h a b c = ground arith

pub finish_shutdown-IsSound :
    (s : Shutdown) (e : Option GoError)
    → IsSound s
    → s.started ≡ true
    → s.finished ≡ false
    → s.runs ≡ 1
    → IsSound (finish_shutdown s e)
unfolding finish_shutdown
finish_shutdown-IsSound s e h a b c = ground arith

-- What another caller's section leaves of a caller's standing.
module _ (s : Shutdown) (owner : Option ℕ) (k j : ℕ) (other : k == j ≡ false) where
  pub Stands-enter_run :
      (c : Caller) → owner ≡ some k → Stands s owner j c → Stands (enter_run s) owner j c
  unfolding enter_run
  Stands-enter_run outside o h = tt
  Stands-enter_run owning o h = ground (arith, ==_iff k j)
  Stands-enter_run (finishing e) o h = ground (arith, ==_iff k j)
  Stands-enter_run waiting o h = h
  Stands-enter_run (returned e) o h = h

  pub Stands-finish_shutdown :
      (p : Option GoError) (c : Caller)
      → owner ≡ some k
      → s.finished ≡ false
      → Stands s owner j c
      → Stands (finish_shutdown s p) owner j c
  unfolding finish_shutdown
  Stands-finish_shutdown p outside o f h = tt
  Stands-finish_shutdown p owning o f h = ground (arith, ==_iff k j)
  Stands-finish_shutdown p (finishing e) o f h = ground (arith, ==_iff k j)
  Stands-finish_shutdown p waiting o f h = h
  Stands-finish_shutdown p (returned e) o f h = ground arith

  pub Stands-begin_shutdown :
      (c : Caller)
      → IsSound s
      → Stands s owner j c
      → Stands (begin_shutdown s).0 (if (begin_shutdown s).1 then some k else owner) j c
  unfolding begin_shutdown
  Stands-begin_shutdown outside i h = tt
  Stands-begin_shutdown owning i h = ground arith
  Stands-begin_shutdown (finishing e) i h = ground arith
  Stands-begin_shutdown waiting i h = ground arith
  Stands-begin_shutdown (returned e) i h = ground arith

pub Stands-note_cause :
    (same : GoError → GoError → Bool) (s : Shutdown) (cause : GoError) (owner : Option ℕ) (j : ℕ)
    (c : Caller)
    → Stands s owner j c
    → Stands (note_cause same s cause) owner j c
unfolding note_cause
Stands-note_cause same s cause owner j outside h = tt
Stands-note_cause same s cause owner j owning h = ground arith
Stands-note_cause same s cause owner j (finishing e) h = ground arith
Stands-note_cause same s cause owner j waiting h = ground arith
Stands-note_cause same s cause owner j (returned e) h = ground arith

pub Stands-force :
    (s : Shutdown) (owner : Option ℕ) (j : ℕ) (c : Caller)
    → Stands s owner j c
    → Stands (force s) owner j c
unfolding force
Stands-force s owner j outside h = tt
Stands-force s owner j owning h = ground arith
Stands-force s owner j (finishing e) h = ground arith
Stands-force s owner j waiting h = ground arith
Stands-force s owner j (returned e) h = ground arith

pub Stands-move :
    (w : World) (s : Shutdown) (owner : Option ℕ) (k : ℕ) (c : Caller)
    → ((j : ℕ) → Stands w.instance_state w.owner j (w.callers j))
    → Stands s owner k c
    → ((j : ℕ)
        → k == j ≡ false
        → Stands w.instance_state w.owner j (w.callers j)
        → Stands s owner j (w.callers j))
    → (j : ℕ) → Stands s owner j (move w.callers k c j)
Stands-move w s owner k c all mine others j = elim (Bool-cases (k == j)) [
  | inl h ↦ rw h (subst (λ i. Stands s owner i c) ((==_iff k j).0 h) mine)
  | inr h ↦ rw h (others j h (all j))
]
