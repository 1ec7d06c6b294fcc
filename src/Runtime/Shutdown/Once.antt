-- ===== src/Runtime/Shutdown/Once.antt =====
-- Whatever its callers do, an instance is shut down once, and all of them hear the same outcome.
use jcode_go.Common.Channel.{closed, panicked}
use jcode_go.Common.{
  ℕ, ◌≡◌, ◌≢◌, refl, sym, ◌∙◌, ◌⊎◌, inl, inr, Bool, true, false, Option, some, arith, ◌==◌, ==_iff,
  Bool-cases, if◌then◌else◌,
}
use mathlib.Core.Path.{subst}
use jcode_go.Errors.{GoError}
use jcode_go.Runtime.Shutdown.{
  Shutdown, fresh, begin_shutdown, note_cause, force, enter_run, finish_shutdown,
}
use jcode_go.Runtime.Shutdown.System.{
  Caller, outside, owning, finishing, waiting, returned, World, move, begun, at, Step, begins, runs,
  finishes, returns, notes, forces, Reach, here, next, start,
}
use jcode_go.Runtime.Shutdown.Invariant.{
  Stands, IsSound, Leads, Inv, begin_shutdown-IsSound, note_cause-IsSound, force-IsSound,
  enter_run-IsSound, finish_shutdown-IsSound, Stands-enter_run, Stands-finish_shutdown,
  Stands-begin_shutdown, Stands-note_cause, Stands-force, Stands-move,
}

move-same : (callers : ℕ → Caller) (k : ℕ) (c : Caller) → move callers k c k ≡ c
move-same callers k c = rw ((==_iff k k).1 refl)

at_stand :
    {w : World} (i : Inv w) (k : ℕ) {c : Caller}
    → w.callers k ≡ c
    → Stands w.instance_state w.owner k c
at_stand {w} i k h = subst (Stands w.instance_state w.owner k) h (i.stands k)

IsIdle : Caller → Type 0
IsIdle c = (c ≡ outside) ⊎ (c ≡ waiting)

move-other :
    (callers : ℕ → Caller) (k j : ℕ) (c d : Caller)
    → callers j ≡ d
    → (callers k ≢ d)
    → move callers k c j ≡ d
move-other callers k j c d h n = elim (Bool-cases (k == j)) [
  | inl e ↦ absurd (n (subst (λ i. callers i ≡ d) (sym ((==_iff k j).0 e)) h))
  | inr e ↦ rw e h
]

IsIdle-working : (c : Caller) → IsIdle c → (c ≢ owning) × ((e : Option GoError) → c ≢ finishing e)
unfolding IsIdle
IsIdle-working c (inl h) = (λ e. cc, λ p e. cc)
IsIdle-working c (inr h) = (λ e. cc, λ p e. cc)

Leads-move :
    (a b : Bool) (w : World) (s : Shutdown) (k : ℕ) (c : Caller)
    → IsIdle (w.callers k)
    → Leads a b w
    → Leads a b (at w s k c)
Leads-move true false w s k c i (j, own, inl h) =
    (j, own, inl (move-other w.callers k j c owning h (IsIdle-working (w.callers k) i).0))
Leads-move true false w s k c i (j, own, inr (e, h)) = (
  j,
  own,
  inr (e, move-other w.callers k j c (finishing e) h ((IsIdle-working (w.callers k) i).1 e)),
)
Leads-move false f w s k c i h = h
Leads-move true true w s k c i h = tt

runs-Inv :
    (w : World) (k : ℕ) (e : Option GoError)
    → Inv w
    → w.callers k ≡ owning
    → Inv (at w (enter_run w.instance_state) k (finishing e))
unfolding enter_run
runs-Inv w k e i h =
    let (own, started, open', none_run) = at_stand i k h in
    record {
      sound = enter_run-IsSound w.instance_state i.sound started open' none_run;
      stands =
          Stands-move w (enter_run w.instance_state) w.owner k (finishing e) i.stands (ground arith)
            (λ j n. Stands-enter_run w.instance_state w.owner k j n (w.callers j) own);
      leads = rw (started, open') (k, own, inr (e, move-same w.callers k (finishing e)));
    }

finishes-Inv :
    (w : World) (k : ℕ) (e : Option GoError)
    → Inv w
    → w.callers k ≡ finishing e
    → Inv (at w (finish_shutdown w.instance_state e) k waiting)
unfolding finish_shutdown
finishes-Inv w k e i h =
    let (own, started, open', one_run) = at_stand i k h in
    record {
      sound = finish_shutdown-IsSound w.instance_state e i.sound started open' one_run;
      stands =
          Stands-move w (finish_shutdown w.instance_state e) w.owner k waiting i.stands started
            (λ j n.
              Stands-finish_shutdown w.instance_state w.owner k j n e (w.callers j) own open');
      leads = rw started tt;
    }

-- The first caller becomes the owner, any later one does not.
begin_shutdown-cases :
    (s : Shutdown)
    → IsSound s
    → ((s.started ≡ false)
        × ((begin_shutdown s).1 ≡ true)
        × ((begin_shutdown s).0.started ≡ true)
        × ((begin_shutdown s).0.finished ≡ false)
        × ((begin_shutdown s).0.runs ≡ 0))
      ⊎ ((s.started ≡ true)
          × ((begin_shutdown s).1 ≡ false)
          × ((begin_shutdown s).0.started ≡ s.started)
          × ((begin_shutdown s).0.finished ≡ s.finished))
unfolding begin_shutdown
begin_shutdown-cases s i = ground arith

begins-Inv :
    (w : World) (k : ℕ)
    → Inv w
    → w.callers k ≡ outside
    → Inv (begun w k (begin_shutdown w.instance_state))
unfolding IsIdle
begins-Inv w k i h =
    let p : Shutdown × Bool = begin_shutdown w.instance_state in
    let others = λ (j : ℕ) (n : k == j ≡ false).
      Stands-begin_shutdown w.instance_state w.owner k j n (w.callers j) i.sound in
    elim (begin_shutdown-cases w.instance_state i.sound) [
      | inl (was, owns, started, open', none_run) ↦ record {
        sound = begin_shutdown-IsSound w.instance_state i.sound;
        stands =
            Stands-move w p.0 (if p.1 then some k else w.owner) k (if p.1 then owning else waiting)
              i.stands (rw owns (refl, started, open', none_run)) others;
        leads = rw (started, open', owns) (k, refl, inl (move-same w.callers k owning));
      }
      | inr (was, owns, started, finished) ↦ record {
        sound = begin_shutdown-IsSound w.instance_state i.sound;
        stands =
            Stands-move w p.0 (if p.1 then some k else w.owner) k (if p.1 then owning else waiting)
              i.stands (rw owns (started ∙ was)) others;
        leads =
            rw (started, finished, owns)
              (Leads-move w.instance_state.started w.instance_state.finished w p.0 k waiting (inl h)
                i.leads);
      }
    ]

closed-finished : (s : Shutdown) → IsSound s → s.done ≡ some closed → s.finished ≡ true
closed-finished s i h = ground arith

returns-Inv :
    (w : World) (k : ℕ)
    → Inv w
    → w.callers k ≡ waiting
    → w.instance_state.done ≡ some closed
    → Inv (at w w.instance_state k (returned w.instance_state.err))
unfolding IsIdle
returns-Inv w k i h d = record {
  sound = i.sound;
  stands =
      Stands-move w w.instance_state w.owner k (returned w.instance_state.err) i.stands
        (closed-finished w.instance_state i.sound d, refl) (λ j n p. p);
  leads =
      Leads-move w.instance_state.started w.instance_state.finished w w.instance_state k _ (inr h)
        i.leads;
}

note_cause-flags :
    (same : GoError → GoError → Bool) (s : Shutdown) (cause : GoError)
    → ((note_cause same s cause).started ≡ s.started)
      × ((note_cause same s cause).finished ≡ s.finished)
unfolding note_cause
note_cause-flags same s cause = ground arith

force-flags : (s : Shutdown) → ((force s).started ≡ s.started) × ((force s).finished ≡ s.finished)
unfolding force
force-flags s = ground arith

Leads-same :
    (a b : Bool) (w : World) (s : Shutdown)
    → Leads a b w
    → Leads a b (record w { instance_state = s })
Leads-same true false w s h = h
Leads-same false f w s h = h
Leads-same true true w s h = tt

pub Step-shutdown-Inv :
    {same : GoError → GoError → Bool} {w u : World} → Step same w u → Inv w → Inv u
Step-shutdown-Inv {same} {w} (begins k h) i = begins-Inv w k i h
Step-shutdown-Inv {same} {w} (runs k e h) i = runs-Inv w k e i h
Step-shutdown-Inv {same} {w} (finishes k e h) i = finishes-Inv w k e i h
Step-shutdown-Inv {same} {w} (returns k h d) i = returns-Inv w k i h d
Step-shutdown-Inv {same} {w} (notes cause) i =
    let (started, finished) = note_cause-flags same w.instance_state cause in
    record {
      sound = note_cause-IsSound same w.instance_state cause i.sound;
      stands =
          λ k. Stands-note_cause same w.instance_state cause w.owner k (w.callers k) (i.stands k);
      leads =
          rw (started, finished)
            (Leads-same w.instance_state.started w.instance_state.finished w _ i.leads);
    }
Step-shutdown-Inv {same} {w} forces i =
    let (started, finished) = force-flags w.instance_state in
    record {
      sound = force-IsSound w.instance_state i.sound;
      stands = λ k. Stands-force w.instance_state w.owner k (w.callers k) (i.stands k);
      leads =
          rw (started, finished)
            (Leads-same w.instance_state.started w.instance_state.finished w _ i.leads);
    }

start-shutdown-Inv : Inv start
unfolding start fresh
start-shutdown-Inv = record {
  sound = record { flags = (refl, refl, refl); forced = tt };
  stands = λ k. tt;
  leads = refl;
}

Reach-shutdown-Inv : {same : GoError → GoError → Bool} {w : World} → Reach same start w → Inv w
Reach-shutdown-Inv here = start-shutdown-Inv
Reach-shutdown-Inv (next r st) = Step-shutdown-Inv st (Reach-shutdown-Inv r)

finished_once :
    (s : Shutdown)
    → IsSound s
    → s.finished ≡ true
    → (d e : Option GoError) → s.err ≡ d
    → s.err ≡ e
    → (s.runs ≡ 1) × (s.done ≡ some closed) × (s.force_kill ≢ some panicked) × (d ≡ e)
finished_once s i h d e p q = (ground arith, ground arith, ground arith, sym p ∙ q)

-- However many callers shut an instance down, at once or one after the other, and however often its
-- escalation is asked for: once a call returned, `runShutdown` was called exactly once, both channels
-- are closed once at most, and any two calls that returned gave the same error.
pub Reach-shutdown :
    {same : GoError → GoError → Bool} {w : World} (j k : ℕ) (d e : Option GoError)
    → Reach same start w
    → w.callers j ≡ returned d
    → w.callers k ≡ returned e
    → (w.instance_state.runs ≡ 1)
      × (w.instance_state.done ≡ some closed)
      × (w.instance_state.force_kill ≢ some panicked)
      × (d ≡ e)
Reach-shutdown {same} {w} j k d e r p q =
    let i = Reach-shutdown-Inv r in
    let (finished, first) = at_stand i j p in
    let (_, second) = at_stand i k q in
    finished_once w.instance_state i.sound finished d e first second

closed_when_finished : (s : Shutdown) → IsSound s → s.finished ≡ true → s.done ≡ some closed
closed_when_finished s i h = ground arith

Leads-on : (a b : Bool) (w : World) → a ≡ true → b ≡ false → Leads a b w → Leads true false w
Leads-on true false w s f h = h
Leads-on true true w s f h = cc
Leads-on false b w s f h = cc

-- A call that waits is never left alone: the shutdown is finished, or its owner is still to run or
-- finish it.
pub Reach-owner :
    {same : GoError → GoError → Bool} {w : World} (k : ℕ)
    → Reach same start w
    → w.callers k ≡ waiting
    → (w.instance_state.done ≡ some closed)
      ⊎ ((j : ℕ) × ((w.callers j ≡ owning) ⊎ ((e : Option GoError) × (w.callers j ≡ finishing e))))
Reach-owner {same} {w} k r h =
    let i = Reach-shutdown-Inv r in
    waits w i (at_stand i k h) (Bool-cases w.instance_state.finished)
  where
    waits :
        (w : World)
        → Inv w
        → w.instance_state.started ≡ true
        → (w.instance_state.finished ≡ true) ⊎ (w.instance_state.finished ≡ false)
        → (w.instance_state.done ≡ some closed)
          ⊎ ((j : ℕ) × ((w.callers j ≡ owning)
                ⊎ ((e : Option GoError) × (w.callers j ≡ finishing e))))
    waits w i s (inl f) = inl (closed_when_finished w.instance_state i.sound f)
    waits w i s (inr f) =
        let (j, _, works) =
          Leads-on w.instance_state.started w.instance_state.finished w s f i.leads in
        inr (j, works)
