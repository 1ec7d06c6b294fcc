-- ===== src/Runtime/Process/Terminate.antt =====
-- What the termination of a process group promises.
use jcode_go.Common.{
  ℕ, ◌<◌, ◌≡◌, ◌≢◌, refl, ◌⊎◌, inl, inr, Bool, true, false, not, ◌&&◌, ◌||◌, List, [], ◌∷◌, ◌++◌,
  none, arith, Bool-cases, leb, ltb, str_eq, All,
}
use jcode_go.Errors.{GoError, join_all}
use jcode_go.Runtime.Process.{
  sigterm, sigkill, Killed, sent, esrch, refused, Action, signals, tells, Answers, Outcome,
  terminate_process_group, after_grace, wait_for_reap, process_group_alive, is_reaped, is_forced,
}

abbrev pub kills : List Action → Bool
kills [] = false
kills (signals g sigkill ∷ later) = true
kills (signals g sigterm ∷ later) = kills later
kills (tells m ∷ later) = kills later

-- Whether there is a SIGKILL with no SIGTERM before it.
abbrev pub kills_unasked : List Action → Bool
kills_unasked [] = false
kills_unasked (signals g sigkill ∷ later) = true
kills_unasked (signals g sigterm ∷ later) = false
kills_unasked (tells m ∷ later) = kills_unasked later

abbrev pub tells_reaped : List Action → Bool
tells_reaped [] = false
tells_reaped (signals g s ∷ later) = tells_reaped later
tells_reaped (tells m ∷ later) = str_eq m "shutdown_reap_complete" || tells_reaped later

abbrev pub Targets : ℕ → Action → Type 0
Targets group (signals g s) = (g ≡ group) × (1 < g)
Targets group (tells m) = Unit

abbrev pub still_there : Killed → Bool
still_there sent = true
still_there esrch = false
still_there (refused e) = true

join_all-append : (es : List GoError) (e : GoError) → join_all (es ++ e ∷ []) ≢ none
unfolding join_all
join_all-append [] e h = cc
join_all-append (d ∷ es) e h = ground (arith, join_all-append es e)

tells_reaped-append :
    (actions : List Action) → tells_reaped (actions ++ tells "shutdown_reap_complete" ∷ []) ≡ true
tells_reaped-append [] = refl
tells_reaped-append (signals g s ∷ later) = tells_reaped-append later
tells_reaped-append (tells m ∷ later) = ground (arith, tells_reaped-append later)

abbrev Settles : Outcome → Type 0
Settles o = (tells_reaped o.actions ≡ true) ⊎ (o.cause ≢ none)

wait_for_reap-Settles :
    (in_time : Bool) (actions : List Action) (triggered : Bool) (errs : List GoError)
    → Settles (wait_for_reap in_time actions triggered errs)
unfolding wait_for_reap
wait_for_reap-Settles true actions triggered errs = inl (tells_reaped-append actions)
wait_for_reap-Settles false actions triggered errs = inr (join_all-append errs _)

after_grace-Settles :
    (group : ℕ) (a : Answers) (actions : List Action) (errs : List GoError)
    → Settles (after_grace group a actions errs)
unfolding after_grace
after_grace-Settles group a actions errs = elim (Bool-cases (process_group_alive group a.probe).0) [
  | inr h ↦ rw h (wait_for_reap-Settles a.in_time actions (is_forced a.woken) _)
  | inl h ↦ elim (Bool-cases a.last_exit) [
    | inl l ↦ rw (h, l) (inl (tells_reaped-append actions))
    | inr l ↦ rw (h, l) (wait_for_reap-Settles a.in_time _ (is_forced a.woken) _)
  ]
]

terminate_process_group-Settles :
    (group : ℕ) (a : Answers) → Settles (terminate_process_group group a)
unfolding terminate_process_group
terminate_process_group-Settles group a = elim (Bool-cases (leb group 1)) [
  | inl h ↦ rw h (inr (λ e. cc))
  | inr h ↦ elim (Bool-cases a.exited) [
    | inl x ↦ rw (h, x) (inl refl)
    | inr x ↦ elim (Bool-cases (is_reaped a.woken || a.late_exit)) [
      | inl r ↦ rw (h, x, r) (inl refl)
      | inr r ↦ simp (h, x, r) (after_grace-Settles group a _ _)
    ]
  ]
]

-- Only the owned group is signalled, and never a group number below 2, by either signal. SIGKILL is
-- sent after SIGTERM only, and exactly when no result of Wait came before and the group may still be
-- there. Either the observer is told that the process was reaped, or an error is returned.
pub terminate_process_group_lem :
    (group : ℕ) (a : Answers)
    → All (Targets group) (terminate_process_group group a).actions
      × (kills (terminate_process_group group a).actions ≡ (
          ltb 1 group
          && not a.exited
          && not (is_reaped a.woken || a.late_exit)
          && still_there a.probe
          && not a.last_exit))
      × (kills_unasked (terminate_process_group group a).actions ≡ false)
      × ((tells_reaped (terminate_process_group group a).actions ≡ true)
          ⊎ ((terminate_process_group group a).cause ≢ none))
unfolding terminate_process_group after_grace wait_for_reap process_group_alive
terminate_process_group_lem group a =
    (ground arith, ground arith, ground arith, terminate_process_group-Settles group a)
