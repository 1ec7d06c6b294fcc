-- ===== src/Runtime/Examples.antt =====
-- The private runtime on concrete inputs.
use jcode_go.Common.Channel.{closed, panicked}
use jcode_go.Common.{
  ℕ, ◌≡◌, ◌≢◌, refl, ◌⊎◌, Bool, true, false, not, ◌&&◌, ◌||◌, Option, none, some, All, ltb,
}
use jcode_go.Errors.{join_all, GoError, sentinel, deadline_exceeded}
use jcode_go.Runtime.Shutdown.{fresh, begin_shutdown, enter_run, finish_shutdown, force, note_cause}
use jcode_go.Runtime.Shutdown.System.{
  World, owning, finishing, waiting, returned, outside, Reach, here, next, start, begun, at, begins,
  runs, finishes, returns, notes, forces,
}
use jcode_go.Runtime.Shutdown.Once.{Reach-shutdown, Reach-owner}
use jcode_go.Runtime.Process.{Answers, sent, elapsed, is_reaped, terminate_process_group}
use jcode_go.Runtime.Process.Terminate.{
  Targets, kills, kills_unasked, still_there, tells_reaped, terminate_process_group_lem,
}

abbrev never_same : GoError → GoError → Bool
never_same a b = false

-- Two callers begin; the first one owns the shutdown.
abbrev one_begun : World
one_begun = begun start 0 (begin_shutdown start.instance_state)

abbrev two_begun : World
two_begun = begun one_begun 1 (begin_shutdown one_begun.instance_state)

first_outside : start.callers 0 ≡ outside
unfolding start
first_outside = refl

second_outside : one_begun.callers 1 ≡ outside
unfolding start begin_shutdown fresh
second_outside = refl

second_waits : two_begun.callers 1 ≡ waiting
unfolding start begin_shutdown fresh
second_waits = refl

to_two : Reach never_same start two_begun
to_two = next (next here (begins 0 first_outside)) (begins 1 second_outside)

Reach-owner_example :
    (two_begun.instance_state.done ≡ some closed)
    ⊎ ((j : ℕ) × ((two_begun.callers j ≡ owning)
          ⊎ ((e : Option GoError) × (two_begun.callers j ≡ finishing e))))
Reach-owner_example = Reach-owner 1 to_two second_waits

abbrev deadline_cause : GoError
deadline_cause = sentinel deadline_exceeded

abbrev ran : World
ran = at two_begun (enter_run two_begun.instance_state) 0 (finishing none)

abbrev forced_world : World
forced_world =
    record (record ran {
      instance_state = note_cause never_same ran.instance_state deadline_cause;
    }) { instance_state = force (note_cause never_same ran.instance_state deadline_cause) }

abbrev ended : World
ended = at forced_world (finish_shutdown forced_world.instance_state none) 0 waiting

abbrev first_back : World
first_back = at ended ended.instance_state 0 (returned ended.instance_state.err)

abbrev both_back : World
both_back = at first_back first_back.instance_state 1 (returned first_back.instance_state.err)

owns_first : two_begun.callers 0 ≡ owning
unfolding start begin_shutdown fresh
owns_first = refl

to_both : Reach never_same start both_back
unfolding start begin_shutdown fresh enter_run note_cause force finish_shutdown
to_both =
    next
      (next
        (next (next (next (next to_two (runs 0 none owns_first)) (notes deadline_cause)) forces)
          (finishes 0 none refl))
        (returns 0 refl refl))
      (returns 1 refl refl)

abbrev given : Option GoError
given = some deadline_cause

first_heard : both_back.callers 0 ≡ returned given
unfolding start begin_shutdown fresh enter_run note_cause force finish_shutdown join_all
first_heard = refl

second_heard : both_back.callers 1 ≡ returned given
unfolding start begin_shutdown fresh enter_run note_cause force finish_shutdown join_all
second_heard = refl

Reach-shutdown_example :
    (both_back.instance_state.runs ≡ 1)
    × (both_back.instance_state.done ≡ some closed)
    × (both_back.instance_state.force_kill ≢ some panicked)
    × (given ≡ given)
Reach-shutdown_example = Reach-shutdown 0 1 given given to_both first_heard second_heard

-- A process that ignores SIGTERM and is reaped after SIGKILL.
abbrev answers : Answers
answers = record {
  exited = false;
  term = sent;
  woken = elapsed;
  late_exit = false;
  probe = sent;
  last_exit = false;
  kill = sent;
  in_time = true;
}

terminate_process_group_lem_example :
    All (Targets 41) (terminate_process_group 41 answers).actions
    × (kills (terminate_process_group 41 answers).actions ≡ (
        ltb 1 41
        && not answers.exited
        && not (is_reaped answers.woken || answers.late_exit)
        && still_there answers.probe
        && not answers.last_exit))
    × (kills_unasked (terminate_process_group 41 answers).actions ≡ false)
    × ((tells_reaped (terminate_process_group 41 answers).actions ≡ true)
        ⊎ ((terminate_process_group 41 answers).cause ≢ none))
terminate_process_group_lem_example = terminate_process_group_lem 41 answers
