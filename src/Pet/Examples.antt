-- ===== src/Pet/Examples.antt =====
-- Tests of the pet's state machine, and its theorems at concrete inputs.
use maman_agent.Prelude.{true, ◌≡◌, refl, List, [], ◌∷◌, false, arith}
use maman_agent.Pet.{
  waiting, waving, sleeping, success, failed, PetConditions, initial_conditions, suggestion_ready,
  approval_required, run_started, run_succeeded, run_failed, observation_resumed, observing_started,
  Input, sent, display_elapsed, Pet, step, start, run,
}
use maman_agent.Pet.Atlas.{plan_for_state, frames_from, AnimationState}
use maman_agent.Pet.Timers.{IsSingle, operate_all-IsSingle}
use maman_agent.Pet.Scheduler.{
  operate_all, fresh, Operation, played, fired, was_paused, resumed, restarted, cancelled,
}

abbrev morning : List Input
morning = sent observation_resumed ∷ sent observing_started ∷ sent suggestion_ready ∷ []

abbrev bad_run : List Input
bad_run = sent run_started ∷ sent approval_required ∷ sent run_failed ∷ []

runs :
    ((run start []).shown ≡ sleeping)
    × ((run start morning).shown ≡ waving)
    × ((run start bad_run).shown ≡ failed)
    × ((run start (sent run_started ∷ sent run_succeeded ∷ [])).shown ≡ success)
    × ((run (run start bad_run) (display_elapsed ∷ [])).shown ≡ waiting)
unfolding run step start
runs = (refl, refl, refl, refl, refl)

abbrev busy : PetConditions
busy = record initial_conditions { approval_pending = true }

abbrev broken : Pet
broken = record { shown = failed; conditions = busy }

abbrev calls : List Operation
calls =
    played (plan_for_state AnimationState.success false)
    ∷ fired 0
    ∷ was_paused
    ∷ fired 1
    ∷ resumed
    ∷ restarted
    ∷ played (plan_for_state AnimationState.idle false)
    ∷ fired 4
    ∷ cancelled
    ∷ []

operate_all-IsSingle_example : IsSingle (operate_all calls fresh)
unfolding plan_for_state frames_from
operate_all-IsSingle_example =
    operate_all-IsSingle calls (omega arith, (tt, (tt, (tt, (tt, (tt, (tt, (tt, (tt, tt)))))))))
