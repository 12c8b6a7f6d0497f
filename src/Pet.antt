-- ===== src/Pet.antt =====
-- The desktop pet's display state machine (apps/desktop/src/pet/machine.ts).
--
-- The statechart is written as data for the xstate package; `step` is its reading by that package's
-- documented rules: the current state's own handlers come before the root's, a named handler comes
-- before "*", the eventless `route` state is left at once by its first open guard, and the delayed
-- transition of a state fires only while that state is shown. `DISPLAY_MS` timers are the event
-- `display_elapsed` of the environment.
--
-- `Atlas` has the plan that plays a state, `Scheduler` the frame scheduler with its timers.
pub mod Priority
pub mod Runs
pub mod Atlas
pub mod Scheduler
pub mod Timers
pub mod Plans
mod Examples
use maman_agent.Prelude.{ℕ, Bool, true, false, ◌||◌, List, [], ◌∷◌, if◌then◌else◌}

pub data PetStateName : Type 0 where
  sleeping idle looking_around thinking waving waiting working reviewing success failed :
      PetStateName

pub record PetConditions : Type 0 where
  pub observation_paused : Bool
  pub private_context : Bool
  pub observing : Bool
  pub thinking : Bool
  pub suggestion_available : Bool
  pub approval_pending : Bool
  pub running : Bool
  pub reviewing : Bool

pub data PetEvent : Type 0 where
  observation_resumed observation_paused private_context_entered private_context_left : PetEvent
  observing_started observing_stopped thinking_started thinking_finished : PetEvent
  suggestion_ready suggestion_handled approval_required approval_resolved : PetEvent
  run_started run_succeeded run_failed review_started review_finished : PetEvent
  failure_acknowledged : PetEvent

abbrev pub initial_conditions : PetConditions
initial_conditions = record {
  observation_paused = true;
  private_context = false;
  observing = false;
  thinking = false;
  suggestion_available = false;
  approval_pending = false;
  running = false;
  reviewing = false;
}

-- `resolvePetState`: the early returns in their order.
unfoldable pub resolve_pet_state : PetConditions → PetStateName
resolve_pet_state c =
    if c.approval_pending
    then waiting
    else (if c.running
        then working
        else (if c.reviewing
            then PetStateName.reviewing
            else (if c.thinking
                then PetStateName.thinking
                else (if c.suggestion_available
                    then waving
                    else (if c.observation_paused || c.private_context
                        then sleeping
                        else (if c.observing then looking_around else idle))))))

-- `conditionUpdates[event.type]` spread over the conditions, the action `applyEvent`.
unfoldable pub apply_event : PetEvent → PetConditions → PetConditions
apply_event observation_resumed c = record c { observation_paused = false }
apply_event PetEvent.observation_paused c = record c { observation_paused = true }
apply_event private_context_entered c = record c { private_context = true }
apply_event private_context_left c = record c { private_context = false }
apply_event observing_started c = record c { observing = true }
apply_event observing_stopped c = record c { observing = false }
apply_event thinking_started c = record c { thinking = true }
apply_event thinking_finished c = record c { thinking = false }
apply_event suggestion_ready c = record c { suggestion_available = true }
apply_event suggestion_handled c = record c { suggestion_available = false }
apply_event approval_required c = record c { approval_pending = true }
apply_event approval_resolved c = record c { approval_pending = false }
apply_event run_started c = record c { running = true }
apply_event run_succeeded c = record c { running = false }
apply_event run_failed c = record c { running = false }
apply_event review_started c = record c { reviewing = true }
apply_event review_finished c = record c { reviewing = false }
apply_event failure_acknowledged c = c

-- The guards `isWaiting`, `isWorking`, … compare the resolved state with one name.
abbrev pub same_state : PetStateName → PetStateName → Bool
same_state sleeping sleeping = true
same_state idle idle = true
same_state looking_around looking_around = true
same_state thinking thinking = true
same_state waving waving = true
same_state waiting waiting = true
same_state working working = true
same_state reviewing reviewing = true
same_state success success = true
same_state failed failed = true
same_state _ _ = false

guarded_by : PetStateName → PetConditions → Bool
guarded_by s c = same_state (resolve_pet_state c) s

-- The `always` list of the state `route`.
unfoldable pub route : PetConditions → PetStateName
unfolding guarded_by resolve_pet_state
route c =
    if guarded_by waiting c
    then waiting
    else (if guarded_by working c
        then working
        else (if guarded_by PetStateName.reviewing c
            then PetStateName.reviewing
            else (if guarded_by PetStateName.thinking c
                then PetStateName.thinking
                else (if guarded_by waving c
                    then waving
                    else (if guarded_by sleeping c
                        then sleeping
                        else (if guarded_by looking_around c then looking_around else idle))))))

-- What is shown, and the machine's context.
pub record Pet : Type 0 where
  pub shown : PetStateName
  pub conditions : PetConditions

-- An event of the program, or the end of the shown state's display time.
pub data Input : Type 0 where
  sent : PetEvent → Input
  display_elapsed : Input

enter : PetStateName → PetEvent → PetConditions → Pet
unfolding apply_event
enter target e c = record { shown = target; conditions = apply_event e c }

reroute : PetEvent → PetConditions → Pet
unfolding apply_event route
reroute e c = let c' = apply_event e c in record { shown = route c'; conditions = c' }

-- The handlers of the root.
at_root : PetEvent → PetConditions → Pet
unfolding enter reroute
at_root run_succeeded c = enter success run_succeeded c
at_root run_failed c = enter failed run_failed c
at_root e c = reroute e c

-- The handlers of `success`.
at_success : PetEvent → PetConditions → Pet
unfolding enter
at_success approval_required c = enter waiting approval_required c
at_success run_failed c = enter failed run_failed c
at_success run_started c = enter working run_started c
at_success e c = enter success e c

-- The handlers of `failed`. The acknowledgement has no `applyEvent`.
at_failed : PetEvent → PetConditions → Pet
unfolding enter route
at_failed failure_acknowledged c = record { shown = route c; conditions = c }
at_failed e c = enter failed e c

on_event : PetStateName → PetEvent → PetConditions → Pet
unfolding at_success at_failed at_root
on_event success e c = at_success e c
on_event failed e c = at_failed e c
on_event _ e c = at_root e c

-- The `after` transitions: only `success` and `failed` have one.
on_elapsed : PetStateName → PetConditions → Pet
unfolding route
on_elapsed success c = record { shown = route c; conditions = c }
on_elapsed failed c = record { shown = route c; conditions = c }
on_elapsed s c = record { shown = s; conditions = c }

unfoldable pub step : Pet → Input → Pet
unfolding on_event on_elapsed
step p (sent e) = on_event p.shown e p.conditions
step p display_elapsed = on_elapsed p.shown p.conditions

-- `petMachine` when its actor starts: `initial: "route"` from the initial conditions.
unfoldable pub start : Pet
unfolding route
start = record { shown = route initial_conditions; conditions = initial_conditions }

unfoldable pub run : Pet → List Input → Pet
unfolding step
run p [] = p
run p (i ∷ is) = run (step p i) is

-- `PET_STATE_PRIORITY`.
abbrev pub pet_state_priority : List PetStateName
pet_state_priority =
    failed ∷ waiting ∷ working ∷ reviewing ∷ thinking ∷ waving ∷ sleeping ∷ looking_around ∷ idle
    ∷ []
