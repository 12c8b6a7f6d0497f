-- ===== src/Pet/Priority.antt =====
-- The resolved state against the declared priority list (machine.ts, `PET_STATE_PRIORITY`).
use maman_agent.Prelude.{Bool, true, false, ◌||◌, some, ◌≡◌, find, arith}
use maman_agent.Pet.{
  PetStateName, sleeping, idle, looking_around, waving, waiting, working, success, failed,
  PetConditions, resolve_pet_state, route, pet_state_priority,
}

-- Which states a set of conditions asks for, with no order among them. The resolver is never asked
-- for the two timed states.
abbrev pub wanted : PetConditions → PetStateName → Bool
wanted c waiting = c.approval_pending
wanted c working = c.running
wanted c PetStateName.reviewing = c.reviewing
wanted c PetStateName.thinking = c.thinking
wanted c waving = c.suggestion_available
wanted c sleeping = c.observation_paused || c.private_context
wanted c looking_around = c.observing
wanted c idle = true
wanted c success = false
wanted c failed = false

-- For every set of conditions the resolver returns the first state of the priority list that the
-- conditions ask for.
resolve_pet_state-priority :
    (c : PetConditions) → find (wanted c) pet_state_priority ≡ some (resolve_pet_state c)
unfolding resolve_pet_state
resolve_pet_state-priority c = ground arith

-- The chain of guards of `route` computes the resolver.
pub route-resolve : (c : PetConditions) → route c ≡ resolve_pet_state c
unfolding route
route-resolve c = ground arith
