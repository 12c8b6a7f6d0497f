-- ===== src/Pet/Runs.antt =====
-- What holds of the pet over every sequence of events and timeouts (machine.ts, `petMachine`).
use maman_agent.Prelude.{
  true, ◌||◌, ◌≡◌, ◌≢◌, ◌⊎◌, inl, inr, refl, ap, ◌∙◌, List, [], ◌∷◌, All, arith,
}
use maman_agent.Pet.{
  looking_around, waiting, working, success, failed, PetConditions, run_started, run_failed,
  failure_acknowledged, resolve_pet_state, apply_event, Pet, Input, sent, display_elapsed, step,
  start, run,
}

-- The conditions after a sequence of inputs, with the shown state left out.
abbrev pub conditions_after : PetConditions → List Input → PetConditions
conditions_after c [] = c
conditions_after c (sent e ∷ is) = conditions_after (apply_event e c) is
conditions_after c (display_elapsed ∷ is) = conditions_after c is

step-conditions :
    (p : Pet) (i : Input) → (step p i).conditions ≡ conditions_after p.conditions (i ∷ [])
unfolding step
step-conditions p (sent e) = ground arith
step-conditions p display_elapsed = ground arith

-- No event is lost: whatever is shown when the events arrive, the conditions are those of the
-- events applied one after another to the conditions before.
run-conditions :
    (p : Pet) (is : List Input) → (run p is).conditions ≡ conditions_after p.conditions is
unfolding run
run-conditions p [] = refl
run-conditions p (sent e ∷ is) =
    run-conditions (step p (sent e)) is
    ∙ ap (λ c. conditions_after c is) (step-conditions p (sent e))
run-conditions p (display_elapsed ∷ is) =
    run-conditions (step p display_elapsed) is
    ∙ ap (λ c. conditions_after c is) (step-conditions p display_elapsed)

-- How the shown state depends on the conditions.
abbrev pub IsExplained : Pet → Type 0
IsExplained p =
    (p.shown ≡ success)
    ⊎ (p.shown ≡ failed)
    ⊎ (p.shown ≡ resolve_pet_state p.conditions)
    ⊎ ((p.shown ≡ working) × (p.conditions.running ≡ true) × (p.conditions.approval_pending ≡ true))

pub step-IsExplained : (p : Pet) (i : Input) → IsExplained p → IsExplained (step p i)
unfolding step resolve_pet_state
step-IsExplained p (sent e) h = ground arith
step-IsExplained p display_elapsed h = ground arith

run-IsExplained_from : (p : Pet) (is : List Input) → IsExplained p → IsExplained (run p is)
unfolding run
run-IsExplained_from p [] h = h
run-IsExplained_from p (i ∷ is) h = run-IsExplained_from (step p i) is (step-IsExplained p i h)

-- After any sequence of events and timeouts, the pet shows one of the two timed states, or the state
-- of highest priority for its conditions, or `working` while a run and an approval are both pending.
run-IsExplained : (is : List Input) → IsExplained (run start is)
unfolding start resolve_pet_state
run-IsExplained is = run-IsExplained_from start is (inr (inr (inl refl)))

-- The last case does occur: when a run starts while a success is shown and an approval is pending,
-- the pet shows `working` although the conditions resolve to `waiting`.
success-run_started :
    (c : PetConditions)
    → c.approval_pending ≡ true
    → ((step (record { shown = success; conditions = c }) (sent run_started)).shown ≡ working)
      × (resolve_pet_state (apply_event run_started c) ≡ waiting)
unfolding step resolve_pet_state
success-run_started c h = ground arith

-- Inputs that are events other than the acknowledgement.
abbrev pub IsQuiet : Input → Type 0
IsQuiet (sent e) = e ≢ failure_acknowledged
IsQuiet display_elapsed = ⊥

step-failed : (p : Pet) (i : Input) → p.shown ≡ failed → IsQuiet i → (step p i).shown ≡ failed
unfolding step
step-failed p (sent e) h q = ground arith
step-failed p display_elapsed h q = absurd q

-- Nothing but its acknowledgement or its timeout ends the display of a failure: it lasts through
-- every sequence of other events.
failed_lasts :
    (p : Pet) (is : List Input) → p.shown ≡ failed → All IsQuiet is → (run p is).shown ≡ failed
unfolding run
failed_lasts p [] h q = h
failed_lasts p (i ∷ is) h (q, qs) = failed_lasts (step p i) is (step-failed p i h q) qs

-- Either of the two ends it, and the state shown next is the one its conditions resolve to.
failed_ends :
    (p : Pet) (i : Input)
    → p.shown ≡ failed
    → ¬ IsQuiet i
    → (step p i).shown ≡ resolve_pet_state p.conditions
unfolding step resolve_pet_state
failed_ends p (sent e) h q = ground arith
failed_ends p display_elapsed h q = ground arith

-- A failed run is shown at once, from every state.
pub step-run_failed : (p : Pet) → (step p (sent run_failed)).shown ≡ failed
unfolding step
step-run_failed p = ground arith

-- The observing animation is never shown while observation is paused or the context is private.
private-ne-looking :
    (is : List Input)
    → ((run start is).conditions.observation_paused || (run start is).conditions.private_context)
      ≡ true
    → (run start is).shown ≢ looking_around
unfolding resolve_pet_state
private-ne-looking is h = ground (arith, run-IsExplained is)
