-- ===== src/Pet/Plans.antt =====
-- Plans of states (apps/desktop/src/pet/scheduler.ts, `planForState`; atlas.ts).
use maman_agent.Prelude.{ltb, ◌&&◌, ◌≡◌, Bool, true, false, List, all, arith, refl}
use maman_agent.Pet.Atlas.{
  PlayPlan, static, loop, transient, AnimationName, Cell, Frame, Mapped, frames_from,
  plan_for_state, reduced_plan, repeat, AnimationState, animation, full_plan, animation_map,
  sleep_cell, look_direction,
}
use maman_agent.Pet.Timers.{IsPlayable}

-- The cell is in the grid of 11 rows and 8 columns.
abbrev pub is_in_atlas : Cell → Bool
is_in_atlas c = ltb c.row 11 && ltb c.column 8

abbrev pub frames_in_atlas : List Frame → Bool
frames_in_atlas fs = all (λ f. is_in_atlas f.cell) fs

abbrev pub plan_in_atlas : PlayPlan → Bool
plan_in_atlas (static c) = is_in_atlas c
plan_in_atlas (loop fs) = frames_in_atlas fs
plan_in_atlas (transient fs _ then_) = frames_in_atlas fs && frames_in_atlas then_

reduced_plan_lem :
    (m : Mapped) → IsPlayable (reduced_plan m) × plan_in_atlas (reduced_plan m) ≡ true
reduced_plan_lem sleep_cell = (tt, refl)
reduced_plan_lem look_direction = (tt, refl)
reduced_plan_lem (animation AnimationName.idle) = (tt, refl)
reduced_plan_lem (animation AnimationName.running_right) = (tt, refl)
reduced_plan_lem (animation AnimationName.running_left) = (tt, refl)
reduced_plan_lem (animation AnimationName.waving) = (tt, refl)
reduced_plan_lem (animation AnimationName.jumping) = (tt, refl)
reduced_plan_lem (animation AnimationName.failed) = (tt, refl)
reduced_plan_lem (animation AnimationName.waiting) = (tt, refl)
reduced_plan_lem (animation AnimationName.working) = (tt, refl)
reduced_plan_lem (animation AnimationName.reviewing) = (tt, refl)
reduced_plan_lem (animation AnimationName.look_a) = (tt, refl)
reduced_plan_lem (animation AnimationName.look_b) = (tt, refl)

full_plan_lem : (m : Mapped) → IsPlayable (full_plan m) × plan_in_atlas (full_plan m) ≡ true
unfolding frames_from repeat
full_plan_lem sleep_cell = (tt, refl)
full_plan_lem look_direction = (tt, refl)
full_plan_lem (animation AnimationName.idle) = (tt, refl)
full_plan_lem (animation AnimationName.running_right) = (tt, refl)
full_plan_lem (animation AnimationName.running_left) = (tt, refl)
full_plan_lem (animation AnimationName.waving) = (tt, refl)
full_plan_lem (animation AnimationName.jumping) = (omega arith, refl)
full_plan_lem (animation AnimationName.failed) = (omega arith, refl)
full_plan_lem (animation AnimationName.waiting) = (omega arith, refl)
full_plan_lem (animation AnimationName.working) = (omega arith, refl)
full_plan_lem (animation AnimationName.reviewing) = (omega arith, refl)
full_plan_lem (animation AnimationName.look_a) = (omega arith, refl)
full_plan_lem (animation AnimationName.look_b) = (omega arith, refl)

-- The plan of every state, in full and in reduced motion, goes on with some frame when its cycles are over, and shows
-- only cells of the atlas.
plan_for_state-IsPlayable :
    (state : AnimationState) (reduced : Bool)
    → IsPlayable (plan_for_state state reduced)
      × plan_in_atlas (plan_for_state state reduced) ≡ true
unfolding plan_for_state
plan_for_state-IsPlayable state true = reduced_plan_lem (animation_map state)
plan_for_state-IsPlayable state false = full_plan_lem (animation_map state)
