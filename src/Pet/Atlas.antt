-- ===== src/Pet/Atlas.antt =====
-- The animations of the pet and the plan that plays a state (apps/desktop/src/pet/atlas.ts,
-- scheduler.ts, `planForState`).
use maman_agent.Prelude.{
  ℕ, zero, suc, ◌+◌, ◌*◌, Bool, true, false, Option, some, none, List, [], ◌∷◌, ◌++◌, map,
  get_elem?,
}

pub record Cell : Type 0 where
  pub row : ℕ
  pub column : ℕ

pub record Frame : Type 0 where
  pub cell : Cell
  pub duration : ℕ

pub data PlayPlan : Type 0 where
  static : Cell → PlayPlan
  loop : List Frame → PlayPlan
  transient : List Frame → (cycles : ℕ) (then_ : List Frame) → PlayPlan

pub data AnimationName : Type 0 where
  idle running_right running_left waving jumping failed waiting working reviewing look_a look_b :
      AnimationName

pub record AnimationDef : Type 0 where
  pub row : ℕ
  pub frames : ℕ
  pub durations : List ℕ

abbrev def : ℕ → ℕ → List ℕ → AnimationDef
def row frames durations = record { row = row; frames = frames; durations = durations }

abbrev pub animations : AnimationName → AnimationDef
animations idle = def 0 6 (280 ∷ 110 ∷ 110 ∷ 140 ∷ 140 ∷ 320 ∷ [])
animations running_right = def 1 8 (120 ∷ 120 ∷ 120 ∷ 120 ∷ 120 ∷ 120 ∷ 120 ∷ 220 ∷ [])
animations running_left = def 2 8 (120 ∷ 120 ∷ 120 ∷ 120 ∷ 120 ∷ 120 ∷ 120 ∷ 220 ∷ [])
animations waving = def 3 4 (140 ∷ 140 ∷ 140 ∷ 280 ∷ [])
animations jumping = def 4 5 (140 ∷ 140 ∷ 140 ∷ 140 ∷ 280 ∷ [])
animations failed = def 5 8 (140 ∷ 140 ∷ 140 ∷ 140 ∷ 140 ∷ 140 ∷ 140 ∷ 240 ∷ [])
animations waiting = def 6 6 (150 ∷ 150 ∷ 150 ∷ 150 ∷ 150 ∷ 260 ∷ [])
animations working = def 7 6 (120 ∷ 120 ∷ 120 ∷ 120 ∷ 120 ∷ 220 ∷ [])
animations reviewing = def 8 6 (150 ∷ 150 ∷ 150 ∷ 150 ∷ 150 ∷ 280 ∷ [])
animations look_a = def 9 8 []
animations look_b = def 10 8 []

abbrev pub idle_slowdown : ℕ
idle_slowdown = 6

abbrev pub slow_idle_durations : List ℕ
slow_idle_durations = map (λ d. d * idle_slowdown) (animations idle).durations

abbrev pub transient_cycles : ℕ
transient_cycles = 3

abbrev at : ℕ → ℕ → Cell
at row column = record { row = row; column = column }

abbrev pub sleep_frame : Cell
sleep_frame = at 0 2

-- The duration of the last frame is the one for frames that the table does not reach.
abbrev pub last_duration : List ℕ → ℕ
last_duration [] = 150
last_duration (d ∷ []) = d
last_duration (_ ∷ d ∷ ds) = last_duration (d ∷ ds)

abbrev frame_duration : List ℕ → Option ℕ → ℕ
frame_duration ds (some d) = d
frame_duration ds none = last_duration ds

-- So many frames from a column on.
unfoldable pub frames_from : ℕ → ℕ → ℕ → List ℕ → List Frame
frames_from zero row i ds = []
frames_from (suc n) row i ds =
    record { cell = at row i; duration = frame_duration ds (get_elem? ds i) }
    ∷ frames_from n row (i + 1) ds

-- `framesFor(name, durations)`.
abbrev pub frames_with : AnimationName → List ℕ → List Frame
frames_with name ds = frames_from (animations name).frames (animations name).row 0 ds

abbrev pub frames_for : AnimationName → List Frame
frames_for name = frames_with name (animations name).durations

abbrev pub slow_idle_frames : List Frame
slow_idle_frames = frames_with idle slow_idle_durations

abbrev show_cell : AnimationName → ℕ → ℕ → Frame
show_cell name column duration = record {
  cell = at (animations name).row column;
  duration = duration;
}

abbrev pub look_around_sequence : List Frame
look_around_sequence =
    show_cell look_a 2 1200
    ∷ show_cell idle 0 900
    ∷ show_cell look_b 6 1200
    ∷ show_cell idle 0 900
    ∷ show_cell look_a 4 1000
    ∷ show_cell idle 5 1400
    ∷ show_cell look_b 4 1000
    ∷ show_cell idle 0 1600
    ∷ []

pub data AnimationState : Type 0 where
  sleeping idle looking_around thinking waving waiting working reviewing success failed :
      AnimationState
  moving_left moving_right : AnimationState

-- What `mamanAnimationMap` gives.
pub data Mapped : Type 0 where
  sleep_cell look_direction : Mapped
  animation : AnimationName → Mapped

abbrev pub animation_map : AnimationState → Mapped
animation_map AnimationState.sleeping = sleep_cell
animation_map AnimationState.idle = animation idle
animation_map AnimationState.looking_around = look_direction
animation_map AnimationState.thinking = animation waiting
animation_map AnimationState.waving = animation waving
animation_map AnimationState.waiting = animation waiting
animation_map AnimationState.working = animation working
animation_map AnimationState.reviewing = animation reviewing
animation_map AnimationState.success = animation jumping
animation_map AnimationState.failed = animation failed
animation_map AnimationState.moving_left = animation running_left
animation_map AnimationState.moving_right = animation running_right

-- `cycles` copies of the frames.
unfoldable pub repeat : ℕ → List Frame → List Frame
repeat zero fs = []
repeat (suc n) fs = fs ++ repeat n fs

abbrev pub reduced_plan : Mapped → PlayPlan
reduced_plan sleep_cell = static sleep_frame
reduced_plan look_direction = static (at (animations look_a).row 0)
reduced_plan (animation name) = static (at (animations name).row 0)

abbrev pub full_plan : Mapped → PlayPlan
full_plan sleep_cell = static sleep_frame
full_plan look_direction = loop look_around_sequence
full_plan (animation idle) = loop slow_idle_frames
full_plan (animation running_left) = loop (frames_for running_left)
full_plan (animation running_right) = loop (frames_for running_right)
full_plan (animation waving) =
    loop (repeat transient_cycles (frames_for waving) ++ slow_idle_frames)
full_plan (animation name) = transient (frames_for name) transient_cycles slow_idle_frames

-- `planForState`.
unfoldable pub plan_for_state : AnimationState → (reduced_motion : Bool) → PlayPlan
plan_for_state state true = reduced_plan (animation_map state)
plan_for_state state false = full_plan (animation_map state)
