-- ===== src/Pet/Scheduler.antt =====
-- The frame scheduler (apps/desktop/src/pet/scheduler.ts, `FrameScheduler`). `live` holds the timers that
-- were set and neither cleared nor fired; the delay of a timer and `speed` are left out.
use maman_agent.Prelude.{
  ℕ, ◌+◌, leb, ◌==◌, Bool, true, false, ◌||◌, not, Option, some, none, List, [], ◌∷◌, ◌++◌, filter,
  is_empty, length, get_elem?, any, if◌then◌else◌,
}
use maman_agent.Pet.Atlas.{Frame, Cell, PlayPlan, static, loop, transient, repeat}

pub record Scheduler : Type 0 where
  pub timer : Option ℕ
  pub queue : List Frame
  pub index : ℕ
  pub loop_start : ℕ
  pub paused : Bool
  pub current : Option Cell
  pub live : List ℕ
  pub next_timer : ℕ
  -- A frame that does not exist was read, which throws.
  pub broken : Bool

abbrev pub fresh : Scheduler
fresh = record {
  timer = none;
  queue = [];
  index = 0;
  loop_start = 0;
  paused = false;
  current = none;
  live = [];
  next_timer = 0;
  broken = false;
}

-- `timers.clear(this.timer); this.timer = null`, if there is a timer.
unfoldable pub clear_timer : Option ℕ → Scheduler → Scheduler
clear_timer none s = s
clear_timer (some t) s = record s { timer = none; live = filter (λ u. not (u == t)) s.live }

unfoldable pub emit : Cell → Scheduler → Scheduler
emit c s = record s { current = some c }

unfoldable pub set_timer : Scheduler → Scheduler
set_timer s = record s {
  timer = some s.next_timer;
  live = s.next_timer ∷ s.live;
  next_timer = s.next_timer + 1;
}

unfoldable pub show_frame : Option Frame → Scheduler → Scheduler
show_frame none s = record s { broken = true }
show_frame (some f) s = set_timer (emit f.cell s)

-- `step`.
unfoldable pub step_frame : Scheduler → Scheduler
step_frame s = if s.paused || is_empty s.queue then s else show_frame (get_elem? s.queue s.index) s

unfoldable pub cancel : Scheduler → Scheduler
cancel s = record (clear_timer s.timer s) { queue = []; index = 0; paused = false }

unfoldable pub start_plan : PlayPlan → Scheduler → Scheduler
start_plan (static c) s = emit c s
start_plan (loop fs) s = step_frame (record s { queue = fs; loop_start = 0; index = 0 })
start_plan (transient fs cycles then_) s = step_frame (record s {
  queue = repeat cycles fs ++ then_;
  loop_start = length (repeat cycles fs);
  index = 0;
})

unfoldable pub play : PlayPlan → Scheduler → Scheduler
play plan s = start_plan plan (cancel s)

unfoldable pub pause : Scheduler → Scheduler
pause s = record (clear_timer s.timer s) { paused = true }

unfoldable pub resume : Scheduler → Scheduler
resume s = if s.paused then step_frame (record s { paused = false }) else s

unfoldable pub restart : Scheduler → Scheduler
restart s =
    if is_empty s.queue then s else step_frame (record (pause s) { index = 0; paused = false })

-- What the callback of a timer does.
unfoldable pub advance : Scheduler → Scheduler
advance s =
    step_frame (record s {
      index = if leb (length s.queue) (s.index + 1) then s.loop_start else s.index + 1;
    })

-- A live timer elapses; others do nothing.
unfoldable pub fire : ℕ → Scheduler → Scheduler
fire t s =
    if any (λ u. u == t) s.live
    then advance (record s { live = filter (λ u. not (u == t)) s.live })
    else s

pub data Operation : Type 0 where
  played : PlayPlan → Operation
  was_paused resumed restarted cancelled : Operation
  fired : (timer : ℕ) → Operation

unfoldable pub operate : Operation → Scheduler → Scheduler
operate (played plan) s = play plan s
operate was_paused s = pause s
operate resumed s = resume s
operate restarted s = restart s
operate cancelled s = cancel s
operate (fired t) s = fire t s

unfoldable pub operate_all : List Operation → Scheduler → Scheduler
operate_all [] s = s
operate_all (o ∷ os) s = operate_all os (operate o s)
