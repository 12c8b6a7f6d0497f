-- ===== src/Pet/Timers.antt =====
-- One timer at most, and no frame that does not exist (apps/desktop/src/pet/scheduler.ts,
-- `FrameScheduler`).
use maman_agent.Prelude.{
  ℕ, zero, suc, ◌+◌, ◌<◌, ◌≡◌, leb, ◌==◌, Bool, true, false, ◌||◌, not, ◌⊎◌, inl, inr, Option, some,
  none, List, [], ◌∷◌, ◌++◌, filter, is_empty, length, length-append, get_elem?, any, All, arith,
  refl, Bool-cases, if◌then◌else◌, ap,
}
use maman_agent.Pet.Scheduler.{
  Scheduler, clear_timer, step_frame, show_frame, set_timer, emit, cancel, pause, start_plan,
  resume, restart, advance, fire, Operation, operate, operate_all, played, play, fresh, fired,
  was_paused, resumed, restarted, cancelled,
}
use maman_agent.Pet.Atlas.{Frame, PlayPlan, static, loop, repeat, transient}
use mathlib.Core.Path.{subst}

-- The position in the queue, if there is one, and the one that it goes back to are those of frames.
abbrev InQueue : Scheduler → Type 0
InQueue s = (s.queue ≡ []) ⊎ (s.index < length s.queue × s.loop_start < length s.queue)

-- At most one timer is live, and it is the one that would be cleared; none is while the scheduler is paused.
pub record IsSingle (s : Scheduler) : Type 0 where
  single : (s.live ≡ []) ⊎ ((t : ℕ) × s.timer ≡ some t × s.live ≡ t ∷ [])
  quiet : s.paused ≡ true → s.live ≡ []
  within : InQueue s
  whole : s.broken ≡ false

record IsStopped (s : Scheduler) : Type 0 where
  none_live : s.live ≡ []
  within : InQueue s
  whole : s.broken ≡ false

clear_timer-live : (s : Scheduler) → IsSingle s → (clear_timer s.timer s).live ≡ []
unfolding clear_timer
clear_timer-live s h = cleared s.timer refl h.single
  where
    cleared :
        (t : Option ℕ)
        → s.timer ≡ t
        → (s.live ≡ []) ⊎ ((t : ℕ) × s.timer ≡ some t × s.live ≡ t ∷ [])
        → (clear_timer t s).live ≡ []
    cleared none e (inl n) = n
    cleared none e (inr (t, p, l)) = ground (arith, e, p)
    cleared (some u) e (inl n) = rw n refl
    cleared (some u) e (inr (t, p, l)) =
        let same : u ≡ t = ground (arith, e, p) in rw (l, same) ground arith

get_elem?-found : (xs : List Frame) (i : ℕ) → i < length xs → (f : Frame) × get_elem? xs i ≡ some f
get_elem?-found [] i h = absurd (omega (arith, h))
get_elem?-found (x ∷ xs) zero h = (x, refl)
get_elem?-found (x ∷ xs) (suc i) h = get_elem?-found xs i (omega (arith, h))

step_frame-IsSingle : (s : Scheduler) → IsStopped s → IsSingle (step_frame s)
unfolding step_frame show_frame set_timer emit
step_frame-IsSingle s h = elim (Bool-cases (s.paused || is_empty s.queue)) [
  | inl e ↦ rw e (record {
    single = inl h.none_live;
    quiet = λ _. h.none_live;
    within = h.within;
    whole = h.whole;
  })
  | inr e ↦ rw e (elim h.within [
    | inl n ↦ let n' = ap is_empty n in absurd (ground arith)
    | inr (i, l) ↦
        let (f, g) = get_elem?-found s.queue s.index i in
        rw g (record {
          single = inr (s.next_timer, refl, ap (λ l. s.next_timer ∷ l) h.none_live);
          quiet = λ p. absurd (ground (arith, e, p));
          within = inr (i, l);
          whole = h.whole;
        })
  ])
]

clear_timer-IsStopped : (s : Scheduler) → IsSingle s → IsStopped (clear_timer s.timer s)
unfolding clear_timer
clear_timer-IsStopped s h = stopped s.timer (clear_timer-live s h)
  where
    stopped : (t : Option ℕ) → (clear_timer t s).live ≡ [] → IsStopped (clear_timer t s)
    stopped none n = record { none_live = n; within = h.within; whole = h.whole }
    stopped (some t) n = record { none_live = n; within = h.within; whole = h.whole }

cancel-IsStopped : (s : Scheduler) → IsSingle s → IsStopped (cancel s)
unfolding cancel
cancel-IsStopped s h =
    let k = clear_timer-IsStopped s h in
    record { none_live = k.none_live; within = inl refl; whole = k.whole }

pause-IsStopped : (s : Scheduler) → IsSingle s → IsStopped (pause s)
unfolding pause
pause-IsStopped s h =
    let k = clear_timer-IsStopped s h in
    record { none_live = k.none_live; within = k.within; whole = k.whole }

IsStopped-IsSingle : (s : Scheduler) → IsStopped s → IsSingle s
IsStopped-IsSingle s h = record {
  single = inl h.none_live;
  quiet = λ _. h.none_live;
  within = h.within;
  whole = h.whole;
}

-- A plan that goes on with some frames when its cycles are over.
abbrev pub IsPlayable : PlayPlan → Type 0
IsPlayable (static _) = Unit
IsPlayable (loop _) = Unit
IsPlayable (transient _ _ then_) = 0 < length then_

loop_within : (fs : List Frame) → (fs ≡ []) ⊎ (0 < length fs × 0 < length fs)
loop_within [] = inl refl
loop_within (f ∷ fs) = inr (omega arith, omega arith)

start_plan-IsSingle :
    (plan : PlayPlan) (s : Scheduler) → IsPlayable plan → IsStopped s → IsSingle (start_plan plan s)
unfolding start_plan emit
start_plan-IsSingle (static c) s p h = record {
  single = inl h.none_live;
  quiet = λ _. h.none_live;
  within = h.within;
  whole = h.whole;
}
start_plan-IsSingle (loop fs) s p h =
    step_frame-IsSingle (record s { queue = fs; loop_start = 0; index = 0 })
      (record { none_live = h.none_live; within = loop_within fs; whole = h.whole })
start_plan-IsSingle (transient fs cycles then_) s p h =
    let sum = length-append (repeat cycles fs) then_ in
    step_frame-IsSingle
      (record s {
        queue = repeat cycles fs ++ then_;
        loop_start = length (repeat cycles fs);
        index = 0;
      })
      (record {
        none_live = h.none_live;
        within = inr (omega (arith, sum, p), omega (arith, sum, p));
        whole = h.whole;
      })

if-IsSingle :
    (b : Bool) (s t : Scheduler)
    → (b ≡ true → IsSingle s)
    → (b ≡ false → IsSingle t)
    → IsSingle (if b then s else t)
if-IsSingle true s t h k = h refl
if-IsSingle false s t h k = k refl

resume-IsSingle : (s : Scheduler) → IsSingle s → IsSingle (resume s)
unfolding resume
resume-IsSingle s h =
    if-IsSingle s.paused _ s
      (λ e.
        step_frame-IsSingle (record s { paused = false })
          (record { none_live = h.quiet e; within = h.within; whole = h.whole }))
      (λ _. h)

restart-IsSingle : (s : Scheduler) → IsSingle s → IsSingle (restart s)
unfolding restart
restart-IsSingle s h = elim (Bool-cases (is_empty s.queue)) [
  | inl e ↦ rw e h
  | inr e ↦ rw e (
      let k = pause-IsStopped s h in
      step_frame-IsSingle (record (pause s) { index = 0; paused = false })
        (record {
          none_live = k.none_live;
          within = rewound (pause s).queue (pause s).loop_start k.within;
          whole = k.whole;
        }))
]
  where
    rewound :
        {i : ℕ} (q : List Frame) (l : ℕ)
        → (q ≡ []) ⊎ (i < length q × l < length q)
        → (q ≡ []) ⊎ (0 < length q × l < length q)
    rewound q l (inl n) = inl n
    rewound q l (inr (a, b)) = inr (omega (arith, b), b)

advance-IsSingle : (s : Scheduler) → IsStopped s → IsSingle (advance s)
unfolding advance
advance-IsSingle s h =
    step_frame-IsSingle _
      (record { none_live = h.none_live; within = advanced h.within; whole = h.whole })
  where
    advanced :
        InQueue s
        → (s.queue ≡ [])
          ⊎ ((if leb (length s.queue) (s.index + 1) then s.loop_start else s.index + 1)
                < length s.queue
              × s.loop_start < length s.queue)
    advanced (inl n) = inl n
    advanced (inr (a, b)) = inr (ground (arith, a, b), b)

fire-IsSingle : (t : ℕ) (s : Scheduler) → IsSingle s → IsSingle (fire t s)
unfolding fire
fire-IsSingle t s h = elim (Bool-cases (any (λ u. u == t) s.live)) [
  | inl e ↦ rw e (
      advance-IsSingle (record s { live = filter (λ u. not (u == t)) s.live })
        (record {
          none_live = spent s.live (any_single h.single) e;
          within = h.within;
          whole = h.whole;
        }))
  | inr e ↦ rw e h
]
  where
    any_single :
        (s.live ≡ []) ⊎ ((t : ℕ) × s.timer ≡ some t × s.live ≡ t ∷ [])
        → (s.live ≡ []) ⊎ ((t : ℕ) × s.live ≡ t ∷ [])
    any_single (inl n) = inl n
    any_single (inr (t, p, l)) = inr (t, l)

    spent :
        (ls : List ℕ)
        → (ls ≡ []) ⊎ ((u : ℕ) × ls ≡ u ∷ [])
        → any (λ u. u == t) ls ≡ true
        → filter (λ u. not (u == t)) ls ≡ []
    spent ls (inl n) e = rw n refl
    spent ls (inr (u, l)) e =
        let e' : any (λ u. u == t) (u ∷ []) ≡ true =
          subst (λ ls. any (λ u. u == t) ls ≡ true) l e in
        rw l ground (arith, e')

abbrev pub IsPlayableOperation : Operation → Type 0
IsPlayableOperation (played plan) = IsPlayable plan
IsPlayableOperation _ = Unit

operate-IsSingle :
    (o : Operation) (s : Scheduler) → IsPlayableOperation o → IsSingle s → IsSingle (operate o s)
unfolding operate play
operate-IsSingle (played plan) s p h = start_plan-IsSingle plan (cancel s) p (cancel-IsStopped s h)
operate-IsSingle was_paused s p h = IsStopped-IsSingle (pause s) (pause-IsStopped s h)
operate-IsSingle resumed s p h = resume-IsSingle s h
operate-IsSingle restarted s p h = restart-IsSingle s h
operate-IsSingle cancelled s p h = IsStopped-IsSingle (cancel s) (cancel-IsStopped s h)
operate-IsSingle (fired t) s p h = fire-IsSingle t s h

operated :
    (os : List Operation) (s : Scheduler)
    → All IsPlayableOperation os
    → IsSingle s
    → IsSingle (operate_all os s)
unfolding operate_all
operated [] s p h = h
operated (o ∷ os) s (p, ps) h = operated os (operate o s) ps (operate-IsSingle o s p h)

-- After any sequence of calls and of timers that fire, at most one timer is live, it is the one that the scheduler would
-- clear, and none is live while it is paused; the position is in the queue, and no frame that
-- does not exist was ever read. Every transient plan that is played must go on with some frame.
pub operate_all-IsSingle :
    (os : List Operation) → All IsPlayableOperation os → IsSingle (operate_all os fresh)
operate_all-IsSingle os p =
    operated os fresh p
      (record { single = inl refl; quiet = λ _. refl; within = inl refl; whole = refl })
