-- ===== src/Workflow/Accounting.antt =====
-- How often a run writes, and what it reports (workflow.ts).
use maman_agent.Prelude.{
  Bool, if◌then◌else◌, ℕ, ◌+◌, ◌≤◌, ◌≡◌, refl, none, some, Option, String, List, [], ◌∷◌, arith,
  insert_by, sort_by,
}
use maman_agent.Contracts.{AgentSpec, AgentStep, RunMode, StepMode, read, propose_write, write}
use native.Mathlib.Nat.{add-zero, add_assoc}
use maman_agent.AgentInputs.{InputReadiness, ready, not_ready, validate_agent_inputs}
use maman_agent.Workflow.State.{
  Vars, World, Entry, write_executed, StepActivityResult, PolicyAnswer, FinalStatus, running_read,
  record_status, preparing_diff, applying_write, await, noted, status_recorded, policy_checked,
  step_recorded, SummaryStatus, verifying, validating, initial,
}
use maman_agent.Workflow.Steps.{
  AgentRunInput, agent_run_workflow, after_write, after_recheck, write_with, by_mode, run_steps,
  apply_write, write_step, run_step, is_deny, is_failed, gate, is_shadow, truthy_text, is_some,
  set_summary, push_summary, absorb, if_ready, after_policy,
}
use maman_agent.Workflow.Triples.{
  Ensures, Ensures->>=, Ensures-mono, Ensures-if, vars_of, await-keeps, Ensures-vars_of,
}
use maman_agent.Workflow.LogRules.{
  writes, Of, IsKept, finish-Of, read_step-Of, set_error-Of, bookkeep-Of, gate-Of, Of-IsStable,
  await-Of,
}

unfoldable pub own : (AgentStep → Bool) → AgentStep → ℕ
own p s = if p s then 1 else 0

-- The number of write activities in a log that are of a chosen step.
abbrev pub writes_of : (AgentStep → Bool) → List Entry → ℕ
writes_of p [] = 0
writes_of p (write_executed s sha ∷ l) = own p s + writes_of p l
writes_of p (_ ∷ l) = writes_of p l

module _ (p : AgentStep → Bool) where
  -- At most `n` writes of chosen steps were called, and no more writes are counted as completed than were
  -- called.
  abbrev AtMost : ℕ → List Entry → ℕ → Type 0
  AtMost n l c = (writes_of p l ≤ n) × (c ≤ writes l)

  -- The same with one call not counted yet.
  abbrev Uncounted : ℕ → ℕ → List Entry → ℕ → Type 0
  Uncounted n m l c = (writes_of p l ≤ n + m) × (c + 1 ≤ writes l)

  AtMost-IsKept : (n : ℕ) → IsKept (AtMost n)
  AtMost-IsKept n (write_executed s sha) l c i h = absurd i
  AtMost-IsKept n _ l c i h = h

  Uncounted-IsKept : (n m : ℕ) → IsKept (Uncounted n m)
  Uncounted-IsKept n m (write_executed s sha) l c i h = absurd i
  Uncounted-IsKept n m _ l c i h = h

  Uncounted-AtMost : (n m : ℕ) (v : Vars) → Of (Uncounted n m) v → Of (AtMost (n + m)) v
  Uncounted-AtMost n m v h = omega arith

  module _ (w : World) (n m : ℕ) where
    abbrev B : Vars → Type 0
    B = Of (AtMost n)

    abbrev U : Vars → Type 0
    U = Of (Uncounted n m)

    abbrev B' : Vars → Type 0
    B' = Of (AtMost (n + m))

    after_write-AtMost :
        (s : AgentStep) (r : Option StepActivityResult) (v : Vars)
        → U v
        → Ensures B' B' (after_write w s r v)
    unfolding after_write
    after_write-AtMost s none v h =
        finish-Of (AtMost (n + m)) (AtMost-IsKept (n + m)) w B' FinalStatus.failed _
          (Uncounted-AtMost n m v h)
    after_write-AtMost s (some r) v h =
        Ensures-if B' B' (is_failed r.status) _ _
          (λ _. finish-Of (AtMost (n + m)) (AtMost-IsKept (n + m)) w B' FinalStatus.failed _ (
            set_error-Of (AtMost (n + m)) (AtMost-IsKept (n + m)) w (truthy_text r.error_code)
              (set_summary SummaryStatus.failed (absorb r v)) (Uncounted-AtMost n m v h)))
          (λ _.
            Ensures->>= U B' B' (record_status w verifying (absorb r v)) _
              (Ensures-mono U U U B' _ (λ _ x. x) (Uncounted-AtMost n m)
                (bookkeep-Of (Uncounted n m) (Uncounted-IsKept n m) w (status_recorded verifying) _
                  tt h))
              (λ u x.
                bookkeep-Of (AtMost (n + m)) (AtMost-IsKept (n + m)) w (step_recorded s) _ tt
                  (omega arith)))

    B-B' : (v : Vars) → B v → B' v
    B-B' v h = omega arith

    after_recheck-AtMost :
        (s : AgentStep) (sha : String) (a : Option PolicyAnswer) (v : Vars)
        → m ≡ own p s
        → B v
        → Ensures B' B' (after_recheck w s sha a v)
    unfolding after_recheck
    after_recheck-AtMost s sha none v e h = B-B' v h
    after_recheck-AtMost s sha (some a) v e h =
        Ensures-if B' B' (is_deny a) _ _
          (λ _.
            finish-Of (AtMost (n + m)) (AtMost-IsKept (n + m)) w B' FinalStatus.policy_blocked v
              (B-B' v h))
          (λ _.
            Ensures->>= B B' B' (record_status w applying_write v)
              (λ u.
                after_write w s (w.executed u.awaits) (await w (noted (write_executed s sha) u)))
              (Ensures-mono B B B B' _ (λ _ x. x) B-B'
                (bookkeep-Of (AtMost n) (AtMost-IsKept n) w (status_recorded applying_write) _ tt
                  h))
              (λ u d. after_write-AtMost s (w.executed u.awaits) _ (
                await-keeps U (Of-IsStable (Uncounted n m) (Uncounted-IsKept n m)) w
                  (noted (write_executed s sha) u) (omega arith))))

    write_with-AtMost :
        (s : AgentStep) (sha : Option String) (v : Vars)
        → m ≡ own p s
        → B v
        → Ensures B' B' (write_with w s sha v)
    unfolding write_with apply_write
    write_with-AtMost s none v e h =
        finish-Of (AtMost (n + m)) (AtMost-IsKept (n + m)) w B' FinalStatus.failed _ (B-B' v h)
    write_with-AtMost s (some sha) v e h =
        Ensures->>= B B' B' (gate w s sha v)
          (λ u. after_recheck w s sha (w.policy u.awaits) (await w (noted policy_checked u)))
          (Ensures-mono B B B B' _ (λ _ x. x) B-B'
            (gate-Of (AtMost n) (AtMost-IsKept n) w s sha v h))
          (λ u x.
            after_recheck-AtMost s sha (w.policy u.awaits) _ e
              (await-Of (AtMost n) (AtMost-IsKept n) w policy_checked u tt x))

-- What a step adds to the number of chosen steps that may write.
abbrev pub cost : (AgentStep → Bool) → AgentStep → StepMode → ℕ
cost p s write = own p s
cost p s _ = 0

-- The number of chosen steps that may write.
abbrev pub write_steps : (AgentStep → Bool) → List AgentStep → ℕ
write_steps p [] = 0
write_steps p (s ∷ ss) = cost p s s.mode + write_steps p ss

write_steps-insert_by :
    (p : AgentStep → Bool) (s : AgentStep) (ss : List AgentStep)
    → write_steps p (insert_by (λ t. t.order) s ss) ≡ cost p s s.mode + write_steps p ss
write_steps-insert_by p s [] = refl
write_steps-insert_by p s (t ∷ ss) = ground (arith, write_steps-insert_by p s ss)

write_steps-sort_by :
    (p : AgentStep → Bool) (ss : List AgentStep)
    → write_steps p (sort_by (λ t. t.order) ss) ≡ write_steps p ss
write_steps-sort_by p [] = refl
write_steps-sort_by p (s ∷ ss) =
    ground (arith, write_steps-insert_by p s (sort_by (λ t. t.order) ss), write_steps-sort_by p ss)

module _ (p : AgentStep → Bool) (w : World) (mode : RunMode) where
  by_mode-AtMost :
      (n : ℕ) (s : AgentStep) (m : StepMode) (v : Vars)
      → Of (AtMost p n) v
      → Ensures
          (Of (AtMost p (n + cost p s m)))
          (Of (AtMost p (n + cost p s m)))
          (by_mode w mode s m v)
  unfolding by_mode write_step
  by_mode-AtMost n s read v h =
      rw add-zero (read_step-Of (AtMost p n) (AtMost-IsKept p n) w running_read s v h)
  by_mode-AtMost n s propose_write v h =
      rw add-zero (read_step-Of (AtMost p n) (AtMost-IsKept p n) w preparing_diff s v h)
  by_mode-AtMost n s write v h =
      Ensures-if (B' p w n (own p s)) (B' p w n (own p s)) (is_shadow mode) _ _
        (λ _.
          bookkeep-Of (AtMost p (n + own p s)) (AtMost-IsKept p (n + own p s)) w (step_recorded s) _
            tt (B-B' p w n (own p s) v h))
        (λ _. write_with-AtMost p w n (own p s) s v.last_diff_sha v refl h)

  run_steps-AtMost :
      (n : ℕ) (ss : List AgentStep) (v : Vars)
      → Of (AtMost p n) v
      → Ensures
          (Of (AtMost p (n + write_steps p ss)))
          (Of (AtMost p (n + write_steps p ss)))
          (run_steps w mode ss v)
  unfolding run_steps run_step
  run_steps-AtMost n [] v h =
      rw add-zero (finish-Of (AtMost p n) (AtMost-IsKept p n) w (Of (AtMost p n)) _ v h)
  run_steps-AtMost n (s ∷ ss) v h =
      let P = Of (AtMost p (n + write_steps p (s ∷ ss))) in
      let Q = Of (AtMost p (n + cost p s s.mode)) in
      Ensures->>= Q P P (run_step w mode s v) (run_steps w mode ss)
        (Ensures-mono Q Q Q P _ (λ _ x. x) (λ u x. omega arith)
          (Ensures-if Q Q (is_some v.cancellation) _ _
            (λ _.
              finish-Of (AtMost p (n + cost p s s.mode)) (AtMost-IsKept p (n + cost p s s.mode)) w Q
                FinalStatus.cancelled v (omega arith))
            (λ _. by_mode-AtMost n s s.mode (push_summary s v) h)))
        (λ u x. rw (← add_assoc) (run_steps-AtMost (n + cost p s s.mode) ss u x))

module _ (p : AgentStep → Bool) (w : World) (spec : AgentSpec) (run : AgentRunInput) where
  abbrev WithinSteps : Vars → Type 0
  WithinSteps = Of (AtMost p (write_steps p spec.steps))

  if_ready-AtMost :
      (i : InputReadiness) (v : Vars)
      → Of (AtMost p 0) v
      → Ensures WithinSteps WithinSteps (if_ready w spec run i v)
  unfolding if_ready
  if_ready-AtMost ready v h =
      let P = Of (AtMost p (0 + write_steps p (sort_by (λ t. t.order) spec.steps))) in
      Ensures-mono P WithinSteps P WithinSteps _
        (λ u x. omega (arith, write_steps-sort_by p spec.steps))
        (λ u x. omega (arith, write_steps-sort_by p spec.steps))
        (run_steps-AtMost p w run.mode 0 (sort_by (λ s. s.order) spec.steps) v h)
  if_ready-AtMost (not_ready ms) v h =
      finish-Of (AtMost p (write_steps p spec.steps)) (AtMost-IsKept p (write_steps p spec.steps)) w
        WithinSteps FinalStatus.failed v (omega arith)

  after_policy-AtMost :
      (a : Option PolicyAnswer) (v : Vars)
      → Of (AtMost p 0) v
      → Ensures WithinSteps WithinSteps (after_policy w spec run a v)
  unfolding after_policy
  after_policy-AtMost none v h = omega arith
  after_policy-AtMost (some a) v h =
      Ensures-if WithinSteps WithinSteps (is_deny a) _ _
        (λ _.
          finish-Of (AtMost p (write_steps p spec.steps))
            (AtMost-IsKept p (write_steps p spec.steps)) w WithinSteps FinalStatus.policy_blocked v
            (omega arith))
        (λ _. if_ready-AtMost (validate_agent_inputs spec run.agent_inputs) v h)

-- However the activities answer and whatever signals arrive: for any choice of steps, a run calls the
-- write activity for them at most as often as there are such write steps in its spec, so at most once
-- for a step whose id no other has; and it reports no more completed writes than it called.
pub workflow-writes :
    (w : World) (spec : AgentSpec) (run : AgentRunInput) (p : AgentStep → Bool)
    → (writes_of p (vars_of (agent_run_workflow w spec run)).log ≤ write_steps p spec.steps)
      × ((vars_of (agent_run_workflow w spec run)).completed_writes
          ≤ writes (vars_of (agent_run_workflow w spec run)).log)
unfolding agent_run_workflow
workflow-writes w spec run p =
    Ensures-vars_of (WithinSteps p w spec run) (agent_run_workflow w spec run) (
      Ensures->>= (Of (AtMost p 0)) (WithinSteps p w spec run) (WithinSteps p w spec run)
        (record_status w validating (initial run.agent_inputs))
        (λ u. after_policy w spec run (w.policy u.awaits) (await w (noted policy_checked u)))
        (Ensures-mono (Of (AtMost p 0)) (Of (AtMost p 0)) (Of (AtMost p 0))
          (WithinSteps p w spec run) _ (λ _ x. x) (λ u x. omega arith)
          (bookkeep-Of (AtMost p 0) (AtMost-IsKept p 0) w (status_recorded validating) _ tt
            (omega arith)))
        (λ u x.
          after_policy-AtMost p w spec run (w.policy u.awaits) _
            (await-Of (AtMost p 0) (AtMost-IsKept p 0) w policy_checked u tt x)))
