-- ===== src/Actuator/Runs/Shape.antt =====
-- One outcome for each step, and at most one halt (packages/browser-actuator/src/execute.ts).
use mathlib.Core.Path.{subst}
use mathlib.Core.List.{map-append}
use maman_agent.Prelude.{
  append-nil, append_assoc, ℕ, ◌≡◌, true, false, Option, none, some, List, [], ◌∷◌, ◌++◌, All,
  All-append, append_assoc, refl, ap, ◌∙◌, arith, map, sym, ◌+◌,
}
use maman_agent.Actuator.Plan.{Piece, PlanStep}
use maman_agent.Actuator.Execute.{
  ExecuteContext, ExecuteDeps, Execution, StepOutcome, Verdict, judge, unstarted,
  execute_browser_plan, halt_at, push, HaltReason, plain, skipped, hold, sending, issue, round,
  rounds,
}
use maman_agent.Actuator.Runs.Verdicts.{
  is_success, is_skipped, IsVerdict, judge-IsVerdict, rounds_keep, hold-IsVerdict,
}
use maman_agent.Actuator.Authorize.{IssueRefusal}

-- The outcomes of a run that halted at a step: successes, that step, and skipped steps.
abbrev pub HaltedAt : List Piece → List StepOutcome → Type 0
HaltedAt id os =
    (before : List StepOutcome) × (o : StepOutcome) × (after : List StepOutcome) × (os
      ≡ before ++ (o ∷ after))
    × (o.step_id ≡ id)
    × All (λ p. is_success p.status ≡ true) before
    × (is_success o.status ≡ false)
    × (is_skipped o.status ≡ false)
    × All (λ p. is_skipped p.status ≡ true) after

-- The outcomes so far agree with what is noted of a halt.
abbrev pub HaltsOnce : Option (List Piece) → List StepOutcome → Type 0
HaltsOnce none os = All (λ p. is_success p.status ≡ true) os
HaltsOnce (some id) os = HaltedAt id os

HaltedAt-skip :
    (id : List Piece) (os : List StepOutcome) (p : StepOutcome)
    → is_skipped p.status ≡ true
    → HaltedAt id os
    → HaltedAt id (os ++ p ∷ [])
HaltedAt-skip id os p k (before, o, after, e, same, good, bad, ran, rest) = (
  before,
  o,
  after ++ p ∷ [],
  ap (λ l. l ++ p ∷ []) e ∙ append_assoc before (o ∷ after) (p ∷ []),
  same,
  good,
  bad,
  ran,
  All-append (λ q. is_skipped q.status ≡ true) after (p ∷ []) rest (k, tt),
)

-- A round that settles a verdict after successes only.
halt_at-HaltsOnce :
    (step : PlanStep) (v : Verdict) (h : Option HaltReason) (e : Execution)
    → IsVerdict step v
    → v.halt ≡ h
    → e.halted_at ≡ none
    → All (λ p. is_success p.status ≡ true) e.steps
    → HaltsOnce (halt_at step h (push v e)).halted_at (halt_at step h (push v e)).steps
unfolding halt_at push
halt_at-HaltsOnce step v none e fit q h good =
    rw h (
      All-append (λ p. is_success p.status ≡ true) e.steps (v.outcome ∷ []) good (ground arith, tt))
halt_at-HaltsOnce step v (some reason) e fit q h good =
    (e.steps, v.outcome, [], refl, fit.same_id, good, ground arith, fit.not_skipped, tt)

module _ (lower_case : List ℕ → List ℕ) (ctx : ExecuteContext) (deps : ExecuteDeps) where
  -- A run either has only successes and no halt, or it halted at one step: all outcomes before that are
  -- successes, and all after it are skipped.
  execute_browser_plan-HaltsOnce :
      (steps : List PlanStep)
      → HaltsOnce
          (execute_browser_plan lower_case steps ctx deps).halted_at
          (execute_browser_plan lower_case steps ctx deps).steps
  unfolding execute_browser_plan
  execute_browser_plan-HaltsOnce steps =
      rounds_keep (λ e. HaltsOnce e.halted_at e.steps) lower_case ctx deps
        (λ step id e q p. rw q (
          HaltedAt-skip id e.steps (plain step skipped) refl
            (subst (λ h. HaltsOnce h e.steps) q p)))
        (λ step reason e q p.
          halt_at-HaltsOnce step (hold step reason) _ e (hold-IsVerdict step reason) refl q
            (subst (λ h. HaltsOnce h e.steps) q p))
        (λ i step e q g p.
          halt_at-HaltsOnce step (judge lower_case step (deps.dispatch i)) _
            (sending ctx deps i step e) (judge-IsVerdict lower_case step (deps.dispatch i)) refl q
            (subst (λ h. HaltsOnce h e.steps) q p))
        0 steps unstarted tt

abbrev ids : List StepOutcome → List (List Piece)
ids os = map (λ o. o.step_id) os

ids-push :
    (os : List StepOutcome) (o : StepOutcome) (id : List Piece)
    → o.step_id ≡ id
    → ids (os ++ o ∷ []) ≡ ids os ++ id ∷ []
ids-push os o id e = map-append (λ p. p.step_id) os (o ∷ []) ∙ ap (λ i. ids os ++ i ∷ []) e

ids-halt_at :
    (step : PlanStep) (v : Verdict) (h : Option HaltReason) (e : Execution)
    → IsVerdict step v
    → ids (halt_at step h (push v e)).steps ≡ ids e.steps ++ step.step_id ∷ []
unfolding halt_at push
ids-halt_at step v none e fit = ids-push e.steps v.outcome step.step_id fit.same_id
ids-halt_at step v (some r) e fit = ids-push e.steps v.outcome step.step_id fit.same_id

module _ (lower_case : List ℕ → List ℕ) (ctx : ExecuteContext) (deps : ExecuteDeps) where
  ids-issue :
      (i : ℕ) (step : PlanStep) (gate : Option IssueRefusal) (e : Execution)
      → ids (issue lower_case ctx deps i step gate e).steps ≡ ids e.steps ++ step.step_id ∷ []
  unfolding issue
  ids-issue i step none e =
      ids-halt_at step (judge lower_case step (deps.dispatch i)) _ (sending ctx deps i step e)
        (judge-IsVerdict lower_case step (deps.dispatch i))
  ids-issue i step (some r) e = ids-halt_at step (hold step r) _ e (hold-IsVerdict step r)

  ids-round :
      (i : ℕ) (step : PlanStep) (halted : Option (List Piece)) (e : Execution)
      → ids (round lower_case ctx deps i step halted e).steps ≡ ids e.steps ++ step.step_id ∷ []
  unfolding round
  ids-round i step none e = ids-issue i step _ e
  ids-round i step (some id) e = ids-push e.steps (plain step skipped) step.step_id refl

  ids-rounds :
      (i : ℕ) (steps : List PlanStep) (e : Execution)
      → ids (rounds lower_case ctx deps i steps e).steps ≡ ids e.steps ++ map (λ s. s.step_id) steps
  unfolding rounds
  ids-rounds i [] e = sym (append-nil (ids e.steps))
  ids-rounds i (step ∷ steps) e =
      ids-rounds (i + 1) steps (round lower_case ctx deps i step e.halted_at e)
      ∙ ap (λ l. l ++ map (λ s. s.step_id) steps) (ids-round i step e.halted_at e)
      ∙ append_assoc (ids e.steps) (step.step_id ∷ []) (map (λ s. s.step_id) steps)

  -- Whatever happens, a run ends with one outcome for each step of its plan, in the plan's order.
  execute_browser_plan-ids :
      (steps : List PlanStep)
      → map (λ o. o.step_id) (execute_browser_plan lower_case steps ctx deps).steps
        ≡ map (λ s. s.step_id) steps
  unfolding execute_browser_plan
  execute_browser_plan-ids steps = ids-rounds 0 steps unstarted
