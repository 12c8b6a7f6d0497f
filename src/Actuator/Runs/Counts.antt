-- ===== src/Actuator/Runs/Counts.antt =====
-- What a run reports: its counts and its flag (packages/browser-actuator/src/execute.ts).
use maman_agent.Prelude.{
  ℕ, ◌+◌, ◌≡◌, ◌↔◌, true, none, some, List, [], ◌∷◌, ◌++◌, All, refl, arith, Bool, ◌||◌, length,
  if◌then◌else◌, filter, ap, Option, filter-append, ◌∙◌, length-append, sym, Bool-cases, inl, inr,
}
use maman_agent.Actuator.Execute.{
  ExecuteContext, ExecuteDeps, Execution, StepOutcome, execute_browser_plan, StepStatus, halt_at,
  push, Verdict, plain, skipped, HaltReason, hold, judge, sending, unstarted,
}
use maman_agent.Actuator.Runs.Verdicts.{
  is_write_done, is_applied, rounds_keep, is_skipped, IsVerdict, hold-IsVerdict, judge-IsVerdict,
}
use maman_agent.Actuator.Plan.{PlanStep}

-- The outcomes with a status that the test accepts.
abbrev pub count : (StepStatus → Bool) → List StepOutcome → ℕ
count p os = length (filter (λ o. p o.status) os)

count-append :
    (p : StepStatus → Bool) (os : List StepOutcome) (o : StepOutcome)
    → count p (os ++ o ∷ []) ≡ count p os + (if p o.status then 1 else 0)
count-append p os o =
    ap length (filter-append (λ q. p q.status) os (o ∷ []))
    ∙ ground
        (arith, length-append (filter (λ q. p q.status) os) (filter (λ q. p q.status) (o ∷ [])))

abbrev CountsWrites : Execution → Type 0
CountsWrites e = e.writes_applied ≡ count is_write_done e.steps

halt_at-CountsWrites :
    (step : PlanStep) (v : Verdict) (h : Option HaltReason) (e : Execution)
    → IsVerdict step v
    → CountsWrites e
    → CountsWrites (halt_at step h (push v e))
unfolding halt_at push
halt_at-CountsWrites step v none e fit c =
    ground (arith, count-append is_write_done e.steps v.outcome)
halt_at-CountsWrites step v (some r) e fit c =
    ground (arith, count-append is_write_done e.steps v.outcome)

-- A write outcome that neither landed nor was skipped.
abbrev pub IsGood : StepOutcome → Type 0
IsGood o = o.write ≡ true → (is_applied o.status || is_skipped o.status) ≡ true

-- The flag is kept, and once the run halts it says whether a write did.
abbrev Flags : Execution → Type 0
Flags e = (e.all_writes_verified ≡ true) ↔ All IsGood e.steps

All-snoc_iff :
    (os : List StepOutcome) (o : StepOutcome)
    → All IsGood (os ++ o ∷ []) ↔ (All IsGood os × IsGood o)
All-snoc_iff [] o = (λ h. (tt, h.0), λ h. (h.1, tt))
All-snoc_iff (p ∷ os) o =
    let ih = All-snoc_iff os o in
    (λ h. let k = ih.0 h.1 in ((h.0, k.0), k.1), λ h. (h.0.0, ih.1 (h.0.1, h.1)))

halt_at-Flags :
    (step : PlanStep) (v : Verdict) (h : Option HaltReason) (e : Execution)
    → IsVerdict step v
    → v.halt ≡ h
    → Flags e
    → Flags (halt_at step h (push v e))
unfolding halt_at push
halt_at-Flags step v none e fit q f =
    let snoc = All-snoc_iff e.steps v.outcome in
    (
      λ h. snoc.1 (f.0 h, λ w. let k = fit.written (sym fit.same_write ∙ w) in ground arith),
      λ h. f.1 (snoc.0 h).0,
    )
halt_at-Flags step v (some r) e fit q f =
    let snoc = All-snoc_iff e.steps v.outcome in
    (
      λ h. snoc.1 (f.0 (ground arith), λ w. (let k = fit.same_write in ground arith)),
      λ h.
          let k = snoc.0 h in
          elim (Bool-cases step.write) [
            | inl w ↦
                let good = k.1 (fit.same_write ∙ w) in let stopped = fit.written w in ground arith
            | inr w ↦ let flag = f.1 k.0 in ground arith
          ],
    )

module _ (lower_case : List ℕ → List ℕ) (ctx : ExecuteContext) (deps : ExecuteDeps) where
  -- The number of applied writes that a run reports is that of its outcomes `applied` and `unverified`.
  pub execute_browser_plan-CountsWrites :
      (steps : List PlanStep)
      → (execute_browser_plan lower_case steps ctx deps).writes_applied
        ≡ count is_write_done (execute_browser_plan lower_case steps ctx deps).steps
  unfolding execute_browser_plan
  execute_browser_plan-CountsWrites steps =
      rounds_keep CountsWrites lower_case ctx deps
        (λ step id e q c. ground (arith, count-append is_write_done e.steps (plain step skipped)))
        (λ step reason e q c.
          halt_at-CountsWrites step (hold step reason) _ e (hold-IsVerdict step reason) c)
        (λ i step e q g c.
          halt_at-CountsWrites step (judge lower_case step (deps.dispatch i)) _
            (sending ctx deps i step e) (judge-IsVerdict lower_case step (deps.dispatch i)) c)
        0 steps unstarted refl

  -- A run reports all writes as verified exactly when each outcome of a write step is `applied` or
  -- `skipped`.
  execute_browser_plan-Flags :
      (steps : List PlanStep)
      → ((execute_browser_plan lower_case steps ctx deps).all_writes_verified ≡ true)
        ↔ All IsGood (execute_browser_plan lower_case steps ctx deps).steps
  unfolding execute_browser_plan
  execute_browser_plan-Flags steps =
      rounds_keep Flags lower_case ctx deps
        (λ step id e q f.
          let snoc = All-snoc_iff e.steps (plain step skipped) in
          (λ h. snoc.1 (f.0 h, λ w. refl), λ h. f.1 (snoc.0 h).0))
        (λ step reason e q f.
          halt_at-Flags step (hold step reason) _ e (hold-IsVerdict step reason) refl f)
        (λ i step e q g f.
          halt_at-Flags step (judge lower_case step (deps.dispatch i)) _ (sending ctx deps i step e)
            (judge-IsVerdict lower_case step (deps.dispatch i)) refl f)
        0 steps unstarted (λ _. tt, λ _. refl)
