-- ===== src/Engine/Passes.antt =====
-- What the loops of the local runtime add to the log (packages/agent-runtime/src/local-runtime.ts).
use maman_agent.Prelude.{ℕ, ◌∷◌, [], ◌≡◌, ◌===◌, some, none, Option, List, Memᴰ, refl, arith}
use maman_agent.Engine.Base.{Call, ProposedDiff, World, CapabilityContext, pure, Run}
use maman_agent.Engine.Logs.{
  AllowsReads, Keeps, AllowsWrites, bind-Keeps, execute_step-Keeps, if-Keeps,
}
use maman_agent.Engine.Local.{
  Registry, require_adapter, run_one, shadow_steps, proposal_steps, write_steps, Progress, Fresh,
  Written, paired, pairs_with, bound, progressed, proposes, add_execution, write_slice, WritePass,
}
use maman_agent.Contracts.{AgentSpec, AgentStep, is_write}
use maman_agent.AgentInputs.{Values}
use maman_agent.Engine.Step.{StepExecution, written, read_done, proposed, skipped_shadow_write}

module _ (Q : Call → Type 0) (allows : AllowsReads Q) (stringify : ProposedDiff → List ℕ)
    (w : World) (registry : Registry) (spec : AgentSpec) (given : Values) where
  require_adapter-Keeps :
      (adapters : Registry) (step : AgentStep) → Keeps Q (require_adapter adapters step)
  unfolding require_adapter
  require_adapter-Keeps [] step = λ s h. h
  require_adapter-Keeps ((id, a) ∷ rest) step =
      if-Keeps Q (id === step.capability_id) (pure a) (require_adapter rest step) (λ _ s h. h)
        (λ _. require_adapter-Keeps rest step)

  run_one-Keeps :
      (ctx : CapabilityContext) (approved : Option (ProposedDiff × List ℕ)) (step : AgentStep)
      → AllowsWrites Q allows stringify w spec step ctx approved
      → Keeps Q (run_one stringify w registry spec given ctx approved step)
  unfolding run_one
  run_one-Keeps ctx approved step q =
      bind-Keeps Q (require_adapter registry step) _ (require_adapter-Keeps registry step)
        (λ a. execute_step-Keeps Q allows stringify w spec step ctx given a approved none q)

  no_writes :
      (step : AgentStep) (ctx : CapabilityContext)
      → AllowsWrites Q allows stringify w spec step ctx none
  no_writes step ctx i d sha e = ground arith

  pub shadow_steps-Keeps :
      (ctx : CapabilityContext) (steps : List AgentStep) (p : Progress)
      → Keeps Q (shadow_steps stringify w registry spec given ctx steps p)
  unfolding shadow_steps
  shadow_steps-Keeps ctx [] p = λ s h. h
  shadow_steps-Keeps ctx (step ∷ steps) p =
      if-Keeps Q (is_write step.mode) _ _ (λ _. shadow_steps-Keeps ctx steps p)
        (λ _.
          bind-Keeps Q (run_one stringify w registry spec given ctx none step) _
            (run_one-Keeps ctx none step (no_writes step ctx))
            (λ r. shadow_steps-Keeps ctx steps (progressed p r)))

  pub proposal_steps-Keeps :
      (ctx : CapabilityContext) (steps : List AgentStep) (f : Fresh)
      → Keeps Q (proposal_steps stringify w registry spec given ctx steps f)
  unfolding proposal_steps
  proposal_steps-Keeps ctx [] f = λ s h. h
  proposal_steps-Keeps ctx (step ∷ steps) f =
      if-Keeps Q (is_write step.mode) _ _ (λ _. proposal_steps-Keeps ctx steps f)
        (λ _.
          bind-Keeps Q (run_one stringify w registry spec given ctx none step) _
            (run_one-Keeps ctx none step (no_writes step ctx))
            (λ r. proposal_steps-Keeps ctx steps (proposes f step r)))

  add_execution-Keeps :
      (step : AgentStep) (before : Option Written) (after : Option Written → Run WritePass)
      (r : StepExecution)
      → ((so_far : Option Written) → Keeps Q (after so_far))
      → Keeps Q (add_execution step before after r)
  unfolding add_execution
  add_execution-Keeps step before after (written _ _ _ _) k = k _
  add_execution-Keeps step before after (read_done _) k = λ s h. h
  add_execution-Keeps step before after (proposed _ _) k = λ s h. h
  add_execution-Keeps step before after skipped_shadow_write k = λ s h. h

  write_slice-Keeps :
      (ctx : CapabilityContext) (step : AgentStep) (before : Option Written)
      (after : Option Written → Run WritePass) (slice : Option ProposedDiff)
      → ((so_far : Option Written) → Keeps Q (after so_far))
      → ((d : ProposedDiff)
          → slice ≡ some d
          → AllowsWrites Q allows stringify w spec step ctx
              (bound stringify w registry spec given d))
      → Keeps Q (write_slice stringify w registry spec given ctx step before after slice)
  unfolding write_slice
  write_slice-Keeps ctx step before after none k q = λ s h. h
  write_slice-Keeps ctx step before after (some d) k q =
      bind-Keeps Q
        (run_one stringify w registry spec given ctx (bound stringify w registry spec given d) step)
        _ (run_one-Keeps ctx _ step (q d refl)) (λ r. add_execution-Keeps step before after r k)

  -- The second pass adds no write but those that the pairing of each write step allows.
  pub write_steps-Keeps :
      (ctx : CapabilityContext) (f : Fresh) (steps : List AgentStep) (before : Option Written)
      → ((step : AgentStep) (slice : ProposedDiff)
          → Memᴰ step steps
          → paired f (pairs_with step) ≡ some slice
          → AllowsWrites Q allows stringify w spec step ctx
              (bound stringify w registry spec given slice))
      → Keeps Q (write_steps stringify w registry spec given ctx f steps before)
  unfolding write_steps
  write_steps-Keeps ctx f [] before q = λ s h. h
  write_steps-Keeps ctx f (step ∷ steps) before q =
      let rest = λ (so_far : Option Written).
        write_steps-Keeps ctx f steps so_far (λ t slice m. q t slice (Memᴰ.tail m)) in
      if-Keeps Q (is_write step.mode) _ _
        (λ k.
          write_slice-Keeps ctx step before _ (paired f (pairs_with step)) rest
            (λ slice e. q step slice (Memᴰ.head refl) e))
        (λ _. rest before)
