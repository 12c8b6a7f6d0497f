-- ===== src/Validator/RunOrder.antt =====
-- The validator and the run engine together: in the order in which the local engine runs the steps
-- (packages/agent-runtime/src/local-runtime.ts), what a step reads is there.
use maman_agent.Prelude.{
  ◌≤◌, ◌<◌, ◌≡◌, refl, sym, ap, ◌∙◌, arith, String, List, [], ◌∷◌, ◌++◌, All, All-mem, Memᴰ, inl,
  inr, mem-sort_by, sort_by-IsSortedBy, sort_by-mem, IsSortedBy,
}
use mathlib.Core.List.Memᴰ.{append_cases}
use maman_agent.Contracts.{AgentSpec, AgentStep, StepInputBinding, step_output}
use maman_agent.Engine.Runs.{in_order}
use maman_agent.Validator.Check.{Parsed, valid, validate_agent_spec}
use maman_agent.Validator.Sound.{IsBound, from_step}
use maman_agent.Validator.Laws.{validate_agent_spec-IsSound}
use mathlib.Core.Path.{subst}

abbrev ByOrder : List AgentStep → Type 0
ByOrder = IsSortedBy (λ s. s.order)

-- What follows a step in sorted steps has no smaller order.
sorted_after :
    (s t : AgentStep) (rest : List AgentStep)
    → ByOrder (s ∷ rest)
    → Memᴰ t (s ∷ rest)
    → s.order ≤ t.order
sorted_after s t rest h (Memᴰ.head e) = let same = ap (λ x. x.order) e in omega arith
sorted_after s t [] h (Memᴰ.tail m) = elim m [ ]
sorted_after s t (u ∷ rest) (o, h) (Memᴰ.tail m) = omega (arith, sorted_after u t rest h m)

sorted_suffix : (before rest : List AgentStep) → ByOrder (before ++ rest) → ByOrder rest
sorted_suffix [] rest h = h
sorted_suffix (s ∷ before) rest (o, h) = sorted_suffix before rest h

bound_ref :
    (spec : AgentSpec) (step : AgentStep) (b : StepInputBinding) (ref : String)
    → IsBound spec step b
    → b ≡ step_output ref
    → (p : AgentStep) × Memᴰ p spec.steps × (p.output_key ≡ ref) × (p.order < step.order)
bound_ref spec step b ref (from_step p m key less) e = (p, m, key ∙ cc, less)
bound_ref spec step b ref other e = absurd (ground arith)

-- In the run order of a valid spec, each step that reads the output of a step comes after a step that
-- produces it.
pub in_order-produced :
    (parsed : Parsed) (spec : AgentSpec) (before after : List AgentStep) (step : AgentStep)
    (input ref : String)
    → validate_agent_spec parsed ≡ valid spec
    → in_order spec ≡ before ++ step ∷ after
    → Memᴰ (input, step_output ref) step.inputs
    → (p : AgentStep) × Memᴰ p before × (p.output_key ≡ ref)
in_order-produced parsed spec before after step input ref ok e m =
    let sound = (validate_agent_spec-IsSound parsed spec ok).1 in
    let sorted : ByOrder (before ++ step ∷ after) =
      subst ByOrder e (sort_by-IsSortedBy (λ s. s.order) spec.steps) in
    let inside : Memᴰ step (in_order spec) =
      subst (λ steps. Memᴰ step steps) (sym e) (here before) in
    let bounds =
      All-mem (λ s. All (λ x. IsBound spec s (x.1)) s.inputs) step spec.steps sound.bindings
        (sort_by-mem (λ s. s.order) step spec.steps inside) in
    let bound =
      All-mem (λ x. IsBound spec step (x.1)) (input, step_output ref) step.inputs bounds m in
    let (p, k, key, less) = bound_ref spec step (step_output ref) ref bound refl in
    let k' : Memᴰ p (before ++ step ∷ after) =
      subst (λ steps. Memᴰ p steps) e (mem-sort_by (λ s. s.order) p spec.steps k) in
    elim (append_cases before k') [
      | inl early ↦ (p, early, key)
      | inr late ↦
          let later = sorted_after step p after (sorted_suffix before (step ∷ after) sorted) late in
          absurd (omega arith)
    ]
  where
    here : (xs : List AgentStep) → Memᴰ step (xs ++ step ∷ after)
    here [] = Memᴰ.head refl
    here (x ∷ xs) = Memᴰ.tail (here xs)
