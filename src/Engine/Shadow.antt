-- ===== src/Engine/Shadow.antt =====
-- Shadow runs make no writes (packages/agent-runtime/src/local-runtime.ts, `runShadow`).
use maman_agent.Prelude.{
  ℕ, ◌≡◌, some, none, Option, List, true, false, All, Bool, String, refl, sym,
}
use maman_agent.Engine.Base.{Call, ProposedDiff, write_call, Result, World, EngineState, ok, threw}
use maman_agent.Engine.Logs.{AllowsReads}
use maman_agent.Engine.Runs.{
  finish_shadow, shadow_if, run_shadow, context, in_order, no_progress, from_scratch,
}
use maman_agent.Engine.Local.{Progress, Registry, shadow_steps}
use maman_agent.AgentInputs.{Values, InputReadiness, validate_agent_inputs, not_ready, ready}
use maman_agent.Contracts.{AgentSpec, shadow}
use mathlib.Core.Path.{subst}
use maman_agent.Engine.Passes.{shadow_steps-Keeps}

abbrev pub is_write_call : Call → Bool
is_write_call (write_call _ _ _ _) = true
is_write_call _ = false

abbrev pub IsHarmless : Call → Type 0
IsHarmless c = is_write_call c ≡ false

pub IsHarmless-reads : AllowsReads IsHarmless
IsHarmless-reads = record { reads = λ _ _. refl; proposes = λ _ _. refl; verifies = λ _ _. refl }

finish_shadow-log :
    (now : ℕ) (r : Result Progress × EngineState) → (finish_shadow now r).1.log ≡ r.1.log
unfolding finish_shadow
finish_shadow-log now (ok p, s) = refl
finish_shadow-log now (threw c, s) = refl

module _ (stringify : ProposedDiff → List ℕ) (w : World) (registry : Registry) (given : Values)
    (run_id : String) (now : ℕ) where
  shadow_if-IsHarmless :
      (spec : AgentSpec) (s : EngineState) (r : InputReadiness)
      → All IsHarmless s.log
      → All IsHarmless (shadow_if stringify w registry spec given run_id now s r).1.log
  unfolding shadow_if
  shadow_if-IsHarmless spec s (not_ready missing) h = h
  shadow_if-IsHarmless spec s ready h =
      let p =
        shadow_steps stringify w registry spec given (context run_id shadow) (in_order spec)
          no_progress (from_scratch s) in
      subst (All IsHarmless) (sym (finish_shadow-log now p)) (
        shadow_steps-Keeps IsHarmless IsHarmless-reads stringify w registry spec given
          (context run_id shadow) (in_order spec) no_progress (from_scratch s) h)

  -- A shadow run adds no write to the calls that the adapters get, whatever the adapters answer or
  -- throw and whichever agent it is asked to run.
  pub run_shadow-IsHarmless :
      (registered : Option AgentSpec) (s : EngineState)
      → All IsHarmless s.log
      → All IsHarmless (run_shadow stringify w registry registered given run_id now s).1.log
  unfolding run_shadow
  run_shadow-IsHarmless none s h = h
  run_shadow-IsHarmless (some spec) s h =
      shadow_if-IsHarmless spec s (validate_agent_inputs spec given) h
