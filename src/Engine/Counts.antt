-- ===== src/Engine/Counts.antt =====
-- How many writes an approved run makes (packages/agent-runtime/src/local-runtime.ts, `runApproved`).
use maman_agent.Prelude.{
  String, ℕ, ◌+◌, ◌∷◌, [], ◌≡◌, ◌===◌, some, none, Option, List, true, false, Bool, refl, arith,
  same_codes, is_empty, if◌then◌else◌,
}
use maman_agent.Engine.Base.{
  Call, EngineState, ProposedDiff, Result, Run, World, ok, and_then, pure, ask, threw, Answer,
  Inputs, CapabilityContext, CapabilityAdapter, verify_call, KeyPart, write_call, Output, answer,
  logged, returned, transient, permanent,
}
use maman_agent.Contracts.{
  AgentStep, is_write, AgentSpec, is_shadow, StepMode, read, propose_write, write,
}
use maman_agent.Engine.Local.{require_adapter, Registry, run_one}
use maman_agent.Engine.Step.{
  verify_part, conclude_write, perform_write, write_approved, write_part, by_mode, execute_step,
  resolve_step_inputs, written, resolve_entries,
}
use maman_agent.Engine.Digest.{diff_sha256}
use maman_agent.AgentInputs.{Values}

unfoldable pub chosen : (String → Bool) → String → ℕ
chosen p id = if p id then 1 else 0

abbrev pub weight : (String → Bool) → Call → ℕ
weight p (write_call id i d key) = chosen p id
weight p _ = 0

-- The number of calls of write for steps with a chosen id.
unfoldable pub writes_in : (String → Bool) → List Call → ℕ
writes_in p [] = 0
writes_in p (c ∷ cs) = weight p c + writes_in p cs

-- The number of write steps with a chosen id.
unfoldable pub write_count : (String → Bool) → List AgentStep → ℕ
write_count p [] = 0
write_count p (s ∷ ss) = (if is_write s.mode then chosen p s.step_id else 0) + write_count p ss

module _ (p : String → Bool) where
  -- If the piece throws nothing, it adds so many writes to the log.
  abbrev pub Makes {ℓ} : {A : Type ℓ} → ℕ → EngineState → Result A × EngineState → Type 0
  Makes n s (ok a, t) = writes_in p t.log ≡ n + writes_in p s.log
  Makes n s (threw c, t) = Unit

  and_then-Makes {ℓ κ} :
      {A : Type ℓ} {B : Type κ} (m n k : ℕ) (s : EngineState) (r : Result A × EngineState)
      (f : A → Run B)
      → m ≡ n + k
      → Makes n s r
      → ((a : A) (t : EngineState) → Makes k t (f a t))
      → Makes m s (and_then r f)
  and_then-Makes m n k s (threw c, t) f total h g = tt
  and_then-Makes {B = B} m n k s (ok a, t) f total h g = makes_more (f a t) (g a t)
    where
      makes_more : (r : Result B × EngineState) → Makes k t r → Makes m s r
      makes_more (ok b, u) e = omega (arith, total, h, e)
      makes_more (threw c, u) e = tt

  kept-Makes {ℓ} : {A : Type ℓ} (r : Result A) (s : EngineState) → Makes 0 s (r, s)
  kept-Makes (ok a) s = omega arith
  kept-Makes (threw c) s = tt

  if-Makes {ℓ} :
      {A : Type ℓ} (n : ℕ) (s : EngineState) (b : Bool) (l r : Run A)
      → (b ≡ true → Makes n s (l s))
      → (b ≡ false → Makes n s (r s))
      → Makes n s ((if b then l else r) s)
  if-Makes n s true l r h k = h refl
  if-Makes n s false l r h k = k refl

  require_adapter-Makes :
      (adapters : Registry) (step : AgentStep) (s : EngineState)
      → Makes 0 s (require_adapter adapters step s)
  unfolding require_adapter
  require_adapter-Makes [] step s = tt
  require_adapter-Makes ((id, a) ∷ rest) step s =
      if-Makes 0 s (id === step.capability_id) (pure a) (require_adapter rest step)
        (λ _. omega arith) (λ _. require_adapter-Makes rest step s)

  module _ (stringify : ProposedDiff → List ℕ) (w : World) where
    ask-Makes {ℓ} :
        {A : Type ℓ} (c : Call) (answers : ℕ → Answer A) (s : EngineState)
        → Makes (weight p c) s (ask c answers s)
    unfolding ask writes_in
    ask-Makes {A = A} c answers s = asked (answers s.calls)
      where
        asked : (a : Answer A) → Makes (weight p c) s (answer a, logged c s)
        asked (returned a) = refl
        asked (transient m) = tt
        asked (permanent m) = tt

    verify_part-Makes :
        (step : AgentStep) (i : Inputs) (a : CapabilityAdapter) (s : EngineState)
        → Makes 0 s (verify_part stringify w step i a s)
    unfolding verify_part
    verify_part-Makes step i a s =
        if-Makes 0 s a.verify _ _ (λ _. ask-Makes (verify_call step.step_id i) w.verify s)
          (λ _. omega arith)

    conclude_write-Makes :
        (step : AgentStep) (i : Inputs) (a : CapabilityAdapter) (key : List KeyPart) (o : Output)
        (s : EngineState)
        → Makes 0 s (conclude_write stringify w step i a key o s)
    unfolding conclude_write
    conclude_write-Makes step i a key o s =
        let t : EngineState = record s { outputs = (step.output_key, o) ∷ s.outputs } in
        and_then-Makes 0 0 0 s (verify_part stringify w step i a t)
          (λ v. pure (written o key v.verified v.detail)) (omega arith)
          (verify_part-Makes step i a t) (λ v u. omega arith)

    module _ (spec : AgentSpec) (step : AgentStep) (ctx : CapabilityContext) where
      perform_write-Makes :
          (i : Inputs) (a : CapabilityAdapter) (d : ProposedDiff) (sha : List ℕ) (s : EngineState)
          → Makes (chosen p step.step_id) s (perform_write stringify w spec step ctx i a d sha s)
      unfolding perform_write
      perform_write-Makes i a d sha s =
          and_then-Makes (chosen p step.step_id) (chosen p step.step_id) 0 s
            (ask (write_call step.step_id i d _) w.write s) _ (omega arith)
            (ask-Makes (write_call step.step_id i d _) w.write s)
            (λ o t. conclude_write-Makes step i a _ o t)

      write_approved-Makes :
          (i : Inputs) (a : CapabilityAdapter) (approved : Option (ProposedDiff × List ℕ))
          (s : EngineState)
          → Makes
              (chosen p step.step_id)
              s
              (write_approved stringify w spec step ctx i a approved s)
      unfolding write_approved
      write_approved-Makes i a none s = tt
      write_approved-Makes i a (some (d, sha)) s =
          if-Makes (chosen p step.step_id) s (is_empty sha) _ _ (λ _. tt)
            (λ _.
              if-Makes (chosen p step.step_id) s (same_codes (diff_sha256 (stringify d)) sha) _ _
                (λ _. perform_write-Makes i a d sha s) (λ _. tt))

      write_part-Makes :
          (i : Inputs) (a : CapabilityAdapter) (approved : Option (ProposedDiff × List ℕ))
          (s : EngineState)
          → is_shadow ctx.mode ≡ false
          → Makes (chosen p step.step_id) s (write_part stringify w spec step ctx i a approved s)
      unfolding write_part
      write_part-Makes i a approved s live =
          if-Makes (chosen p step.step_id) s (is_shadow ctx.mode) _ _ (λ m. ground (arith, m, live))
            (λ _.
              if-Makes (chosen p step.step_id) s a.write _ _
                (λ _. write_approved-Makes i a approved s) (λ _. tt))

      by_mode-Makes :
          (a : CapabilityAdapter) (approved : Option (ProposedDiff × List ℕ)) (n : Option ℕ)
          (i : Inputs) (mode : StepMode) (s : EngineState)
          → is_write mode ≡ true
          → is_shadow ctx.mode ≡ false
          → Makes
              (chosen p step.step_id)
              s
              (by_mode stringify w spec step ctx a approved n i mode s)
      unfolding by_mode
      by_mode-Makes a approved n i read s e live = ground arith
      by_mode-Makes a approved n i propose_write s e live = ground arith
      by_mode-Makes a approved n i write s e live = write_part-Makes i a approved s live

      pub run_one-Makes :
          (registry : Registry) (given : Values) (approved : Option (ProposedDiff × List ℕ))
          (s : EngineState)
          → is_write step.mode ≡ true
          → is_shadow ctx.mode ≡ false
          → Makes
              (chosen p step.step_id)
              s
              (run_one stringify w registry spec given ctx approved step s)
      unfolding run_one execute_step resolve_step_inputs
      run_one-Makes registry given approved s e live =
          and_then-Makes (chosen p step.step_id) 0 (chosen p step.step_id) s
            (require_adapter registry step s) _ (omega arith)
            (require_adapter-Makes registry step s)
            (λ a t.
              and_then-Makes (chosen p step.step_id) 0 (chosen p step.step_id) t
                (resolve_step_inputs spec step given t) _ (omega arith)
                (kept-Makes (resolve_entries spec step t.outputs given step.inputs) t)
                (λ i u. by_mode-Makes a approved none i step.mode u e live))
