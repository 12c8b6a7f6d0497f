-- ===== src/Engine/Errors.antt =====
-- Which errors end an approved run (packages/agent-runtime/src/local-runtime.ts, `runApproved`).
use maman_agent.Prelude.{
  ℕ, zero, suc, ◌∷◌, [], ◌≡◌, some, none, Option, List, true, false, Bool, String, refl,
  if◌then◌else◌,
}
use maman_agent.Engine.Base.{
  ErrorCause, Result, EngineState, ask, Call, no_approved_diff, ok, Run, Answer, hash_mismatch,
  threw, and_then, answer, returned, Output, logged, transient, permanent, Inputs, adapter_error,
  input_not_supplied, CapabilityAdapter, no_implementation,
}
use maman_agent.Engine.Step.{
  attempt, given_input, resolve_binding, resolve_entries, is_required, collect,
}
use maman_agent.Contracts.{
  AgentSpec, AgentStep, StepInputBinding, literal, step_output, agent_input, StepMode, read,
  propose_write, write,
}
use maman_agent.AgentInputs.{Values, JsonValue, lookup}

-- The two errors of a write that is not bound to an approval.
abbrev pub is_unbound : ErrorCause → Bool
is_unbound (no_approved_diff _) = true
is_unbound (hash_mismatch _) = true
is_unbound _ = false

-- Which operation a step needs.
abbrev pub implements : CapabilityAdapter → StepMode → Bool
implements a read = a.read
implements a propose_write = a.propose_write
implements a write = a.write

module _ (bad : ErrorCause → Bool) where
  abbrev pub Fine {ℓ} : {A : Type ℓ} → Result A × EngineState → Type 0
  Fine (ok a, s) = Unit
  Fine (threw c, s) = bad c ≡ false

  pub and_then-Fine {ℓ κ} :
      {A : Type ℓ} {B : Type κ} (r : Result A × EngineState) (f : A → Run B)
      → Fine r
      → ((a : A) (t : EngineState) → Fine (f a t))
      → Fine (and_then r f)
  and_then-Fine (threw c, t) f h g = h
  and_then-Fine (ok a, t) f h g = g a t

  pub if-Fine {ℓ} :
      {A : Type ℓ} (s : EngineState) (b : Bool) (l r : Run A)
      → (b ≡ true → Fine (l s))
      → (b ≡ false → Fine (r s))
      → Fine ((if b then l else r) s)
  if-Fine s true l r h k = h refl
  if-Fine s false l r h k = k refl

  pub ask-Fine {ℓ} :
      {A : Type ℓ}
      → ((m : String) → bad (adapter_error m) ≡ false)
      → (c : Call) (answers : ℕ → Answer A) (s : EngineState) → Fine (ask c answers s)
  unfolding ask
  ask-Fine {A = A} h c answers s = asked (answers s.calls)
    where
      asked : (a : Answer A) → Fine (answer a, logged c s)
      asked (returned a) = tt
      asked (transient m) = h m
      asked (permanent m) = h m

  attempted-Fine {ℓ} :
      {A : Type ℓ}
      → ((m : String) → bad (adapter_error m) ≡ false)
      → (n : ℕ) (c : Call) (answers : ℕ → Answer A) (a : Answer A) (s : EngineState)
      → ((m : String) (t : EngineState) → Fine (attempt n m c answers t))
      → Fine (elim a as (λ _. Result A × EngineState) [
        | returned b ↦ (ok b, logged c s)
        | permanent m ↦ (threw (adapter_error m), logged c s)
        | transient m ↦ attempt n m c answers (logged c s)
      ])
  attempted-Fine h n c answers (returned b) s ih = tt
  attempted-Fine h n c answers (permanent m) s ih = h m
  attempted-Fine h n c answers (transient m) s ih = ih m (logged c s)

  pub attempt-Fine {ℓ} :
      {A : Type ℓ}
      → ((m : String) → bad (adapter_error m) ≡ false)
      → (n : ℕ) (last : String) (c : Call) (answers : ℕ → Answer A) (s : EngineState)
      → Fine (attempt n last c answers s)
  unfolding attempt
  attempt-Fine h zero last c answers s = h last
  attempt-Fine h (suc n) last c answers s =
      attempted-Fine h n c answers (answers s.calls) s (λ m t. attempt-Fine h n m c answers t)

  -- The adapter that is found implements the step's mode, or it does not matter.
  abbrev pub FineAdapter : AgentStep → Result CapabilityAdapter × EngineState → Type 0
  FineAdapter step (ok a, s) =
      implements a step.mode ≡ false → bad (no_implementation step.capability_id) ≡ false
  FineAdapter step (threw c, s) = bad c ≡ false

  module _ (supplied : (id ref : String) → bad (input_not_supplied id ref) ≡ false)
      (spec : AgentSpec) (step : AgentStep) (outputs : List (String × Output)) (given : Values)
      (s : EngineState) where
    given_input-Fine : (ref : String) (v : Option JsonValue) → Fine (given_input spec step ref v, s)
    unfolding given_input
    given_input-Fine ref (some v) = tt
    given_input-Fine ref none =
        elim (is_required spec ref)
          as (λ b.
            Fine {A = Option Output}
              ((if b then threw (input_not_supplied step.step_id ref) else ok none), s)) [
                | true ↦ supplied step.step_id ref
                | false ↦ tt
              ]

    resolve_binding-Fine :
        (b : StepInputBinding) → Fine (resolve_binding spec step outputs given b, s)
    unfolding resolve_binding
    resolve_binding-Fine (literal v) = tt
    resolve_binding-Fine (step_output ref) = tt
    resolve_binding-Fine (agent_input ref) = given_input-Fine ref (lookup ref given)

    collect-Fine :
        (name : String) (o : Result (Option Output)) (rest : Result Inputs)
        → Fine (o, s)
        → Fine (rest, s)
        → Fine (collect name o rest, s)
    collect-Fine name (ok o) (ok rest) h k = tt
    collect-Fine name (ok o) (threw c) h k = k
    collect-Fine name (threw c) rest h k = h

    pub resolve_entries-Fine :
        (bs : List (String × StepInputBinding))
        → Fine (resolve_entries spec step outputs given bs, s)
    unfolding resolve_entries
    resolve_entries-Fine [] = tt
    resolve_entries-Fine ((name, b) ∷ bs) =
        collect-Fine name _ _ (resolve_binding-Fine b) (resolve_entries-Fine bs)
