-- ===== src/Engine/Bounds.antt =====
-- Bounds of the executor (packages/agent-runtime/src/run-engine.ts `attempt`, adapters.ts `diffSha256`)
-- and what its second comparison of hashes can find.
use maman_agent.Prelude.{
  ℕ, zero, suc, ◌+◌, ◌≤◌, ◌<◌, ◌≡◌, true, false, Bool, String, refl, arith, sym, Bool-cases, ltb,
  inl, inr,
}
use maman_agent.Engine.Base.{
  Answer, Call, transient, EngineState, returned, answer, logged, permanent, threw, adapter_error,
}
use maman_agent.Engine.Step.{attempt}
use mathlib.Core.Path.{subst}

abbrev pub is_transient {ℓ} : {A : Type ℓ} → Answer A → Bool
is_transient (transient m) = true
is_transient (returned a) = false
is_transient (permanent m) = false

module _ {ℓ} {A : Type ℓ} (c : Call) (answers : ℕ → Answer A) where
  decided :
      (n : ℕ) (last : String) (s : EngineState) (a : Answer A)
      → answers s.calls ≡ a
      → is_transient a ≡ false
      → (attempt (suc n) last c answers s).0 ≡ answer a
        × (attempt (suc n) last c answers s).1.calls ≡ s.calls + 1
  unfolding attempt
  decided n last s (returned a) e q = rw (e, attempt) (refl, refl)
  decided n last s (permanent m) e q = rw (e, attempt) (refl, refl)
  decided n last s (transient m) e q = ground arith

  retried :
      (n : ℕ) (last : String) (s : EngineState)
      → is_transient (answers s.calls) ≡ true
      → (m : String) × attempt (suc n) last c answers s ≡ attempt n m c answers (logged c s)
  unfolding attempt
  retried n last s e = retry (answers s.calls) refl e
    where
      retry :
          (a : Answer A)
          → answers s.calls ≡ a
          → is_transient a ≡ true
          → (m : String) × attempt (suc n) last c answers s ≡ attempt n m c answers (logged c s)
      retry (transient m) f e = (m, rw (f, attempt) refl)
      retry (returned a) f e = ground arith
      retry (permanent m) f e = ground arith

  decides_first :
      (n at : ℕ) (last : String) (s : EngineState)
      → s.calls ≡ at
      → is_transient (answers at) ≡ false
      → (attempt (suc n) last c answers s).0 ≡ answer (answers at)
        × (attempt (suc n) last c answers s).1.calls ≡ at + 1
  decides_first n at last s p e =
      let d =
        decided n last s (answers s.calls) refl
          (subst (λ i. is_transient (answers i) ≡ false) (sym p) e) in
      subst
        (λ i.
          (attempt (suc n) last c answers s).0 ≡ answer (answers i)
          × (attempt (suc n) last c answers s).1.calls ≡ i + 1)
        p d

  -- Transient errors are retried up to the bound: if they answer all calls before the one numbered `at`, which is
  -- within the bound, then that call decides, whether by a value or by an error that is not transient, and no call follows it.
  pub attempt-decides :
      (n at : ℕ) (last : String) (s : EngineState)
      → s.calls ≤ at
      → at < s.calls + n
      → ((i : ℕ) → s.calls ≤ i → i < at → is_transient (answers i) ≡ true)
      → is_transient (answers at) ≡ false
      → (attempt n last c answers s).0 ≡ answer (answers at)
        × (attempt n last c answers s).1.calls ≡ at + 1
  attempt-decides zero at last s low high h e = absurd (omega (arith, low, high))
  attempt-decides (suc n) at last s low high h e = elim (Bool-cases (ltb s.calls at)) [
    | inl l ↦
        let before : s.calls < at = ground (arith, l) in
        let r = retried n last s (h s.calls (omega arith) before) in
        subst (λ z. z.0 ≡ answer (answers at) × z.1.calls ≡ at + 1) (sym r.1)
          (attempt-decides n at r.0 (logged c s) (omega (arith, before)) (omega (arith, high))
            (λ i low' high'. h i (omega (arith, low')) high') e)
    | inr l ↦ decides_first n at last s (ground (arith, l, low)) e
  ]

  -- If nothing but transient errors comes, there are as many calls as the bound says, and the run ends with an
  -- error.
  attempt-gives_up :
      (n : ℕ) (last : String) (s : EngineState)
      → ((i : ℕ) → s.calls ≤ i → i < s.calls + n → is_transient (answers i) ≡ true)
      → ((m : String) × (attempt n last c answers s).0 ≡ threw (adapter_error m))
        × (attempt n last c answers s).1.calls ≡ s.calls + n
  unfolding attempt
  attempt-gives_up zero last s h = ((last, refl), omega arith)
  attempt-gives_up (suc n) last s h =
      let r = retried n last s (h s.calls (omega arith) (omega arith)) in
      let g =
        attempt-gives_up n r.0 (logged c s)
          (λ i low high. h i (omega (arith, low)) (omega (arith, high))) in
      subst (λ z. ((m : String) × z.0 ≡ threw (adapter_error m)) × z.1.calls ≡ s.calls + suc n)
        (sym r.1) (g.0, omega (arith, g.1))
