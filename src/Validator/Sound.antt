-- ===== src/Validator/Sound.antt =====
-- What a validated agent satisfies (packages/agent-runtime/src/validator.ts).
use maman_agent.Prelude.{
  ℕ, ◌<◌, ◌≡◌, refl, arith, ltb, if◌then◌else◌, Bool, true, false, not, String, ◌===◌, ===→≡,
  includes→mem, List, [], ◌∷◌, ◌++◌, map, flat_map, none, some, All, Memᴰ, Bool-cases, Option-cases,
  inl, inr,
}
use maman_agent.Contracts.{
  AgentSpec, AgentStep, StepInputBinding, literal, agent_input, step_output, text, num, flag,
  propose_write, is_write, is_high, is_prohibited,
}
use maman_agent.Catalog.{CapabilityMetadata, get_capability}
use maman_agent.Validator.Secrets.{looks_like_secret, is_url, looks_like_code}
use maman_agent.Validator.Check.{
  ValidationIssue, issues_when, literal_tests, capability_tests, has_input, v_ref_1, v_ref_3,
  producer_order, producer_issues, binding_issues, capability_issues, supports_mode, later_or,
}
use mathlib.Core.Path.{subst}

-- A literal text is neither a secret, an address nor code; a reference to an input names one, and a
-- reference to an output names that of a step of smaller order.
pub data IsBound (spec : AgentSpec) (step : AgentStep) : StepInputBinding → Type 0 where
  plain_text :
      {value : String}
      → looks_like_secret value ≡ false
      → is_url value ≡ false
      → looks_like_code value ≡ false
      → IsBound spec step (literal (text value))
  plain_num : {n : ℕ} → IsBound spec step (literal (num n))
  plain_flag : {b : Bool} → IsBound spec step (literal (flag b))
  from_input :
      {ref : String} → Memᴰ ref (map (λ i. i.key) spec.inputs) → IsBound spec step (agent_input ref)
  from_step :
      {ref : String} (producer : AgentStep)
      → Memᴰ producer spec.steps
      → producer.output_key ≡ ref
      → producer.order < step.order
      → IsBound spec step (step_output ref)

pub record IsAllowed (step : AgentStep) : Type 0 where
  pub capability : CapabilityMetadata
  pub known : get_capability step.capability_id ≡ some capability
  pub current : capability.version ≡ step.capability_version
  pub mode : supports_mode capability step.mode ≡ true
  pub dry_run : is_write step.mode ≡ true → supports_mode capability propose_write ≡ true
  pub risk : is_prohibited step.risk_level ≡ false
  pub approved : is_high step.risk_level ≡ true → step.approval.required ≡ true

module _ {ℓ} {A : Type ℓ} where
  pub append-nil_both : (xs ys : List A) → xs ++ ys ≡ [] → (xs ≡ []) × (ys ≡ [])
  append-nil_both [] ys e = (refl, e)
  append-nil_both (x ∷ xs) ys e = absurd (ground arith)

  pub flat_map-nil {κ} :
      {B : Type κ} (f : B → List A) (xs : List B) → flat_map f xs ≡ [] → All (λ x. f x ≡ []) xs
  flat_map-nil f [] e = tt
  flat_map-nil f (x ∷ xs) e =
      let (first, rest) = append-nil_both (f x) (flat_map f xs) e in (first, flat_map-nil f xs rest)

pub issues_when-nil :
    (ts : List (Bool × ValidationIssue)) → issues_when ts ≡ [] → All (λ t. t.0 ≡ false) ts
issues_when-nil [] e = tt
issues_when-nil ((b, i) ∷ ts) e = elim (Bool-cases b) [
  | inl k ↦ absurd (ground arith)
  | inr k ↦ (k, issues_when-nil ts (ground arith))
]

producer_order-mem :
    (ref : String) (steps : List AgentStep) (n : ℕ)
    → producer_order ref steps ≡ some n
    → (s : AgentStep) × Memᴰ s steps × (s.output_key ≡ ref) × (s.order ≡ n)
producer_order-mem ref [] n e = absurd (ground arith)
producer_order-mem ref (s ∷ ss) n e = elim (Option-cases (producer_order ref ss)) [
  | inr (m, k) ↦
      let same : some m ≡ some n =
        subst (λ o. later_or o (if s.output_key === ref then some s.order else none) ≡ some n) k
          e in
      let (t, inside, key, order) = producer_order-mem ref ss m k in (t, Memᴰ.tail inside, key, cc)
  | inl k ↦ elim (Bool-cases (s.output_key === ref)) [
    | inl h ↦
        let same : some s.order ≡ some n = ground arith in
        (s, Memᴰ.head refl, ===→≡ s.output_key ref h, cc)
    | inr h ↦ absurd (ground arith)
  ]
]

pub binding_issues-IsBound :
    (spec : AgentSpec) (step : AgentStep) (entry : String × StepInputBinding)
    → binding_issues spec step entry ≡ []
    → IsBound spec step (entry.1)
binding_issues-IsBound spec step (input, agent_input ref) e =
    let (h, _) =
      issues_when-nil ((not (has_input spec ref), v_ref_1 step.step_id input ref) ∷ []) e in
    from_input (includes→mem (map (λ i. i.key) spec.inputs) ref (ground arith))
binding_issues-IsBound spec step (input, step_output ref) e =
    elim (Option-cases (producer_order ref spec.steps)) [
      | inl k ↦
          let bad : producer_issues step input ref none ≡ [] =
            subst (λ o. producer_issues step input ref o ≡ []) k e in
          absurd (ground arith)
      | inr (n, k) ↦
          let fine : producer_issues step input ref (some n) ≡ [] =
            subst (λ o. producer_issues step input ref o ≡ []) k e in
          let (h, _) =
            issues_when-nil ((not (ltb n step.order), v_ref_3 step.step_id ref) ∷ []) fine in
          let (s, inside, key, order) = producer_order-mem ref spec.steps n k in
          from_step s inside key (ground arith)
    ]
binding_issues-IsBound spec step (input, literal (text value)) e =
    let (secret, (url, (code, _))) = issues_when-nil (literal_tests step value) e in
    plain_text secret url code
binding_issues-IsBound spec step (input, literal (num n)) e = plain_num
binding_issues-IsBound spec step (input, literal (flag b)) e = plain_flag

pub capability_issues-IsAllowed :
    (step : AgentStep)
    → capability_issues step (get_capability step.capability_id) ≡ []
    → IsAllowed step
capability_issues-IsAllowed step e = elim (Option-cases (get_capability step.capability_id)) [
  | inl k ↦
      let bad : capability_issues step none ≡ [] = subst (λ o. capability_issues step o ≡ []) k e in
      absurd (ground arith)
  | inr (c, k) ↦
      let fine : capability_issues step (some c) ≡ [] =
        subst (λ o. capability_issues step o ≡ []) k e in
      let (version, (mode, (dry, (risk, (approval, _))))) =
        issues_when-nil (capability_tests step c) fine in
      record {
        capability = c;
        known = k;
        current = ground arith;
        mode = ground arith;
        dry_run = λ h. ground arith;
        risk = risk;
        approved = λ h. ground arith;
      }
]
