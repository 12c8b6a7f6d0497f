-- ===== src/Validator/Laws.antt =====
-- Whole agents that were validated (packages/agent-runtime/src/validator.ts), and the order in which
-- their steps run.
use maman_agent.Prelude.{
  ℕ, suc, ◌+◌, ◌≤◌, ◌≡◌, refl, sym, ap, ◌∙◌, arith, ltb, leb, ◌==◌, if◌then◌else◌, true, false,
  ◌&&◌, String, ≡→===, includes, List, [], ◌∷◌, ◌++◌, map, flat_map, length, none, some, sort_by,
  All, Memᴰ, Option-cases, inl, inr, count, insert_by, length-sort_by, length-map,
}
use maman_agent.Contracts.{
  AgentSpec, AgentStep, AgentTrigger, manual, schedule, event, context, StepInputBinding,
}
use maman_agent.Validator.Cron.{min_cron_interval_minutes}
use maman_agent.Validator.Check.{
  Parsed, success, failure, valid, ValidationIssue, issues_when, counts_up, orders_of,
  has_duplicate, binding_issues, capability_issues, step_issues, interval_issues, schedule_issues,
  spec_issues, result_of, validate_agent_spec, shape_tests, budget_tests, v_sched_1,
}
use maman_agent.Validator.Sound.{
  IsBound, IsAllowed, append-nil_both, flat_map-nil, issues_when-nil, binding_issues-IsBound,
  capability_issues-IsAllowed,
}
use mathlib.Core.Path.{subst}

abbrev pub AllDistinct : List String → Type 0
AllDistinct [] = Unit
AllDistinct (t ∷ ts) = ¬ Memᴰ t ts × AllDistinct ts

abbrev pub IsSlow : AgentTrigger → Type 0
IsSlow (schedule cron timezone) = (n : ℕ) × (min_cron_interval_minutes cron ≡ some n) × (15 ≤ n)
IsSlow _ = Unit

pub record IsSound (spec : AgentSpec) : Type 0 where
  pub few : length spec.steps ≤ 20
  pub orders :
      (k : ℕ)
      → count k (map (λ s. s.order) spec.steps)
        ≡ (if ltb 0 k && leb k (length spec.steps) then 1 else 0)
  pub ids : AllDistinct (map (λ s. s.step_id) spec.steps)
  pub bindings : All (λ s. All (λ e. IsBound spec s (e.1)) s.inputs) spec.steps
  pub allowed : All IsAllowed spec.steps
  pub runtime : spec.budgets.max_runtime_seconds ≤ 1800
  pub writes : spec.budgets.max_records_written ≤ 500
  pub slow : IsSlow spec.trigger

count-insert_by : (k x : ℕ) (xs : List ℕ) → count k (insert_by (λ o. o) x xs) ≡ count k (x ∷ xs)
count-insert_by k x [] = refl
count-insert_by k x (y ∷ ys) = ground (arith, count-insert_by k x ys)

count-sort_by : (k : ℕ) (xs : List ℕ) → count k (sort_by (λ o. o) xs) ≡ count k xs
count-sort_by k [] = refl
count-sort_by k (x ∷ xs) =
    count-insert_by k x (sort_by (λ o. o) xs)
    ∙ ap (λ n. if k == x then suc n else n) (count-sort_by k xs)

counts_up-count :
    (i k : ℕ) (os : List ℕ)
    → counts_up i os ≡ true
    → count k os ≡ (if ltb i k && leb k (i + length os) then 1 else 0)
counts_up-count i k [] h = ground arith
counts_up-count i k (o ∷ os) h =
    let ih = counts_up-count (suc i) k os (ground arith) in
    let first : o ≡ suc i = ground arith in ground arith

mem-includes : (ts : List String) (t : String) → Memᴰ t ts → includes ts t ≡ true
mem-includes [] t m = elim m [ ]
mem-includes (u ∷ ts) t (Memᴰ.head e) = let same = ≡→=== u t (sym e) in rw same refl
mem-includes (u ∷ ts) t (Memᴰ.tail m) = ground (arith, mem-includes ts t m)

has_duplicate-AllDistinct : (ts : List String) → has_duplicate ts ≡ false → AllDistinct ts
has_duplicate-AllDistinct [] h = tt
has_duplicate-AllDistinct (t ∷ ts) h = (
  λ m. let found = mem-includes ts t m in absurd (ground arith),
  has_duplicate-AllDistinct ts (ground arith),
)

schedule_issues-IsSlow : (t : AgentTrigger) → schedule_issues t ≡ [] → IsSlow t
schedule_issues-IsSlow (schedule cron timezone) e =
    elim (Option-cases (min_cron_interval_minutes cron)) [
      | inl k ↦
          let bad : interval_issues none ≡ [] = subst (λ o. interval_issues o ≡ []) k e in
          absurd (ground arith)
      | inr (n, k) ↦
          let fine : interval_issues (some n) ≡ [] = subst (λ o. interval_issues o ≡ []) k e in
          let (h, _) = issues_when-nil ((ltb n 15, v_sched_1 n) ∷ []) fine in (n, k, ground arith)
    ]
schedule_issues-IsSlow manual e = tt
schedule_issues-IsSlow (event c n) e = tt
schedule_issues-IsSlow (context a o p n) e = tt

step_issues-All :
    (spec : AgentSpec) (steps : List AgentStep)
    → All (λ s. step_issues spec s ≡ []) steps
    → All (λ s. All (λ e. IsBound spec s (e.1)) s.inputs) steps × All IsAllowed steps
step_issues-All spec [] h = (tt, tt)
step_issues-All spec (s ∷ ss) (e, h) =
    let (inputs, capability) =
      append-nil_both (flat_map (binding_issues spec s) s.inputs) (capability_issues s _) e in
    let (bs, as_) = step_issues-All spec ss h in
    (
      (bindings s.inputs (flat_map-nil (binding_issues spec s) s.inputs inputs), bs),
      (capability_issues-IsAllowed s capability, as_),
    )
  where
    bindings :
        (es : List (String × StepInputBinding))
        → All (λ x. binding_issues spec s x ≡ []) es
        → All (λ x. IsBound spec s (x.1)) es
    bindings [] k = tt
    bindings (x ∷ es) (k, ks) = (binding_issues-IsBound spec s x k, bindings es ks)

result_of-nil :
    (spec after : AgentSpec) (is : List ValidationIssue)
    → result_of spec is ≡ valid after
    → (is ≡ []) × (after ≡ spec)
result_of-nil spec after [] e = (refl, cc)
result_of-nil spec after (i ∷ is) e = absurd (ground arith)

spec_issues-IsSound : (spec : AgentSpec) → spec_issues spec ≡ [] → IsSound spec
unfolding spec_issues
spec_issues-IsSound spec e =
    let shapes = issues_when (shape_tests spec) in
    let steps = flat_map (step_issues spec) spec.steps in
    let budgets = issues_when (budget_tests spec) in
    let (before, slow) =
      append-nil_both (shapes ++ steps ++ budgets) (schedule_issues spec.trigger) e in
    let (first, limits) = append-nil_both (shapes ++ steps) budgets before in
    let (shape, clean) = append-nil_both shapes steps first in
    let (few, (orders, (ids, _))) = issues_when-nil (shape_tests spec) shape in
    let (runtime, (writes, _)) = issues_when-nil (budget_tests spec) limits in
    let (bound, allowed) =
      step_issues-All spec spec.steps (flat_map-nil (step_issues spec) spec.steps clean) in
    let numbers = map (λ s. s.order) spec.steps in
    record {
      few = ground arith;
      orders = λ k.
          let sorted = counts_up-count 0 k (orders_of spec) (ground arith) in
          let size : length (orders_of spec) ≡ length spec.steps =
            length-sort_by (λ o. o) numbers ∙ length-map (λ s. s.order) spec.steps in
          let place : 0 + length (orders_of spec) ≡ length spec.steps = omega arith in
          sym (count-sort_by k numbers)
          ∙ sorted
          ∙ ap (λ n. if ltb 0 k && leb k n then 1 else 0) place;
      ids = has_duplicate-AllDistinct (map (λ s. s.step_id) spec.steps) ids;
      bindings = bound;
      allowed = allowed;
      runtime = ground arith;
      writes = ground arith;
      slow = schedule_issues-IsSlow spec.trigger slow;
    }

-- A spec that is valid is the one that was parsed: it has at most 20 steps, whose orders are 1 to
-- their number, each once, and whose ids differ; each of its bindings is a literal that is no secret,
-- address or code, a declared input, or the output of a step of smaller order; each step has a
-- capability of the catalog at its version and mode, is not prohibited, and asks for an approval if its
-- risk is high; the run time and the writes are bounded; and a schedule repeats after 15 minutes at
-- the least, as the interval of its expression is reckoned.
pub validate_agent_spec-IsSound :
    (parsed : Parsed) (spec : AgentSpec)
    → validate_agent_spec parsed ≡ valid spec
    → (parsed ≡ success spec) × IsSound spec
unfolding validate_agent_spec
validate_agent_spec-IsSound (failure messages) spec e = absurd (ground arith)
validate_agent_spec-IsSound (success given) spec e =
    let (none_left, same) = result_of-nil given spec (spec_issues given) e in
    (ap success (sym same), rw same (spec_issues-IsSound given none_left))
