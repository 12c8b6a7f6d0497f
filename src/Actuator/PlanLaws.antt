-- ===== src/Actuator/PlanLaws.antt =====
-- What an approved plan holds (packages/browser-actuator/src/plan.ts).
use maman_agent.Prelude.{
  ℕ, ◌≡◌, ◌+◌, String, is_blank, Option, none, some, List, [], ◌∷◌, ◌++◌, Memᴰ, All, All-append,
  filter, length, length-append, filter-append, ap, ◌∙◌, refl, arith, inl, inr, Option-cases,
  Bool-cases, if◌then◌else◌,
}
use maman_agent.Actuator.Action.{
  BrowserAction, BrowserTarget, navigate, list_controls, read_field, focus_field, set_value,
  select_option, click_control, is_browser_write, same_role, combobox,
}
use maman_agent.Actuator.Plan.{
  PlannedChange, PlanInput, PlanStep, planned, change_target, role_or_textbox, set_steps,
  change_steps, all_change_steps, confirm_steps, save_steps, plan_steps, summarize_plan,
  check_changes, plan_browser_writes,
}

-- A step does what the approved input says, and is marked as a write when it is one.
abbrev SameTarget : PlanInput → BrowserTarget → Type 0
SameTarget input t = (c : PlannedChange) × Memᴰ c input.changes × (t ≡ change_target c)

abbrev pub IsAsApproved : PlanInput → BrowserAction → Type 0
IsAsApproved input (set_value t v e) =
    (c : PlannedChange) × Memᴰ c input.changes
    × (t ≡ change_target c)
    × (v ≡ c.to)
    × (e ≡ some c.«from»)
IsAsApproved input (select_option t o) =
    (c : PlannedChange) × Memᴰ c input.changes × (t ≡ change_target c) × (o ≡ c.to)
IsAsApproved input (click_control t n) = (input.save_control ≡ some n) × (t.name ≡ n)
IsAsApproved input (read_field t) = SameTarget input t
IsAsApproved input (focus_field t) = SameTarget input t
IsAsApproved input (navigate _) = ⊥
IsAsApproved input (list_controls _ _) = ⊥

abbrev pub IsApprovedStep : PlanInput → PlanStep → Type 0
IsApprovedStep input s = IsAsApproved input s.action × (s.write ≡ is_browser_write s.action)

module _ (input : PlanInput) where
  set_steps-IsApprovedStep :
      (i : ℕ) (c : PlannedChange)
      → Memᴰ c input.changes
      → All (IsApprovedStep input) (set_steps i c)
  unfolding set_steps
  set_steps-IsApprovedStep i c m = elim (Bool-cases (same_role (role_or_textbox c.role) combobox)) [
    | inl e ↦ rw e (((c, m, refl), refl), (((c, m, refl, refl), refl), tt))
    | inr e ↦ rw e (((c, m, refl, refl, refl), refl), tt)
  ]

  change_steps-IsApprovedStep :
      (i : ℕ) (c : PlannedChange)
      → Memᴰ c input.changes
      → All (IsApprovedStep input) (change_steps i c)
  unfolding change_steps
  change_steps-IsApprovedStep i c m = (
    ((c, m, refl), refl),
    All-append (IsApprovedStep input) (set_steps i c) _ (set_steps-IsApprovedStep i c m)
        (((c, m, refl), refl), tt),
  )

  all_change_steps-IsApprovedStep :
      (i : ℕ) (cs : List PlannedChange)
      → ((c : PlannedChange) → Memᴰ c cs → Memᴰ c input.changes)
      → All (IsApprovedStep input) (all_change_steps i cs)
  unfolding all_change_steps
  all_change_steps-IsApprovedStep i [] within = tt
  all_change_steps-IsApprovedStep i (c ∷ cs) within =
      All-append (IsApprovedStep input) (change_steps i c) (all_change_steps (i + 1) cs)
        (change_steps-IsApprovedStep i c (within c (Memᴰ.head refl)))
        (all_change_steps-IsApprovedStep (i + 1) cs (λ d m. within d (Memᴰ.tail m)))

  confirm_steps-IsApprovedStep :
      (i : ℕ) (cs : List PlannedChange)
      → ((c : PlannedChange) → Memᴰ c cs → Memᴰ c input.changes)
      → All (IsApprovedStep input) (confirm_steps i cs)
  unfolding confirm_steps
  confirm_steps-IsApprovedStep i [] within = tt
  confirm_steps-IsApprovedStep i (c ∷ cs) within = (
    ((c, within c (Memᴰ.head refl), refl), refl),
    confirm_steps-IsApprovedStep (i + 1) cs (λ d m. within d (Memᴰ.tail m)),
  )

  save_steps-IsApprovedStep :
      (save : Option String)
      → input.save_control ≡ save
      → All (IsApprovedStep input) (save_steps save input.changes)
  unfolding save_steps
  save_steps-IsApprovedStep none e = tt
  save_steps-IsApprovedStep (some name) e = elim (Bool-cases (is_blank name)) [
    | inl b ↦ rw b tt
    | inr b ↦ rw b (((e, refl), refl), confirm_steps-IsApprovedStep 0 input.changes (λ c m. m))
  ]

  plan_steps-IsApprovedStep : All (IsApprovedStep input) (plan_steps input)
  unfolding plan_steps
  plan_steps-IsApprovedStep =
      All-append (IsApprovedStep input) (all_change_steps 0 input.changes)
        (save_steps input.save_control input.changes)
        (all_change_steps-IsApprovedStep 0 input.changes (λ c m. m))
        (save_steps-IsApprovedStep input.save_control refl)

module _ (lower_case : List ℕ → List ℕ) where
  planned_steps :
      (input : PlanInput) (steps : List PlanStep)
      → plan_browser_writes lower_case input ≡ planned steps
      → steps ≡ plan_steps input
  unfolding plan_browser_writes
  planned_steps input steps h = elim (Option-cases (check_changes lower_case [] input.changes)) [
    | inl e ↦ ground arith
    | inr e ↦ ground arith
  ]

  -- Every step of a plan is marked as a write exactly when its action is one, reads, focuses or sets a
  -- field of an approved change with the new value of that change, sets text only if the field still
  -- holds the old one, and clicks nothing but the approved save control.
  pub plan_browser_writes-IsApprovedStep :
      (input : PlanInput) (steps : List PlanStep)
      → plan_browser_writes lower_case input ≡ planned steps
      → All (IsApprovedStep input) steps
  plan_browser_writes-IsApprovedStep input steps h =
      rw (planned_steps input steps h) (plan_steps-IsApprovedStep input)

-- The number of writes among steps.
abbrev writes : List PlanStep → ℕ
writes steps = length (filter (λ s. s.write) steps)

writes-append : (xs ys : List PlanStep) → writes (xs ++ ys) ≡ writes xs + writes ys
writes-append xs ys =
    ap length (filter-append (λ s. s.write) xs ys) ∙ length-append (filter (λ s. s.write) xs) _

writes-change_steps : (i : ℕ) (c : PlannedChange) → writes (change_steps i c) ≡ 1
unfolding change_steps set_steps
writes-change_steps i c = elim (Bool-cases (same_role (role_or_textbox c.role) combobox)) [
  | inl e ↦ rw e refl
  | inr e ↦ rw e refl
]

writes-all_change_steps :
    (i : ℕ) (cs : List PlannedChange) → writes (all_change_steps i cs) ≡ length cs
unfolding all_change_steps
writes-all_change_steps i [] = refl
writes-all_change_steps i (c ∷ cs) = omega (
  arith,
  writes-append (change_steps i c) (all_change_steps (i + 1) cs),
  writes-change_steps i c,
  writes-all_change_steps (i + 1) cs,
)

writes-confirm_steps : (i : ℕ) (cs : List PlannedChange) → writes (confirm_steps i cs) ≡ 0
unfolding confirm_steps
writes-confirm_steps i [] = refl
writes-confirm_steps i (c ∷ cs) = writes-confirm_steps (i + 1) cs

-- Whether the plan ends with the save click.
abbrev saves : Option String → ℕ
saves none = 0
saves (some name) = if is_blank name then 0 else 1

writes-save_steps :
    (save : Option String) (cs : List PlannedChange) → writes (save_steps save cs) ≡ saves save
unfolding save_steps
writes-save_steps none cs = refl
writes-save_steps (some name) cs = ground (arith, writes-confirm_steps 0 cs)

-- The panel that is shown for a plan counts one write for each approved change, and one more exactly
-- when there is a save control.
summarize_plan-write_count :
    (lower_case : List ℕ → List ℕ) (input : PlanInput) (steps : List PlanStep)
    → plan_browser_writes lower_case input ≡ planned steps
    → (summarize_plan steps).write_count ≡ length input.changes + saves input.save_control
unfolding summarize_plan plan_steps
summarize_plan-write_count lower_case input steps h =
    ap writes (planned_steps lower_case input steps h)
    ∙ omega (
      arith,
      writes-append (all_change_steps 0 input.changes)
          (save_steps input.save_control input.changes),
      writes-all_change_steps 0 input.changes,
      writes-save_steps input.save_control input.changes,
    )
