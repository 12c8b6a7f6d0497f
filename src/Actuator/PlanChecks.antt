-- ===== src/Actuator/PlanChecks.antt =====
-- Which inputs get a plan (packages/browser-actuator/src/plan.ts).
use maman_agent.Prelude.{ℕ, ◌≡◌, false, ◌===◌, is_blank, List, [], ◌∷◌, All, any}
use maman_agent.Actuator.Plan.{PlannedChange, same_key}

-- A change that can be targeted, and changes something.
abbrev pub IsMeaningful : PlannedChange → Type 0
IsMeaningful c = (is_blank c.field_label ≡ false) × ((c.«from» === c.to) ≡ false)

module _ (lower_case : List ℕ → List ℕ) where
  abbrev Avoids : List PlannedChange → PlannedChange → Type 0
  Avoids seen c = any (same_key lower_case c) seen ≡ false

  -- No change has the key of one before it.
  abbrev pub HasDistinctKeys : List PlannedChange → Type 0
  HasDistinctKeys [] = Unit
  HasDistinctKeys (c ∷ cs) = All (λ d. same_key lower_case d c ≡ false) cs × HasDistinctKeys cs
