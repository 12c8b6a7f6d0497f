-- ===== src/Actuator/RevertLaws.antt =====
-- Taking an applied plan back (packages/browser-actuator/src/plan.ts, `planRevert`).
use mathlib.Core.List.Memᴰ.{append_cases, not-nil, eq_of_singleton}
use mathlib.Core.List.{reverse-cons}
use mathlib.Core.Path.{subst}
use maman_agent.Prelude.{
  ℕ, ◌≡◌, false, ◌===◌, Option, none, some, List, [], ◌∷◌, Memᴰ, All, filter-mem, reverse, flat_map,
  arith, inl, inr, sym, ap, ◌∙◌, refl, String,
}
use maman_agent.Actuator.Action.{
  BrowserAction, navigate, list_controls, read_field, focus_field, set_value, select_option,
  click_control,
}
use maman_agent.Actuator.Plan.{
  AppliedChange, PlannedChange, PlanStep, planned, is_restorable, reverted, put_back, restorable,
  revert_input, plan_revert, change_target,
}
use maman_agent.Actuator.PlanLaws.{IsApprovedStep, IsAsApproved, plan_browser_writes-IsApprovedStep}

-- What an action of a revert may be.
abbrev pub IsRestoring : List AppliedChange → BrowserAction → Type 0
IsRestoring applied (set_value t v e) =
    (a : AppliedChange) × Memᴰ a applied
    × (t ≡ change_target a.change)
    × (a.observed_before ≡ some v)
    × (e ≡ some a.wrote)
    × ((v === a.wrote) ≡ false)
IsRestoring applied (select_option t o) =
    (a : AppliedChange) × Memᴰ a applied
    × (t ≡ change_target a.change)
    × (a.observed_before ≡ some o)
    × ((o === a.wrote) ≡ false)
IsRestoring applied (click_control t n) = ⊥
IsRestoring applied (read_field t) =
    (a : AppliedChange) × Memᴰ a applied × (t ≡ change_target a.change)
IsRestoring applied (focus_field t) =
    (a : AppliedChange) × Memᴰ a applied × (t ≡ change_target a.change)
IsRestoring applied (navigate _) = ⊥
IsRestoring applied (list_controls _ _) = ⊥

put_back-mem :
    (a : AppliedChange) (o : Option String) (c : PlannedChange)
    → Memᴰ c (put_back a o)
    → (b : String) × (o ≡ some b) × (c ≡ record a.change { «from» = a.wrote; to = b })
unfolding put_back
put_back-mem a none c m = elim m [ ]
put_back-mem a (some b) c m = (b, refl, eq_of_singleton m)

-- A change of a list that is put back comes from an element of it.
reverted-mem :
    (a : AppliedChange) (c : PlannedChange)
    → Memᴰ c (reverted a)
    → (b : String) × (a.observed_before ≡ some b)
      × (c ≡ record a.change { «from» = a.wrote; to = b })
unfolding reverted
reverted-mem a c m = put_back-mem a a.observed_before c m

flat_map-mem :
    (ls : List AppliedChange) (c : PlannedChange)
    → Memᴰ c (flat_map reverted ls)
    → (a : AppliedChange) × Memᴰ a ls × Memᴰ c (reverted a)
flat_map-mem [] c m = absurd (not-nil m)
flat_map-mem (a ∷ ls) c m = elim (append_cases (reverted a) m) [
  | inl k ↦ (a, Memᴰ.head refl, k)
  | inr k ↦ let (b, here, q) = flat_map-mem ls c k in (b, Memᴰ.tail here, q)
]

reverse-mem : (ls : List AppliedChange) (a : AppliedChange) → Memᴰ a (reverse ls) → Memᴰ a ls
reverse-mem [] a m = m
reverse-mem (b ∷ ls) a m =
    elim (append_cases (reverse ls) (subst (λ l. Memᴰ a l) (reverse-cons b ls) m)) [
      | inl k ↦ Memᴰ.tail (reverse-mem ls a k)
      | inr k ↦ Memᴰ.head (eq_of_singleton k)
    ]

-- Where a change of the revert's input comes from.
origin :
    (applied : List AppliedChange) (c : PlannedChange)
    → Memᴰ c (revert_input applied).changes
    → (a : AppliedChange) × Memᴰ a applied
      × (b : String) × (a.observed_before ≡ some b)
      × ((b === a.wrote) ≡ false)
      × (c ≡ record a.change { «from» = a.wrote; to = b })
unfolding revert_input restorable is_restorable
origin applied c m =
    let (a, k, q) = flat_map-mem (reverse (restorable applied)) c m in
    let (here, kept) = filter-mem is_restorable a applied (reverse-mem (restorable applied) a k) in
    let (b, seen, same) = reverted-mem a c q in (a, here, b, seen, ground arith, same)

restores :
    (applied : List AppliedChange) (action : BrowserAction)
    → IsAsApproved (revert_input applied) action
    → IsRestoring applied action
unfolding revert_input
restores applied (set_value t v e) (c, m, q, value, expected) =
    let (a, here, b, seen, new, same) = origin applied c m in
    (
      a,
      here,
      q ∙ ap change_target same,
      seen ∙ ap some (sym (value ∙ ap (λ d. d.to) same)),
      expected ∙ ap (λ d. some d.«from») same,
      rw (value ∙ ap (λ d. d.to) same) new,
    )
restores applied (select_option t o) (c, m, q, value) =
    let (a, here, b, seen, new, same) = origin applied c m in
    (
      a,
      here,
      q ∙ ap change_target same,
      seen ∙ ap some (sym (value ∙ ap (λ d. d.to) same)),
      rw (value ∙ ap (λ d. d.to) same) new,
    )
restores applied (click_control t n) (e, q) = absurd (ground arith)
restores applied (navigate url) h = elim h [ ]
restores applied (list_controls roles limit) h = elim h [ ]
restores applied (read_field t) (c, m, q) =
    let (a, here, b, seen, new, same) = origin applied c m in (a, here, q ∙ ap change_target same)
restores applied (focus_field t) (c, m, q) =
    let (a, here, b, seen, new, same) = origin applied c m in (a, here, q ∙ ap change_target same)

All-restores :
    (applied : List AppliedChange) (steps : List PlanStep)
    → All (IsApprovedStep (revert_input applied)) steps
    → All (λ s. IsRestoring applied s.action) steps
All-restores applied [] h = tt
All-restores applied (s ∷ ss) (h, k) = (restores applied s.action h.0, All-restores applied ss k)

-- Every step of a revert is about a change that was applied; one that sets a field puts back the value
-- that was observed before, which differs from the value that was written, and sets text only if the
-- field still holds that; nothing is clicked.
pub plan_revert-IsRestoring :
    (lower_case : List ℕ → List ℕ) (applied : List AppliedChange) (steps : List PlanStep)
    → plan_revert lower_case applied ≡ planned steps
    → All (λ s. IsRestoring applied s.action) steps
unfolding plan_revert
plan_revert-IsRestoring lower_case applied steps h =
    All-restores applied steps
      (plan_browser_writes-IsApprovedStep lower_case (revert_input applied) steps (ground arith))
