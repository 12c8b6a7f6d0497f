-- ===== src/Actuator/Verify.antt =====
-- Whether a write landed (packages/browser-actuator/src/verify.ts), and the browser's answers
-- (packages/contracts/src/browser-action.ts).
use maman_agent.Prelude.{ℕ, Bool, true, false, String, Option, none, some, List, if◌then◌else◌}
use maman_agent.Actuator.Action.{
  BrowserAction, set_value, select_option, click_control, is_browser_write, BrowserActionRefusal,
}
use maman_agent.Actuator.Resolve.{names_match, values_match}

pub data BrowserActionOutcome : Type 0 where
  applied observed refused failed : BrowserActionOutcome

-- `browserObservationSchema`, the fields that are read.
pub record BrowserObservation : Type 0 where
  pub resolved_name : String
  pub value_before : Option String
  pub value_after : Option String
  pub match_count : ℕ

-- `browserActionResultSchema`, without the identifiers and the time.
pub record BrowserActionResult : Type 0 where
  pub outcome : BrowserActionOutcome
  pub refusal_reason : Option BrowserActionRefusal
  pub observed : Option BrowserObservation
  pub failure : Option String

pub data WriteVerification : Type 0 where
  verified value_mismatch no_observation requires_independent_read not_applied not_a_write :
      WriteVerification

abbrev pub is_applied : BrowserActionOutcome → Bool
is_applied applied = true
is_applied _ = false

abbrev pub is_failed : BrowserActionOutcome → Bool
is_failed failed = true
is_failed _ = false

module _ (lower_case : List ℕ → List ℕ) where
  -- The part behind the checks of the result: what was read against what was meant.
  unfoldable pub compare_observed : BrowserAction → BrowserObservation → WriteVerification
  compare_observed (click_control _ confirm_name) o =
      if names_match lower_case confirm_name o.resolved_name
      then requires_independent_read
      else value_mismatch
  compare_observed (set_value _ value _) o =
      if values_match value o.value_after then verified else value_mismatch
  compare_observed (select_option _ option) o =
      if values_match option o.value_after then verified else value_mismatch
  compare_observed _ o = not_a_write

  -- `verifyWrite`.
  unfoldable pub verify_write : BrowserAction → BrowserActionResult → WriteVerification
  verify_write action result =
      if is_browser_write action
      then (if is_applied result.outcome
          then elim result.observed [ none ↦ no_observation | some o ↦ compare_observed action o ]
          else not_applied)
      else not_a_write
