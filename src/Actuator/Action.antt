-- ===== src/Actuator/Action.antt =====
-- Browser actions and what the actuator sees of a page (packages/contracts/src/browser-action.ts,
-- packages/browser-actuator/src/types.ts). Times are milliseconds since the epoch.
use maman_agent.Prelude.{ℕ, ◌==◌, Bool, true, false, String, Option, List}

-- `browserTargetRole`.
pub data BrowserTargetRole : Type 0 where
  textbox combobox checkbox button link cell heading : BrowserTargetRole

pub record BrowserTarget : Type 0 where
  pub role : BrowserTargetRole
  pub name : String
  pub nth : Option ℕ

-- `browserActionSchema`.
pub data BrowserAction : Type 0 where
  navigate : (url : String) → BrowserAction
  list_controls : (roles : List BrowserTargetRole) (limit : ℕ) → BrowserAction
  read_field : BrowserTarget → BrowserAction
  focus_field : BrowserTarget → BrowserAction
  set_value : BrowserTarget → (value : String) (expect_current : Option String) → BrowserAction
  select_option : BrowserTarget → (option : String) → BrowserAction
  click_control : BrowserTarget → (confirm_name : String) → BrowserAction

-- `isBrowserWrite`.
abbrev pub is_browser_write : BrowserAction → Bool
is_browser_write (set_value _ _ _) = true
is_browser_write (select_option _ _) = true
is_browser_write (click_control _ _) = true
is_browser_write _ = false

-- `browserActionRequestSchema`, the fields that are checked.
pub record BrowserActionRequest : Type 0 where
  pub action : BrowserAction
  pub allowed_origins : List String
  pub consequential : Bool
  pub authorization : String
  pub expires_at : ℕ

-- `browserActionRefusal`, the reasons that resolution gives.
pub data BrowserActionRefusal : Type 0 where
  no_match ambiguous_match target_not_editable origin_not_allowed private_window :
      BrowserActionRefusal
  user_absent not_authorized precondition_failed confirm_name_mismatch : BrowserActionRefusal
  secure_field paused_by_user : BrowserActionRefusal

-- `CandidateControl`.
pub record CandidateControl : Type 0 where
  pub role : BrowserTargetRole
  pub accessible_name : String
  pub value : Option String
  pub editable : Bool
  pub secure : Bool
  pub visible : Bool

-- `PageContext`.
pub record PageContext : Type 0 where
  pub origin : String
  pub private_window : Bool
  pub user_present : Bool
  pub paused : Bool
  pub controls : List CandidateControl

-- `ResolveOutcome`.
pub data ResolveOutcome : Type 0 where
  ok : CandidateControl → (match_count : ℕ) → ResolveOutcome
  refused : BrowserActionRefusal → (match_count : ℕ) → ResolveOutcome

abbrev role_index : BrowserTargetRole → ℕ
role_index textbox = 0
role_index combobox = 1
role_index checkbox = 2
role_index button = 3
role_index link = 4
role_index cell = 5
role_index heading = 6

abbrev pub same_role : BrowserTargetRole → BrowserTargetRole → Bool
same_role a b = role_index a == role_index b
