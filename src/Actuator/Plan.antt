-- ===== src/Actuator/Plan.antt =====
-- The plan that a person approves, and the one that takes it back
-- (packages/browser-actuator/src/plan.ts). A template string is the list of its pieces; `toLowerCase`
-- is a parameter, on code points. The `detail` of a refusal is left out.
use maman_agent.Prelude.{
  ℕ, ◌+◌, ltb, ◌==◌, Bool, true, false, not, ◌&&◌, String, ◌===◌, codes, same_codes, trim, is_blank,
  Option, none, some, List, [], ◌∷◌, ◌++◌, map, reverse, length, filter, any, if◌then◌else◌,
  flat_map,
}
use maman_agent.Actuator.Action.{
  BrowserTargetRole, textbox, combobox, button, BrowserTarget, BrowserAction, read_field,
  focus_field, set_value, select_option, click_control, same_role,
}

pub data Piece : Type 0 where
  text : String → Piece
  number : ℕ → Piece

pub record PlannedChange : Type 0 where
  pub «record» : String
  pub field_label : String
  pub «from» : String
  pub to : String
  pub role : Option BrowserTargetRole
  pub nth : Option ℕ

pub record PlanInput : Type 0 where
  pub changes : List PlannedChange
  pub save_control : Option String

pub record PlanStep : Type 0 where
  pub step_id : List Piece
  pub action : BrowserAction
  pub preview : List Piece
  pub change_index : Option ℕ
  pub write : Bool

pub data PlanRefusal : Type 0 where
  no_changes too_many_changes missing_field_label no_change_needed duplicate_target : PlanRefusal

pub data PlanResult : Type 0 where
  planned : List PlanStep → PlanResult
  refused : PlanRefusal → PlanResult

-- `MAX_PLAN_CHANGES`.
abbrev pub max_plan_changes : ℕ
max_plan_changes = 50

abbrev pub role_or_textbox : Option BrowserTargetRole → BrowserTargetRole
role_or_textbox none = textbox
role_or_textbox (some r) = r

-- `targetOf`.
abbrev pub change_target : PlannedChange → BrowserTarget
change_target c = record { role = role_or_textbox c.role; name = c.field_label; nth = c.nth }

abbrev same_nth : Option ℕ → Option ℕ → Bool
same_nth none none = true
same_nth (some i) (some j) = i == j
same_nth _ _ = false

-- The steps of the changes, of the save click and of the reads behind it.
abbrev quoted : String → List Piece → List Piece
quoted s ps = text "\"" ∷ text s ∷ text "\"" ∷ ps

abbrev place : PlannedChange → List Piece → List Piece
place c ps = quoted c.field_label (text " on " ∷ text c.«record» ∷ ps)

abbrev id_of : ℕ → String → List Piece
id_of i s = text "c" ∷ number i ∷ text s ∷ []

-- The steps that set the field.
unfoldable pub set_steps : ℕ → PlannedChange → List PlanStep
set_steps i c =
    if same_role (role_or_textbox c.role) combobox
    then record {
      step_id = id_of i "-before";
      action = read_field (change_target c);
      preview = text "Read " ∷ place c (text " before changing it" ∷ []);
      change_index = some i;
      write = false;
    }
      ∷ record {
        step_id = id_of i "-set";
        action = select_option (change_target c) c.to;
        preview =
            text "Choose "
            ∷ quoted c.to
                (text " for " ∷ place c (text " (was " ∷ quoted c.«from» (text ")" ∷ [])));
        change_index = some i;
        write = true;
      }
      ∷ []
    else record {
      step_id = id_of i "-set";
      action = set_value (change_target c) c.to (some c.«from»);
      preview = text "Set " ∷ place c (text ": " ∷ quoted c.«from» (text " → " ∷ quoted c.to []));
      change_index = some i;
      write = true;
    }
      ∷ []

unfoldable pub change_steps : ℕ → PlannedChange → List PlanStep
change_steps i c =
    record {
      step_id = id_of i "-focus";
      action = focus_field (change_target c);
      preview = text "Show " ∷ place c [];
      change_index = some i;
      write = false;
    }
      ∷ set_steps i c
    ++ record {
      step_id = id_of i "-verify";
      action = read_field (change_target c);
      preview = text "Read " ∷ place c (text " back" ∷ []);
      change_index = some i;
      write = false;
    }
      ∷ []

unfoldable pub all_change_steps : ℕ → List PlannedChange → List PlanStep
all_change_steps i [] = []
all_change_steps i (c ∷ cs) = change_steps i c ++ all_change_steps (i + 1) cs

unfoldable pub confirm_steps : ℕ → List PlannedChange → List PlanStep
confirm_steps i [] = []
confirm_steps i (c ∷ cs) =
    record {
      step_id = id_of i "-confirm";
      action = read_field (change_target c);
      preview = text "Confirm " ∷ place c (text " still reads " ∷ quoted c.to []);
      change_index = some i;
      write = false;
    }
    ∷ confirm_steps (i + 1) cs

abbrev save_step : String → PlanStep
save_step name = record {
  step_id = text "save" ∷ [];
  action = click_control (record { role = button; name = name; nth = none }) name;
  preview = text "Click " ∷ quoted name [];
  change_index = none;
  write = true;
}

unfoldable pub save_steps : Option String → List PlannedChange → List PlanStep
save_steps none changes = []
save_steps (some name) changes =
    if is_blank name then [] else save_step name ∷ confirm_steps 0 changes

unfoldable pub plan_steps : PlanInput → List PlanStep
plan_steps input = all_change_steps 0 input.changes ++ save_steps input.save_control input.changes

-- `summarizePlan`.
pub record PlanSummary : Type 0 where
  pub write_count : ℕ
  pub read_count : ℕ
  pub lines : List (List Piece)

unfoldable pub summarize_plan : List PlanStep → PlanSummary
summarize_plan steps = record {
  write_count = length (filter (λ s. s.write) steps);
  read_count = length (filter (λ s. not s.write) steps);
  lines = map (λ s. s.preview) steps;
}

module _ (lower_case : List ℕ → List ℕ) where
  -- Whether two changes have the same key in `seen`.
  unfoldable pub same_key : PlannedChange → PlannedChange → Bool
  same_key a b =
      same_role (role_or_textbox a.role) (role_or_textbox b.role)
      && same_codes (lower_case (trim (codes a.field_label)))
          (lower_case (trim (codes b.field_label)))
      && same_nth a.nth b.nth

  -- The loop that looks for a refusal, with the changes seen so far.
  unfoldable pub check_changes : List PlannedChange → List PlannedChange → Option PlanRefusal
  check_changes seen [] = none
  check_changes seen (c ∷ cs) =
      let rest = check_changes (c ∷ seen) cs in
      if is_blank c.field_label
      then some missing_field_label
      else (if c.«from» === c.to
          then some no_change_needed
          else (if any (same_key c) seen then some duplicate_target else rest))

  -- `planBrowserWrites`.
  unfoldable pub plan_browser_writes : PlanInput → PlanResult
  plan_browser_writes input =
      if length input.changes == 0
      then refused no_changes
      else (if ltb max_plan_changes (length input.changes)
          then refused too_many_changes
          else elim (check_changes [] input.changes) [
            | none ↦ planned (plan_steps input)
            | some r ↦ refused r
          ])

-- What was observed of a change that was applied.
pub record AppliedChange : Type 0 where
  pub change : PlannedChange
  pub observed_before : Option String
  pub wrote : String

-- Whether it can be put back, and the change that does.
unfoldable pub is_restorable : AppliedChange → Bool
is_restorable a = elim a.observed_before [ none ↦ false | some b ↦ not (b === a.wrote) ]

unfoldable pub put_back : AppliedChange → Option String → List PlannedChange
put_back a none = []
put_back a (some b) = record a.change { «from» = a.wrote; to = b } ∷ []

unfoldable pub reverted : AppliedChange → List PlannedChange
reverted a = put_back a a.observed_before

unfoldable pub restorable : List AppliedChange → List AppliedChange
restorable applied = filter is_restorable applied

unfoldable pub revert_input : List AppliedChange → PlanInput
revert_input applied = record {
  changes = flat_map reverted (reverse (restorable applied));
  save_control = none;
}

module _ (lower_case : List ℕ → List ℕ) where
  -- `planRevert`.
  unfoldable pub plan_revert : List AppliedChange → PlanResult
  plan_revert applied =
      if length (restorable applied) == 0
      then refused no_changes
      else plan_browser_writes lower_case (revert_input applied)
