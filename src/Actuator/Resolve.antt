-- ===== src/Actuator/Resolve.antt =====
-- Whether a request may act, and on which control (packages/browser-actuator/src/resolve.ts).
--
-- The platform's URL parser and lower case are parameters: `origin_of` is `originOf`, whose body only
-- calls `new URL`, and `lower_case` is `toLowerCase` on code points. So is the caller's check of
-- tokens.
use maman_agent.Prelude.{
  ℕ, leb, ◌==◌, Bool, true, false, not, ◌&&◌, ◌||◌, String, ◌===◌, codes, same_codes, is_space,
  trim, Option, none, some, List, [], ◌∷◌, reverse, length, filter, any, if◌then◌else◌, get_elem?,
}
use maman_agent.Actuator.Action.{
  BrowserTargetRole, link, heading, BrowserTarget, BrowserAction, navigate, list_controls,
  read_field, focus_field, set_value, select_option, click_control, is_browser_write,
  BrowserActionRequest, BrowserActionRefusal, no_match, ambiguous_match, target_not_editable,
  origin_not_allowed, private_window, user_absent, not_authorized, precondition_failed,
  confirm_name_mismatch, secure_field, paused_by_user, CandidateControl, PageContext,
  ResolveOutcome, ok, refused, same_role,
}

-- `replace(/\s+/g, " ")`; the flag says whether the code point before was a space.
collapse : Bool → List ℕ → List ℕ
collapse before [] = []
collapse before (c ∷ cs) =
    let rest = collapse (is_space c) cs in
    if is_space c then (if before then rest else 32 ∷ rest) else c ∷ rest

is_mark : ℕ → Bool
is_mark c = c == b':' || c == b'*'

drop_marks : List ℕ → List ℕ
drop_marks [] = []
drop_marks (c ∷ cs) = let rest = drop_marks cs in if is_mark c then rest else c ∷ cs

drop_spaces : List ℕ → List ℕ
drop_spaces [] = []
drop_spaces (c ∷ cs) = let rest = drop_spaces cs in if is_space c then rest else c ∷ cs

-- `replace(/\s*[:*]+$/, "")` on the reversed text: nothing happens unless it ends in a mark.
abbrev drop_decoration : List ℕ → List ℕ
drop_decoration [] = []
drop_decoration (c ∷ cs) = if is_mark c then drop_spaces (drop_marks (c ∷ cs)) else c ∷ cs

-- `request.action.target`.
unfoldable pub target_of : BrowserAction → Option BrowserTarget
target_of (navigate _) = none
target_of (list_controls _ _) = none
target_of (read_field t) = some t
target_of (focus_field t) = some t
target_of (set_value t _ _) = some t
target_of (select_option t _) = some t
target_of (click_control t _) = some t

-- `valuesMatch`.
unfoldable pub values_match : String → Option String → Bool
values_match expected none = false
values_match expected (some actual) = same_codes (trim (codes expected)) (trim (codes actual))

-- `originAllowed`.
unfoldable pub origin_allowed : (String → String) → String → List String → Bool
origin_allowed origin_of origin allowed =
    any (λ a. origin_of a === origin && not (origin === "")) allowed

-- The control that a target names among the matching ones, or the refusal.
unfoldable pub pick : Option ℕ → List CandidateControl → ResolveOutcome
pick none [] = refused no_match 0
pick none (c ∷ []) = ok c 1
pick none (c ∷ d ∷ cs) = refused ambiguous_match (length (c ∷ d ∷ cs))
pick (some n) cs = elim (get_elem? cs n) [
  | none ↦ refused no_match (length cs)
  | some c ↦ ok c (length cs)
]

abbrev pseudo : BrowserTargetRole → String → CandidateControl
pseudo role name = record {
  role = role;
  accessible_name = name;
  value = none;
  editable = false;
  secure = false;
  visible = true;
}

-- The origin that the action is about: a navigation's destination, else the page's.
unfoldable pub subject_origin : (String → String) → BrowserAction → PageContext → String
subject_origin origin_of (navigate url) page = origin_of url
subject_origin origin_of _ page = page.origin

module _ (lower_case : List ℕ → List ℕ) where
  -- `normalizeName`. A no-break space is a space to `\s` already.
  unfoldable pub normalize_name : String → List ℕ
  unfolding collapse drop_spaces drop_marks is_mark
  normalize_name raw =
      lower_case (trim (reverse (drop_decoration (reverse (trim (collapse false (codes raw)))))))

  unfoldable pub names_match : String → String → Bool
  names_match target candidate = same_codes (normalize_name target) (normalize_name candidate)

  unfoldable pub matching_controls : BrowserTarget → List CandidateControl → List CandidateControl
  matching_controls target controls =
      filter
        (λ c.
          c.visible && same_role c.role target.role && names_match target.name c.accessible_name)
        controls

  -- `checkPreconditions`.
  unfoldable pub check_preconditions :
      BrowserAction → CandidateControl → Option BrowserActionRefusal
  check_preconditions (click_control t confirm_name) c =
      if names_match confirm_name c.accessible_name then none else some confirm_name_mismatch
  check_preconditions (set_value t value (some expected)) c =
      if values_match expected c.value then none else some precondition_failed
  check_preconditions _ c = none

  -- The checks of the control that was picked.
  unfoldable pub check_control : BrowserAction → ResolveOutcome → ResolveOutcome
  check_control action (refused r n) = refused r n
  check_control action (ok c n) =
      if c.secure
      then refused secure_field n
      else (if is_browser_write action && not c.editable
          then refused target_not_editable n
          else elim (check_preconditions action c) [ none ↦ ok c n | some r ↦ refused r n ])

  abbrev pub on_target : BrowserAction → BrowserTarget → PageContext → ResolveOutcome
  on_target action t page = check_control action (pick t.nth (matching_controls t page.controls))

  -- The part behind the checks of the page: by the kind of the action.
  unfoldable pub by_action : BrowserAction → PageContext → ResolveOutcome
  by_action (navigate url) page = ok (pseudo link url) 1
  by_action (list_controls roles limit) page = ok (pseudo heading "") (length page.controls)
  by_action (read_field t) page = on_target (read_field t) t page
  by_action (focus_field t) page = on_target (focus_field t) t page
  by_action (set_value t v e) page = on_target (set_value t v e) t page
  by_action (select_option t o) page = on_target (select_option t o) t page
  by_action (click_control t n) page = on_target (click_control t n) t page

  -- `resolveRequest`.
  unfoldable pub resolve_request :
      (String → String)
      → BrowserActionRequest
      → PageContext
      → (now : ℕ) → (String → Bool)
      → ResolveOutcome
  resolve_request origin_of request page now is_valid =
      let write = is_browser_write request.action in
      if page.paused
      then refused paused_by_user 0
      else (if not (is_valid request.authorization)
          then refused not_authorized 0
          else (if leb request.expires_at now
              then refused not_authorized 0
              else (if write && not request.consequential
                  then refused not_authorized 0
                  else (if page.private_window
                      then refused private_window 0
                      else (if not (
                            origin_allowed origin_of (subject_origin origin_of request.action page)
                              request.allowed_origins)
                          then refused origin_not_allowed 0
                          else (if write && not page.user_present
                              then refused user_absent 0
                              else by_action request.action page))))))
