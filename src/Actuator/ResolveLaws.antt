-- ===== src/Actuator/ResolveLaws.antt =====
-- What it takes for a request to act, and on what (packages/browser-actuator/src/resolve.ts).
use maman_agent.Prelude.{
  ℕ, ◌≡◌, ◌↔◌, Bool, true, false, String, List, ◌<◌, ◌∷◌, arith, Option, Memᴰ, none, inl, inr, some,
  Option-cases, get_elem?, get_elem?-mem, filter-mem, sym, ap, ◌∙◌, some, Option-cases, get_elem?,
  get_elem?-mem, filter-mem, sym, ap, ◌∙◌, [], sym, ap,
}
use maman_agent.Actuator.Action.{
  ResolveOutcome, refused, same_role, BrowserActionRequest, CandidateControl, PageContext, ok,
  navigate, list_controls, read_field, focus_field, set_value, select_option, click_control,
  is_browser_write, BrowserAction, BrowserTarget,
}
use maman_agent.Actuator.Resolve.{
  resolve_request, by_action, subject_origin, origin_allowed, pick, check_control,
  check_preconditions, names_match, matching_controls, on_target, target_of,
}

module _ (lower_case : List ℕ → List ℕ) (origin_of : String → String) where
  -- The page and the token let the request act.
  pub record IsOpen (request : BrowserActionRequest) (page : PageContext) (now : ℕ)
      (is_valid : String → Bool) : Type 0 where
    running : page.paused ≡ false
    authorized : is_valid request.authorization ≡ true
    fresh : now < request.expires_at
    public_window : page.private_window ≡ false
    at_origin :
        origin_allowed origin_of
          (subject_origin origin_of request.action page)
          request.allowed_origins
        ≡ true
    consequential_write : is_browser_write request.action ≡ true → request.consequential ≡ true
    present_write : is_browser_write request.action ≡ true → page.user_present ≡ true

  -- A request acts exactly when the page and the token let it, and its kind finds the control.
  resolve_request-ok_iff :
      (request : BrowserActionRequest) (page : PageContext) (now : ℕ) (is_valid : String → Bool)
      (c : CandidateControl) (n : ℕ)
      → (resolve_request lower_case origin_of request page now is_valid ≡ ok c n)
        ↔ (IsOpen request page now is_valid × (by_action lower_case request.action page ≡ ok c n))
  unfolding resolve_request
  resolve_request-ok_iff request page now is_valid c n = (λ h. ground arith, λ h. ground arith)

  -- What a control must be for an action on a target to reach it.
  pub record IsFit (action : BrowserAction) (target : BrowserTarget) (page : PageContext)
      (c : CandidateControl) : Type 0 where
    on_page : Memᴰ c page.controls
    shown : c.visible ≡ true
    of_role : same_role c.role target.role ≡ true
    named : names_match lower_case target.name c.accessible_name ≡ true
    not_secure : c.secure ≡ false
    writable : is_browser_write action ≡ true → c.editable ≡ true
    as_expected : check_preconditions lower_case action c ≡ none
    only_one : target.nth ≡ none → matching_controls lower_case target page.controls ≡ c ∷ []

  pick-Fits :
      (nth : Option ℕ) (cs : List CandidateControl) (c : CandidateControl) (n : ℕ)
      → pick nth cs ≡ ok c n
      → Memᴰ c cs × (nth ≡ none → cs ≡ c ∷ [])
  unfolding pick
  pick-Fits none [] c n h = absurd (ground arith)
  pick-Fits none (d ∷ []) c n h =
      let same : d ≡ c = ground arith in (Memᴰ.head (sym same), λ _. ap (λ x. x ∷ []) same)
  pick-Fits none (d ∷ e ∷ cs) c n h = absurd (ground arith)
  pick-Fits (some i) cs c n h = elim (Option-cases (get_elem? cs i)) [
    | inl e ↦ absurd (ground arith)
    | inr (d, e) ↦
        let same : d ≡ c = ground arith in
        (get_elem?-mem cs i c (e ∙ ap some same), λ q. absurd (ground arith))
  ]

  check_control-ok :
      (action : BrowserAction) (o : ResolveOutcome) (c : CandidateControl) (n : ℕ)
      → check_control lower_case action o ≡ ok c n
      → (o ≡ ok c n)
        × (c.secure ≡ false)
        × (is_browser_write action ≡ true → c.editable ≡ true)
        × (check_preconditions lower_case action c ≡ none)
  unfolding check_control
  check_control-ok action (refused r k) c n h = absurd (ground arith)
  check_control-ok action (ok d k) c n h = ground arith

  matching-mem :
      (t : BrowserTarget) (c : CandidateControl) (cs : List CandidateControl)
      → Memᴰ c (matching_controls lower_case t cs)
      → Memᴰ c cs
        × (c.visible ≡ true)
        × (same_role c.role t.role ≡ true)
        × (names_match lower_case t.name c.accessible_name ≡ true)
  unfolding matching_controls
  matching-mem t c cs m = let (here, q) = filter-mem _ c cs m in ground arith

  on_target-Fits :
      (action : BrowserAction) (t : BrowserTarget) (page : PageContext) (c : CandidateControl)
      (n : ℕ)
      → on_target lower_case action t page ≡ ok c n
      → IsFit action t page c
  on_target-Fits action t page c n h =
      let (found, plain, editable, expected) =
        check_control-ok action (pick t.nth (matching_controls lower_case t page.controls)) c n h in
      let (m, single) = pick-Fits t.nth (matching_controls lower_case t page.controls) c n found in
      let (here, seen, role, name) = matching-mem t c page.controls m in
      record {
        on_page = here;
        shown = seen;
        of_role = role;
        named = name;
        not_secure = plain;
        writable = editable;
        as_expected = expected;
        only_one = single;
      }

  by_action-Fits :
      (action : BrowserAction) (t : BrowserTarget) (page : PageContext) (c : CandidateControl)
      (n : ℕ)
      → target_of action ≡ some t
      → by_action lower_case action page ≡ ok c n
      → IsFit action t page c
  unfolding by_action target_of
  by_action-Fits (navigate _) t page c n e h = absurd (ground arith)
  by_action-Fits (list_controls _ _) t page c n e h = absurd (ground arith)
  by_action-Fits (read_field u) t page c n e h =
      let q : u ≡ t = ground arith in rw (← q) (on_target-Fits (read_field u) u page c n h)
  by_action-Fits (focus_field u) t page c n e h =
      let q : u ≡ t = ground arith in rw (← q) (on_target-Fits (focus_field u) u page c n h)
  by_action-Fits (set_value u x y) t page c n e h =
      let q : u ≡ t = ground arith in rw (← q) (on_target-Fits (set_value u x y) u page c n h)
  by_action-Fits (select_option u x) t page c n e h =
      let q : u ≡ t = ground arith in rw (← q) (on_target-Fits (select_option u x) u page c n h)
  by_action-Fits (click_control u x) t page c n e h =
      let q : u ≡ t = ground arith in rw (← q) (on_target-Fits (click_control u x) u page c n h)

  -- A request that names a target only ever acts on a visible, not secure control of the page with the
  -- target's role and name, editable for a write, that meets the action's own precondition; and
  -- without an index, on the only control that matches.
  pub resolve_request-Fits :
      (request : BrowserActionRequest) (page : PageContext) (now : ℕ) (is_valid : String → Bool)
      (c : CandidateControl) (n : ℕ) (t : BrowserTarget)
      → target_of request.action ≡ some t
      → resolve_request lower_case origin_of request page now is_valid ≡ ok c n
      → IsFit request.action t page c
  resolve_request-Fits request page now is_valid c n t e h =
      by_action-Fits request.action t page c n e
        ((resolve_request-ok_iff request page now is_valid c n).0 h).1

  -- In a private window the outcome does not depend on the controls of the page: the refusal never
  -- tells whether a control exists.
  private_window-hides :
      (request : BrowserActionRequest) (page : PageContext) (now : ℕ) (is_valid : String → Bool)
      (other : List CandidateControl)
      → page.private_window ≡ true
      → resolve_request lower_case origin_of request page now is_valid
        ≡ resolve_request lower_case origin_of request
            (record page { controls = other })
            now
            is_valid
  unfolding resolve_request
  private_window-hides request page now is_valid other h = ground arith
