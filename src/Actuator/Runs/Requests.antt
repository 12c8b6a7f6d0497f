-- ===== src/Actuator/Runs/Requests.antt =====
-- What a run sends (packages/browser-actuator/src/execute.ts).
use mathlib.Core.Path.{subst}
use maman_agent.Prelude.{
  ℕ, ◌≡◌, true, false, none, some, List, [], ◌∷◌, ◌++◌, All, All-append, refl, includes, String,
  sym, ap, ◌∙◌, Option,
}
use maman_agent.Actuator.Action.{BrowserActionRequest, is_browser_write}
use maman_agent.Actuator.Authorize.{authorize_issue, authorize_issue-none_iff, is_shadow}
use maman_agent.Actuator.Execute.{
  ExecuteContext, ExecuteDeps, Execution, execute_browser_plan, issue_input, request_for, unstarted,
  halt_at, sending, hold, push, judge, Verdict, HaltReason,
}
use maman_agent.Actuator.Plan.{PlanStep}
use maman_agent.Actuator.Runs.Verdicts.{rounds_keep}

-- What holds of each request that is sent.
pub record IsSendable (ctx : ExecuteContext) (r : BrowserActionRequest) : Type 0 where
  marked : r.consequential ≡ is_browser_write r.action
  real : is_browser_write r.action ≡ true → is_shadow ctx.mode ≡ false
  permitted : is_browser_write r.action ≡ true → ctx.allow_supervised_browser_writes ≡ true
  approved : is_browser_write r.action ≡ true → ctx.approval_granted ≡ true
  present : is_browser_write r.action ≡ true → ctx.user_present ≡ true

dispatched-halt_at :
    (step : PlanStep) (v : Verdict) (h : Option HaltReason) (e : Execution)
    → (halt_at step h (push v e)).dispatched ≡ e.dispatched
unfolding halt_at push
dispatched-halt_at step v none e = refl
dispatched-halt_at step v (some r) e = refl

-- No token is among those before it.
abbrev pub AreFresh : List String → List BrowserActionRequest → Type 0
AreFresh seen [] = Unit
AreFresh seen (r ∷ rs) =
    (includes seen r.authorization ≡ false) × AreFresh (r.authorization ∷ seen) rs

-- The tokens of the requests, the last one first, on top of those seen before.
abbrev tokens_onto : List String → List BrowserActionRequest → List String
tokens_onto seen [] = seen
tokens_onto seen (r ∷ rs) = tokens_onto (r.authorization ∷ seen) rs

tokens_onto-append :
    (seen : List String) (rs : List BrowserActionRequest) (r : BrowserActionRequest)
    → tokens_onto seen (rs ++ r ∷ []) ≡ r.authorization ∷ tokens_onto seen rs
tokens_onto-append seen [] r = refl
tokens_onto-append seen (q ∷ rs) r = tokens_onto-append (q.authorization ∷ seen) rs r

AreFresh-append :
    (seen : List String) (rs : List BrowserActionRequest) (r : BrowserActionRequest)
    → AreFresh seen rs
    → includes (tokens_onto seen rs) r.authorization ≡ false
    → AreFresh seen (rs ++ r ∷ [])
AreFresh-append seen [] r f n = (n, tt)
AreFresh-append seen (q ∷ rs) r (m, f) n = (m, AreFresh-append (q.authorization ∷ seen) rs r f n)

abbrev SpendsOnce : List String → List BrowserActionRequest → Type 0
SpendsOnce spent rs = AreFresh [] rs × (spent ≡ tokens_onto [] rs)

halt_at-SpendsOnce :
    (step : PlanStep) (v : Verdict) (h : Option HaltReason) (e : Execution)
    → SpendsOnce e.spent e.dispatched
    → SpendsOnce (halt_at step h (push v e)).spent (halt_at step h (push v e)).dispatched
unfolding halt_at push
halt_at-SpendsOnce step v none e s = s
halt_at-SpendsOnce step v (some r) e s = s

module _ (lower_case : List ℕ → List ℕ) (ctx : ExecuteContext) (deps : ExecuteDeps) where
  request-IsSendable :
      (i : ℕ) (step : PlanStep) (e : Execution)
      → authorize_issue (issue_input ctx deps i e step) ≡ none
      → IsSendable ctx (request_for ctx deps i step)
  request-IsSendable i step e g =
      let (fine, may) = (authorize_issue-none_iff (issue_input ctx deps i e step)).0 g in
      record {
        marked = refl;
        real = λ w. (may w).real;
        permitted = λ w. (may w).permitted;
        approved = λ w. (may w).approved;
        present = λ w. (may w).present;
      }

  -- Whatever the browser answers, each request that a run sends is marked as consequential exactly if its
  -- action is a write, and a write is sent only if the run is no shadow run, the policy allows browser
  -- writes, the plan was approved and the user is present.
  pub execute_browser_plan-IsSendable :
      (steps : List PlanStep)
      → All (IsSendable ctx) (execute_browser_plan lower_case steps ctx deps).dispatched
  unfolding execute_browser_plan
  execute_browser_plan-IsSendable steps =
      rounds_keep (λ e. All (IsSendable ctx) e.dispatched) lower_case ctx deps (λ step id e q p. p)
        (λ step reason e q p.
          subst (All (IsSendable ctx)) (sym (dispatched-halt_at step (hold step reason) _ e)) p)
        (λ i step e q g p.
          subst (All (IsSendable ctx))
            (sym (
              dispatched-halt_at step (judge lower_case step (deps.dispatch i)) _
                (sending ctx deps i step e)))
            (All-append (IsSendable ctx) e.dispatched (request_for ctx deps i step ∷ []) p
              (request-IsSendable i step e g, tt)))
        0 steps unstarted tt

  sending-SpendsOnce :
      (i : ℕ) (step : PlanStep) (e : Execution)
      → authorize_issue (issue_input ctx deps i e step) ≡ none
      → SpendsOnce e.spent e.dispatched
      → SpendsOnce (sending ctx deps i step e).spent (sending ctx deps i step e).dispatched
  sending-SpendsOnce i step e g (fresh, same) =
      let (fine, _) = (authorize_issue-none_iff (issue_input ctx deps i e step)).0 g in
      (
        AreFresh-append [] e.dispatched (request_for ctx deps i step) fresh
            (rw (← same) fine.unspent),
        ap (λ l. deps.mint_authorization i ∷ l) same
            ∙ sym (tokens_onto-append [] e.dispatched (request_for ctx deps i step)),
      )

  -- No two requests of a run carry the same token, even if the same token is minted twice.
  pub execute_browser_plan-AreFresh :
      (steps : List PlanStep)
      → AreFresh [] (execute_browser_plan lower_case steps ctx deps).dispatched
  unfolding execute_browser_plan
  execute_browser_plan-AreFresh steps =
      (rounds_keep (λ e. SpendsOnce e.spent e.dispatched) lower_case ctx deps (λ step id e q p. p)
        (λ step reason e q p. halt_at-SpendsOnce step (hold step reason) _ e p)
        (λ i step e q g p.
          halt_at-SpendsOnce step (judge lower_case step (deps.dispatch i)) _
            (sending ctx deps i step e) (sending-SpendsOnce i step e g p))
        0 steps unstarted (tt, refl)).0
