-- ===== src/Actuator/Authorize.antt =====
-- What the desktop core may send to the browser at all (packages/browser-actuator/src/authorize.ts).
-- A mode is the run's; a token's length is in UTF-16 units to the source and in code points here, and
-- the tokens are ASCII. Times are milliseconds since the epoch.
use maman_agent.Prelude.{
  ℕ, ◌≡◌, ◌↔◌, ◌+◌, ◌-◌, ◌≤◌, ltb, Bool, true, false, not, String, ◌===◌, includes, codes, List,
  length, if◌then◌else◌, arith, Option, none, some, is_empty,
}
use maman_agent.Actuator.Action.{BrowserAction, is_browser_write}

pub data IssueRefusal : Type 0 where
  wrong_source shadow_run_never_writes policy_forbids_browser_writes approval_missing : IssueRefusal
  user_absent authorization_reused authorization_too_weak : IssueRefusal
  expiry_window_too_long no_allowed_origins : IssueRefusal

pub data IssueMode : Type 0 where
  shadow supervised active : IssueMode

pub record IssueInput : Type 0 where
  pub routed_source : String
  pub action : BrowserAction
  pub mode : IssueMode
  pub allow_supervised_browser_writes : Bool
  pub approval_granted : Bool
  pub user_present : Bool
  pub allowed_origins : List String
  pub authorization : String
  pub spent_authorizations : List String
  pub issued_at : ℕ
  pub expires_at : ℕ

-- `MAX_AUTHORIZATION_WINDOW_MS` and `MIN_AUTHORIZATION_LENGTH`.
abbrev pub max_authorization_window_ms : ℕ
max_authorization_window_ms = 120000

abbrev min_authorization_length : ℕ
min_authorization_length = 32

abbrev pub is_shadow : IssueMode → Bool
is_shadow shadow = true
is_shadow _ = false

-- The conditions on writes, in their order.
unfoldable pub write_refusal : IssueInput → Option IssueRefusal
write_refusal input =
    if is_shadow input.mode
    then some shadow_run_never_writes
    else (if not input.allow_supervised_browser_writes
        then some policy_forbids_browser_writes
        else (if not input.approval_granted
            then some approval_missing
            else (if not input.user_present then some user_absent else none)))

-- `authorizeIssue`: the refusal, if there is one.
unfoldable pub authorize_issue : IssueInput → Option IssueRefusal
authorize_issue input =
    if not (input.routed_source === "browser_extension")
    then some wrong_source
    else (if is_empty input.allowed_origins
        then some no_allowed_origins
        else (if ltb (length (codes input.authorization)) min_authorization_length
            then some authorization_too_weak
            else (if includes input.spent_authorizations input.authorization
                then some authorization_reused
                else (if ltb max_authorization_window_ms (input.expires_at - input.issued_at)
                    then some expiry_window_too_long
                    else (if is_browser_write input.action then write_refusal input else none)))))

-- What the core must know of a write before it is sent.
pub record MayWrite (input : IssueInput) : Type 0 where
  pub real : is_shadow input.mode ≡ false
  pub permitted : input.allow_supervised_browser_writes ≡ true
  pub approved : input.approval_granted ≡ true
  pub present : input.user_present ≡ true

-- What any request must have.
pub record IsIssuable (input : IssueInput) : Type 0 where
  pub routed : (input.routed_source === "browser_extension") ≡ true
  pub bounded : is_empty input.allowed_origins ≡ false
  pub strong : 32 ≤ length (codes input.authorization)
  pub unspent : includes input.spent_authorizations input.authorization ≡ false
  pub short : input.expires_at ≤ input.issued_at + 120000

write_refusal-none_iff : (input : IssueInput) → (write_refusal input ≡ none) ↔ MayWrite input
unfolding write_refusal
write_refusal-none_iff input = (λ h. ground arith, λ k. ground arith)

-- A request is sent exactly when it is routed to the browser, names an origin, carries a strong token
-- that was not spent and a window of two minutes at most, and for a write the run is not a shadow run,
-- the policy allows it, a person approved the step and is present.
pub authorize_issue-none_iff :
    (input : IssueInput)
    → (authorize_issue input ≡ none)
      ↔ (IsIssuable input × (is_browser_write input.action ≡ true → MayWrite input))
unfolding authorize_issue
authorize_issue-none_iff input = (
  λ h. ground (arith, write_refusal-none_iff input),
  λ k. ground (arith, write_refusal-none_iff input),
)
