-- ===== src/Workflow/Approval.antt =====
-- Every write of a step that asks for approval was approved (workflow.ts).
use maman_agent.Prelude.{
  ℕ, ◌≡◌, refl, true, false, Bool, some, String, ===→≡, ◌||◌, not, if◌then◌else◌, List, [], ◌∷◌,
  Memᴰ, arith, inl, inr, Bool-cases, Option, none,
}
use maman_agent.Contracts.{AgentStep, RunMode, AgentSpec}
use maman_agent.Workflow.State.{
  Signal, approve_step, reject_step, cancel_run, accepts, rejects, ApproveStepPayload, Entry,
  status_recorded, approval_created, write_executed, approval_accepted, FinalStatus, RunStatus,
  Vars, World, handle, Flow, next, finish, StepActivityResult, PolicyAnswer, await, noted,
  policy_checked, step_recorded, verifying, applying_write, ◌>>=◌, record_status, bookkeep,
  SummaryStatus,
}
use maman_agent.Workflow.Steps.{
  gate, decide, wait_decision, is_some, AgentRunInput, write_step, write_with, apply_write,
  after_recheck, after_write, truthy_text, absorb, is_failed, is_deny, is_shadow,
  agent_run_workflow, set_summary,
}
use maman_agent.Workflow.Triples.{
  Ensures, Ensures->>=, Ensures-mono, IsStable, await-keeps, bookkeep-Ensures,
  record_status-Ensures, vars_of, Ensures-if,
}
use maman_agent.Workflow.LogRules.{IsKept, Of, finish-Of, Of-IsStable, bookkeep-Of, set_error-Of}
use maman_agent.Workflow.WholeRun.{workflow-Of}

-- The log holds an accepted approval of this step for this diff.
abbrev pub IsApproved : AgentStep → String → List Entry → Type 0
IsApproved s sha l =
    (p : ApproveStepPayload) × Memᴰ (approval_accepted p) l
    × (p.step_id ≡ s.step_id)
    × (p.diff_hash ≡ sha)

-- Each write of a step that asks for approval comes after an accepted approval of that step for the
-- diff that is written.
abbrev pub IsJustified : List Entry → Type 0
IsJustified [] = Unit
IsJustified (write_executed s sha ∷ l) =
    (s.approval.required ≡ true → IsApproved s sha l) × IsJustified l
IsJustified (_ ∷ l) = IsJustified l

abbrev Justified : List Entry → ℕ → Type 0
Justified l c = IsJustified l

Justified-IsKept : IsKept Justified
Justified-IsKept (write_executed s sha) l c i h = absurd i
Justified-IsKept _ l c i h = h

abbrev J : Vars → Type 0
J = Of Justified

IsApproved-cons :
    (s : AgentStep) (sha : String) (e : Entry) (l : List Entry)
    → IsApproved s sha l
    → IsApproved s sha (e ∷ l)
IsApproved-cons s sha e l (p, m, a, b) = (p, Memᴰ.tail m, a, b)

-- The tests of `decide`, in their order.
choose-Ensures :
    (N S : Vars → Type 0) (a r c : Bool) (x y z : Flow)
    → Ensures N S x
    → Ensures N S y
    → (a ≡ true → Ensures N S z)
    → Ensures N S (if not (a || r || c) then x else (if c then y else (if r then y else z)))
choose-Ensures N S false false false x y z f g h = f
choose-Ensures N S false true false x y z f g h = g
choose-Ensures N S true true false x y z f g h = g
choose-Ensures N S true false false x y z f g h = h refl
choose-Ensures N S false false true x y z f g h = g
choose-Ensures N S false true true x y z f g h = g
choose-Ensures N S true true true x y z f g h = g
choose-Ensures N S true false true x y z f g h = g

module _ (s : AgentStep) (sha : String) where
  -- The run waits for a decision on this step and diff.
  abbrev IsWaiting : Vars → Type 0
  IsWaiting v =
      (v.pending_approval ≡ some (record { step_id = s.step_id; diff_sha256 = sha }))
      × (is_some v.approval ≡ true → IsApproved s sha v.log)
      × IsJustified v.log

  -- The gate is passed.
  abbrev IsCleared : Vars → Type 0
  IsCleared v = (s.approval.required ≡ true → IsApproved s sha v.log) × IsJustified v.log

  handle-IsWaiting : (g : Signal) (v : Vars) → IsWaiting v → IsWaiting (handle g v)
  unfolding handle
  handle-IsWaiting (approve_step p) v (q, a, j) = elim (Bool-cases (accepts v.pending_approval p)) [
    | inl e ↦
        let both : accepts (some (record { step_id = s.step_id; diff_sha256 = sha })) p ≡ true =
          rw q at e in
        rw e (q, (λ _. (p, Memᴰ.head refl, ===→≡ _ _ (ground arith), ===→≡ _ _ (ground arith))), j)
    | inr e ↦ rw e (q, a, j)
  ]
  handle-IsWaiting (reject_step p) v (q, a, j) = elim (Bool-cases (rejects v.pending_approval p)) [
    | inl e ↦ rw e (q, a, j)
    | inr e ↦ rw e (q, a, j)
  ]
  handle-IsWaiting (cancel_run p) v h = h

  IsWaiting-IsStable : IsStable IsWaiting
  IsWaiting-IsStable = record { handled = handle-IsWaiting; counted = λ v n h. h }

  handle-IsCleared : (g : Signal) (v : Vars) → IsCleared v → IsCleared (handle g v)
  unfolding handle
  handle-IsCleared (approve_step p) v (a, j) = elim (Bool-cases (accepts v.pending_approval p)) [
    | inl e ↦ rw e ((λ r. IsApproved-cons s sha (approval_accepted p) v.log (a r)), j)
    | inr e ↦ rw e (a, j)
  ]
  handle-IsCleared (reject_step p) v h = elim (Bool-cases (rejects v.pending_approval p)) [
    | inl e ↦ rw e h
    | inr e ↦ rw e h
  ]
  handle-IsCleared (cancel_run p) v h = h

  IsCleared-IsStable : IsStable IsCleared
  IsCleared-IsStable = record { handled = handle-IsCleared; counted = λ v n h. h }

  -- The variables with which the gate is entered.
  abbrev asking : Vars → Vars
  asking v = set_summary SummaryStatus.waiting_approval (record v {
    pending_approval = some (record { step_id = s.step_id; diff_sha256 = sha });
    approval = none;
    rejection = none;
  })

  IsWaiting-Ensures : (m : Flow) → Ensures IsWaiting IsWaiting m → Ensures IsWaiting J m
  IsWaiting-Ensures m h = Ensures-mono IsWaiting IsWaiting IsWaiting J m (λ _ x. x) (λ _ x. x.2) h

  module _ (w : World) where
    decide-IsCleared :
        (v : Vars)
        → (is_some v.approval ≡ true → IsApproved s sha v.log)
        → IsJustified v.log
        → Ensures IsCleared J (decide w v)
    unfolding decide
    decide-IsCleared v a j =
        choose-Ensures IsCleared J (is_some v.approval) (is_some v.rejection)
          (is_some v.cancellation) (finish w FinalStatus.expired v)
          (finish w FinalStatus.cancelled v) (next v)
          (finish-Of Justified Justified-IsKept w IsCleared FinalStatus.expired v j)
          (finish-Of Justified Justified-IsKept w IsCleared FinalStatus.cancelled v j)
          (λ e. ((λ _. a e), j))

    waited-IsCleared : (v : Vars) → IsWaiting v → Ensures IsCleared J (decide w (wait_decision w v))
    unfolding wait_decision
    waited-IsCleared v q =
        let (_, a, j) = await-keeps IsWaiting IsWaiting-IsStable w v q in decide-IsCleared _ a j

    gate-IsCleared : (v : Vars) → IsJustified v.log → Ensures IsCleared J (gate w s sha v)
    unfolding gate
    gate-IsCleared v j =
        Ensures-if IsCleared J s.approval.required _ (next v)
          (λ _.
            Ensures->>= IsWaiting IsCleared J
              (record_status w RunStatus.waiting_approval (asking v))
              (λ u.
                bookkeep w (approval_created s.step_id sha) u >>= λ t. decide w (wait_decision w t))
              (IsWaiting-Ensures _ (
                record_status-Ensures IsWaiting IsWaiting-IsStable w RunStatus.waiting_approval
                  (asking v) (refl, (λ t. absurd (cc)), j)))
              asked)
          (λ e. ((λ r. absurd (ground arith)), j))
      where
        asked :
            (u : Vars)
            → IsWaiting u
            → Ensures IsCleared J (
                bookkeep w (approval_created s.step_id sha) u >>= λ t. decide w (wait_decision w t))
        asked u p =
            Ensures->>= IsWaiting IsCleared J (bookkeep w (approval_created s.step_id sha) u)
              (λ t. decide w (wait_decision w t))
              (IsWaiting-Ensures _ (
                bookkeep-Ensures IsWaiting IsWaiting-IsStable w (approval_created s.step_id sha) u (
                  p.0,
                  (λ t. IsApproved-cons s sha (approval_created s.step_id sha) u.log (p.1 t)),
                  p.2,
                )))
              (λ t q. waited-IsCleared t q)

  module _ (w : World) where
    after_write-J :
        (a : AgentStep) (r : Option StepActivityResult) (v : Vars)
        → J v
        → Ensures J J (after_write w a r v)
    unfolding after_write
    after_write-J a none v j = finish-Of Justified Justified-IsKept w J FinalStatus.failed _ j
    after_write-J a (some r) v j = elim (Bool-cases (is_failed r.status)) [
      | inl e ↦ rw e (
          finish-Of Justified Justified-IsKept w J FinalStatus.failed _ (
            set_error-Of Justified Justified-IsKept w (truthy_text r.error_code)
              (set_summary SummaryStatus.failed (absorb r v)) j))
      | inr e ↦ rw e (
          Ensures->>= J J J (record_status w verifying (absorb r v)) _
            (bookkeep-Of Justified Justified-IsKept w (status_recorded verifying) _ tt j)
            (λ u p. bookkeep-Of Justified Justified-IsKept w (step_recorded a) _ tt p))
    ]

    after_recheck-J :
        (p : Option PolicyAnswer) (v : Vars) → IsCleared v → Ensures J J (after_recheck w s sha p v)
    unfolding after_recheck
    after_recheck-J none v c = c.1
    after_recheck-J (some p) v c = elim (Bool-cases (is_deny p)) [
      | inl e ↦ rw e (finish-Of Justified Justified-IsKept w J FinalStatus.policy_blocked v c.1)
      | inr e ↦ rw e (
          Ensures->>= IsCleared J J (record_status w applying_write v)
            (λ u. after_write w s (w.executed u.awaits) (await w (noted (write_executed s sha) u)))
            (Ensures-mono IsCleared IsCleared IsCleared J _ (λ _ x. x) (λ _ x. x.1)
              (record_status-Ensures IsCleared IsCleared-IsStable w applying_write v
                ((λ r. IsApproved-cons s sha (status_recorded applying_write) v.log (c.0 r)), c.1)))
            (λ u d. after_write-J s (w.executed u.awaits) _ (
              await-keeps J (Of-IsStable Justified Justified-IsKept) w
                (noted (write_executed s sha) u) d)))
    ]

    apply_write-J : (v : Vars) → J v → Ensures J J (apply_write w s sha v)
    unfolding apply_write
    apply_write-J v j =
        Ensures->>= IsCleared J J (gate w s sha v)
          (λ u. after_recheck w s sha (w.policy u.awaits) (await w (noted policy_checked u)))
          (gate-IsCleared w v j)
          (λ u c. after_recheck-J (w.policy u.awaits) _ (
            await-keeps IsCleared IsCleared-IsStable w (noted policy_checked u)
              ((λ r. IsApproved-cons s sha policy_checked u.log (c.0 r)), c.1)))

module _ (w : World) where
  write_with-J :
      (s : AgentStep) (sha : Option String) (v : Vars) → J v → Ensures J J (write_with w s sha v)
  unfolding write_with
  write_with-J s none v j = finish-Of Justified Justified-IsKept w J FinalStatus.failed _ j
  write_with-J s (some sha) v j = apply_write-J s sha w v j

  write_step-J :
      (mode : RunMode) (s : AgentStep) (v : Vars) → J v → Ensures J J (write_step w mode s v)
  unfolding write_step
  write_step-J mode s v j = elim (Bool-cases (is_shadow mode)) [
    | inl e ↦ rw e (bookkeep-Of Justified Justified-IsKept w (step_recorded s) _ tt j)
    | inr e ↦ rw e (write_with-J s v.last_diff_sha v j)
  ]

-- In every run, whatever its activities answer and whatever signals arrive when: each write activity
-- of a step that asks for approval comes after the acceptance of an approval that names the same step
-- and the same diff hash as the write.
pub workflow-IsJustified :
    (w : World) (spec : AgentSpec) (run : AgentRunInput)
    → IsJustified (vars_of (agent_run_workflow w spec run)).log
workflow-IsJustified w spec run =
    workflow-Of Justified Justified-IsKept w spec run (write_step-J w run.mode) tt
