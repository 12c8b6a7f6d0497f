-- ===== src/Workflow/LogRules.antt =====
-- Properties of the log and the number of completed writes that everything but a write keeps
-- (workflow.ts).
use maman_agent.Prelude.{
  ℕ, none, some, Option, List, [], ◌∷◌, inl, inr, Bool-cases, not, String, ◌||◌,
}
use maman_agent.Contracts.{AgentStep, shadow}
use maman_agent.Workflow.State.{
  Signal, approve_step, reject_step, cancel_run, accepts, rejects, StepActivityResult, Entry,
  status_recorded, step_executed, write_executed, step_recorded, finalized, approval_accepted,
  SummaryStatus, FinalStatus, RunStatus, Vars, World, handle, await, noted, bookkeep, finish,
  record_status, next, approval_created,
}
use maman_agent.Workflow.Steps.{
  read_step, write_step, after_read, set_summary, set_error, keep_diff, truthy_text, absorb,
  is_failed, decide, gate, wait_decision, is_some,
}
use maman_agent.Workflow.Triples.{
  Ensures, Ensures->>=, IsStable, await-keeps, bookkeep-Ensures, finish-Ensures, Ensures-if,
}

-- The number of write activities in a log.
abbrev pub writes : List Entry → ℕ
writes [] = 0
writes (write_executed s sha ∷ l) = Prim.Native.Nat.suc (writes l)
writes (_ ∷ l) = writes l

abbrev pub IsHarmless : Entry → Type 0
IsHarmless (write_executed s sha) = ⊥
IsHarmless _ = Unit {0}

-- A property that entries other than writes keep.
abbrev pub IsKept : (List Entry → ℕ → Type 0) → Type 0
IsKept R = (e : Entry) (l : List Entry) (c : ℕ) → IsHarmless e → R l c → R (e ∷ l) c

abbrev pub Of : (List Entry → ℕ → Type 0) → Vars → Type 0
Of R v = R v.log v.completed_writes

module _ (R : List Entry → ℕ → Type 0) (kept : IsKept R) where
  handle-Of : (s : Signal) (v : Vars) → Of R v → Of R (handle s v)
  unfolding handle
  handle-Of (approve_step p) v h = elim (Bool-cases (accepts v.pending_approval p)) [
    | inl e ↦ rw e (kept (approval_accepted p) v.log v.completed_writes tt h)
    | inr e ↦ rw e h
  ]
  handle-Of (reject_step p) v h = elim (Bool-cases (rejects v.pending_approval p)) [
    | inl e ↦ rw e h
    | inr e ↦ rw e h
  ]
  handle-Of (cancel_run p) v h = h

  pub Of-IsStable : IsStable (Of R)
  Of-IsStable = record { handled = handle-Of; counted = λ v n h. h }

  module _ (w : World) where
    pub bookkeep-Of :
        (e : Entry) (v : Vars) → IsHarmless e → Of R v → Ensures (Of R) (Of R) (bookkeep w e v)
    bookkeep-Of e v i h =
        bookkeep-Ensures (Of R) Of-IsStable w e v (kept e v.log v.completed_writes i h)

    pub finish-Of :
        (N : Vars → Type 0) (s : FinalStatus) (v : Vars) → Of R v → Ensures N (Of R) (finish w s v)
    finish-Of N s v h =
        finish-Ensures (Of R) Of-IsStable w N s v (kept (finalized s) v.log v.completed_writes tt h)

    pub await-Of : (e : Entry) (v : Vars) → IsHarmless e → Of R v → Of R (await w (noted e v))
    await-Of e v i h =
        await-keeps (Of R) Of-IsStable w (noted e v) (kept e v.log v.completed_writes i h)

    keep_diff-Of : (r : StepActivityResult) (sha : _) (v : Vars) → Of R v → Of R (keep_diff r sha v)
    keep_diff-Of r none v h = h
    keep_diff-Of r (some sha) v h = h

    pub set_error-Of : (code : _) (v : Vars) → Of R v → Of R (set_error code v)
    set_error-Of none v h = h
    set_error-Of (some c) v h = h

    after_read-Of :
        (s : AgentStep) (r : Option StepActivityResult) (v : Vars)
        → Of R v
        → Ensures (Of R) (Of R) (after_read w s r v)
    unfolding after_read
    after_read-Of s none v h = finish-Of (Of R) _ _ h
    after_read-Of s (some r) v h = elim (Bool-cases (is_failed r.status)) [
      | inl e ↦ rw e (
          Ensures->>= (Of R) (Of R) (Of R) _ (λ u. finish w FinalStatus.failed u)
            (bookkeep-Of (step_recorded s) _ tt (
              set_error-Of (truthy_text r.error_code)
                (set_summary SummaryStatus.failed (absorb r v)) h))
            (λ u p. finish-Of (Of R) _ u p))
      | inr e ↦ rw e (
          bookkeep-Of (step_recorded s) _ tt (
            keep_diff-Of r (truthy_text r.diff_sha256)
              (set_summary SummaryStatus.completed (absorb r v)) h))
    ]

    pub read_step-Of :
        (status : RunStatus) (s : AgentStep) (v : Vars)
        → Of R v
        → Ensures (Of R) (Of R) (read_step w status s v)
    unfolding read_step
    read_step-Of status s v h =
        Ensures->>= (Of R) (Of R) (Of R) (record_status w status v)
          (λ u. after_read w s (w.executed u.awaits) (await w (noted (step_executed s) u)))
          (bookkeep-Of (status_recorded status) (record v { status = status }) tt h)
          (λ u p. after_read-Of s (w.executed u.awaits) _ (await-Of (step_executed s) u tt p))

    -- In shadow mode a write step keeps it too.
    pub shadow_step-Of :
        (s : AgentStep) (v : Vars) → Of R v → Ensures (Of R) (Of R) (write_step w shadow s v)
    unfolding write_step
    shadow_step-Of s v h = bookkeep-Of (step_recorded s) (set_summary SummaryStatus.skipped v) tt h

    decide-Of : (v : Vars) → Of R v → Ensures (Of R) (Of R) (decide w v)
    unfolding decide
    decide-Of v h =
        Ensures-if (Of R) (Of R)
          (not (is_some v.approval || is_some v.rejection || is_some v.cancellation)) _ _
          (λ _. finish-Of (Of R) FinalStatus.expired v h)
          (λ _.
            Ensures-if (Of R) (Of R) (is_some v.cancellation) _ _
              (λ _. finish-Of (Of R) FinalStatus.cancelled v h)
              (λ _.
                Ensures-if (Of R) (Of R) (is_some v.rejection) _ (next v)
                  (λ _. finish-Of (Of R) FinalStatus.cancelled v h) (λ _. h)))

    -- The approval gate keeps it.
    pub gate-Of :
        (s : AgentStep) (sha : String) (v : Vars) → Of R v → Ensures (Of R) (Of R) (gate w s sha v)
    unfolding gate wait_decision
    gate-Of s sha v h =
        Ensures-if (Of R) (Of R) s.approval.required _ (next v)
          (λ _.
            Ensures->>= (Of R) (Of R) (Of R) _ _
              (bookkeep-Of (status_recorded RunStatus.waiting_approval) _ tt h)
              (λ u p.
                Ensures->>= (Of R) (Of R) (Of R) _ (λ t. decide w (wait_decision w t))
                  (bookkeep-Of (approval_created s.step_id sha) u tt p)
                  (λ t q. decide-Of (wait_decision w t) (await-keeps (Of R) Of-IsStable w t q))))
          (λ _. h)
