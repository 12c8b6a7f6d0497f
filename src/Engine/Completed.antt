-- ===== src/Engine/Completed.antt =====
-- What a completed approved run has written (packages/agent-runtime/src/local-runtime.ts,
-- `runApproved`).
use maman_agent.Prelude.{
  if◌then◌else◌, ℕ, ◌+◌, ◌∷◌, [], ◌≡◌, some, none, Option, List, length, true, Bool, String, refl,
  arith, same_codes, All, sort_by-perm, sym, length-append, Bool-cases, inl, inr, ap, ◌∙◌,
}
use mathlib.Core.Path.{subst}
use mathlib.Core.Logic.{∥∥₁_elim}
use native.Mathlib.Nat.{ℕ_set}
use mathlib.Core.List.{Perm, Permᴰ}
use maman_agent.Engine.Local.{
  Written, add_written, add_execution, WritePass, wrote, Registry, write_slice, write_steps, Fresh,
  run_one, bound, paired, pairs_with,
}
use maman_agent.Engine.Base.{
  EngineState, Result, Run, ok, and_then, threw, ProposedDiff, World, Call, write_call,
}
use maman_agent.Contracts.{AgentStep, AgentSpec, is_write, supervised}
use maman_agent.Engine.Counts.{writes_in, weight, chosen, Makes, write_count, run_one-Makes}
use maman_agent.Engine.Step.{StepExecution, written, read_done, proposed, skipped_shadow_write}
use maman_agent.AgentInputs.{Values, InputReadiness, not_ready, validate_agent_inputs, ready}
use maman_agent.Engine.Runs.{
  context, ApprovedOutcome, finish_writes, after_proposals, if_fresh, approved_if, run_approved,
  completed, in_order, nothing_fresh, from_scratch,
}
use maman_agent.Engine.Shadow.{IsHarmless, IsHarmless-reads}
use maman_agent.Engine.Digest.{diff_sha256}
use maman_agent.Engine.Approved.{first_pass}
use maman_agent.Engine.Passes.{proposal_steps-Keeps}

abbrev details : Option Written → ℕ
details none = 0
details (some w) = length w.verify_details

module _ (p : String → Bool) where
  -- If the pass comes to an end, it adds so many chosen writes to the log and so many details.
  abbrev Ends : ℕ → ℕ → EngineState → Option Written → Result WritePass × EngineState → Type 0
  Ends n m s before (ok (wrote (some w)), t) =
      writes_in p t.log ≡ n + writes_in p s.log × length w.verify_details ≡ m + details before
  Ends n m s before _ = Unit

  Ends-same :
      {n k m l : ℕ} (s : EngineState) (before : Option Written) (r : Result WritePass × EngineState)
      → n ≡ k
      → m ≡ l
      → Ends n m s before r
      → Ends k l s before r
  Ends-same {n} {k} {m} {l} s before r e d h =
      subst (λ i. Ends k i s before r) d (subst (λ i. Ends i m s before r) e h)

  Ends-later :
      (k n m : ℕ) (s t : EngineState) (before : Option Written) (verified : Bool) (detail : String)
      (r : Result WritePass × EngineState)
      → writes_in p t.log ≡ k + writes_in p s.log
      → Ends n m t (some (add_written before verified detail)) r
      → Ends (k + n) (1 + m) s before r
  unfolding add_written
  Ends-later k n m s t none v d (ok (wrote (some w)), u) e (h, l) =
      (omega (arith, h, e), omega (arith, l))
  Ends-later k n m s t (some b) v d (ok (wrote (some w)), u) e (h, l) =
      (omega (arith, h, e), omega (arith, l, length-append b.verify_details (d ∷ [])))
  Ends-later k n m s t before v d (ok (wrote none), u) e h = tt
  Ends-later k n m s t before v d (ok (WritePass.no_proposal _), u) e h = tt
  Ends-later k n m s t before v d (ok (WritePass.unexpected_result _), u) e h = tt
  Ends-later k n m s t before v d (threw c, u) e h = tt

  add_execution-Ends :
      (k n m : ℕ) (step : AgentStep) (before : Option Written)
      (after : Option Written → Run WritePass) (s : EngineState)
      (r : Result StepExecution × EngineState)
      → ((so_far : Option Written) (t : EngineState) → Ends n m t so_far (after so_far t))
      → Makes p k s r
      → Ends (k + n) (1 + m) s before (and_then r (add_execution step before after))
  unfolding add_execution
  add_execution-Ends k n m step before after s (ok (written _ _ v d), t) f e =
      Ends-later k n m s t before v d (after (some (add_written before v d)) t) e (f _ t)
  add_execution-Ends k n m step before after s (ok (read_done _), t) f e = tt
  add_execution-Ends k n m step before after s (ok (proposed _ _), t) f e = tt
  add_execution-Ends k n m step before after s (ok skipped_shadow_write, t) f e = tt
  add_execution-Ends k n m step before after s (threw c, t) f e = tt

  IsHarmless-none : (cs : List Call) → All IsHarmless cs → writes_in p cs ≡ 0
  unfolding writes_in
  IsHarmless-none [] h = refl
  IsHarmless-none (c ∷ cs) (h, hs) =
      let rest = IsHarmless-none cs hs in let one = weightless c h in omega arith
    where
      weightless : (c : Call) → IsHarmless c → weight p c ≡ 0
      weightless (write_call i d e k) h = absurd (ground arith)
      weightless _ h = refl

  abbrev share : AgentStep → ℕ
  share s = if is_write s.mode then chosen p s.step_id else 0

  write_count-permᴰ : {xs ys : List AgentStep} → Permᴰ xs ys → write_count p xs ≡ write_count p ys
  unfolding write_count
  write_count-permᴰ Permᴰ.nil = refl
  write_count-permᴰ (Permᴰ.cons e q) =
      let one = ap share e in let rest = write_count-permᴰ q in omega arith
  write_count-permᴰ (Permᴰ.swap e d) = let one = ap share e in let two = ap share d in omega arith
  write_count-permᴰ (Permᴰ.trans q r) = write_count-permᴰ q ∙ write_count-permᴰ r

  write_count-perm : {xs ys : List AgentStep} → Perm xs ys → write_count p xs ≡ write_count p ys
  write_count-perm q = ∥∥₁_elim q (ℕ_set _ _) write_count-permᴰ

-- Every step is chosen.
abbrev pub any_step : String → Bool
any_step id = true

module _ (p : String → Bool) (stringify : ProposedDiff → List ℕ) (w : World) (registry : Registry)
    (spec : AgentSpec) (given : Values) (run_id : String) where
  write_slice-Ends :
      (n m : ℕ) (step : AgentStep) (before : Option Written)
      (after : Option Written → Run WritePass) (slice : Option ProposedDiff) (s : EngineState)
      → is_write step.mode ≡ true
      → ((so_far : Option Written) (t : EngineState) → Ends p n m t so_far (after so_far t))
      → Ends p (chosen p step.step_id + n) (1 + m) s before (
          write_slice stringify w registry spec given
            (context run_id supervised)
            step
            before
            after
            slice
            s)
  unfolding write_slice
  write_slice-Ends n m step before after none s e k = tt
  write_slice-Ends n m step before after (some d) s e k =
      add_execution-Ends p (chosen p step.step_id) n m step before after s
        (run_one stringify w registry spec given (context run_id supervised)
          (bound stringify w registry spec given d) step s)
        k
        (run_one-Makes p stringify w spec step (context run_id supervised) registry given _ s e
          refl)

  write_steps-Ends :
      (f : Fresh) (steps : List AgentStep) (before : Option Written) (s : EngineState)
      → Ends p
          (write_count p steps)
          (write_count any_step steps)
          s
          before
          (write_steps stringify w registry spec given (context run_id supervised) f steps before s)
  unfolding write_steps write_count chosen
  write_steps-Ends f [] none s = tt
  write_steps-Ends f [] (some b) s = (omega arith, omega arith)
  write_steps-Ends f (step ∷ steps) before s = elim (Bool-cases (is_write step.mode)) [
    | inl e ↦ rw e (
        write_slice-Ends (write_count p steps) (write_count any_step steps) step before _
          (paired f (pairs_with step)) s e (write_steps-Ends f steps))
    | inr e ↦
        rw e
          (Ends-same p s before _ (omega arith) (omega arith) (write_steps-Ends f steps before s))
  ]

  -- A completed run leaves so many writes in the log, and as many details.
  abbrev Completes : ℕ → ℕ → ApprovedOutcome × EngineState → Type 0
  Completes n m (completed d wr, s) = writes_in p s.log ≡ n × length wr.verify_details ≡ m
  Completes n m _ = Unit

  finish_writes-Completes :
      (n m now : ℕ) (d : ProposedDiff) (s : EngineState) (r : Result WritePass × EngineState)
      → writes_in p s.log ≡ 0
      → Ends p n m s none r
      → Completes n m (finish_writes now d r)
  unfolding finish_writes
  finish_writes-Completes n m now d s (ok (wrote (some wr)), t) z (h, l) =
      (omega (arith, h, z), omega (arith, l))
  finish_writes-Completes n m now d s (ok (wrote none), t) z h = tt
  finish_writes-Completes n m now d s (ok (WritePass.no_proposal _), t) z h = tt
  finish_writes-Completes n m now d s (ok (WritePass.unexpected_result _), t) z h = tt
  finish_writes-Completes n m now d s (threw c, t) z h = tt

  after_proposals-Completes :
      (now : ℕ) (approved : List ℕ) (f : Fresh) (whole : Option ProposedDiff) (s : EngineState)
      → writes_in p s.log ≡ 0
      → Completes
          (write_count p (in_order spec))
          (write_count any_step (in_order spec))
          (after_proposals stringify w registry spec given run_id now approved f whole s)
  unfolding after_proposals
  after_proposals-Completes now approved f none s z = tt
  after_proposals-Completes now approved f (some whole) s z =
      elim (Bool-cases (same_codes (diff_sha256 (stringify whole)) approved)) [
        | inl same ↦ rw same (
            finish_writes-Completes (write_count p (in_order spec))
              (write_count any_step (in_order spec)) now whole s _ z
              (write_steps-Ends f (in_order spec) none s))
        | inr other ↦ rw other tt
      ]

  if_fresh-Completes :
      (now : ℕ) (approved : List ℕ) (r : Result Fresh × EngineState)
      → writes_in p r.1.log ≡ 0
      → Completes
          (write_count p (in_order spec))
          (write_count any_step (in_order spec))
          (if_fresh stringify w registry spec given run_id now approved r)
  unfolding if_fresh
  if_fresh-Completes now approved (ok f, s) z = after_proposals-Completes now approved f f.diff s z
  if_fresh-Completes now approved (threw c, s) z = tt

  approved_if-Completes :
      (now : ℕ) (approved : List ℕ) (s : EngineState) (r : InputReadiness)
      → s.log ≡ []
      → Completes
          (write_count p (in_order spec))
          (write_count any_step (in_order spec))
          (approved_if stringify w registry spec given run_id now approved s r)
  unfolding approved_if
  approved_if-Completes now approved s (not_ready missing) z = tt
  approved_if-Completes now approved s ready z =
      if_fresh-Completes now approved (first_pass stringify w registry given run_id spec s) (
        IsHarmless-none p _ (
          proposal_steps-Keeps IsHarmless IsHarmless-reads stringify w registry spec given
            (context run_id supervised) (in_order spec) nothing_fresh (from_scratch s)
            (subst (All IsHarmless) (sym z) tt)))

  -- An approved run that starts with an empty log and completes has called write, for any choice of
  -- step ids, as often as there are write steps with a chosen id, so for each single id that often; and
  -- it has one line of verification for each write step.
  pub run_approved-completed :
      (now : ℕ) (approved : List ℕ) (s : EngineState) (d : ProposedDiff) (wr : Written)
      → s.log ≡ []
      → (run_approved stringify w registry (some spec) given run_id now approved s).0
        ≡ completed d wr
      → writes_in p
            (run_approved stringify w registry (some spec) given run_id now approved s).1.log
          ≡ write_count p spec.steps
        × length wr.verify_details ≡ write_count any_step spec.steps
  unfolding run_approved
  run_approved-completed now approved s d wr z e =
      let n = write_count p (in_order spec) in
      let m = write_count any_step (in_order spec) in
      let r = run_approved stringify w registry (some spec) given run_id now approved s in
      let h : Completes n m (completed d wr, r.1) =
        subst (λ o. Completes n m (o, r.1)) e
          (approved_if-Completes now approved s (validate_agent_inputs spec given) z) in
      let sorted = sort_by-perm (λ s. s.order) spec.steps in
      (h.0 ∙ write_count-perm p sorted, h.1 ∙ write_count-perm any_step sorted)
