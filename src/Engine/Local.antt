-- ===== src/Engine/Local.antt =====
-- The loops of the shadow run and the approved run (packages/agent-runtime/src/local-runtime.ts). The
-- registry of adapters is an association list.
use maman_agent.Prelude.{
  ℕ, ◌+◌, ltb, Bool, ◌&&◌, String, ◌===◌, Option, none, some, List, [], ◌∷◌, ◌++◌, if◌then◌else◌,
}
use maman_agent.Contracts.{AgentSpec, AgentStep, StepInputBinding, literal, Literal, is_write}
use maman_agent.AgentInputs.{JsonValue, Items, nil, cons, Values}
use maman_agent.Engine.Base.{
  ProposedDiff, CapabilityContext, CapabilityAdapter, Output, value, World, no_adapter, Run, ◌>>=◌,
  pure, throw,
}
use maman_agent.Engine.Digest.{diff_sha256}
use maman_agent.Engine.Step.{
  StepExecution, read_done, proposed, written, skipped_shadow_write, execute_step,
}

abbrev pub Registry : Type 0
Registry = List (String × CapabilityAdapter)

unfoldable pub require_adapter : Registry → AgentStep → Run CapabilityAdapter
require_adapter [] step = throw (no_adapter step.capability_id)
require_adapter ((id, a) ∷ rest) step =
    if id === step.capability_id then pure a else require_adapter rest step

abbrev max : ℕ → ℕ → ℕ
max a b = if ltb a b then b else a

-- `mergeDiffs`.
unfoldable pub merge_diffs : Option ProposedDiff → ProposedDiff → ProposedDiff
merge_diffs none b = b
merge_diffs (some a) b = record {
  summary = record {
    input_rows = a.summary.input_rows + b.summary.input_rows;
    confident_matches = a.summary.confident_matches + b.summary.confident_matches;
    ambiguous_skipped = a.summary.ambiguous_skipped + b.summary.ambiguous_skipped;
    missing = a.summary.missing + b.summary.missing;
    change_count = a.summary.change_count + b.summary.change_count;
    accounts_affected = max a.summary.accounts_affected b.summary.accounts_affected;
  };
  changes = a.changes ++ b.changes;
}

abbrev items_length : Items → ℕ
items_length nil = 0
items_length (cons _ xs) = items_length xs + 1

-- The length of an output that is an array.
abbrev records_in : Output → ℕ
records_in (value (JsonValue.arr xs)) = items_length xs
records_in _ = 0

-- The variables of the shadow run.
pub record Progress : Type 0 where
  pub diff : Option ProposedDiff
  pub steps_run : ℕ
  pub records_read : ℕ

unfoldable pub progressed : Progress → StepExecution → Progress
progressed p (read_done o) = record p {
  steps_run = p.steps_run + 1;
  records_read = p.records_read + records_in o;
}
progressed p (proposed d _) = record p {
  diff = some (merge_diffs p.diff d);
  steps_run = p.steps_run + 1;
}
progressed p (written _ _ _ _) = record p { steps_run = p.steps_run + 1 }
progressed p skipped_shadow_write = record p { steps_run = p.steps_run + 1 }

-- The proposals of the first pass: the merged diff, and each under its step's output key.
pub record Fresh : Type 0 where
  pub diff : Option ProposedDiff
  pub by_key : List (String × ProposedDiff)

unfoldable pub proposes : Fresh → AgentStep → StepExecution → Fresh
proposes f step (proposed d _) = record {
  diff = some (merge_diffs f.diff d);
  by_key = (step.output_key, d) ∷ f.by_key;
}
proposes f step _ = f

unfoldable pub lookup_proposal : String → List (String × ProposedDiff) → Option ProposedDiff
lookup_proposal k [] = none
lookup_proposal k ((j, d) ∷ ds) = if j === k then some d else lookup_proposal k ds

unfoldable pub lookup_binding : String → List (String × StepInputBinding) → Option StepInputBinding
lookup_binding k [] = none
lookup_binding k ((j, b) ∷ bs) = if j === k then some b else lookup_binding k bs

-- The diff that a write step applies: its named pair's, or the whole.
unfoldable pub paired : Fresh → Option StepInputBinding → Option ProposedDiff
paired f (some (literal (Literal.text key))) = lookup_proposal key f.by_key
paired f _ = f.diff

pub record Written : Type 0 where
  pub verified : Bool
  pub verify_details : List String

-- What the second pass ends with, if nothing was thrown.
pub data WritePass : Type 0 where
  wrote : Option Written → WritePass
  no_proposal unexpected_result : (step_id : String) → WritePass

-- `filter(Boolean)` and `join("; ")` are left to the reader of the list.
unfoldable pub add_written : Option Written → (verified : Bool) (detail : String) → Written
add_written none verified detail = record { verified = verified; verify_details = detail ∷ [] }
add_written (some w) verified detail = record {
  verified = w.verified && verified;
  verify_details = w.verify_details ++ detail ∷ [];
}

abbrev pub pairs_with : AgentStep → Option StepInputBinding
pairs_with step = lookup_binding "pairs_with" step.inputs

-- The second pass; `after` is the rest of the loop.
unfoldable pub add_execution :
    AgentStep → Option Written → (Option Written → Run WritePass) → StepExecution → Run WritePass
add_execution step before after (written _ _ verified detail) =
    after (some (add_written before verified detail))
add_execution step before after _ = pure (unexpected_result step.step_id)

module _ (stringify : ProposedDiff → List ℕ) (w : World) (registry : Registry) (spec : AgentSpec)
    (given : Values) where
  unfoldable pub run_one :
      CapabilityContext → Option (ProposedDiff × List ℕ) → AgentStep → Run StepExecution
  run_one ctx approved step = do
    adapter ← require_adapter registry step
    execute_step stringify w spec step given ctx adapter approved none

  -- The loop of the shadow run.
  unfoldable pub shadow_steps : CapabilityContext → List AgentStep → Progress → Run Progress
  shadow_steps ctx [] p = pure p
  shadow_steps ctx (step ∷ steps) p =
      let rest = shadow_steps ctx steps p in
      if is_write step.mode
      then rest
      else (do result ← run_one ctx none step; shadow_steps ctx steps (progressed p result))

  -- The first pass of the approved run.
  unfoldable pub proposal_steps : CapabilityContext → List AgentStep → Fresh → Run Fresh
  proposal_steps ctx [] f = pure f
  proposal_steps ctx (step ∷ steps) f =
      let rest = proposal_steps ctx steps f in
      if is_write step.mode
      then rest
      else (do result ← run_one ctx none step; proposal_steps ctx steps (proposes f step result))

  abbrev pub bound : ProposedDiff → Option (ProposedDiff × List ℕ)
  bound slice = some (slice, diff_sha256 (stringify slice))

  unfoldable pub write_slice :
      CapabilityContext
      → AgentStep
      → Option Written
      → (Option Written → Run WritePass)
      → Option ProposedDiff
      → Run WritePass
  write_slice ctx step before after none = pure (no_proposal step.step_id)
  write_slice ctx step before after (some slice) = do
    result ← run_one ctx (bound slice) step
    add_execution step before after result

  unfoldable pub write_steps :
      CapabilityContext → Fresh → List AgentStep → Option Written → Run WritePass
  write_steps ctx f [] before = pure (wrote before)
  write_steps ctx f (step ∷ steps) before =
      let after = λ (so_far : Option Written). write_steps ctx f steps so_far in
      if is_write step.mode
      then write_slice ctx step before after (paired f (pairs_with step))
      else after before
