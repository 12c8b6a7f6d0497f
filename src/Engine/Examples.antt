-- ===== src/Engine/Examples.antt =====
-- Runs of a concrete agent with concrete adapters.
use maman_agent.Prelude.{
  ◌===◌, Bool, String, ℕ, ◌≡◌, ltb, true, false, none, some, List, [], ◌∷◌, All, refl, length, all,
  arith, if◌then◌else◌,
}
use maman_agent.Samples.{reconcile}
use maman_agent.Engine.Base.{
  World, EngineState, ProposedDiff, transient, CapabilityAdapter, returned, no_adapter, read_call,
  value, answer, ask, permanent,
}
use maman_agent.Engine.Local.{
  Registry, Written, proposal_steps, run_one, require_adapter, proposes, merge_diffs, write_steps,
  write_slice, paired, lookup_binding, add_execution, add_written,
}
use maman_agent.AgentInputs.{Values, JsonValue, nil, validate_agent_inputs, missing_inputs, lookup}
use maman_agent.Engine.Digest.{diff_sha256, is_hex_code, diff_sha256-digits, hex, hex_text, lane}
use maman_agent.Engine.Shadow.{IsHarmless, run_shadow-IsHarmless}
use maman_agent.Engine.Approved.{IsBound, run_approved-IsBound}
use maman_agent.Engine.Counts.{chosen, writes_in, write_count}
use maman_agent.Engine.Errors.{is_unbound}
use maman_agent.Engine.Step.{
  attempt, execute_step, resolve_step_inputs, resolve_entries, resolve_binding, given_input,
  lookup_output, by_mode, read_part, propose_part, write_part, write_approved, perform_write,
  conclude_write, verify_part,
}
use maman_agent.Engine.Runs.{
  run_shadow, run_approved, approved_if, if_fresh, after_proposals, finish_writes,
}
use maman_agent.Engine.Recheck.{run_approved-bound}
use maman_agent.Engine.Completed.{any_step, run_approved-completed}
use maman_agent.Engine.Bounds.{attempt-decides}

abbrev pub one_change : ProposedDiff
one_change = record {
  summary = record {
    input_rows = 1;
    confident_matches = 1;
    ambiguous_skipped = 0;
    missing = 0;
    change_count = 1;
    accounts_affected = 1;
  };
  changes =
      record {
        account_id = "001";
        account_name = "Acme";
        field = "OwnerId";
        old_value = "u1";
        new_value = "u2";
      }
      ∷ [];
}

-- Every read is answered after one transient error.
abbrev pub world : World
world = record {
  read = λ n. if ltb n 1 then transient "timeout" else returned (value (JsonValue.arr nil));
  propose_write = λ _. returned one_change;
  write = λ _. returned (value (JsonValue.str "ok"));
  verify = λ _. returned (record { verified = true; detail = "1 field" });
}

abbrev adapter : CapabilityAdapter
adapter = record { read = true; propose_write = true; write = true; verify = true }

abbrev pub registry : Registry
registry =
    ("local.parse_csv", adapter)
    ∷ ("salesforce.propose_field_updates", adapter)
    ∷ ("salesforce.update_fields", adapter)
    ∷ []

abbrev pub given : Values
given = ("account_csv", JsonValue.str "accounts.csv") ∷ []

abbrev pub idle : EngineState
idle = record { outputs = []; calls = 0; log = []; last_run_at = none }

abbrev pub stringify : ProposedDiff → List ℕ
stringify d = 123 ∷ d.summary.change_count ∷ 125 ∷ []

abbrev pub approved : List ℕ
approved = diff_sha256 (stringify one_change)

abbrev verified_once : Written
verified_once = record { verified = true; verify_details = "1 field" ∷ [] }

run_shadow-IsHarmless_example :
    All IsHarmless (run_shadow stringify world registry (some reconcile) given "run-1" 7 idle).1.log
run_shadow-IsHarmless_example =
    run_shadow-IsHarmless stringify world registry given "run-1" 7 (some reconcile) idle tt

run_approved-IsBound_example :
    All
      (IsBound stringify world registry given "run-1" reconcile idle approved)
      (run_approved stringify world registry (some reconcile) given "run-1" 7 approved idle).1.log
run_approved-IsBound_example =
    run_approved-IsBound stringify world registry given "run-1" reconcile 7 approved idle tt

-- The id of the write step.
abbrev is_s3 : String → Bool
is_s3 id = id === "s3"

run_approved-completed_example :
    writes_in is_s3
        (run_approved stringify world registry (some reconcile) given "run-1" 7 approved idle).1.log
      ≡ write_count is_s3 reconcile.steps
    × length verified_once.verify_details ≡ write_count any_step reconcile.steps
unfolding run_approved approved_if validate_agent_inputs missing_inputs lookup if_fresh
    proposal_steps run_one require_adapter execute_step resolve_step_inputs resolve_entries
    resolve_binding given_input lookup_output by_mode read_part propose_part attempt proposes
    merge_diffs after_proposals write_steps write_slice paired lookup_binding add_execution
    add_written write_part write_approved perform_write ask conclude_write verify_part finish_writes
    diff_sha256 hex hex_text lane
run_approved-completed_example =
    run_approved-completed is_s3 stringify world registry reconcile given "run-1" 7 approved idle
      one_change verified_once refl refl

run_approved-bound_example : is_unbound (no_adapter "local.parse_csv") ≡ false
unfolding run_approved approved_if validate_agent_inputs missing_inputs lookup if_fresh
    proposal_steps run_one require_adapter
run_approved-bound_example =
    run_approved-bound stringify world reconcile [] given "run-1" 7 approved idle
      (no_adapter "local.parse_csv") refl

-- There is one such step.
one_write_step : write_count is_s3 reconcile.steps ≡ 1
unfolding write_count chosen
one_write_step = refl

attempt-decides_example :
    (attempt 3 "" (read_call "s1" []) world.read idle).0 ≡ answer (world.read 1)
    × (attempt 3 "" (read_call "s1" []) world.read idle).1.calls ≡ 2
attempt-decides_example =
    attempt-decides (read_call "s1" []) world.read 3 1 "" idle (omega arith) (omega arith)
      (λ i low high. ground arith) refl

diff_sha256-digits_example :
    length (diff_sha256 (123 ∷ 125 ∷ [])) ≡ 64
    × all is_hex_code (diff_sha256 (123 ∷ 125 ∷ [])) ≡ true
diff_sha256-digits_example = diff_sha256-digits (123 ∷ 125 ∷ [])

-- The write is refused for good.
abbrev pub denied : World
denied = record world { write = λ _. permanent "denied" }
