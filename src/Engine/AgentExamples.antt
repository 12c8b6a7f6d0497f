-- ===== src/Engine/AgentExamples.antt =====
-- A runtime with one agent that a context wakes.
use maman_agent.Prelude.{ℕ, ◌+◌, ◌≤◌, ◌*◌, ◌≡◌, false, none, some, List, [], ◌∷◌, refl}
use maman_agent.Contracts.{AgentSpec, context}
use maman_agent.Samples.{reconcile}
use maman_agent.AgentInputs.{validate_agent_inputs, missing_inputs, lookup}
use maman_agent.Catalog.{capability_exists, get_capability, capabilities}
use maman_agent.Validator.Check.{Parsed, success, validate_agent_spec, spec_issues}
use maman_agent.Engine.Base.{ask, adapter_error}
use maman_agent.Engine.Digest.{diff_sha256, hex, hex_text, lane}
use maman_agent.Engine.Local.{
  proposal_steps, run_one, require_adapter, proposes, merge_diffs, write_steps, write_slice, paired,
  lookup_binding, add_execution, add_written,
}
use maman_agent.Engine.Step.{
  attempt, execute_step, resolve_step_inputs, resolve_entries, resolve_binding, given_input,
  lookup_output, by_mode, read_part, propose_part, write_part, write_approved, perform_write,
}
use maman_agent.Engine.Runs.{run_approved, approved_if, if_fresh, after_proposals, finish_writes}
use maman_agent.Engine.Ready.{
  validate_runtime_capabilities, check_step, runtime_from_registry, get_entry,
}
use maman_agent.Engine.Readiness.{is_unready}
use maman_agent.Engine.Agents.{
  WorkflowContext, RegisteredAgent, Fired, fresh_agent, new_runtime, register_agent, restore_agents,
}
use maman_agent.Engine.Triggers.{
  firing_of, fire_agents, handle_context, RuntimeOperation, saw_context, operate_runtime,
  operate_runtime_all, register,
}
use maman_agent.Engine.Held.{IsHeld}
use maman_agent.Engine.Registration.{operate_runtime_all-IsHeld}
use maman_agent.Engine.Admission.{register_agent-ready}
use maman_agent.Engine.Dedupe.{operate_runtime_all-cooldown}
use maman_agent.Engine.Examples.{registry, stringify, denied, given, idle, approved}

abbrev watcher : AgentSpec
watcher = record reconcile { trigger = context "browser" none (some "https://crm.example/a") 300 }

abbrev visit : WorkflowContext
visit = record {
  source = "browser";
  app_category = "crm";
  event_type = "navigate";
  target_role = "link";
  semantic_type = "record";
  object_type = "account";
  domain = some "crm.example";
  occurred_at = "2026-01-05T09:00:00Z";
}

abbrev parse : AgentSpec → Parsed
parse spec = success spec

-- A reading every 100 seconds.
abbrev clock : ℕ → ℕ
clock n = n * 100000

abbrev kept : List RegisteredAgent
kept = fresh_agent watcher none ∷ []

abbrev visits : List RuntimeOperation
visits = saw_context visit ∷ saw_context visit ∷ saw_context visit ∷ saw_context visit ∷ []

abbrev fired_at : ℕ → ℕ → Fired
fired_at start stamp = record {
  key = "a1";
  firing = firing_of visit (fresh_agent watcher none);
  start = start;
  stamp = stamp;
}

four_visits :
    (operate_runtime_all clock parse visits (new_runtime parse registry kept)).effects.log
    ≡ fired_at 400000 500000 ∷ fired_at 0 100000 ∷ []
unfolding operate_runtime_all operate_runtime handle_context fire_agents restore_agents
    register_agent validate_agent_spec spec_issues get_capability capabilities
    validate_runtime_capabilities check_step runtime_from_registry get_entry capability_exists
four_visits = refl

-- A registration forgets the last firing: the second visit is 200 seconds after the first.
registered_again :
    (operate_runtime_all clock parse
      (saw_context visit ∷ register watcher none ∷ saw_context visit ∷ [])
      (new_runtime parse registry kept)).effects.log
    ≡ fired_at 200000 300000 ∷ fired_at 0 100000 ∷ []
unfolding operate_runtime_all operate_runtime handle_context fire_agents restore_agents
    register_agent validate_agent_spec spec_issues get_capability capabilities
    validate_runtime_capabilities check_step runtime_from_registry get_entry capability_exists
registered_again = refl

operate_runtime_all-cooldown_example : 100000 + 300 * 1000 ≤ 400000
unfolding operate_runtime_all operate_runtime handle_context fire_agents restore_agents
    register_agent validate_agent_spec spec_issues get_capability capabilities
    validate_runtime_capabilities check_step runtime_from_registry get_entry capability_exists
operate_runtime_all-cooldown_example =
    operate_runtime_all-cooldown clock parse registry kept [] visits [] (fired_at 0 100000 ∷ [])
      (fired_at 400000 500000) 100000 refl (refl, (refl, (refl, (refl, tt)))) refl refl

operate_runtime_all-IsHeld_example :
    IsHeld ((operate_runtime_all clock parse visits (new_runtime parse registry kept)).agents)
operate_runtime_all-IsHeld_example = operate_runtime_all-IsHeld clock parse registry kept visits

-- An adapter is missing.
unavailable :
    (register_agent parse watcher none (new_runtime parse [] [])).1 ≡ new_runtime parse [] []
unfolding restore_agents register_agent validate_agent_spec spec_issues get_capability capabilities
    validate_runtime_capabilities check_step runtime_from_registry get_entry capability_exists
unavailable = refl

register_agent-ready_example : is_unready (adapter_error "denied") ≡ false
unfolding restore_agents register_agent validate_agent_spec spec_issues
    validate_runtime_capabilities check_step runtime_from_registry get_entry capability_exists
    get_capability capabilities run_approved approved_if validate_agent_inputs missing_inputs lookup
    if_fresh proposal_steps run_one require_adapter execute_step resolve_step_inputs resolve_entries
    resolve_binding given_input lookup_output by_mode read_part propose_part attempt proposes
    merge_diffs after_proposals write_steps write_slice paired lookup_binding add_execution
    add_written write_part write_approved perform_write ask finish_writes diff_sha256 hex hex_text
    lane
register_agent-ready_example =
    register_agent-ready parse watcher none (new_runtime parse registry []) "a1"
      (fresh_agent watcher none) stringify denied given "run-1" 7 approved idle
      (adapter_error "denied") refl refl refl
