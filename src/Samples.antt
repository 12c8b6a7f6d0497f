-- ===== src/Samples.antt =====
-- Concrete agents for the tests of the policy and of the runs.
use maman_agent.Prelude.{true, false, none, some, [], ◌∷◌}
use maman_agent.Contracts.{
  AgentSpec, AgentStep, manual, user, internal, file_reference, agent_input, step_output, low,
  medium, read, propose_write, write, retry_safe,
}

-- A step that reads the account list it is given.
abbrev pub read_step : AgentStep
read_step = record {
  step_id = "s1";
  order = 1;
  name = "Read the accounts";
  capability_id = "local.parse_csv";
  capability_version = 1;
  mode = read;
  inputs = ("file", agent_input "account_csv") ∷ [];
  output_key = "rows";
  risk_level = low;
  approval = record { required = false; reason = none };
  retry = record { allowed = true; max_attempts = 3; backoff_seconds = 1 ∷ 5 ∷ [] };
}

abbrev pub propose_step : AgentStep
propose_step = record read_step {
  step_id = "s2";
  order = 2;
  name = "Propose updates";
  capability_id = "salesforce.propose_field_updates";
  mode = propose_write;
  inputs = ("rows", step_output "rows") ∷ [];
  output_key = "diff";
}

abbrev pub write_step : AgentStep
write_step = record read_step {
  step_id = "s3";
  order = 3;
  name = "Update fields";
  capability_id = "salesforce.update_fields";
  mode = write;
  inputs = ("diff", step_output "diff") ∷ [];
  output_key = "done";
  risk_level = medium;
  approval = record { required = true; reason = some "writes to Salesforce" };
}

abbrev pub reconcile : AgentSpec
reconcile = record {
  agent_id = "a1";
  version_id = "v1";
  name = "Reconcile accounts";
  trigger = manual;
  inputs =
      record {
        key = "account_csv";
        label = "Account list";
        type = file_reference;
        required = true;
        sensitivity = internal;
        source = user;
        source_ref = none;
      }
      ∷ [];
  steps = write_step ∷ read_step ∷ propose_step ∷ [];
  budgets = record {
    max_runtime_seconds = 600;
    max_model_tokens = 1000;
    max_cost_usd = 2;
    max_records_read = 100;
    max_records_written = 20;
  };
  failure_policy = record {
    on_tool_failure = retry_safe;
    max_safe_retries = 2;
    approval_timeout_minutes = 1440;
  };
}
