-- ===== src/Lib.antt =====
-- Maman: observed workflows become agents, and agents run under policy, shadow mode and approvals.
--
-- Each component of the TypeScript packages has a module named for it, whose children hold its
-- theorems and whose `Examples` hold tests and instances.
--
-- - Contracts, AgentInputs: the types of agents and runs (packages/contracts/src/agent-spec.ts, run.ts)
--   and the check of a run's inputs (packages/agent-runtime/src/agent-inputs.ts,
--   `validateAgentInputs` is `validate_agent_inputs`).
-- - Catalog, Policy: the capability catalog (packages/capability-catalog/src/metadata.ts) and the
--   policy engine over it (packages/policy-engine/src/risk.ts, evaluate.ts, org-policy.ts):
--   `classifyStepRisk`, `approvalRequirement`, `evaluateStep` and `evaluateSpec` under the same names.
-- - Workflow: the durable run (packages/agent-runtime/src/workflow.ts). The variables of
--   `agentRunWorkflow` are the record `Vars`, an await is one question to a `World`, and each part of
--   the body between two decisions is a function; `agent_run_workflow` puts them together.
-- - Actuator: supervised browser actions (packages/browser-actuator/src/resolve.ts, authorize.ts,
--   plan.ts, verify.ts and execute.ts): `resolveRequest`, `authorizeIssue`, `planBrowserWrites`,
--   `summarizePlan`, `planRevert`, `verifyWrite` and `executeBrowserPlan` under the same names; a
--   change's `from` and `record` are quoted names. `lower_case` and `origin_of` stand for the
--   platform's `toLowerCase` and URL parser.
-- - Router: the choice of the lane that performs a step (packages/capability-router/src/router.ts,
--   types.ts): `routeStep` is `route_step`, `eligible` is `obstacle`, `scoreRoute` is `score_route`, an
--   exact integer where the source has a double.
-- - Engine: the local run engine (packages/agent-runtime/src/run-engine.ts, local-runtime.ts and
--   adapters.ts): `executeStep`, `runShadow`, `runApproved` and `diffSha256` under the same names, and the
--   check of a runtime before a run (runtime-capabilities.ts): `validateRuntimeCapabilities`. Each
--   call of an adapter is answered by a `World`, by its number, and logged; JSON.stringify is the
--   parameter `stringify`. The agents of `LocalAgentRuntime` are an association list: its
--   constructor is `new_runtime`, `registerAgent` is `register_agent`, `setEnabled` is `switch_agent`,
--   and `handleContext` is `handle_context`, which logs what it fires. The clock, asked by the number of
--   its reading, and zod's `parse` are parameters.
-- - Validator: the static validation of a spec (packages/agent-runtime/src/validator.ts):
--   `validateAgentSpec` and `minCronIntervalMinutes` under the same names, and `looksLikeSecret`
--   (packages/contracts/src/common.ts) with a matcher for its regular expressions.
-- - Mesh: the lifecycle of an agent (packages/agent-runtime/src/mesh-lifecycle.ts).
-- - Comparison: shadow runs against what the user did (packages/agent-runtime/src/shadow.ts), whose
--   counts the lifecycle asks for: `compareShadowRun` and `promotionReadiness` under the same names.
-- - Pattern: the segmentation of observed events into episodes
--   (packages/pattern-engine/src/segmentation.ts): `segmentEpisodes` is `segment_episodes`; `parse` stands
--   for Date.parse.
-- - Pet: the pet's statechart (apps/desktop/src/pet/machine.ts), the plans of its states and the frame
--   scheduler (atlas.ts, scheduler.ts): `planForState` and each method of `FrameScheduler` under the
--   same names, with the live timers as part of the state; `onFrame` does not call the scheduler back.
-- - Similarity: the similarity and the clusters of episodes (packages/pattern-engine/src/similarity.ts):
--   `sequenceSimilarity`, `minhashSignature`, `candidatePairs`, `passesSanityChecks` and
--   `clusterEpisodes` under the same names. Weights are in twentieths and similarities exact
--   fractions, where the source has doubles; the loop that merges clusters has fuel for as many rounds
--   as there are clusters, each of which takes one away.
-- - Audit: the hash chain of audit events (packages/contracts/src/audit.ts, packages/db/src/audit.ts):
--   `canonicalAuditJson`, `appendAuditEventTx` and `verifyAuditChain` under the same names, over the
--   rows of both tables. SHA-256, the columns of the database and zod's formats are `AuditDeps`. The
--   time of an event is any text, and need not be as `toISOString` prints its instant. Ids are in lower
--   case, no key of the metadata is an array index, and a number is its printed text.
-- - Prelude: shared names, Boolean list functions, texts as code points, and the stable sort.
-- - Samples: an agent that the examples share.
--
-- The validator checks a spec, and the policy engine decides it, before a run; the workflow asks it
-- again before each write through an activity, whose answer is the `World`'s. The catalog is what
-- the policy engine looks up. The actuator's plan is what a person approves; each of its actions is
-- then authorized, if the router chose the browser, sent, resolved in the page, and its answer
-- verified. The local run engine runs the same steps on a device, with adapters in place of
-- activities; whether its registry of adapters has what an agent needs is checked against the
-- catalog when it is registered, after the validator.
--
-- Numbers are natural numbers; money is in whole units of a fixed fraction of a dollar. Loops run
-- over lists or count down what is left; only the merging of clusters takes fuel. Temporal, the
-- activities of the worker, xstate and zod are not modelled: the first two are the `World`,
-- xstate's documented rules are the reading of the statechart, and values are taken as their
-- schemas leave them.
--
-- Not modelled: the compilers of agents, the scoring of patterns, the ROI engine, domain packs,
-- teach mode, connectors, the database but for the audit chain, the HTTP server, the user
-- interfaces, and the Swift and Rust parts.
pub mod Prelude
pub mod Router
pub mod Pattern
pub mod Pet
pub mod Engine
pub mod Audit
pub mod Similarity
pub mod Validator
pub mod Comparison
pub mod Mesh
pub mod Contracts
pub mod Catalog
pub mod Policy
pub mod AgentInputs
pub mod Workflow
pub mod Actuator
pub mod Samples
