-- ===== src/Engine/Triggers.antt =====
-- What wakes the agents of the local runtime, and its operations
-- (packages/agent-runtime/src/local-runtime.ts, `handleContext`). The clock is asked by the number of
-- its reading; parsing by zod is a parameter.
use maman_agent.Prelude.{
  ℕ, suc, ◌+◌, ◌*◌, ltb, ◌==◌, ◌===◌, if◌then◌else◌, Bool, true, false, not, ◌&&◌, String, codes,
  same_codes, has_prefix, List, [], ◌∷◌, ◌++◌, Option, none, some,
}
use maman_agent.Contracts.{AgentSpec, AgentTrigger, context}
use maman_agent.Validator.Check.{Parsed}
use maman_agent.Engine.Local.{Registry}
use maman_agent.Engine.Ready.{get_entry}
use maman_agent.Engine.Agents.{
  delete_agent, switch_agent, register_agent, WorkflowContext, RegisteredAgent, TriggerFiring,
  Effects, Runtime,
}

abbrev until_slash : List ℕ → List ℕ
until_slash [] = []
until_slash (c ∷ cs) = let rest = until_slash cs in if c == b'/' then [] else c ∷ rest

abbrev drop_codes : List ℕ → List ℕ → List ℕ
drop_codes text [] = text
drop_codes [] (_ ∷ _) = []
drop_codes (_ ∷ text) (_ ∷ part) = drop_codes text part

abbrev https : List ℕ
https = codes "https://"

-- The host of an origin, in code points.
abbrev pub host_of : String → List ℕ
host_of origin =
    let text = codes origin in
    until_slash (if has_prefix text https then drop_codes text https else text)

-- The origin is the selector if both sides know one, and the category of the application otherwise.
abbrev pub at_place : Option String → String → WorkflowContext → Option String → Bool
at_place (some origin) app ctx (some domain) = same_codes (host_of origin) (codes domain)
at_place (some origin) app ctx none = app === ctx.app_category
at_place none app ctx domain = app === ctx.app_category

abbrev pub on_object : Option String → WorkflowContext → Bool
on_object none ctx = true
on_object (some object) ctx = object === ctx.object_type

-- `nowMs - last >= cooldown`, or the agent was never triggered.
abbrev pub is_cool : Option ℕ → ℕ → ℕ → Bool
is_cool none now cooldown_ms = true
is_cool (some last) now cooldown_ms = not (ltb now (last + cooldown_ms))

abbrev pub cooldown_of : AgentTrigger → ℕ
cooldown_of (context app object origin seconds) = seconds * 1000
cooldown_of _ = 0

abbrev pub trigger_due : AgentTrigger → WorkflowContext → Option ℕ → ℕ → Bool
trigger_due (context app object origin seconds) ctx last now =
    at_place origin app ctx ctx.domain && on_object object ctx && is_cool last now (seconds * 1000)
trigger_due _ ctx last now = false

abbrev pub is_due : WorkflowContext → ℕ → RegisteredAgent → Bool
is_due ctx now a = a.enabled && trigger_due a.spec.trigger ctx a.last_triggered_at now

-- The rest of the loop's round for one agent, and what the loop leaves.
pub record Sweep : Type 0 where
  pub agents : List (String × RegisteredAgent)
  pub effects : Effects
  pub firings : List TriggerFiring

abbrev pub firing_of : WorkflowContext → RegisteredAgent → TriggerFiring
firing_of ctx a = record {
  agent_id = a.spec.agent_id;
  agent_name = a.spec.name;
  trigger = a.spec.trigger;
  context = ctx;
}

module _ (clock : ℕ → ℕ) where
  abbrev pub stamped : Effects → RegisteredAgent → RegisteredAgent
  stamped fx a = record a { last_triggered_at = some (clock fx.reads) }

  abbrev pub fire_effects : WorkflowContext → ℕ → String → RegisteredAgent → Effects → Effects
  fire_effects ctx start key a fx = record {
    reads = suc fx.reads;
    log =
        record { key = key; firing = firing_of ctx a; start = start; stamp = clock fx.reads }
        ∷ fx.log;
    changed = fx.changed ++ stamped fx a ∷ [];
  }

  abbrev pub put_agent : String → RegisteredAgent → List TriggerFiring → Sweep → Sweep
  put_agent key a fs sweep = record {
    agents = (key, a) ∷ sweep.agents;
    effects = sweep.effects;
    firings = fs ++ sweep.firings;
  }

  unfoldable pub fire_agents :
      WorkflowContext → ℕ → List (String × RegisteredAgent) → Effects → Sweep
  fire_agents ctx start [] fx = record { agents = []; effects = fx; firings = [] }
  fire_agents ctx start ((key, a) ∷ rest) fx =
      let due = is_due ctx start a in
      let later =
        fire_agents ctx start rest (if due then fire_effects ctx start key a fx else fx) in
      if due
      then put_agent key (stamped fx a) (firing_of ctx a ∷ []) later
      else put_agent key a [] later

  unfoldable pub handle_context : WorkflowContext → Runtime → Runtime × List TriggerFiring
  handle_context ctx rt =
      let fx = rt.effects in
      let sweep = fire_agents ctx (clock fx.reads) rt.agents (record fx { reads = suc fx.reads }) in
      (
        record { registry = rt.registry; agents = sweep.agents; effects = sweep.effects },
        sweep.firings,
      )

abbrev unregister_agent : String → Runtime → Runtime
unregister_agent id rt = record rt { agents = delete_agent id rt.agents }

-- `replaceRegistry`.
abbrev swap_registry : Registry → Runtime → Runtime
swap_registry registry rt = record rt { registry = registry }

-- The calls of the runtime that change it.
pub data RuntimeOperation : Type 0 where
  register : AgentSpec → Option Bool → RuntimeOperation
  unregister : String → RuntimeOperation
  set_enabled : String → Bool → RuntimeOperation
  replace_registry : Registry → RuntimeOperation
  saw_context : WorkflowContext → RuntimeOperation

module _ (clock : ℕ → ℕ) (parse : AgentSpec → Parsed) where
  unfoldable pub operate_runtime : RuntimeOperation → Runtime → Runtime
  operate_runtime (register spec enabled) rt = (register_agent parse spec enabled rt).1
  operate_runtime (unregister id) rt = unregister_agent id rt
  operate_runtime (set_enabled id b) rt = switch_agent id b rt (get_entry id rt.agents)
  operate_runtime (replace_registry registry) rt = swap_registry registry rt
  operate_runtime (saw_context ctx) rt = (handle_context clock ctx rt).0

  unfoldable pub operate_runtime_all : List RuntimeOperation → Runtime → Runtime
  operate_runtime_all [] rt = rt
  operate_runtime_all (o ∷ os) rt = operate_runtime_all os (operate_runtime o rt)
