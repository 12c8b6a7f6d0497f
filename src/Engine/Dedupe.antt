-- ===== src/Engine/Dedupe.antt =====
-- The cooldown of an agent over the operations of the runtime
-- (packages/agent-runtime/src/local-runtime.ts, `handleContext`).
use maman_agent.Prelude.{
  ℕ, suc, ◌≤◌, ◌+◌, ◌≡◌, Bool, true, false, String, ◌===◌, ===→≡, ≡→===, Option, some, none, List,
  [], ◌∷◌, ◌++◌, All, Bool-cases, inl, inr, sym, arith, refl, not,
}
use maman_agent.Contracts.{AgentSpec}
use maman_agent.Validator.Check.{Parsed, ValidationResult, valid, invalid, validate_agent_spec}
use maman_agent.Engine.Local.{Registry}
use maman_agent.Engine.Ready.{
  MissingCapability, validate_runtime_capabilities, runtime_from_registry, get_entry,
}
use maman_agent.Engine.Agents.{
  RegisteredAgent, Fired, Effects, Runtime, set_agent, delete_agent, update_agent, register_ready,
  register_valid, set_switch, switch_agent, register_agent, fresh_agent, new_runtime,
}
use maman_agent.Engine.Triggers.{
  is_cool, cooldown_of, handle_context, RuntimeOperation, register, unregister, set_enabled,
  replace_registry, saw_context, operate_runtime, operate_runtime_all,
}
use maman_agent.Engine.Held.{IsHeld}
use maman_agent.Engine.Registration.{operate_runtime-IsHeld, operate_runtime_all-IsHeld}
use maman_agent.Engine.Cooldown.{
  last_stamp, IsSpaced, IsRemembered, fire_agents-IsSpaced, fire_agents-IsRemembered,
}
use mathlib.Core.Path.{subst}

-- The operation does not register the key.
abbrev pub spares : String → RuntimeOperation → Bool
spares k (register spec enabled) = not (spec.agent_id === k)
spares k _ = true

set-IsRemembered :
    (k id : String) (o : Option ℕ) (a : RegisteredAgent) (agents : List (String × RegisteredAgent))
    → id === k ≡ false
    → All (IsRemembered k o) agents
    → All (IsRemembered k o) (set_agent id a agents)
set-IsRemembered k id o a [] n h =
    ((λ same. let yes = ≡→=== id k same in absurd (ground arith)), tt)
set-IsRemembered k id o a ((key, b) ∷ rest) n (h, hs) = elim (Bool-cases (key === id)) [
  | inl e ↦ rw e (
    (λ same.
        let yes = ≡→=== key k same in
        let one = ===→≡ key id e in absurd (ground (arith, n, yes, one))),
    hs,
  )
  | inr e ↦ rw e (h, set-IsRemembered k id o a rest n hs)
]

delete-IsRemembered :
    (k id : String) (o : Option ℕ) (agents : List (String × RegisteredAgent))
    → All (IsRemembered k o) agents
    → All (IsRemembered k o) (delete_agent id agents)
delete-IsRemembered k id o [] h = tt
delete-IsRemembered k id o ((key, b) ∷ rest) (h, hs) =
    let held = delete-IsRemembered k id o rest hs in
    elim (Bool-cases (key === id)) [ inl e ↦ rw e held | inr e ↦ rw e (h, held) ]

switched :
    (k id : String) (o : Option ℕ) (b : Bool) (agents : List (String × RegisteredAgent))
    → All (IsRemembered k o) agents
    → All (IsRemembered k o) (update_agent id (set_switch b) agents)
switched k id o b [] h = tt
switched k id o b ((key, a) ∷ rest) (h, hs) =
    let held = switched k id o b rest hs in
    elim (Bool-cases (key === id)) [ inl e ↦ rw e (h, held) | inr e ↦ rw e (h, held) ]

-- What the runtime keeps for the agent of a key.
abbrev IsQuiet : String → Runtime → Type 0
IsQuiet k rt =
    All (IsRemembered k (last_stamp k rt.effects.log)) rt.agents × IsSpaced k rt.effects.log

register_ready-IsQuiet :
    (k id : String) (spec : AgentSpec) (enabled : Option Bool) (rt : Runtime)
    (ms : List MissingCapability)
    → id === k ≡ false
    → IsQuiet k rt
    → IsQuiet k ((register_ready id spec enabled rt ms).1)
register_ready-IsQuiet k id spec enabled rt [] n (r, s) = (
  set-IsRemembered k id (last_stamp k rt.effects.log) (fresh_agent spec enabled) rt.agents n r,
  s,
)
register_ready-IsQuiet k id spec enabled rt (m ∷ ms) n h = h

register_valid-IsQuiet :
    (k id : String) (enabled : Option Bool) (rt : Runtime) (v : ValidationResult)
    → id === k ≡ false
    → IsQuiet k rt
    → IsQuiet k ((register_valid id enabled rt v).1)
register_valid-IsQuiet k id enabled rt (invalid issues) n h = h
register_valid-IsQuiet k id enabled rt (valid spec) n h =
    register_ready-IsQuiet k id spec enabled rt
      (validate_runtime_capabilities spec.steps (runtime_from_registry rt.registry [])) n h

switch-IsQuiet :
    (k id : String) (b : Bool) (rt : Runtime) (a : Option RegisteredAgent)
    → IsQuiet k rt
    → IsQuiet k (switch_agent id b rt a)
switch-IsQuiet k id b rt none h = h
switch-IsQuiet k id b rt (some a) (r, s) =
    (switched k id (last_stamp k rt.effects.log) b rt.agents r, s)

module _ (clock : ℕ → ℕ) (parse : AgentSpec → Parsed) (k : String) where
  operate_runtime-IsQuiet :
      (o : RuntimeOperation) (rt : Runtime)
      → spares k o ≡ true
      → IsHeld rt.agents
      → IsQuiet k rt
      → IsQuiet k (operate_runtime clock parse o rt)
  unfolding operate_runtime register_agent handle_context
  operate_runtime-IsQuiet (register spec enabled) rt n held h =
      register_valid-IsQuiet k spec.agent_id enabled rt (validate_agent_spec (parse spec))
        (ground arith) h
  operate_runtime-IsQuiet (unregister id) rt n held (r, s) =
      (delete-IsRemembered k id (last_stamp k rt.effects.log) rt.agents r, s)
  operate_runtime-IsQuiet (set_enabled id b) rt n held h =
      switch-IsQuiet k id b rt (get_entry id rt.agents) h
  operate_runtime-IsQuiet (replace_registry registry) rt n held h = h
  operate_runtime-IsQuiet (saw_context ctx) rt n (sound, apart) (r, s) =
      let fx : Effects = record rt.effects { reads = suc rt.effects.reads } in
      let start = clock rt.effects.reads in
      (
        fire_agents-IsRemembered clock k ctx start rt.agents fx apart r,
        fire_agents-IsSpaced clock k ctx start rt.agents fx apart r s,
      )

  kept_apart :
      (os : List RuntimeOperation) (rt : Runtime)
      → All (λ o. spares k o ≡ true) os
      → IsHeld rt.agents
      → IsQuiet k rt
      → IsSpaced k ((operate_runtime_all clock parse os rt).effects.log)
  unfolding operate_runtime_all
  kept_apart [] rt n held (r, s) = s
  kept_apart (o ∷ os) rt (n, ns) held h =
      kept_apart os (operate_runtime clock parse o rt) ns
        (operate_runtime-IsHeld clock parse o rt held) (operate_runtime-IsQuiet o rt n held h)

unfired : (k : String) (agents : List (String × RegisteredAgent)) → All (IsRemembered k none) agents
unfired k [] = tt
unfired k (e ∷ es) = ((λ _. inl refl), unfired k es)

unfired_log : (k : String) (log : List Fired) → last_stamp k log ≡ none → IsSpaced k log
unfired_log k [] h = tt
unfired_log k (f ∷ log) h = elim (Bool-cases (f.key === k)) [
  | inl e ↦ absurd (ground (arith, h, e))
  | inr e ↦ (
    (λ same. let yes = ≡→=== f.key k same in absurd (ground (arith, e, yes))),
    unfired_log k log (ground (arith, h, e)),
  )
]

found :
    (k : String) (later : List Fired) (f : Fired) (earlier : List Fired)
    → IsSpaced k (later ++ f ∷ earlier)
    → f.key ≡ k
    → is_cool (last_stamp k earlier) f.start (cooldown_of f.firing.trigger) ≡ true
found k [] f earlier (h, hs) same = h same
found k (g ∷ later) f earlier (h, hs) same = found k later f earlier hs same

-- If the agent of a key has not fired before, and some operations do not register that key, then each
-- of its firings in these operations that follows another starts no earlier than the cooldown of its
-- trigger after the instant stored at the firing before it, however the clock runs.
pub operate_runtime_all-cooldown :
    (clock : ℕ → ℕ) (parse : AgentSpec → Parsed) (registry : Registry)
    (saved : List RegisteredAgent) (before os : List RuntimeOperation) (later earlier : List Fired)
    (f : Fired) (t : ℕ)
    → last_stamp f.key
        ((operate_runtime_all clock parse before (new_runtime parse registry saved)).effects.log)
      ≡ none
    → All (λ o. spares f.key o ≡ true) os
    → (operate_runtime_all clock parse os
        (operate_runtime_all clock parse before (new_runtime parse registry saved))).effects.log
      ≡ later ++ f ∷ earlier
    → last_stamp f.key earlier ≡ some t
    → t + cooldown_of f.firing.trigger ≤ f.start
operate_runtime_all-cooldown clock parse registry saved before os later earlier f t fresh spared log
      last =
    let rt = operate_runtime_all clock parse before (new_runtime parse registry saved) in
    let held = operate_runtime_all-IsHeld clock parse registry saved before in
    let remembered =
      subst (λ o. All (IsRemembered f.key o) rt.agents) (sym fresh) (unfired f.key rt.agents) in
    let spaced =
      kept_apart clock parse f.key os rt spared held
        (remembered, unfired_log f.key rt.effects.log fresh) in
    let cool = found f.key later f earlier (subst (λ l. IsSpaced f.key l) log spaced) refl in
    let open_again : is_cool (some t) f.start (cooldown_of f.firing.trigger) ≡ true =
      subst (λ o. is_cool o f.start (cooldown_of f.firing.trigger) ≡ true) last cool in
    ground arith
