-- ===== src/Engine/Cooldown.antt =====
-- Between two firings of one agent (packages/agent-runtime/src/local-runtime.ts, `handleContext`).
use maman_agent.Prelude.{
  ◌∙◌, ℕ, ◌≡◌, true, false, String, ◌===◌, ===→≡, ≡→===, Option, some, none, List, [], ◌∷◌, All,
  Memᴰ, Bool-cases, if◌then◌else◌, inl, inr, sym, arith, refl, ◌⊎◌,
}
use maman_agent.Contracts.{AgentTrigger, context}
use maman_agent.Validator.Laws.{AllDistinct}
use maman_agent.Engine.Agents.{WorkflowContext, RegisteredAgent, Fired, Effects}
use maman_agent.Engine.Triggers.{
  is_cool, cooldown_of, trigger_due, is_due, fire_effects, fire_agents,
}
use maman_agent.Engine.Held.{keys}
use mathlib.Core.Path.{subst}

-- The instant of the last firing of a key, in a log with the last firing first.
abbrev pub last_stamp : String → List Fired → Option ℕ
last_stamp k [] = none
last_stamp k (f ∷ log) = let rest = last_stamp k log in if f.key === k then some f.stamp else rest

-- Each firing of the key found its agent cool after the firing before.
abbrev pub IsSpaced : String → List Fired → Type 0
IsSpaced k [] = Unit
IsSpaced k (f ∷ earlier) =
    (f.key ≡ k → is_cool (last_stamp k earlier) f.start (cooldown_of f.firing.trigger) ≡ true)
    × IsSpaced k earlier

-- The agent of the key remembers its last firing, if it has fired.
abbrev pub IsRemembered : String → Option ℕ → String × RegisteredAgent → Type 0
IsRemembered k o e = e.0 ≡ k → (o ≡ none) ⊎ (o ≡ e.1.last_triggered_at)

elsewhere :
    (k : String) (o : Option ℕ) (agents : List (String × RegisteredAgent))
    → ¬ Memᴰ k (keys agents)
    → All (IsRemembered k o) agents
elsewhere k o [] n = tt
elsewhere k o (e ∷ es) n =
    ((λ same. absurd (n (Memᴰ.head (sym same)))), elsewhere k o es (λ m. n (Memᴰ.tail m)))

after_one :
    (k key : String) (s : ℕ) (o : Option ℕ) (agents : List (String × RegisteredAgent))
    → ¬ Memᴰ key (keys agents)
    → All (IsRemembered k o) agents
    → All (IsRemembered k (if key === k then some s else o)) agents
after_one k key s o agents n h = elim (Bool-cases (key === k)) [
  | inl e ↦
      rw e (elsewhere k (some s) agents (subst (λ j. ¬ Memᴰ j (keys agents)) (===→≡ key k e) n))
  | inr e ↦ rw e h
]

due_trigger :
    (t : AgentTrigger) (ctx : WorkflowContext) (last : Option ℕ) (start : ℕ)
    → trigger_due t ctx last start ≡ true
    → is_cool last start (cooldown_of t) ≡ true
due_trigger (context app object origin seconds) ctx last start h = ground arith
due_trigger _ ctx last start h = absurd (ground arith)

due_cool :
    (ctx : WorkflowContext) (start : ℕ) (a : RegisteredAgent)
    → is_due ctx start a ≡ true
    → is_cool a.last_triggered_at start (cooldown_of a.spec.trigger) ≡ true
due_cool ctx start a h = due_trigger a.spec.trigger ctx a.last_triggered_at start (ground arith)

cool_after :
    (o last : Option ℕ) (start cooldown : ℕ)
    → (o ≡ none) ⊎ (o ≡ last)
    → is_cool last start cooldown ≡ true
    → is_cool o start cooldown ≡ true
cool_after o last start cooldown (inl e) h = rw e refl
cool_after o last start cooldown (inr e) h = rw e h

module _ (clock : ℕ → ℕ) (k : String) where
  others_fire :
      (ctx : WorkflowContext) (start : ℕ) (agents : List (String × RegisteredAgent)) (fx : Effects)
      → ¬ Memᴰ k (keys agents)
      → last_stamp k ((fire_agents clock ctx start agents fx).effects.log) ≡ last_stamp k fx.log
  unfolding fire_agents
  others_fire ctx start [] fx n = refl
  others_fire ctx start ((key, a) ∷ rest) fx n =
      let fired = fire_effects clock ctx start key a fx in
      let apart : ¬ Memᴰ k (keys rest) = λ m. n (Memᴰ.tail m) in
      let other : key === k ≡ false = elim (Bool-cases (key === k)) [
        | inl same ↦ absurd (n (Memᴰ.head (sym (===→≡ key k same))))
        | inr other ↦ other
      ] in
      let kept : last_stamp k fired.log ≡ last_stamp k fx.log = rw other refl in
      elim (Bool-cases (is_due ctx start a)) [
        | inl e ↦ rw e (others_fire ctx start rest fired apart ∙ kept)
        | inr e ↦ rw e (others_fire ctx start rest fx apart)
      ]

  pub fire_agents-IsRemembered :
      (ctx : WorkflowContext) (start : ℕ) (agents : List (String × RegisteredAgent)) (fx : Effects)
      → AllDistinct (keys agents)
      → All (IsRemembered k (last_stamp k fx.log)) agents
      → All
          (IsRemembered k (last_stamp k ((fire_agents clock ctx start agents fx).effects.log)))
          ((fire_agents clock ctx start agents fx).agents)
  unfolding fire_agents
  fire_agents-IsRemembered ctx start [] fx d h = tt
  fire_agents-IsRemembered ctx start ((key, a) ∷ rest) fx (n, d) (h, hs) =
      let fired = fire_effects clock ctx start key a fx in
      elim (Bool-cases (is_due ctx start a)) [
        | inl e ↦ rw e (
          (λ same.
              let apart : ¬ Memᴰ k (keys rest) = subst (λ j. ¬ Memᴰ j (keys rest)) same n in
              let yes = ≡→=== key k same in
              let mine : last_stamp k fired.log ≡ some (clock fx.reads) = rw yes refl in
              inr (others_fire ctx start rest fired apart ∙ mine)),
          fire_agents-IsRemembered ctx start rest fired d
              (after_one k key (clock fx.reads) (last_stamp k fx.log) rest n hs),
        )
        | inr e ↦ rw e (
          (λ same.
              let apart : ¬ Memᴰ k (keys rest) = subst (λ j. ¬ Memᴰ j (keys rest)) same n in
              elim (h same) [
                | inl nothing ↦ inl (others_fire ctx start rest fx apart ∙ nothing)
                | inr last ↦ inr (others_fire ctx start rest fx apart ∙ last)
              ]),
          fire_agents-IsRemembered ctx start rest fx d hs,
        )
      ]

  pub fire_agents-IsSpaced :
      (ctx : WorkflowContext) (start : ℕ) (agents : List (String × RegisteredAgent)) (fx : Effects)
      → AllDistinct (keys agents)
      → All (IsRemembered k (last_stamp k fx.log)) agents
      → IsSpaced k fx.log
      → IsSpaced k ((fire_agents clock ctx start agents fx).effects.log)
  unfolding fire_agents
  fire_agents-IsSpaced ctx start [] fx d h s = s
  fire_agents-IsSpaced ctx start ((key, a) ∷ rest) fx (n, d) (h, hs) s =
      let fired = fire_effects clock ctx start key a fx in
      elim (Bool-cases (is_due ctx start a)) [
        | inl e ↦ rw e (
            fire_agents-IsSpaced ctx start rest fired d
              (after_one k key (clock fx.reads) (last_stamp k fx.log) rest n hs)
              (
                (λ same.
                    cool_after (last_stamp k fx.log) a.last_triggered_at start
                      (cooldown_of a.spec.trigger) (h same) (due_cool ctx start a e)),
                s,
              ))
        | inr e ↦ rw e (fire_agents-IsSpaced ctx start rest fx d hs s)
      ]
