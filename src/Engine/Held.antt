-- ===== src/Engine/Held.antt =====
-- Changes to the list of the agents that are held (packages/agent-runtime/src/local-runtime.ts).
use maman_agent.Prelude.{
  ◌≡◌, String, ◌===◌, List, [], ◌∷◌, map, All, Memᴰ, Bool-cases, inl, inr, sym, arith, refl, ap,
  ≡→===, ◌⊎◌,
}
use maman_agent.Contracts.{AgentSpec}
use maman_agent.Validator.Laws.{AllDistinct, IsSound}
use maman_agent.Engine.Agents.{RegisteredAgent, set_agent, delete_agent, update_agent}
use mathlib.Core.Path.{subst}

-- The spec of each agent is sound, and no two agents have one key.
abbrev pub keys : List (String × RegisteredAgent) → List String
keys agents = map (λ e. e.0) agents

abbrev pub IsHeld : List (String × RegisteredAgent) → Type 0
IsHeld agents = All (λ e. IsSound (e.1.spec)) agents × AllDistinct (keys agents)

later :
    {P : Type 0} (x k : String) (xs ys : List String)
    → (Memᴰ x xs → P ⊎ Memᴰ x ys)
    → Memᴰ x (k ∷ xs)
    → P ⊎ Memᴰ x (k ∷ ys)
later x k xs ys f (Memᴰ.head e) = inr (Memᴰ.head e)
later x k xs ys f (Memᴰ.tail m) = elim (f m) [ inl p ↦ inl p | inr n ↦ inr (Memᴰ.tail n) ]

set-keys :
    (id x : String) (a : RegisteredAgent) (agents : List (String × RegisteredAgent))
    → Memᴰ x (keys (set_agent id a agents))
    → (x ≡ id) ⊎ Memᴰ x (keys agents)
set-keys id x a [] = λ m. elim m [ Memᴰ.head e ↦ inl e | Memᴰ.tail n ↦ inr n ]
set-keys id x a ((k, b) ∷ rest) = elim (Bool-cases (k === id)) [
  | inl e ↦ rw e (λ m. inr m)
  | inr e ↦ rw e (later x k (keys (set_agent id a rest)) (keys rest) (set-keys id x a rest))
]

pub set-IsHeld :
    (id : String) (a : RegisteredAgent) (agents : List (String × RegisteredAgent))
    → IsSound a.spec
    → IsHeld agents
    → IsHeld (set_agent id a agents)
set-IsHeld id a [] h g = ((h, tt), ((λ m. elim m [ ]), tt))
set-IsHeld id a ((k, b) ∷ rest) h ((s, ss), (d, ds)) = elim (Bool-cases (k === id)) [
  | inl e ↦ rw e ((h, ss), (d, ds))
  | inr e ↦
      let (held, apart) = set-IsHeld id a rest h (ss, ds) in
      rw e (
        (s, held),
        (
          (λ m. elim (set-keys id k a rest m) [
            | inl same ↦ let yes = ≡→=== k id same in absurd (ground arith)
            | inr n ↦ d n
          ]),
          apart,
        ),
      )
]

delete-keys :
    (id x : String) (agents : List (String × RegisteredAgent))
    → Memᴰ x (keys (delete_agent id agents))
    → Memᴰ x (keys agents)
delete-keys id x [] = λ m. m
delete-keys id x ((k, b) ∷ rest) = elim (Bool-cases (k === id)) [
  | inl e ↦ rw e (λ m. Memᴰ.tail (delete-keys id x rest m))
  | inr e ↦ rw e (λ m. elim m [
    | Memᴰ.head same ↦ Memᴰ.head same
    | Memᴰ.tail n ↦ Memᴰ.tail (delete-keys id x rest n)
  ])
]

pub delete-IsHeld :
    (id : String) (agents : List (String × RegisteredAgent))
    → IsHeld agents
    → IsHeld (delete_agent id agents)
delete-IsHeld id [] h = h
delete-IsHeld id ((k, b) ∷ rest) ((s, ss), (d, ds)) =
    let (held, apart) = delete-IsHeld id rest (ss, ds) in
    elim (Bool-cases (k === id)) [
      | inl e ↦ rw e (held, apart)
      | inr e ↦ rw e ((s, held), ((λ m. d (delete-keys id k rest m)), apart))
    ]

pub update-keys :
    (id : String) (f : RegisteredAgent → RegisteredAgent) (agents : List (String × RegisteredAgent))
    → keys (update_agent id f agents) ≡ keys agents
update-keys id f [] = refl
update-keys id f ((k, b) ∷ rest) = ap (λ ks. k ∷ ks) (update-keys id f rest)

-- A list with the same keys and specs is held too.
abbrev pub specs : List (String × RegisteredAgent) → List AgentSpec
specs agents = map (λ e. e.1.spec) agents

each_spec :
    (agents : List (String × RegisteredAgent))
    → All IsSound (specs agents)
    → All (λ e. IsSound (e.1.spec)) agents
each_spec [] h = tt
each_spec (e ∷ es) (h, hs) = (h, each_spec es hs)

each_agent :
    (agents : List (String × RegisteredAgent))
    → All (λ e. IsSound (e.1.spec)) agents
    → All IsSound (specs agents)
each_agent [] h = tt
each_agent (e ∷ es) (h, hs) = (h, each_agent es hs)

pub same-IsHeld :
    (xs ys : List (String × RegisteredAgent))
    → keys xs ≡ keys ys
    → specs xs ≡ specs ys
    → IsHeld ys
    → IsHeld xs
same-IsHeld xs ys k s (hs, ds) = (
  each_spec xs (subst (λ ts. All IsSound ts) (sym s) (each_agent ys hs)),
  subst (λ ks. AllDistinct ks) (sym k) ds,
)

update-specs :
    (id : String) (f : RegisteredAgent → RegisteredAgent) (agents : List (String × RegisteredAgent))
    → ((a : RegisteredAgent) → (f a).spec ≡ a.spec)
    → specs (update_agent id f agents) ≡ specs agents
update-specs id f [] h = refl
update-specs id f ((k, b) ∷ rest) h = elim (Bool-cases (k === id)) [
  | inl e ↦ rw e (let one = h b in let more = update-specs id f rest h in cc)
  | inr e ↦ rw e (let more = update-specs id f rest h in cc)
]

pub update-IsHeld :
    (id : String) (f : RegisteredAgent → RegisteredAgent) (agents : List (String × RegisteredAgent))
    → ((a : RegisteredAgent) → (f a).spec ≡ a.spec)
    → IsHeld agents
    → IsHeld (update_agent id f agents)
update-IsHeld id f agents h =
    same-IsHeld (update_agent id f agents) agents (update-keys id f agents)
      (update-specs id f agents h)
