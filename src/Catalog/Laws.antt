-- ===== src/Catalog/Laws.antt =====
-- What the catalog promises of every capability that can be looked up (metadata.ts).
use maman_agent.Prelude.{
  ◌≡◌, ◌≢◌, Bool, true, false, String, ◌===◌, ===→≡, some, find-All, All, arith, any,
}
use maman_agent.Contracts.{RiskLevel, low, prohibited, StepMode, propose_write, is_write}
use maman_agent.Catalog.{CapabilityMetadata, capabilities, get_capability}

abbrev is_propose : StepMode → Bool
is_propose propose_write = true
is_propose _ = false

abbrev is_low : RiskLevel → Bool
is_low low = true
is_low _ = false

-- A capability that writes can also propose and is above low risk; none is prohibited.
abbrev pub IsSafeEntry : CapabilityMetadata → Type 0
IsSafeEntry c =
    (c.risk_level ≢ prohibited)
    × (any is_write c.supported_modes ≡ true
        → (any is_propose c.supported_modes ≡ true) × (c.risk_level ≢ low))

capabilities-IsSafeEntry : All IsSafeEntry capabilities
unfolding capabilities
capabilities-IsSafeEntry = ground arith

-- Whatever id is looked up: the capability found has that id and is not prohibited, and if it
-- supports `write` it also supports `propose_write` and is above low risk.
get_capability-IsSafeEntry :
    (id : String) {c : CapabilityMetadata}
    → get_capability id ≡ some c
    → (c.id ≡ id) × IsSafeEntry c
unfolding get_capability
get_capability-IsSafeEntry id h =
    let (entry, found) =
      find-All IsSafeEntry (λ c. c.id === id) capabilities capabilities-IsSafeEntry h in
    (===→≡ _ id found, entry)
