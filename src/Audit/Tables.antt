-- ===== src/Audit/Tables.antt =====
-- The rows of the audit tables, the environment, and the answers of a verification
-- (packages/db/src/audit.ts).
use maman_agent.Prelude.{ℕ, Bool, String, Option, List}
use maman_agent.Audit.{AuditActorType, AuditOutcome, MetaValue}

pub record AuditInput : Type 0 where
  pub id : Option String
  pub organization_id : String
  pub actor_type : AuditActorType
  pub actor_id : String
  pub action : String
  pub resource_type : String
  pub resource_id : Option String
  pub outcome : AuditOutcome
  pub reason_code : Option String
  pub metadata : List (String × MetaValue)
  pub request_id : Option String
  pub occurred_at : Option String

-- A row of `audit_events`; the time is the instant that the column holds.
pub record AuditRow : Type 0 where
  pub id : String
  pub organization_id : String
  pub actor_type : AuditActorType
  pub actor_id : String
  pub action : String
  pub resource_type : String
  pub resource_id : Option String
  pub outcome : AuditOutcome
  pub reason_code : Option String
  pub metadata : List (String × MetaValue)
  pub request_id : Option String
  pub occurred_at : ℕ
  pub previous_event_hash : Option (List ℕ)
  pub event_hash : List ℕ

-- A row of `audit_chain_heads`.
pub record ChainHead : Type 0 where
  pub organization_id : String
  pub latest_event_id : Option String
  pub latest_event_hash : Option (List ℕ)

pub record AuditStore : Type 0 where
  pub events : List AuditRow
  pub heads : List ChainHead

pub record AuditDeps : Type 0 where
  -- the hexadecimal SHA-256 of a text
  pub sha256 : List ℕ → List ℕ
  -- the instant that a timestamp column holds for a text, and `toISOString()` of it
  pub instant : String → ℕ
  pub to_iso_string : ℕ → String
  -- the place of a uuid in the order of its column
  pub id_rank : String → ℕ
  pub is_uuid : String → Bool
  pub is_utc_timestamp : String → Bool

pub data BreakReason : Type 0 where
  hash_mismatch broken_link head_mismatch missing_head : BreakReason

pub data ChainVerification : Type 0 where
  valid : (event_count : ℕ) → ChainVerification
  invalid :
      (event_count : ℕ) (first_invalid_event_id : Option String) (reason : BreakReason)
      → ChainVerification

pub data LinkCheck : Type 0 where
  linked : Option (List ℕ) → LinkCheck
  broken : String → BreakReason → LinkCheck
