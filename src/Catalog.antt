-- ===== src/Catalog.antt =====
-- The catalog of capabilities (packages/capability-catalog/src/metadata.ts). Required scopes and
-- display names are kept out: no modelled code reads them.
pub mod Laws
use maman_agent.Prelude.{
  ℕ, Bool, true, false, String, ◌===◌, Option, none, some, List, [], ◌∷◌, find,
}
use maman_agent.Contracts.{RiskLevel, low, medium, high, StepMode, read, propose_write, write}

pub data Connector : Type 0 where
  salesforce google_sheets gmail google_calendar browser local : Connector

pub data RetryClass : Type 0 where
  safe unsafe conditional : RetryClass

pub record CapabilityMetadata : Type 0 where
  pub id : String
  pub version : ℕ
  pub connector : Connector
  pub supported_modes : List StepMode
  pub risk_level : RiskLevel
  pub is_idempotent : Bool
  pub retry_class : RetryClass
  pub reversible : Bool

-- `cap` with the defaults of its options.
abbrev cap : String → Connector → List StepMode → RiskLevel → CapabilityMetadata
cap id connector modes risk = record {
  id = id;
  version = 1;
  connector = connector;
  supported_modes = modes;
  risk_level = risk;
  is_idempotent = true;
  retry_class = safe;
  reversible = true;
}

abbrev reads : List StepMode
reads = read ∷ []

abbrev proposes : List StepMode
proposes = propose_write ∷ []

abbrev writes : List StepMode
writes = propose_write ∷ write ∷ []

-- A write with `retry_class: "conditional"`, and `is_idempotent` as given.
abbrev pub write_cap : String → Connector → Bool → CapabilityMetadata
write_cap id connector idem = record (cap id connector writes medium) {
  is_idempotent = idem;
  retry_class = conditional;
}

-- A supervised browser action.
abbrev supervised_cap : String → CapabilityMetadata
supervised_cap id = record (cap id browser writes high) {
  is_idempotent = false;
  retry_class = unsafe;
  reversible = false;
}

unfoldable pub capabilities : List CapabilityMetadata
capabilities =
    cap "salesforce.query_records" salesforce reads low
    ∷ cap "salesforce.get_record" salesforce reads low
    ∷ cap "salesforce.compare_records" salesforce reads low
    ∷ cap "salesforce.propose_upsert" salesforce proposes low
    ∷ write_cap "salesforce.upsert_records" salesforce true
    ∷ cap "salesforce.propose_field_updates" salesforce proposes low
    ∷ write_cap "salesforce.update_fields" salesforce true
    ∷ cap "google_sheets.read_range" google_sheets reads low
    ∷ cap "google_sheets.compare_rows" google_sheets reads low
    ∷ cap "google_sheets.propose_write_range" google_sheets proposes low
    ∷ write_cap "google_sheets.write_range" google_sheets true
    ∷ write_cap "google_sheets.append_rows" google_sheets false
    ∷ cap "gmail.search_metadata" gmail reads low
    ∷ cap "gmail.get_thread_metadata" gmail reads low
    ∷ write_cap "gmail.create_draft" gmail false
    ∷ write_cap "gmail.update_draft" gmail true
    ∷ cap "google_calendar.list_events" google_calendar reads low
    ∷ cap "google_calendar.find_open_slots" google_calendar reads low
    ∷ write_cap "google_calendar.create_event_draft" google_calendar false
    ∷ cap "browser.extract_table" browser reads low
    ∷ cap "browser.extract_structured_fields" browser reads low
    ∷ cap "browser.propose_form_fill" browser proposes low
    ∷ supervised_cap "browser.press_control"
    ∷ supervised_cap "browser.supervised_form_fill"
    ∷ cap "local.parse_csv" local reads low
    ∷ cap "local.match_records" local reads low
    ∷ cap "local.deduplicate_records" local reads low
    ∷ cap "local.transform_columns" local reads low
    ∷ cap "local.generate_csv" local reads low
    ∷ cap "local.generate_summary" local reads low
    ∷ []

-- `byId.get(id)`; the ids are distinct, so the first entry is the only one.
unfoldable pub get_capability : String → Option CapabilityMetadata
unfolding capabilities
get_capability id = find (λ c. c.id === id) capabilities

abbrev is_some : Option CapabilityMetadata → Bool
is_some none = false
is_some (some _) = true

-- `byId.has(id)`.
unfoldable pub capability_exists : String → Bool
capability_exists id = is_some (get_capability id)
