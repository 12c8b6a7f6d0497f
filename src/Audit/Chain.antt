-- ===== src/Audit/Chain.antt =====
-- The tables of the audit chain and their operations (packages/db/src/audit.ts). SHA-256, the columns
-- of the database and the checks of zod are parameters.
use maman_agent.Prelude.{
  ℕ, zero, suc, ltb, leb, ◌==◌, ◌===◌, if◌then◌else◌, Bool, true, false, ◌||◌, ◌&&◌, not, String,
  Option, none, some, List, [], ◌∷◌, ◌++◌, same_codes, find, filter, any, length, map, is_empty,
  codes,
}
use maman_agent.Audit.Tables.{
  AuditInput, AuditRow, ChainHead, AuditStore, AuditDeps, ChainVerification, LinkCheck,
  hash_mismatch, broken_link, head_mismatch, missing_head, valid, invalid, linked, broken,
}
use maman_agent.Audit.{AuditEvent, canonical_audit_json}

abbrev pub or_empty : Option (List ℕ) → List ℕ
or_empty none = []
or_empty (some hash) = hash

abbrev pub same_hash : Option (List ℕ) → Option (List ℕ) → Bool
same_hash none none = true
same_hash (some a) (some b) = same_codes a b
same_hash _ _ = false

abbrev pub or_else : Option String → String → String
or_else none fallback = fallback
or_else (some value) _ = value

-- `input` with an id and a time, where it has none.
abbrev pub fill_event : (new_id now : String) → AuditInput → AuditEvent
fill_event new_id now input = record {
  id = or_else input.id new_id;
  organization_id = input.organization_id;
  actor_type = input.actor_type;
  actor_id = input.actor_id;
  action = input.action;
  resource_type = input.resource_type;
  resource_id = input.resource_id;
  outcome = input.outcome;
  reason_code = input.reason_code;
  metadata = input.metadata;
  request_id = input.request_id;
  occurred_at = or_else input.occurred_at now;
}

abbrev pub is_filled : String → Bool
is_filled s = not (is_empty (codes s))

abbrev pub find_head : String → List ChainHead → Option ChainHead
find_head org heads = find (λ h. h.organization_id === org) heads

abbrev pub latest_hash : Option ChainHead → Option (List ℕ)
latest_hash none = none
latest_hash (some head) = head.latest_event_hash

abbrev pub ensure_head : String → Option ChainHead → List ChainHead → List ChainHead
ensure_head org none heads =
    heads ++ record { organization_id = org; latest_event_id = none; latest_event_hash = none } ∷ []
ensure_head org (some head) heads = heads

abbrev pub advance_head : String → String → List ℕ → ChainHead → ChainHead
advance_head org id hash head =
    if head.organization_id === org
    then record head { latest_event_id = some id; latest_event_hash = some hash }
    else head

abbrev pub rows_of : String → List AuditRow → List AuditRow
rows_of org rows = filter (λ r. r.organization_id === org) rows

abbrev pub check_head : ℕ → Option (List ℕ) → Option ChainHead → ChainVerification
check_head zero previous head = valid 0
check_head (suc n) previous none = invalid (suc n) none missing_head
check_head (suc n) previous (some head) =
    if same_hash head.latest_event_hash previous
    then valid (suc n)
    else invalid (suc n) none head_mismatch

abbrev pub conclude : ℕ → LinkCheck → Option ChainHead → ChainVerification
conclude n (linked previous) head = check_head n previous head
conclude n (broken id reason) head = invalid n (some id) reason

module _ (deps : AuditDeps) where
  abbrev pub hash_audit_event : Option (List ℕ) → AuditEvent → List ℕ
  hash_audit_event previous event = deps.sha256 (or_empty previous ++ canonical_audit_json event)

  -- `auditEventSchema.parse`
  abbrev pub audit_event_schema : AuditEvent → Bool
  audit_event_schema e =
      deps.is_uuid e.id
      && deps.is_uuid e.organization_id
      && is_filled e.actor_id
      && is_filled e.action
      && is_filled e.resource_type
      && deps.is_utc_timestamp e.occurred_at

  abbrev pub row_of_event : AuditEvent → Option (List ℕ) → List ℕ → AuditRow
  row_of_event e previous hash = record {
    id = e.id;
    organization_id = e.organization_id;
    actor_type = e.actor_type;
    actor_id = e.actor_id;
    action = e.action;
    resource_type = e.resource_type;
    resource_id = e.resource_id;
    outcome = e.outcome;
    reason_code = e.reason_code;
    metadata = e.metadata;
    request_id = e.request_id;
    occurred_at = deps.instant e.occurred_at;
    previous_event_hash = previous;
    event_hash = hash;
  }

  abbrev pub event_of_row : AuditRow → AuditEvent
  event_of_row r = record {
    id = r.id;
    organization_id = r.organization_id;
    actor_type = r.actor_type;
    actor_id = r.actor_id;
    action = r.action;
    resource_type = r.resource_type;
    resource_id = r.resource_id;
    outcome = r.outcome;
    reason_code = r.reason_code;
    metadata = r.metadata;
    request_id = r.request_id;
    occurred_at = deps.to_iso_string r.occurred_at;
  }

  -- The row that the store appends for an event, and the store after it.
  abbrev pub next_row : AuditEvent → AuditStore → AuditRow
  next_row e store =
      let previous = latest_hash (find_head e.organization_id store.heads) in
      row_of_event e previous (hash_audit_event previous e)

  abbrev pub store_event : AuditEvent → AuditStore → AuditStore
  store_event e store =
      let head = find_head e.organization_id store.heads in
      let row = next_row e store in
      record {
        events = store.events ++ row ∷ [];
        heads =
            map (advance_head e.organization_id e.id row.event_hash)
              (ensure_head e.organization_id head store.heads);
      }

  -- `none` is an error, which rolls the transaction back: the schema's, or that of the primary key.
  unfoldable pub append_audit_event_tx :
      (new_id now : String) → AuditInput → AuditStore → Option (AuditEvent × AuditStore)
  append_audit_event_tx new_id now input store =
      let event = fill_event new_id now input in
      if audit_event_schema event && not (any (λ r. r.id === event.id) store.events)
      then some (event, store_event event store)
      else none

  -- ORDER BY occurred_at ASC, id ASC
  abbrev pub comes_first : AuditRow → AuditRow → Bool
  comes_first r s =
      ltb r.occurred_at s.occurred_at
      || r.occurred_at == s.occurred_at && leb (deps.id_rank r.id) (deps.id_rank s.id)

  abbrev pub insert_row : AuditRow → List AuditRow → List AuditRow
  insert_row r [] = r ∷ []
  insert_row r (s ∷ ss) =
      let later = s ∷ insert_row r ss in if comes_first r s then r ∷ s ∷ ss else later

  abbrev pub order_rows : List AuditRow → List AuditRow
  order_rows [] = []
  order_rows (r ∷ rs) = insert_row r (order_rows rs)

  abbrev pub chain_rows : String → AuditStore → List AuditRow
  chain_rows org store = order_rows (rows_of org store.events)

  abbrev pub check_links : Option (List ℕ) → List AuditRow → LinkCheck
  check_links previous [] = linked previous
  check_links previous (row ∷ rest) =
      let later = check_links (some row.event_hash) rest in
      if same_hash row.previous_event_hash previous
      then if same_codes (hash_audit_event previous (event_of_row row)) row.event_hash
        then later
        else broken row.id hash_mismatch
      else broken row.id broken_link

  unfoldable pub verify_audit_chain : String → AuditStore → ChainVerification
  verify_audit_chain org store =
      let rows = chain_rows org store in
      conclude (length rows) (check_links none rows) (find_head org store.heads)
