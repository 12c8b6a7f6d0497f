-- ===== src/Audit/Examples.antt =====
-- A log of two organizations, with times and hashes that compute.
use maman_agent.Prelude.{
  ℕ, List, Memᴰ, sym, ◌∙◌, ◌++◌, ◌≡◌, refl, true, [], ◌∷◌, none, some, String, ◌===◌, map,
  if◌then◌else◌, codes, length, ◌==◌,
}
use maman_agent.Audit.{AuditEvent, canonical_audit_json, user, success, text, number}
use maman_agent.Audit.Tables.{
  AuditDeps, AuditInput, AuditStore, valid, invalid, broken_link, hash_mismatch, missing_head,
  head_mismatch, AuditRow,
}
use maman_agent.Audit.Chain.{
  append_audit_event_tx, store_event, event_of_row, chain_rows, verify_audit_chain, fill_event,
}
use maman_agent.Audit.History.{IsHistory, empty_log, own, foreign, verify_audit_chain-appended}
use maman_agent.Audit.Tamper.{AreTold, row_text, verify_audit_chain-evident}
use maman_agent.Audit.Early.{append-early}
use maman_agent.Engine.Digest.{diff_sha256, diff_sha256-digits, hex, hex_text, lane}

abbrev noon : String
noon = "2026-05-01T12:00:00.000Z"

abbrev later : String
later = "2026-05-01T12:00:01.000Z"

abbrev deps : AuditDeps
deps = record {
  sha256 = diff_sha256;
  instant = λ t. if t === noon then 1 else 2;
  to_iso_string = λ n. if n == 1 then noon else later;
  id_rank = λ id. length (codes id);
  is_uuid = λ _. true;
  is_utc_timestamp = λ _. true;
}

abbrev input : AuditInput
input = record {
  id = none;
  organization_id = "org";
  actor_type = user;
  actor_id = "u1";
  action = "agent.publish";
  resource_type = "agent";
  resource_id = some "a\"1";
  outcome = success;
  reason_code = none;
  metadata = ("steps", number "3") ∷ ("kind", text "x") ∷ [];
  request_id = none;
  occurred_at = none;
}

abbrev first_event : AuditEvent
first_event = fill_event "1" noon input

abbrev second_event : AuditEvent
second_event = fill_event "333" later input

abbrev other_event : AuditEvent
other_event = fill_event "22" noon (record input { organization_id = "other" })

abbrev empty_store : AuditStore
empty_store = record { events = []; heads = [] }

abbrev one_event : AuditStore
one_event = store_event deps first_event empty_store

abbrev two_orgs : AuditStore
two_orgs = store_event deps other_event one_event

abbrev two_events : AuditStore
two_events = store_event deps second_event two_orgs

-- The canonical text sorts the keys, those of the metadata too, and escapes the quotation mark.
canonical_text :
    canonical_audit_json first_event
    ≡ codes
        "{\"action\":\"agent.publish\",\"actor_id\":\"u1\",\"actor_type\":\"user\",\"id\":\"1\",\"metadata\":{\"kind\":\"x\",\"steps\":3},\"occurred_at\":\"2026-05-01T12:00:00.000Z\",\"organization_id\":\"org\",\"outcome\":\"success\",\"resource_id\":\"a\\\"1\",\"resource_type\":\"agent\"}"
unfolding canonical_audit_json hex hex_text
canonical_text = refl

first-IsHistory : IsHistory deps "org" one_event (first_event ∷ [])
unfolding append_audit_event_tx
first-IsHistory = own "1" noon input first_event empty_log refl refl tt

second-IsHistory : IsHistory deps "org" two_events (first_event ∷ second_event ∷ [])
unfolding append_audit_event_tx
second-IsHistory =
    own "333" later input second_event
      (foreign "22" noon (record input { organization_id = "other" }) other_event first-IsHistory
        refl refl)
      refl refl (refl, tt)

verify_audit_chain-appended_example :
    (verify_audit_chain deps "org" two_events ≡ valid 2)
    × (map (event_of_row deps) (chain_rows deps "org" two_events) ≡ first_event ∷ second_event ∷ [])
verify_audit_chain-appended_example =
    verify_audit_chain-appended deps "org" second-IsHistory (refl, (refl, tt))

two_orgs-valid : verify_audit_chain deps "org" two_orgs ≡ valid 1
unfolding verify_audit_chain canonical_audit_json diff_sha256 hex hex_text lane
two_orgs-valid = refl

one_event-valid : verify_audit_chain deps "org" one_event ≡ valid 1
unfolding verify_audit_chain canonical_audit_json diff_sha256 hex hex_text lane
one_event-valid = refl

-- Both logs hash the one text of the organization.
told_alike : (u : List ℕ) → AreTold diff_sha256 (u ∷ u ∷ [])
told_alike u x y m k same = only x m ∙ sym (only y k)
  where
    only : (z : List ℕ) → Memᴰ z (u ∷ u ∷ []) → z ≡ u
    only z (Memᴰ.head e) = e
    only z (Memᴰ.tail (Memᴰ.head e)) = e
    only z (Memᴰ.tail (Memᴰ.tail m)) = elim m [ ]

verify_audit_chain-evident_example :
    map (row_text deps) (chain_rows deps "org" one_event)
    ≡ map (row_text deps) (chain_rows deps "org" two_orgs)
verify_audit_chain-evident_example =
    verify_audit_chain-evident deps "org" one_event two_orgs 0 0 diff_sha256-digits
      (told_alike (codes "" ++ canonical_audit_json first_event)) one_event-valid two_orgs-valid
      refl

-- An event of the same instant, whose id stands before the first one's.
abbrev early_event : AuditEvent
early_event = fill_event "" noon input

abbrev early_store : AuditStore
early_store = store_event deps early_event one_event

early_appended :
    append_audit_event_tx deps "" noon input one_event ≡ some (early_event, early_store)
unfolding append_audit_event_tx
early_appended = refl

append-early_example : verify_audit_chain deps "org" early_store ≡ invalid 2 (some "") broken_link
append-early_example =
    append-early deps "" noon input one_event early_store early_event 0 one_event-valid
      early_appended (refl, tt)

-- A row that was changed, a head that is missing, and one that is not that of the last row.
abbrev rename : AuditRow → AuditRow
rename r = record r { action = "agent.delete" }

abbrev renamed : AuditStore
renamed = record one_event { events = map rename one_event.events }

detected :
    (verify_audit_chain deps "org" renamed ≡ invalid 1 (some "1") hash_mismatch)
    × (verify_audit_chain deps "org" (record one_event { heads = [] })
        ≡ invalid 1 none missing_head)
    × (verify_audit_chain deps "org" (record two_events { events = one_event.events })
        ≡ invalid 1 none head_mismatch)
    × (verify_audit_chain deps "org" (record two_events { events = [] }) ≡ valid 0)
unfolding verify_audit_chain canonical_audit_json diff_sha256 hex hex_text lane
detected = (refl, refl, refl, refl)

-- A time without a fraction of a second is hashed as it is written, and read back with one.
abbrev one_instant : AuditDeps
one_instant = record deps { instant = λ _. 1 }

abbrev short_event : AuditEvent
short_event = fill_event "1" noon (record input { occurred_at = some "2026-05-01T12:00:00Z" })

short_time :
    verify_audit_chain one_instant "org" (store_event one_instant short_event empty_store)
    ≡ invalid 1 (some "1") hash_mismatch
unfolding verify_audit_chain canonical_audit_json diff_sha256 hex hex_text lane
short_time = refl
