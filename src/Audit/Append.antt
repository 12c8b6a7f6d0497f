-- ===== src/Audit/Append.antt =====
-- What an append changes (packages/db/src/audit.ts): the rows and the head of its organization only.
use maman_agent.Prelude.{
  ◌≡◌, refl, sym, ap, ◌∙◌, false, List, [], ◌∷◌, ◌++◌, arith, Bool-cases, inl, inr, if◌then◌else◌,
  ℕ, none, some, String, ◌===◌, ===→≡, ≡→===, filter-append, map, Option-cases, append-nil, any,
  ◌&&◌, not,
}
use maman_agent.Audit.{AuditEvent}
use maman_agent.Audit.Tables.{AuditDeps, AuditInput, AuditStore, ChainHead}
use maman_agent.Audit.Chain.{
  append_audit_event_tx, fill_event, audit_event_schema, store_event, next_row, rows_of, find_head,
  latest_hash, ensure_head, advance_head,
}

module _ (org id : String) (hash : List ℕ) where
  advance_head-new :
      (hs : List ChainHead)
      → latest_hash (
          find_head org (
            map (advance_head org id hash) (
              hs
              ++ record { organization_id = org; latest_event_id = none; latest_event_hash = none }
                ∷ [])))
        ≡ some hash
  advance_head-new [] = rw (≡→=== org org refl) (rw (≡→=== org org refl) refl)
  advance_head-new (h ∷ hs) = elim (Bool-cases (h.organization_id === org)) [
    | inl e ↦ rw e (rw e refl)
    | inr e ↦ rw e (rw e (advance_head-new hs))
  ]

  advance_head-found :
      (hs : List ChainHead) (head : ChainHead)
      → find_head org hs ≡ some head
      → latest_hash (find_head org (map (advance_head org id hash) hs)) ≡ some hash
  advance_head-found [] head h = absurd (ground arith)
  advance_head-found (x ∷ hs) head h = elim (Bool-cases (x.organization_id === org)) [
    | inl e ↦ rw e (rw e refl)
    | inr e ↦ rw e (rw e (advance_head-found hs head (ground arith)))
  ]

  pub advance_head-latest :
      (hs : List ChainHead)
      → latest_hash
          (find_head org (map (advance_head org id hash) (ensure_head org (find_head org hs) hs)))
        ≡ some hash
  advance_head-latest hs = elim (Option-cases (find_head org hs)) [
    | inl e ↦ rw e (advance_head-new hs)
    | inr (head, e) ↦ rw e (advance_head-found hs head e)
  ]

  -- An update of one organization's head leaves the search for another's as it was.
  advance_head-other :
      (other : String) (hs : List ChainHead)
      → (org === other) ≡ false
      → find_head other (map (advance_head org id hash) hs) ≡ find_head other hs
  advance_head-other other [] k = refl
  advance_head-other other (h ∷ hs) k = elim (Bool-cases (h.organization_id === org)) [
    | inl e ↦
        let same : h.organization_id ≡ org = ===→≡ h.organization_id org e in
        let miss : (h.organization_id === other) ≡ false = rw same k in
        rw e (rw miss (advance_head-other other hs k))
    | inr e ↦ rw e (
        ap (λ rest. if h.organization_id === other then some h else rest)
          (advance_head-other other hs k))
  ]

  ensure-other :
      (other : String) (hs : List ChainHead)
      → (org === other) ≡ false
      → find_head other (ensure_head org (find_head org hs) hs) ≡ find_head other hs
  ensure-other other hs k = elim (Option-cases (find_head org hs)) [
    | inl e ↦ rw e (added hs)
    | inr (head, e) ↦ rw e refl
  ]
    where
      added :
          (xs : List ChainHead)
          → find_head other (
              xs
              ++ record { organization_id = org; latest_event_id = none; latest_event_hash = none }
                ∷ [])
            ≡ find_head other xs
      added [] = rw k refl
      added (x ∷ xs) = ap (λ rest. if x.organization_id === other then some x else rest) (added xs)

  pub advance_head-foreign :
      (other : String) (hs : List ChainHead)
      → (org === other) ≡ false
      → find_head other (map (advance_head org id hash) (ensure_head org (find_head org hs) hs))
        ≡ find_head other hs
  advance_head-foreign other hs k =
      advance_head-other other (ensure_head org (find_head org hs) hs) k ∙ ensure-other other hs k

module _ (deps : AuditDeps) where
  -- A successful append inserts its event: the schema accepts it, and no row had its id.
  pub append-inserts :
      (new_id now : String) (input : AuditInput) (store after : AuditStore) (e : AuditEvent)
      → append_audit_event_tx deps new_id now input store ≡ some (e, after)
      → (e ≡ fill_event new_id now input) × (after ≡ store_event deps e store)
  unfolding append_audit_event_tx
  append-inserts new_id now input store after e h =
      elim (Bool-cases (
        audit_event_schema deps (fill_event new_id now input)
        && not (any (λ r. r.id === (fill_event new_id now input).id) store.events))) [
          | inl c ↦
              let event = fill_event new_id now input in
              let made : AuditEvent × AuditStore = (event, store_event deps event store) in
              let result : some made ≡ some (e, after) = ground arith in
              let pair : made ≡ (e, after) = cc in
              let first : e ≡ event = sym (ap (λ p. p.0) pair) in
              (first, sym (ap (λ p. p.1) pair) ∙ ap (λ x. store_event deps x store) (sym first))
          | inr c ↦ absurd (ground arith)
        ]

  -- The rows of the event's own organization, and those of another.
  pub store_event-own :
      (e : AuditEvent) (store : AuditStore)
      → rows_of e.organization_id (store_event deps e store).events
        ≡ rows_of e.organization_id store.events ++ next_row deps e store ∷ []
  store_event-own e store =
      filter-append (λ r. r.organization_id === e.organization_id) store.events
        (next_row deps e store ∷ [])
      ∙ rw (≡→=== e.organization_id e.organization_id refl) refl

  pub store_event-foreign :
      (other : String) (e : AuditEvent) (store : AuditStore)
      → (e.organization_id === other) ≡ false
      → rows_of other (store_event deps e store).events ≡ rows_of other store.events
  store_event-foreign other e store h =
      filter-append (λ r. r.organization_id === other) store.events (next_row deps e store ∷ [])
      ∙ rw h (append-nil (rows_of other store.events))
