-- ===== src/Audit/History.antt =====
-- Histories of the audit log (packages/db/src/audit.ts): appends to the chain of one organization, in
-- the order of time, among appends to the chains of others.
use maman_agent.Prelude.{
  ◌≡◌, refl, ap, ◌∙◌, true, false, List, [], ◌∷◌, ◌++◌, All, inl, inr, ℕ, suc, Option, none, some,
  String, ◌===◌, length, List-cases, map, sym, map-append, length-map,
}
use maman_agent.Audit.{AuditEvent}
use maman_agent.Audit.Tables.{AuditDeps, AuditRow, AuditInput, AuditStore, linked, valid, ChainHead}
use maman_agent.Audit.Chain.{
  append_audit_event_tx, store_event, next_row, row_of_event, event_of_row, rows_of, find_head,
  latest_hash, chain_rows, check_links, verify_audit_chain, check_head, comes_first, order_rows,
  hash_audit_event,
}
use maman_agent.Audit.Append.{
  advance_head-latest, store_event-own, store_event-foreign, append-inserts, advance_head-foreign,
}
use maman_agent.Audit.Sorting.{order_rows-last}
use maman_agent.Audit.Links.{IsLink, check_links-append, check_links-linked, same_hash_refl}
use mathlib.Core.Path.{subst}

module _ (deps : AuditDeps) where
  -- The rows of an organization are a chain that ends in its head.
  abbrev pub IsSound : String → AuditStore → Type 0
  IsSound org s =
      check_links deps none (chain_rows deps org s) ≡ linked (latest_hash (find_head org s.heads))

  -- The time of an event is written as `toISOString` prints it.
  abbrev pub IsPrinted : AuditEvent → Type 0
  IsPrinted e = deps.to_iso_string (deps.instant e.occurred_at) ≡ e.occurred_at

  event_of_row-row_of_event :
      (e : AuditEvent) (p : Option (List ℕ)) (h : List ℕ)
      → IsPrinted e
      → event_of_row deps (row_of_event deps e p h) ≡ e
  event_of_row-row_of_event e p h k = ap (λ t. record e { occurred_at = t }) k

  next_row-IsLink :
      (e : AuditEvent) (s : AuditStore)
      → IsPrinted e
      → IsLink deps (latest_hash (find_head e.organization_id s.heads)) (next_row deps e s)
  next_row-IsLink e s k =
      let q = latest_hash (find_head e.organization_id s.heads) in
      record {
        link = refl;
        hash =
            ap (hash_audit_event deps q)
              (event_of_row-row_of_event e q (hash_audit_event deps q e) k);
      }

  -- Every row of the event's organization is read before the event's row.
  abbrev pub ComesLast : AuditEvent → AuditStore → Type 0
  ComesLast e s =
      All (λ x. comes_first deps x (next_row deps e s) ≡ true) (rows_of e.organization_id s.events)

  chain_rows-own :
      (e : AuditEvent) (s : AuditStore)
      → ComesLast e s
      → chain_rows deps e.organization_id (store_event deps e s)
        ≡ chain_rows deps e.organization_id s ++ next_row deps e s ∷ []
  chain_rows-own e s h =
      ap (order_rows deps) (store_event-own deps e s)
      ∙ order_rows-last deps (next_row deps e s) (rows_of e.organization_id s.events) h

  store_event-IsSound :
      (e : AuditEvent) (s : AuditStore)
      → IsSound e.organization_id s
      → ComesLast e s
      → IsPrinted e
      → IsSound e.organization_id (store_event deps e s)
  store_event-IsSound e s sound last printed =
      let row = next_row deps e s in
      rw
        (chain_rows-own e s last, advance_head-latest e.organization_id e.id row.event_hash s.heads)
        (check_links-append deps none (latest_hash (find_head e.organization_id s.heads))
          (chain_rows deps e.organization_id s) row sound (next_row-IsLink e s printed))

  pub check_links-some :
      (p q : Option (List ℕ)) (r : AuditRow) (rest : List AuditRow)
      → check_links deps p (r ∷ rest) ≡ linked q
      → (h : List ℕ) × (q ≡ some h)
  check_links-some p q r [] h =
      let end = (check_links-linked deps p q r [] h).1 in (r.event_hash, cc)
  check_links-some p q r (x ∷ rest) h =
      check_links-some (some r.event_hash) q x rest (check_links-linked deps p q r (x ∷ rest) h).1

  check_head-valid :
      (n : ℕ) (q : Option (List ℕ)) (h : List ℕ) (head : Option ChainHead)
      → latest_hash head ≡ q
      → q ≡ some h
      → check_head (suc n) q head ≡ valid (suc n)
  check_head-valid n q h none e k = cc
  check_head-valid n q h (some head) e k = rw (e, same_hash_refl q) refl

  pub IsSound-verify :
      (org : String) (s : AuditStore)
      → IsSound org s
      → verify_audit_chain deps org s ≡ valid (length (chain_rows deps org s))
  unfolding verify_audit_chain
  IsSound-verify org s sound = rw sound (elim (List-cases (chain_rows deps org s)) [
    | inl e ↦ rw e refl
    | inr (r, rest, e) ↦
        let q = latest_hash (find_head org s.heads) in
        let linked_rest : check_links deps none (r ∷ rest) ≡ linked q =
          subst (λ rows. check_links deps none rows ≡ linked q) e sound in
        let (h, k) = check_links-some none q r rest linked_rest in
        rw e (check_head-valid (length rest) q h (find_head org s.heads) refl k)
  ])

  -- A store that appends led to, with the events of the organization in their order.
  pub data IsHistory (org : String) : AuditStore → List AuditEvent → Type 0 where
    empty_log : IsHistory org (record { events = []; heads = [] }) []
    own :
        {s after : AuditStore} {es : List AuditEvent} (new_id now : String) (input : AuditInput)
        (e : AuditEvent)
        → IsHistory org s es
        → append_audit_event_tx deps new_id now input s ≡ some (e, after)
        → e.organization_id ≡ org
        → ComesLast e s
        → IsHistory org after (es ++ e ∷ [])
    foreign :
        {s after : AuditStore} {es : List AuditEvent} (new_id now : String) (input : AuditInput)
        (e : AuditEvent)
        → IsHistory org s es
        → append_audit_event_tx deps new_id now input s ≡ some (e, after)
        → (e.organization_id === org) ≡ false
        → IsHistory org after es

module _ (deps : AuditDeps) where
  -- The chain is sound, and its rows read back as the events.
  record Recorded (org : String) (s : AuditStore) (es : List AuditEvent) : Type 0 where
    sound : IsSound deps org s
    read : map (event_of_row deps) (chain_rows deps org s) ≡ es

  Recorded-own :
      (e : AuditEvent) (s : AuditStore) (es : List AuditEvent)
      → Recorded e.organization_id s es
      → IsPrinted deps e
      → ComesLast deps e s
      → Recorded e.organization_id (store_event deps e s) (es ++ e ∷ [])
  Recorded-own e s es k printed last = record {
    sound = store_event-IsSound deps e s k.sound last printed;
    read =
        let q = latest_hash (find_head e.organization_id s.heads) in
        let back : event_of_row deps (next_row deps e s) ≡ e =
          event_of_row-row_of_event deps e q (hash_audit_event deps q e) printed in
        ap (map (event_of_row deps)) (chain_rows-own deps e s last)
        ∙ map-append (event_of_row deps) (chain_rows deps e.organization_id s)
            (next_row deps e s ∷ [])
        ∙ rw (k.read, back) refl;
  }

  Recorded-foreign :
      (org : String) (e : AuditEvent) (s : AuditStore) (es : List AuditEvent)
      → Recorded org s es
      → (e.organization_id === org) ≡ false
      → Recorded org (store_event deps e s) es
  Recorded-foreign org e s es k other =
      let row = next_row deps e s in
      let rows : chain_rows deps org (store_event deps e s) ≡ chain_rows deps org s =
        ap (order_rows deps) (store_event-foreign deps org e s other) in
      record {
        sound =
            rw (rows, advance_head-foreign e.organization_id e.id row.event_hash org s.heads other)
              k.sound;
        read = rw rows k.read;
      }

  before_last :
      (es : List AuditEvent) (e : AuditEvent)
      → All (IsPrinted deps) (es ++ e ∷ [])
      → All (IsPrinted deps) es × IsPrinted deps e
  before_last [] e (p, h) = (tt, p)
  before_last (x ∷ es) e (p, h) = let (ps, q) = before_last es e h in ((p, ps), q)

  IsHistory-Recorded :
      (org : String) {s : AuditStore} {es : List AuditEvent}
      → IsHistory deps org s es
      → All (IsPrinted deps) es
      → Recorded org s es
  IsHistory-Recorded org empty_log ps = record { sound = refl; read = refl }
  IsHistory-Recorded org (own {s} {after} {es} new_id now input e h made mine last) ps =
      let (before_ps, printed) = before_last es e ps in
      let result = append-inserts deps new_id now input s after e made in
      let before : Recorded e.organization_id s es =
        subst (λ o. Recorded o s es) (sym mine) (IsHistory-Recorded org h before_ps) in
      rw (result.1, ← mine) (Recorded-own e s es before printed last)
  IsHistory-Recorded org (foreign {s} {after} {es} new_id now input e h made other) ps =
      let result = append-inserts deps new_id now input s after e made in
      rw result.1 (Recorded-foreign org e s es (IsHistory-Recorded org h ps) other)

  -- After appends in the order of time, whatever other organizations append between them, and if the
  -- time of each event of the organization is written the way `toISOString` prints its instant, the
  -- chain of the organization verifies with the number of its events, and its rows read back as those
  -- events in their order.
  pub verify_audit_chain-appended :
      (org : String) {s : AuditStore} {es : List AuditEvent}
      → IsHistory deps org s es
      → All (IsPrinted deps) es
      → (verify_audit_chain deps org s ≡ valid (length es))
        × (map (event_of_row deps) (chain_rows deps org s) ≡ es)
  verify_audit_chain-appended org {s} {es} h printed =
      let k = IsHistory-Recorded org h printed in
      let size : length (chain_rows deps org s) ≡ length es =
        sym (length-map (event_of_row deps) (chain_rows deps org s)) ∙ ap length k.read in
      (IsSound-verify deps org s k.sound ∙ ap valid size, k.read)
