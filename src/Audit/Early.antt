-- ===== src/Audit/Early.antt =====
-- Events that are appended out of the order of time (packages/db/src/audit.ts).
use maman_agent.Prelude.{
  ◌≡◌, refl, sym, ap, ◌∙◌, false, List, [], ◌∷◌, ◌++◌, arith, All, inl, inr, ℕ, suc, none, some,
  String, length, List-cases,
}
use maman_agent.Audit.{AuditEvent}
use maman_agent.Audit.Tables.{
  AuditDeps, AuditRow, AuditInput, AuditStore, linked, valid, invalid, broken_link,
}
use maman_agent.Audit.Chain.{
  append_audit_event_tx, next_row, rows_of, find_head, latest_hash, chain_rows, check_links,
  verify_audit_chain, conclude, comes_first, order_rows,
}
use mathlib.Core.Path.{subst}
use maman_agent.Audit.Append.{append-inserts, store_event-own}
use maman_agent.Audit.Sorting.{order_rows-first, length-order_rows}
use maman_agent.Audit.History.{check_links-some}
use maman_agent.Audit.Tamper.{verify_audit_chain-valid}

module _ (deps : AuditDeps) where
  -- A chain that verifies with an event ends in some hash.
  head_hash :
      (org : String) (s : AuditStore) (n : ℕ)
      → verify_audit_chain deps org s ≡ valid (suc n)
      → (hash : List ℕ) × (latest_hash (find_head org s.heads) ≡ some hash)
  unfolding verify_audit_chain
  head_hash org s n h = elim (List-cases (chain_rows deps org s)) [
    | inl e ↦
        let none_left : valid 0 ≡ valid (suc n) =
          subst
            (λ rows.
              conclude (length rows) (check_links deps none rows) (find_head org s.heads)
              ≡ valid (suc n))
            e h in
        absurd (ground arith)
    | inr (r, rest, e) ↦
        let q = latest_hash (find_head org s.heads) in
        check_links-some deps none q r rest (
          subst (λ rows. check_links deps none rows ≡ linked q) e
            (verify_audit_chain-valid deps org s n h))
  ]

  verify-unlinked :
      (org : String) (s : AuditStore) (r : AuditRow) (rest : List AuditRow) (hash : List ℕ)
      → chain_rows deps org s ≡ r ∷ rest
      → r.previous_event_hash ≡ some hash
      → verify_audit_chain deps org s
        ≡ invalid (length (chain_rows deps org s)) (some r.id) broken_link
  unfolding verify_audit_chain
  verify-unlinked org s r rest hash e k =
      subst
        (λ rows.
          conclude (length rows) (check_links deps none rows) (find_head org s.heads)
          ≡ invalid (length rows) (some r.id) broken_link)
        (sym e) (rw k refl)

  -- An event that is appended to a chain that verifies, with an event at least, and whose time or id
  -- stands before those of all its events, makes the untouched chain fail: `broken_link` at that event.
  pub append-early :
      (new_id now : String) (input : AuditInput) (s after : AuditStore) (e : AuditEvent) (n : ℕ)
      → verify_audit_chain deps e.organization_id s ≡ valid (suc n)
      → append_audit_event_tx deps new_id now input s ≡ some (e, after)
      → All
          (λ x. comes_first deps x (next_row deps e s) ≡ false)
          (rows_of e.organization_id s.events)
      → verify_audit_chain deps e.organization_id after
        ≡ invalid (length (rows_of e.organization_id after.events)) (some e.id) broken_link
  append-early new_id now input s after e n h made early =
      let org = e.organization_id in
      let row = next_row deps e s in
      let result = (append-inserts deps new_id now input s after e made).1 in
      let own : rows_of org after.events ≡ rows_of org s.events ++ row ∷ [] =
        ap (λ x. rows_of org x.events) result ∙ store_event-own deps e s in
      let first : chain_rows deps org after ≡ row ∷ chain_rows deps org s =
        ap (order_rows deps) own ∙ order_rows-first deps row (rows_of org s.events) early in
      let (hash, k) = head_hash org s n h in
      verify-unlinked org after row (chain_rows deps org s) hash first k
      ∙ ap (λ m. invalid m (some e.id) broken_link)
          (length-order_rows deps (rows_of org after.events))
