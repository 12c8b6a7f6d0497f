-- ===== src/Audit/Links.antt =====
-- The walk along the links of a chain (packages/db/src/audit.ts).
use maman_agent.Prelude.{
  same_codes→≡, ◌≡◌, refl, ap, ◌∙◌, true, List, [], ◌∷◌, ◌++◌, arith, Bool-cases, inl, inr, ℕ,
  Option, none, some, same_codes, same_codes_refl,
}
use maman_agent.Audit.Tables.{AuditDeps, AuditRow, linked}
use maman_agent.Audit.Chain.{same_hash, check_links, hash_audit_event, event_of_row}

pub same_hash→≡ : (p q : Option (List ℕ)) → same_hash p q ≡ true → p ≡ q
same_hash→≡ none none h = refl
same_hash→≡ (some a) (some b) h = ap some (same_codes→≡ a b h)
same_hash→≡ none (some b) h = absurd (ground arith)
same_hash→≡ (some a) none h = absurd (ground arith)

pub same_hash_refl : (p : Option (List ℕ)) → same_hash p p ≡ true
same_hash_refl none = refl
same_hash_refl (some a) = same_codes_refl a

module _ (deps : AuditDeps) where
  -- The row links to the hash before it, and its own hash is that of its event.
  pub record IsLink (previous : Option (List ℕ)) (row : AuditRow) : Type 0 where
    pub link : row.previous_event_hash ≡ previous
    pub hash : hash_audit_event deps previous (event_of_row deps row) ≡ row.event_hash

  check_links-link :
      (p : Option (List ℕ)) (r : AuditRow) (rest : List AuditRow)
      → IsLink p r
      → check_links deps p (r ∷ rest) ≡ check_links deps (some r.event_hash) rest
  check_links-link p r rest k =
      rw (k.link, same_hash_refl p, k.hash, same_codes_refl r.event_hash) refl

  pub check_links-linked :
      (p q : Option (List ℕ)) (r : AuditRow) (rest : List AuditRow)
      → check_links deps p (r ∷ rest) ≡ linked q
      → IsLink p r × (check_links deps (some r.event_hash) rest ≡ linked q)
  check_links-linked p q r rest h = elim (Bool-cases (same_hash r.previous_event_hash p)) [
    | inr e ↦ absurd (ground arith)
    | inl e ↦
        elim (Bool-cases
          (same_codes (hash_audit_event deps p (event_of_row deps r)) r.event_hash)) [
            | inr f ↦ absurd (ground arith)
            | inl f ↦ (
              record {
                link = same_hash→≡ r.previous_event_hash p e;
                hash = same_codes→≡ (hash_audit_event deps p (event_of_row deps r)) r.event_hash f;
              },
              ground arith,
            )
          ]
  ]

  -- A chain goes on with a row that links to its end.
  pub check_links-append :
      (p q : Option (List ℕ)) (rows : List AuditRow) (r : AuditRow)
      → check_links deps p rows ≡ linked q
      → IsLink q r
      → check_links deps p (rows ++ r ∷ []) ≡ linked (some r.event_hash)
  check_links-append p q [] r h k =
      let same : p ≡ q = cc in let k' : IsLink p r = rw same k in check_links-link p r [] k'
  check_links-append p q (x ∷ rows) r h k =
      let (first, rest) = check_links-linked p q x rows h in
      check_links-link p x (rows ++ r ∷ []) first
      ∙ check_links-append (some x.event_hash) q rows r rest k
