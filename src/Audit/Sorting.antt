-- ===== src/Audit/Sorting.antt =====
-- Where a new row stands among the rows of its organization (packages/db/src/audit.ts).
use maman_agent.Prelude.{
  ◌≡◌, refl, ap, ◌∙◌, true, false, List, [], ◌∷◌, ◌++◌, arith, All, Bool-cases, inl, inr, length,
  suc,
}
use maman_agent.Audit.Tables.{AuditDeps, AuditRow}
use maman_agent.Audit.Chain.{comes_first, insert_row, order_rows}

module _ (deps : AuditDeps) where
  insert_row-last :
      (x r : AuditRow) (ys : List AuditRow)
      → comes_first deps x r ≡ true
      → insert_row deps x (ys ++ r ∷ []) ≡ insert_row deps x ys ++ r ∷ []
  insert_row-last x r [] h = rw h refl
  insert_row-last x r (y ∷ ys) h = elim (Bool-cases (comes_first deps x y)) [
    | inl e ↦ rw e refl
    | inr e ↦ rw e (ap (λ zs. y ∷ zs) (insert_row-last x r ys h))
  ]

  -- A row that all others come before is read last.
  pub order_rows-last :
      (r : AuditRow) (rs : List AuditRow)
      → All (λ x. comes_first deps x r ≡ true) rs
      → order_rows deps (rs ++ r ∷ []) ≡ order_rows deps rs ++ r ∷ []
  order_rows-last r [] h = refl
  order_rows-last r (x ∷ rs) (h, hs) =
      ap (insert_row deps x) (order_rows-last r rs hs) ∙ insert_row-last x r (order_rows deps rs) h

  -- A row that no other comes before is read first.
  pub order_rows-first :
      (r : AuditRow) (rs : List AuditRow)
      → All (λ x. comes_first deps x r ≡ false) rs
      → order_rows deps (rs ++ r ∷ []) ≡ r ∷ order_rows deps rs
  order_rows-first r [] h = refl
  order_rows-first r (x ∷ rs) (h, hs) =
      ap (insert_row deps x) (order_rows-first r rs hs) ∙ rw h refl

  length-insert_row :
      (r : AuditRow) (rs : List AuditRow) → length (insert_row deps r rs) ≡ suc (length rs)
  length-insert_row r [] = refl
  length-insert_row r (s ∷ ss) = ground (arith, length-insert_row r ss)

  pub length-order_rows : (rs : List AuditRow) → length (order_rows deps rs) ≡ length rs
  length-order_rows [] = refl
  length-order_rows (r ∷ rs) =
      length-insert_row r (order_rows deps rs) ∙ ap suc (length-order_rows rs)
