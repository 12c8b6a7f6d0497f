-- ===== src/Audit/Tamper.antt =====
-- What a chain that verifies says of its events, and events out of the order of time
-- (packages/db/src/audit.ts).
use maman_agent.Prelude.{
  Memᴰ, All, ◌≡◌, ◌≢◌, refl, sym, ap, ◌∙◌, true, List, [], ◌∷◌, ◌++◌, arith, inl, inr, ℕ, suc, zero,
  Option, none, some, String, map, length, ◌+◌, all, Bool-cases,
}
use maman_agent.Audit.{canonical_audit_json}
use maman_agent.Audit.Tables.{
  AuditDeps, AuditRow, AuditStore, linked, broken, valid, ChainHead, LinkCheck,
}
use maman_agent.Audit.Chain.{
  event_of_row, find_head, latest_hash, chain_rows, check_links, verify_audit_chain, conclude,
  same_hash, or_empty,
}
use maman_agent.Audit.Links.{IsLink, check_links-linked, same_hash→≡}
use maman_agent.Engine.Digest.{is_hex_code}
use mathlib.Core.Path.{subst}

-- Of these texts, no two different ones have the same hash.
abbrev pub AreTold : (List ℕ → List ℕ) → List (List ℕ) → Type 0
AreTold sha inputs = (x y : List ℕ) → Memᴰ x inputs → Memᴰ y inputs → sha x ≡ sha y → x ≡ y

-- Every hash is 64 hexadecimal digits.
abbrev pub AreDigests : (List ℕ → List ℕ) → Type 0
AreDigests sha = (x : List ℕ) → (length (sha x) ≡ 64) × (all is_hex_code (sha x) ≡ true)

mem_weak :
    (xs is_ : List (List ℕ)) (y : List ℕ)
    → All (λ x. Memᴰ x is_) xs
    → All (λ x. Memᴰ x (y ∷ is_)) xs
mem_weak [] is_ y h = tt
mem_weak (x ∷ xs) is_ y (m, h) = (Memᴰ.tail m, mem_weak xs is_ y h)

mem_self : (xs : List (List ℕ)) → All (λ x. Memᴰ x xs) xs
mem_self [] = tt
mem_self (x ∷ xs) = (Memᴰ.head refl, mem_weak xs xs x (mem_self xs))

second_part : (xs ys : List (List ℕ)) → All (λ x. Memᴰ x (xs ++ ys)) ys
second_part [] ys = mem_self ys
second_part (x ∷ xs) ys = mem_weak ys (xs ++ ys) x (second_part xs ys)

first_part : (xs ys : List (List ℕ)) → All (λ x. Memᴰ x (xs ++ ys)) xs
first_part [] ys = tt
first_part (x ∷ xs) ys = (Memᴰ.head refl, mem_weak xs (xs ++ ys) x (first_part xs ys))

module _ (deps : AuditDeps) (inputs : List (List ℕ)) where
  -- The hash that a chain of texts ends in, the newest first; each text is an object's, and what is
  -- hashed for it is one of the inputs.
  data Chained : Option (List ℕ) → List (List ℕ) → Type 0 where
    start : Chained none []
    link :
        {p h : Option (List ℕ)} {texts : List (List ℕ)} (body : List ℕ)
        → h ≡ some (deps.sha256 (or_empty p ++ 123 ∷ body))
        → Memᴰ (or_empty p ++ 123 ∷ body) inputs
        → Chained p texts
        → Chained h ((123 ∷ body) ∷ texts)

  -- Texts of the same length that begin two equal texts are equal, and so is what follows.
  append-cancel : (a b x y : List ℕ) → length a ≡ length b → a ++ x ≡ b ++ y → (a ≡ b) × (x ≡ y)
  append-cancel [] [] x y h e = (refl, e)
  append-cancel (c ∷ a) (d ∷ b) x y h e =
      let first : c ≡ d = cc in
      let rest : a ++ x ≡ b ++ y = cc in
      let (k, l) = append-cancel a b x y (omega arith) rest in (cc, l)
  append-cancel [] (d ∷ b) x y h e = absurd (omega arith)
  append-cancel (c ∷ a) [] x y h e = absurd (omega arith)

  brace-hash :
      (hash x y : List ℕ) → length hash ≡ 64 → all is_hex_code hash ≡ true → (123 ∷ x) ≢ (hash ++ y)
  brace-hash [] x y size hex e = absurd (omega arith)
  brace-hash (c ∷ hash) x y size hex e = let first : 123 ≡ c = cc in absurd (ground arith)

  -- Two hashes in a chain, or none, followed by objects.
  or_empty-cancel :
      {p q : Option (List ℕ)} {ps qs : List (List ℕ)} (x y : List ℕ)
      → AreDigests deps.sha256
      → Chained p ps
      → Chained q qs
      → or_empty p ++ 123 ∷ x ≡ or_empty q ++ 123 ∷ y
      → (p ≡ q) × (x ≡ y)
  or_empty-cancel x y d start start e = (refl, cc)
  or_empty-cancel x y d start (link {p} b k i c) e =
      let u = or_empty p ++ 123 ∷ b in
      let e' : 123 ∷ x ≡ deps.sha256 u ++ 123 ∷ y =
        subst (λ h. 123 ∷ x ≡ or_empty h ++ 123 ∷ y) k e in
      absurd (brace-hash (deps.sha256 u) x (123 ∷ y) (d u).0 (d u).1 e')
  or_empty-cancel x y d (link {p} b k i c) start e =
      let u = or_empty p ++ 123 ∷ b in
      let e' : deps.sha256 u ++ 123 ∷ x ≡ 123 ∷ y =
        subst (λ h. or_empty h ++ 123 ∷ x ≡ 123 ∷ y) k e in
      absurd (brace-hash (deps.sha256 u) y (123 ∷ x) (d u).0 (d u).1 (sym e'))
  or_empty-cancel x y d (link {p} a k i c) (link {p = q} b l j c') e =
      let u = deps.sha256 (or_empty p ++ 123 ∷ a) in
      let v = deps.sha256 (or_empty q ++ 123 ∷ b) in
      let e2 : u ++ 123 ∷ x ≡ v ++ 123 ∷ y =
        sym (ap (λ h. or_empty h ++ 123 ∷ x) k) ∙ e ∙ ap (λ h. or_empty h ++ 123 ∷ y) l in
      let (same, rest) =
        append-cancel u v (123 ∷ x) (123 ∷ y)
          ((d (or_empty p ++ 123 ∷ a)).0 ∙ sym (d (or_empty q ++ 123 ∷ b)).0) e2 in
      (k ∙ ap some same ∙ sym l, cc)

  -- Chains that end in the same hash hold the same texts.
  Chained-unique :
      {h k : Option (List ℕ)} {as_ bs : List (List ℕ)}
      → AreDigests deps.sha256
      → AreTold deps.sha256 inputs
      → Chained h as_
      → Chained k bs
      → h ≡ k
      → as_ ≡ bs
  Chained-unique d told start start e = refl
  Chained-unique d told start (link b l i c) e = absurd (ground arith)
  Chained-unique d told (link b l i c) start e = absurd (ground arith)
  Chained-unique d told (link {p} a k i c) (link {p = q} b l j c') e =
      let u = or_empty p ++ 123 ∷ a in
      let v = or_empty q ++ 123 ∷ b in
      let same : deps.sha256 u ≡ deps.sha256 v = cc in
      let (before, body) = or_empty-cancel a b d c c' (told u v i j same) in
      let rest = Chained-unique d told c c' before in cc

module _ (deps : AuditDeps) where
  abbrev pub row_text : AuditRow → List ℕ
  row_text r = canonical_audit_json (event_of_row deps r)

  -- The texts of the rows, each put before those of the rows before it.
  texts : List (List ℕ) → List AuditRow → List (List ℕ)
  texts before [] = before
  texts before (r ∷ rs) = texts (row_text r ∷ before) rs

  -- What is hashed for the rows: the hash of the row before, and the text of the row.
  abbrev pub hashed : Option (List ℕ) → List AuditRow → List (List ℕ)
  hashed previous [] = []
  hashed previous (r ∷ rs) = (or_empty previous ++ row_text r) ∷ hashed (some r.event_hash) rs

  module _ (inputs : List (List ℕ)) where
    link-text :
        (p : Option (List ℕ)) (r : AuditRow) (before : List (List ℕ))
        → IsLink deps p r
        → Memᴰ (or_empty p ++ row_text r) inputs
        → Chained deps inputs p before
        → Chained deps inputs (some r.event_hash) (row_text r ∷ before)
    unfolding canonical_audit_json
    link-text p r before k i c = link _ (ap some (sym k.hash)) i c

    check_links-Chained :
        (p q : Option (List ℕ)) (rows : List AuditRow) (before : List (List ℕ))
        → check_links deps p rows ≡ linked q
        → All (λ x. Memᴰ x inputs) (hashed p rows)
        → Chained deps inputs p before
        → Chained deps inputs q (texts before rows)
    unfolding texts
    check_links-Chained p q [] before h is_ c =
        let same : p ≡ q = cc in subst (λ e. Chained deps inputs e before) same c
    check_links-Chained p q (r ∷ rows) before h (i, is_) c =
        let (k, rest) = check_links-linked deps p q r rows h in
        check_links-Chained (some r.event_hash) q rows (row_text r ∷ before) rest is_
          (link-text p r before k i c)

  length-texts :
      (before : List (List ℕ)) (rows : List AuditRow)
      → length (texts before rows) ≡ length before + length rows
  unfolding texts
  length-texts before [] = omega arith
  length-texts before (r ∷ rs) = omega (arith, length-texts (row_text r ∷ before) rs)

  texts-injective :
      (as_ bs : List (List ℕ)) (rows others : List AuditRow)
      → texts as_ rows ≡ texts bs others
      → length rows ≡ length others
      → (as_ ≡ bs) × (map row_text rows ≡ map row_text others)
  unfolding texts
  texts-injective as_ bs [] [] e h = (e, refl)
  texts-injective as_ bs (r ∷ rows) (s ∷ others) e h =
      let (head, rest) =
        texts-injective (row_text r ∷ as_) (row_text s ∷ bs) rows others e (omega arith) in
      let first : row_text r ≡ row_text s = cc in
      (cc, ap (λ t. t ∷ map row_text rows) first ∙ ap (λ ts. row_text s ∷ ts) rest)
  texts-injective as_ bs [] (s ∷ others) e h = absurd (omega arith)
  texts-injective as_ bs (r ∷ rows) [] e h = absurd (omega arith)

  -- What a chain that verifies is: its links hold up to a hash, and the head names that hash.
  pub verify_audit_chain-valid :
      (org : String) (s : AuditStore) (n : ℕ)
      → verify_audit_chain deps org s ≡ valid (suc n)
      → check_links deps none (chain_rows deps org s) ≡ linked (latest_hash (find_head org s.heads))
  unfolding verify_audit_chain
  verify_audit_chain-valid org s n h =
      go (length (chain_rows deps org s)) (check_links deps none (chain_rows deps org s))
        (find_head org s.heads) h
    where
      go :
          (m : ℕ) (check : LinkCheck) (head : Option ChainHead)
          → conclude m check head ≡ valid (suc n)
          → check ≡ linked (latest_hash head)
      go m (broken id reason) head e = absurd (ground arith)
      go zero (linked q) head e = absurd (ground arith)
      go (suc m) (linked q) none e = absurd (ground arith)
      go (suc m) (linked q) (some head) e = elim (Bool-cases (same_hash head.latest_event_hash q)) [
        | inl t ↦ ap linked (sym (same_hash→≡ head.latest_event_hash q t))
        | inr t ↦ absurd (ground arith)
      ]

  -- Two logs whose chains verify, with an event at least, and whose heads hold the same hash, have the
  -- same events, by their canonical texts and in the same order, if no two different ones of the texts
  -- that are hashed for their rows have the same hash. Every hash must be 64 hexadecimal digits.
  pub verify_audit_chain-evident :
      (org : String) (s t : AuditStore) (n m : ℕ)
      → AreDigests deps.sha256
      → AreTold deps.sha256
          (hashed none (chain_rows deps org s) ++ hashed none (chain_rows deps org t))
      → verify_audit_chain deps org s ≡ valid (suc n)
      → verify_audit_chain deps org t ≡ valid (suc m)
      → latest_hash (find_head org s.heads) ≡ latest_hash (find_head org t.heads)
      → map row_text (chain_rows deps org s) ≡ map row_text (chain_rows deps org t)
  verify_audit_chain-evident org s t n m d told h k same =
      let rows = chain_rows deps org s in
      let others = chain_rows deps org t in
      let inputs = hashed none rows ++ hashed none others in
      let c =
        check_links-Chained inputs none _ rows [] (verify_audit_chain-valid org s n h)
          (first_part (hashed none rows) (hashed none others)) start in
      let c' =
        check_links-Chained inputs none _ others [] (verify_audit_chain-valid org t m k)
          (second_part (hashed none rows) (hashed none others)) start in
      let e = Chained-unique deps inputs d told c c' same in
      let sizes : length rows ≡ length others =
        omega (arith, length-texts [] rows, length-texts [] others, ap length e) in
      (texts-injective [] [] rows others e sizes).1
