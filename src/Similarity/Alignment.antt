-- ===== src/Similarity/Alignment.antt =====
-- What the distance of two sequences means: the least cost of an alignment
-- (packages/pattern-engine/src/similarity.ts, `sequenceSimilarity`).
use maman_agent.Prelude.{
  ℕ, zero, suc, ◌+◌, ◌*◌, ◌≤◌, ◌≡◌, refl, arith, List, min, Bool-cases, inl, inr, leb,
}
use maman_agent.Similarity.{substitution_cost, w_indel, token_at}

module _ (a b : List (List ℕ)) where
  -- The recurrence of the distance of the first `i` tokens from the first `j`.
  unfoldable pub distance : ℕ → ℕ → ℕ
  distance zero j = j * w_indel
  distance (suc i) zero = suc i * w_indel
  distance (suc i) (suc j) =
      min
        (min (distance i j + substitution_cost (token_at a i) (token_at b j))
          (distance i (suc j) + w_indel))
        (distance (suc i) j + w_indel)

  -- A way to turn the first `i` tokens into the first `j`, and its cost.
  pub data Aligns : ℕ → ℕ → ℕ → Type 0 where
    done : Aligns zero zero zero
    substitute :
        {i j c : ℕ}
        → Aligns i j c
        → Aligns (suc i) (suc j) (c + substitution_cost (token_at a i) (token_at b j))
    delete : {i j c : ℕ} → Aligns i j c → Aligns (suc i) j (c + w_indel)
    insert : {i j c : ℕ} → Aligns i j c → Aligns i (suc j) (c + w_indel)

  distance_delete : (i j : ℕ) → distance (suc i) j ≤ distance i j + w_indel
  unfolding distance
  distance_delete zero zero = omega arith
  distance_delete (suc i) zero = omega arith
  distance_delete zero (suc j) = omega arith
  distance_delete (suc i) (suc j) = omega arith

  distance_insert : (i j : ℕ) → distance i (suc j) ≤ distance i j + w_indel
  unfolding distance
  distance_insert zero j = omega arith
  distance_insert (suc i) j = omega arith

  distance_substitute :
      (i j : ℕ)
      → distance (suc i) (suc j) ≤ distance i j + substitution_cost (token_at a i) (token_at b j)
  unfolding distance
  distance_substitute i j = omega arith

  -- No alignment costs less than the distance.
  pub distance-le : {i j c : ℕ} → Aligns i j c → distance i j ≤ c
  unfolding distance
  distance-le done = omega arith
  distance-le (substitute {i} {j} p) = omega (arith, distance-le p, distance_substitute i j)
  distance-le (delete {i} {j} p) = omega (arith, distance-le p, distance_delete i j)
  distance-le (insert {i} {j} p) = omega (arith, distance-le p, distance_insert i j)

  distance_column : (i : ℕ) → distance i zero ≡ i * w_indel
  unfolding distance
  distance_column zero = refl
  distance_column (suc i) = refl

  min-cases : (P : ℕ → Type 0) (x y : ℕ) → P x → P y → P (min x y)
  min-cases P x y p q = elim (Bool-cases (leb x y)) [
    | inl e ↦ let same : min x y ≡ x = ground arith in rw same p
    | inr e ↦ let same : min x y ≡ y = ground arith in rw same q
  ]

  -- Some alignment costs just the distance.
  pub distance-Aligns : (i j : ℕ) → Aligns i j (distance i j)
  unfolding distance
  distance-Aligns zero zero = done
  distance-Aligns zero (suc j) =
      let cost : suc j * w_indel ≡ j * w_indel + w_indel = omega arith in
      rw cost (insert (distance-Aligns zero j))
  distance-Aligns (suc i) zero =
      let cost : suc i * w_indel ≡ i * w_indel + w_indel = omega arith in
      rw (cost, ← distance_column i) (delete (distance-Aligns i zero))
  distance-Aligns (suc i) (suc j) =
      min-cases (Aligns (suc i) (suc j)) _ _
        (min-cases (Aligns (suc i) (suc j)) _ _ (substitute (distance-Aligns i j))
          (delete (distance-Aligns i (suc j))))
        (insert (distance-Aligns (suc i) j))
