-- ===== src/Similarity/Merging.antt =====
-- The search for the best merge, and what a merge keeps
-- (packages/pattern-engine/src/similarity.ts, `clusterEpisodes`).
use maman_agent.Prelude.{
  ℕ, ◌*◌, ◌≤◌, ◌<◌, ◌≡◌, refl, arith, List, [], ◌∷◌, Bool-cases, inl, inr, false, if◌then◌else◌,
  Option, none, some, All,
}
use native.Mathlib.Nat.{le_of_mul-le-mul_right, mul-le-mul_right}
use maman_agent.Similarity.{Score}
use maman_agent.Similarity.Cluster.{
  score_lt, similarity, min_with, min_between, is_below, lower_score,
}
use mathlib.Core.Path.{subst}

-- Fractions are ordered: a positive denominator in the middle is all it takes.
score_trans :
    (s m t : Score) → 0 < m.den → score_lt m t ≡ false → score_lt s m ≡ false → score_lt s t ≡ false
score_trans s m t h p q =
    let low : t.num * m.den ≤ m.num * t.den = ground arith in
    let high : m.num * s.den ≤ s.num * m.den = ground arith in
    let both : t.num * s.den ≤ s.num * t.den =
      le_of_mul-le-mul_right {k = m.den}
        (grind (arith, mul-le-mul_right s.den low, mul-le-mul_right t.den high)) h in
    ground arith

module _ (sim : List ((ℕ × ℕ) × Score)) (threshold : Score) where
  -- The similarity of two indices is not below the threshold.
  abbrev pub Reaches : ℕ → ℕ → Type 0
  Reaches i j = score_lt (similarity sim threshold i j) threshold ≡ false

  abbrev pub AllReach : List ℕ → List ℕ → Type 0
  AllReach c d = All (λ i. All (Reaches i) d) c

  module _ (positive : (i j : ℕ) → 0 < (similarity sim threshold i j).den) where
    abbrev pub IsPositive : Option Score → Type 0
    IsPositive none = Unit
    IsPositive (some m) = 0 < m.den

    lower_score-IsPositive :
        (least : Option Score) (s : Score)
        → IsPositive least
        → 0 < s.den
        → IsPositive (lower_score least s)
    lower_score-IsPositive none s p h = h
    lower_score-IsPositive (some m) s p h = elim (Bool-cases (score_lt s m)) [
      | inl e ↦ rw e h
      | inr e ↦ rw e p
    ]

    -- What is lowered by a score is below the threshold if either is.
    lower_score-below :
        (least : Option Score) (s : Score)
        → IsPositive least
        → 0 < s.den
        → is_below (lower_score least s) threshold ≡ false
        → (score_lt s threshold ≡ false) × (is_below least threshold ≡ false)
    lower_score-below none s p d h = (h, refl)
    lower_score-below (some m) s p d h = elim (Bool-cases (score_lt s m)) [
      | inl e ↦
          let low : score_lt s threshold ≡ false =
            subst (λ b. is_below (if b then some s else some m) threshold ≡ false) e h in
          let less : score_lt m s ≡ false = ground arith in
          (low, score_trans m s threshold d low less)
      | inr e ↦
          let low : score_lt m threshold ≡ false =
            subst (λ b. is_below (if b then some s else some m) threshold ≡ false) e h in
          (score_trans s m threshold p low e, low)
    ]

    lower_score-kept :
        (least : Option Score) (s : Score)
        → is_below least threshold ≡ false
        → score_lt s threshold ≡ false
        → is_below (lower_score least s) threshold ≡ false
    lower_score-kept none s p h = h
    lower_score-kept (some m) s p h = elim (Bool-cases (score_lt s m)) [
      | inl e ↦ rw e h
      | inr e ↦ rw e p
    ]

    min_with-kept :
        (i : ℕ) (ds : List ℕ) (least : Option Score)
        → IsPositive least
        → is_below least threshold ≡ false
        → All (Reaches i) ds
        → (is_below (min_with sim threshold i ds least) threshold ≡ false)
          × IsPositive (min_with sim threshold i ds least)
    min_with-kept i [] least p h r = (h, p)
    min_with-kept i (j ∷ ds) least p h (r, rs) =
        let s = similarity sim threshold i j in
        let k = lower_score-kept least s h r in
        rw k (
          min_with-kept i ds (lower_score least s) (lower_score-IsPositive least s p (positive i j))
            k rs)

    pub min_between-kept :
        (c d : List ℕ) (least : Option Score)
        → IsPositive least
        → is_below least threshold ≡ false
        → AllReach c d
        → is_below (min_between sim threshold c d least) threshold ≡ false
    min_between-kept [] d least p h r = h
    min_between-kept (i ∷ c) d least p h (r, rs) =
        let (k, q) = min_with-kept i d least p h r in
        rw k (min_between-kept c d (min_with sim threshold i d least) q k rs)

    -- A loop that is left when the least score is too low ends above the threshold only if it went on.
    went_on :
        (next rest : Option Score)
        → is_below (if is_below next threshold then next else rest) threshold ≡ false
        → (is_below next threshold ≡ false) × (is_below rest threshold ≡ false)
    went_on next rest h = elim (Bool-cases (is_below next threshold)) [
      | inl e ↦
          let bad : is_below next threshold ≡ false =
            subst (λ b. is_below (if b then next else rest) threshold ≡ false) e h in
          absurd (ground arith)
      | inr e ↦ (e, subst (λ b. is_below (if b then next else rest) threshold ≡ false) e h)
    ]

    min_with-Reaches :
        (i : ℕ) (ds : List ℕ) (least : Option Score)
        → IsPositive least
        → is_below (min_with sim threshold i ds least) threshold ≡ false
        → All (Reaches i) ds
          × (is_below least threshold ≡ false)
          × IsPositive (min_with sim threshold i ds least)
    min_with-Reaches i [] least p h = (tt, h, p)
    min_with-Reaches i (j ∷ ds) least p h =
        let s = similarity sim threshold i j in
        let next = lower_score least s in
        let (e, rest) = went_on next (min_with sim threshold i ds next) h in
        let (all, k, q) =
          min_with-Reaches i ds next (lower_score-IsPositive least s p (positive i j)) rest in
        let (first, before) = lower_score-below least s p (positive i j) k in
        ((first, all), before, rw e q)

    pub min_between-Reaches :
        (c d : List ℕ) (least : Option Score)
        → IsPositive least
        → is_below (min_between sim threshold c d least) threshold ≡ false
        → AllReach c d × (is_below least threshold ≡ false)
    min_between-Reaches [] d least p h = (tt, h)
    min_between-Reaches (i ∷ c) d least p h =
        let next = min_with sim threshold i d least in
        let (e, rest) = went_on next (min_between sim threshold c d next) h in
        let (first, before, q) = min_with-Reaches i d least p e in
        let (all, k) = min_between-Reaches c d next q rest in ((first, all), before)
