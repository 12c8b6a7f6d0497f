-- ===== src/Similarity/Search.antt =====
-- The search for the best merge (packages/pattern-engine/src/similarity.ts, `clusterEpisodes`).
use maman_agent.Prelude.{
  ℕ, suc, ◌+◌, ◌<◌, ◌≡◌, ◌≢◌, refl, arith, List, [], ◌∷◌, length, Bool-cases, inl, inr, false, ◌&&◌,
  not, Option, none, some, All,
}
use maman_agent.Similarity.{Score}
use maman_agent.Similarity.Cluster.{
  similarity, min_between, is_below, consider, best_with, best_from, find_best, cluster_at, Merge,
  beats,
}
use maman_agent.Similarity.Merging.{AllReach, min_between-Reaches, min_between-kept}
use mathlib.Core.Path.{subst}

module _ (sim : List ((ℕ × ℕ) × Score)) (threshold : Score) where
  -- Two different clusters of which every pair reaches the threshold.
  pub record IsMerge (cs : List (List ℕ)) (m : Merge) : Type 0 where
    pub order : m.a < m.b
    pub inside : m.b < length cs
    pub reach :
        AllReach sim threshold (cluster_at sim threshold cs m.a) (cluster_at sim threshold cs m.b)

  abbrev pub IsFound : List (List ℕ) → Option Merge → Type 0
  IsFound cs none = Unit
  IsFound cs (some m) = IsMerge cs m

  -- No two clusters of the list can be merged.
  abbrev pub AreApart : List (List ℕ) → Type 0
  AreApart [] = Unit
  AreApart (c ∷ cs) = All (λ d. ¬ AllReach sim threshold c d) cs × AreApart cs

module _ (sim : List ((ℕ × ℕ) × Score)) (threshold : Score)
    (positive : (i j : ℕ) → 0 < (similarity sim threshold i j).den) (cs : List (List ℕ)) where
  -- From `k` on, the clusters are `ds`.
  abbrev From : ℕ → List (List ℕ) → Type 0
  From k ds =
      (x : ℕ)
      → x < length ds
      → (k + x < length cs) × (cluster_at sim threshold cs (k + x) ≡ cluster_at sim threshold ds x)

  From-next : (k : ℕ) (d : List ℕ) (ds : List (List ℕ)) → From k (d ∷ ds) → From (suc k) ds
  From-next k d ds f x h =
      let shift : k + suc x ≡ suc k + x = omega arith in
      subst (λ n. (n < length cs) × (cluster_at sim threshold cs n ≡ cluster_at sim threshold ds x))
        shift (f (suc x) (omega arith))

  From-first :
      (k : ℕ) (d : List ℕ) (ds : List (List ℕ))
      → From k (d ∷ ds)
      → (k < length cs) × (cluster_at sim threshold cs k ≡ d)
  From-first k d ds f =
      let same : k + 0 ≡ k = omega arith in
      subst (λ n. (n < length cs) × (cluster_at sim threshold cs n ≡ d)) same (f 0 (omega arith))

  consider-IsFound :
      (a b : ℕ) (best : Option Merge)
      → a < b
      → b < length cs
      → IsFound sim threshold cs best
      → IsFound sim threshold cs (
          consider sim threshold a b
            (cluster_at sim threshold cs a)
            (cluster_at sim threshold cs b)
            best)
  consider-IsFound a b best h k p =
      let c = cluster_at sim threshold cs a in
      let d = cluster_at sim threshold cs b in
      let least = min_between sim threshold c d none in
      let test = not (is_below least threshold) && beats sim threshold least best in
      elim (Bool-cases test) [
        | inl e ↦
            let high : is_below least threshold ≡ false = ground arith in
            rw e (record {
              order = h;
              inside = k;
              reach = (min_between-Reaches sim threshold positive c d none tt high).0;
            })
        | inr e ↦ rw e p
      ]

  best_with-IsFound :
      (a b : ℕ) (ds : List (List ℕ)) (best : Option Merge)
      → a < b
      → From b ds
      → IsFound sim threshold cs best
      → IsFound sim threshold cs
          (best_with sim threshold a b (cluster_at sim threshold cs a) ds best)
  best_with-IsFound a b [] best h f p = p
  best_with-IsFound a b (d ∷ ds) best h f p =
      let (inside, here) = From-first b d ds f in
      best_with-IsFound a (suc b) ds _ (omega arith) (From-next b d ds f) (
        subst
          (λ e.
            IsFound sim threshold cs
              (consider sim threshold a b (cluster_at sim threshold cs a) e best))
          here (consider-IsFound a b best h inside p))

  best_from-IsFound :
      (a : ℕ) (ds : List (List ℕ)) (best : Option Merge)
      → From a ds
      → IsFound sim threshold cs best
      → IsFound sim threshold cs (best_from sim threshold a ds best)
  best_from-IsFound a [] best f p = p
  best_from-IsFound a (c ∷ ds) best f p =
      let rest = From-next a c ds f in
      let (inside, here) = From-first a c ds f in
      best_from-IsFound (suc a) ds _ rest (
        subst (λ e. IsFound sim threshold cs (best_with sim threshold a (suc a) e ds best)) here
          (best_with-IsFound a (suc a) ds best (omega arith) rest p))

  -- What the search finds can be merged.
  pub find_best-IsFound : IsFound sim threshold cs (find_best sim threshold cs)
  unfolding find_best
  find_best-IsFound =
      best_from-IsFound 0 cs none
        (λ x h.
          let same : x ≡ 0 + x = omega arith in
          subst
            (λ n. (n < length cs) × (cluster_at sim threshold cs n ≡ cluster_at sim threshold cs x))
            same (h, refl))
        tt

module _ (sim : List ((ℕ × ℕ) × Score)) (threshold : Score)
    (positive : (i j : ℕ) → 0 < (similarity sim threshold i j).den) where
  consider-some :
      (a b : ℕ) (c d : List ℕ) (m : Merge) → consider sim threshold a b c d (some m) ≢ none
  consider-some a b c d m e =
      elim (Bool-cases (
        not (is_below (min_between sim threshold c d none) threshold)
        && beats sim threshold (min_between sim threshold c d none) (some m))) [
          | inl t ↦ absurd (ground arith)
          | inr t ↦ absurd (ground arith)
        ]

  consider-none :
      (a b : ℕ) (c d : List ℕ) (best : Option Merge)
      → consider sim threshold a b c d best ≡ none
      → (best ≡ none) × ¬ AllReach sim threshold c d
  consider-none a b c d (some m) e = absurd (consider-some a b c d m e)
  consider-none a b c d none e = (
    refl,
    λ r.
        let high : is_below (min_between sim threshold c d none) threshold ≡ false =
          min_between-kept sim threshold positive c d none tt refl r in
        absurd (ground arith),
  )

  best_with-none :
      (a b : ℕ) (c : List ℕ) (ds : List (List ℕ)) (best : Option Merge)
      → best_with sim threshold a b c ds best ≡ none
      → (best ≡ none) × All (λ d. ¬ AllReach sim threshold c d) ds
  best_with-none a b c [] best e = (e, tt)
  best_with-none a b c (d ∷ ds) best e =
      let (k, rest) = best_with-none a (suc b) c ds (consider sim threshold a b c d best) e in
      let (first, apart) = consider-none a b c d best k in (first, (apart, rest))

  best_from-none :
      (a : ℕ) (cs : List (List ℕ)) (best : Option Merge)
      → best_from sim threshold a cs best ≡ none
      → (best ≡ none) × AreApart sim threshold cs
  best_from-none a [] best e = (e, tt)
  best_from-none a (c ∷ cs) best e =
      let (k, rest) = best_from-none (suc a) cs (best_with sim threshold a (suc a) c cs best) e in
      let (first, apart) = best_with-none a (suc a) c cs best k in (first, (apart, rest))

  -- When the search finds nothing, no two clusters can be merged.
  pub find_best-none :
      (cs : List (List ℕ)) → find_best sim threshold cs ≡ none → AreApart sim threshold cs
  unfolding find_best
  find_best-none cs e = (best_from-none 0 cs none e).1
