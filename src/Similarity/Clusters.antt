-- ===== src/Similarity/Clusters.antt =====
-- The clusters of episodes: every index in one cluster, complete linkage, and no merge left
-- (packages/pattern-engine/src/similarity.ts, `clusterEpisodes`).
use maman_agent.Prelude.{
  count, ℕ, zero, suc, ◌+◌, ◌≤◌, ◌<◌, ◌≡◌, refl, arith, List, [], ◌∷◌, ◌++◌, length, sym, ap, ◌∙◌,
  Bool-cases, inl, inr, true, ◌==◌, Memᴰ, All, All-append, Option, none, some, map, Option-cases,
  All-mem, flat_map, false,
}
use mathlib.Core.List.Memᴰ.{append_cases}
use maman_agent.Similarity.{Score, sequence_similarity}
use maman_agent.Similarity.Laws.{sequence_similarity_bounds}
use maman_agent.Similarity.Cluster.{
  similarity, cluster_at, merge_clusters, Merge, merge_rounds, find_best, range_from, ClusterInput,
  similarities, compare_pair, compare_both, lookup_score, pair_key, input_at, pairs_to_compare,
  passes_sanity_checks,
}
use maman_agent.Similarity.Minhash.{same_pair}
use maman_agent.Similarity.Merging.{AllReach, Reaches}
use maman_agent.Similarity.Search.{IsMerge, IsFound, find_best-IsFound, find_best-none, AreApart}
use maman_agent.Similarity.Merges.{
  sum_of, merge_clusters-count, length-merge_clusters, IsTight, without-All, cluster_at-All,
}
use mathlib.Core.Path.{subst}

module _ (sim : List ((ℕ × ℕ) × Score)) (threshold : Score) where
  similarity_comm : (i j : ℕ) → similarity sim threshold i j ≡ similarity sim threshold j i
  similarity_comm i j =
      let same : pair_key i j ≡ pair_key j i = ground arith in ap (lookup_score sim) same

  across :
      (c d : List ℕ) (i j : ℕ)
      → AllReach sim threshold c d
      → Memᴰ i c
      → Memᴰ j d
      → Reaches sim threshold i j
  across c d i j r m k =
      All-mem (Reaches sim threshold i) j d (All-mem (λ x. All (Reaches sim threshold x) d) i c r m)
        k

  append-IsTight :
      (c d : List ℕ)
      → IsTight sim threshold c
      → IsTight sim threshold d
      → AllReach sim threshold c d
      → IsTight sim threshold (c ++ d)
  append-IsTight c d p q r i j m k ne = elim (append_cases c m) [
    | inl mc ↦ elim (append_cases c k) [ inl kc ↦ p i j mc kc ne | inr kd ↦ across c d i j r mc kd ]
    | inr md ↦ elim (append_cases c k) [
      | inl kc ↦ rw (similarity_comm i j) (across c d j i r kc md)
      | inr kd ↦ q i j md kd ne
    ]
  ]

  merge_clusters-IsTight :
      (cs : List (List ℕ)) (m : Merge)
      → IsMerge sim threshold cs m
      → All (IsTight sim threshold) cs
      → All (IsTight sim threshold) (merge_clusters sim threshold cs m)
  unfolding merge_clusters
  merge_clusters-IsTight cs m k h =
      let c = cluster_at sim threshold cs m.a in
      let d = cluster_at sim threshold cs m.b in
      All-append (IsTight sim threshold) _ ((c ++ d) ∷ [])
        (without-All sim threshold (IsTight sim threshold) m.a m.b 0 cs h)
        (
          append-IsTight c d
              (cluster_at-All sim threshold (IsTight sim threshold) cs m.a h
                (omega (arith, k.order, k.inside)))
              (cluster_at-All sim threshold (IsTight sim threshold) cs m.b h k.inside) k.reach,
          tt,
        )

  module _ (positive : (i j : ℕ) → 0 < (similarity sim threshold i j).den) where
    -- What the rounds keep of the clusters that they start from, and where they stop.
    pub record IsMerged (before after : List (List ℕ)) : Type 0 where
      pub counts : (i : ℕ) → sum_of (count i) after ≡ sum_of (count i) before
      pub tight : All (IsTight sim threshold) after
      pub apart : AreApart sim threshold after

    pub merge_rounds-IsMerged :
        (fuel : ℕ) (cs : List (List ℕ))
        → length cs ≤ fuel
        → All (IsTight sim threshold) cs
        → IsMerged cs (merge_rounds sim threshold fuel cs)
    unfolding merge_rounds
    merge_rounds-IsMerged zero [] h t = record { counts = λ i. refl; tight = tt; apart = tt }
    merge_rounds-IsMerged zero (c ∷ cs) h t = absurd (omega arith)
    merge_rounds-IsMerged (suc fuel) cs h t = elim (Option-cases (find_best sim threshold cs)) [
      | inl e ↦ rw e (record {
        counts = λ i. refl;
        tight = t;
        apart = find_best-none sim threshold positive cs e;
      })
      | inr (m, e) ↦
          let found : IsMerge sim threshold cs m =
            subst (IsFound sim threshold cs) e (find_best-IsFound sim threshold positive cs) in
          let shorter = length-merge_clusters sim threshold cs m found.order found.inside in
          let ih =
            merge_rounds-IsMerged fuel (merge_clusters sim threshold cs m) (omega arith)
              (merge_clusters-IsTight cs m found t) in
          rw e (record {
            counts = λ i.
                ih.counts i ∙ merge_clusters-count sim threshold i cs m found.order found.inside;
            tight = ih.tight;
            apart = ih.apart;
          })
    ]

pub count-range : (i k n : ℕ) → i < k → sum_of (count i) (map (λ x. x ∷ []) (range_from k n)) ≡ 0
count-range i k zero h = refl
count-range i k (suc n) h = let ih = count-range i (suc k) n (omega arith) in ground arith

pub count-range_out :
    (i k n : ℕ) → k + n ≤ i → sum_of (count i) (map (λ x. x ∷ []) (range_from k n)) ≡ 0
count-range_out i k zero h = refl
count-range_out i k (suc n) h =
    let ih = count-range_out i (suc k) n (omega arith) in
    let miss : (i == k) ≡ false = ground arith in ground arith

-- Each index of the range stands in one of its singletons, once.
pub singletons-count :
    (i k n : ℕ) → i < k + n → k ≤ i → sum_of (count i) (map (λ x. x ∷ []) (range_from k n)) ≡ 1
singletons-count i k zero h l = absurd (omega arith)
singletons-count i k (suc n) h l = elim (Bool-cases (i == k)) [
  | inl e ↦ let rest = count-range i (suc k) n (ground arith) in ground arith
  | inr e ↦ let rest = singletons-count i (suc k) n (omega arith) (ground arith) in ground arith
]

pub length-singletons : (k n : ℕ) → length (map (λ x. x ∷ []) (range_from k n)) ≡ n
length-singletons k zero = refl
length-singletons k (suc n) = ap suc (length-singletons (suc k) n)

pub singletons-IsTight :
    (sim : List ((ℕ × ℕ) × Score)) (threshold : Score) (k n : ℕ)
    → All (IsTight sim threshold) (map (λ x. x ∷ []) (range_from k n))
singletons-IsTight sim threshold k zero = tt
singletons-IsTight sim threshold k (suc n) = (
  (λ i j m l ne. absurd (ne (one i m ∙ sym (one j l)))),
  singletons-IsTight sim threshold (suc k) n,
)
  where
    one : (x : ℕ) → Memᴰ x (k ∷ []) → x ≡ k
    one x (Memᴰ.head e) = e
    one x (Memᴰ.tail m) = elim m [ ]

module _ (inputs : List ClusterInput) where
  -- An entry of the map is the similarity of two episodes that pass the checks.
  pub record IsCompared (entry : (ℕ × ℕ) × Score) : Type 0 where
    pub pair : ℕ × ℕ
    pub first : ClusterInput
    pub second : ClusterInput
    pub at_first : input_at inputs (pair.0) ≡ some first
    pub at_second : input_at inputs (pair.1) ≡ some second
    pub key : entry.0 ≡ pair_key (pair.0) (pair.1)
    pub checked : passes_sanity_checks first second ≡ true
    pub score : entry.1 ≡ sequence_similarity first.tokens second.tokens

  compare_pair-IsCompared : (p : ℕ × ℕ) → All IsCompared (compare_pair inputs p)
  compare_pair-IsCompared p = go (input_at inputs (p.0)) (input_at inputs (p.1)) refl refl
    where
      go :
          (a b : Option ClusterInput)
          → input_at inputs (p.0) ≡ a
          → input_at inputs (p.1) ≡ b
          → All IsCompared (compare_both p a b)
      go none none h k = tt
      go none (some b) h k = tt
      go (some a) none h k = tt
      go (some a) (some b) h k = elim (Bool-cases (passes_sanity_checks a b)) [
        | inr e ↦ rw e tt
        | inl e ↦ rw e (
          record {
            pair = p;
            first = a;
            second = b;
            at_first = h;
            at_second = k;
            key = refl;
            checked = e;
            score = refl;
          },
          tt,
        )
      ]

  flat_map-IsCompared : (ps : List (ℕ × ℕ)) → All IsCompared (flat_map (compare_pair inputs) ps)
  flat_map-IsCompared [] = tt
  flat_map-IsCompared (p ∷ ps) =
      All-append IsCompared (compare_pair inputs p) (flat_map (compare_pair inputs) ps)
        (compare_pair-IsCompared p) (flat_map-IsCompared ps)

  pub similarities-IsCompared : All IsCompared (similarities inputs)
  unfolding similarities
  similarities-IsCompared = flat_map-IsCompared (pairs_to_compare inputs)

  IsCompared-den : (e : (ℕ × ℕ) × Score) → IsCompared e → 0 < (e.1).den
  IsCompared-den e c = rw c.score (sequence_similarity_bounds c.first.tokens c.second.tokens).0

  lookup_score-den :
      (sim : List ((ℕ × ℕ) × Score)) (k : ℕ × ℕ) → All IsCompared sim → 0 < (lookup_score sim k).den
  lookup_score-den [] k h = omega arith
  lookup_score-den (e ∷ sim) k (c, h) = elim (Bool-cases (same_pair (e.0) k)) [
    | inl same ↦ rw same (IsCompared-den e c)
    | inr other ↦ rw other (lookup_score-den sim k h)
  ]

  pub similarity-positive :
      (threshold : Score) (i j : ℕ) → 0 < (similarity (similarities inputs) threshold i j).den
  similarity-positive threshold i j =
      lookup_score-den (similarities inputs) (pair_key i j) similarities-IsCompared
