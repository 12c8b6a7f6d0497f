-- ===== src/Similarity/Linkage.antt =====
-- The clusters that `clusterEpisodes` returns (packages/pattern-engine/src/similarity.ts).
use maman_agent.Prelude.{
  count, ℕ, ◌<◌, ◌≡◌, ◌≢◌, refl, arith, List, [], ◌∷◌, length, sym, ap, ◌∙◌, Bool-cases, inl, inr,
  true, false, if◌then◌else◌, Memᴰ, All, ◌⊎◌, some, map, ltb, All-mem,
}
use maman_agent.Similarity.{Score, sequence_similarity}
use maman_agent.Similarity.Cluster.{
  clusters_of, range_from, cluster_episodes, describe_cluster, ClusterInput, similarities,
  lookup_score, pair_key, input_at, score_lt, passes_sanity_checks,
}
use maman_agent.Similarity.Minhash.{same_pair}
use maman_agent.Similarity.Search.{AreApart}
use maman_agent.Similarity.Merges.{sum_of, IsTight}
use maman_agent.Similarity.Clusters.{
  IsMerged, merge_rounds-IsMerged, count-range_out, singletons-count, length-singletons,
  singletons-IsTight, IsCompared, similarities-IsCompared, similarity-positive,
}
use mathlib.Core.Path.{subst}

-- Two episodes, in one order or the other, pass the checks, and their similarity is not below the
-- threshold.
pub record AreAlike (inputs : List ClusterInput) (threshold : Score) (i j : ℕ) : Type 0 where
  first : ClusterInput
  second : ClusterInput
  places :
      ((input_at inputs i ≡ some first) × (input_at inputs j ≡ some second))
      ⊎ ((input_at inputs j ≡ some first) × (input_at inputs i ≡ some second))
  checked : passes_sanity_checks first second ≡ true
  reaches : score_lt (sequence_similarity first.tokens second.tokens) threshold ≡ false

same_pair→≡ : (p q : ℕ × ℕ) → same_pair p q ≡ true → p ≡ q
same_pair→≡ (i, j) (k, l) h =
    let first : i ≡ k = ground arith in let second : j ≡ l = ground arith in cc

-- One pair holds two numbers, in one order or the other.
abbrev Holds : ℕ × ℕ → ℕ → ℕ → Type 0
Holds p i j = ((p.0 ≡ i) × (p.1 ≡ j)) ⊎ ((p.0 ≡ j) × (p.1 ≡ i))

pair_key-Holds : (i j : ℕ) → Holds (pair_key i j) i j
pair_key-Holds i j = elim (Bool-cases (ltb i j)) [
  | inl h ↦ rw h (inl (refl, refl))
  | inr h ↦ rw h (inr (refl, refl))
]

-- Two pairs of which both hold what a third one holds.
Holds-trans : (p : ℕ × ℕ) (i j k l : ℕ) → Holds p i j → Holds p k l → Holds (i, j) k l
Holds-trans p i j k l (inl (a, b)) (inl (c, d)) = inl (sym a ∙ c, sym b ∙ d)
Holds-trans p i j k l (inl (a, b)) (inr (c, d)) = inr (sym a ∙ c, sym b ∙ d)
Holds-trans p i j k l (inr (a, b)) (inl (c, d)) = inr (sym b ∙ d, sym a ∙ c)
Holds-trans p i j k l (inr (a, b)) (inr (c, d)) = inl (sym b ∙ d, sym a ∙ c)

pair_key-cases : (i j k l : ℕ) → pair_key i j ≡ pair_key k l → Holds (i, j) k l
pair_key-cases i j k l e =
    Holds-trans (pair_key i j) i j k l (pair_key-Holds i j)
      (subst (λ p. Holds p k l) (sym e) (pair_key-Holds k l))

map-members :
    (sim : List ((ℕ × ℕ) × Score)) (threshold : Score) (cs : List (List ℕ))
    → map (λ e. e.members) (map (describe_cluster sim threshold) cs) ≡ cs
map-members sim threshold [] = refl
map-members sim threshold (c ∷ cs) = ap (λ ds. c ∷ ds) (map-members sim threshold cs)

module _ (inputs : List ClusterInput) (threshold : Score) where
  abbrev pub members_of : List (List ℕ)
  members_of = map (λ e. e.members) (cluster_episodes inputs threshold)

  cluster_episodes-members :
      members_of ≡ clusters_of (similarities inputs) threshold (length inputs)
  unfolding cluster_episodes
  cluster_episodes-members =
      map-members (similarities inputs) threshold
        (clusters_of (similarities inputs) threshold (length inputs))

  clusters_of-IsMerged :
      IsMerged
        (similarities inputs)
        threshold
        (similarity-positive inputs threshold)
        (map (λ x. x ∷ []) (range_from 0 (length inputs)))
        (clusters_of (similarities inputs) threshold (length inputs))
  unfolding clusters_of
  clusters_of-IsMerged =
      merge_rounds-IsMerged (similarities inputs) threshold (similarity-positive inputs threshold)
        (length inputs) _ (omega (arith, length-singletons 0 (length inputs)))
        (singletons-IsTight (similarities inputs) threshold 0 (length inputs))

  -- Every index of an episode stands in just one cluster, once, and nothing else stands in any.
  pub cluster_episodes-partition :
      (i : ℕ) → sum_of (count i) members_of ≡ (if ltb i (length inputs) then 1 else 0)
  cluster_episodes-partition i =
      let kept = clusters_of-IsMerged.counts i in
      rw (cluster_episodes-members, kept)
        (elim (Bool-cases (ltb i (length inputs))) [
          | inl e ↦ rw e (singletons-count i 0 (length inputs) (ground arith) (omega arith))
          | inr e ↦ rw e (count-range_out i 0 (length inputs) (ground arith))
        ])

  -- The loop ends with clusters of which no two can be merged: of any two, some pair is below the
  -- threshold.
  pub cluster_episodes-AreApart : AreApart (similarities inputs) threshold members_of
  cluster_episodes-AreApart = rw cluster_episodes-members clusters_of-IsMerged.apart

  lookup_score-IsCompared :
      (sim : List ((ℕ × ℕ) × Score)) (k : ℕ × ℕ)
      → 0 < threshold.num
      → All (IsCompared inputs) sim
      → score_lt (lookup_score sim k) threshold ≡ false
      → (e : (ℕ × ℕ) × Score) × IsCompared inputs e × (e.0 ≡ k) × (score_lt (e.1) threshold ≡ false)
  lookup_score-IsCompared [] k h c l = absurd (ground arith)
  lookup_score-IsCompared (e ∷ sim) k h (c, cs) l = elim (Bool-cases (same_pair (e.0) k)) [
    | inl same ↦ (
      e,
      c,
      same_pair→≡ (e.0) k same,
      subst (λ b. score_lt (if b then e.1 else lookup_score sim k) threshold ≡ false) same l,
    )
    | inr other ↦
        lookup_score-IsCompared sim k h cs
          (subst (λ b. score_lt (if b then e.1 else lookup_score sim k) threshold ≡ false) other l)
  ]

  -- With a threshold above 0, any two different episodes of a cluster pass the checks and have a
  -- similarity that is not below the threshold.
  pub cluster_episodes-AreAlike :
      (members : List ℕ) (i j : ℕ)
      → 0 < threshold.num
      → Memᴰ members members_of
      → Memᴰ i members
      → Memᴰ j members
      → i ≢ j
      → AreAlike inputs threshold i j
  cluster_episodes-AreAlike members i j h m k l ne =
      let sim = similarities inputs in
      let inside : Memᴰ members (clusters_of sim threshold (length inputs)) =
        subst (λ cs. Memᴰ members cs) cluster_episodes-members m in
      let tight =
        All-mem (IsTight sim threshold) members (clusters_of sim threshold (length inputs))
          clusters_of-IsMerged.tight inside in
      let (entry, c, key, reaches) =
        lookup_score-IsCompared sim (pair_key i j) h (similarities-IsCompared inputs)
          (tight i j k l ne) in
      record {
        first = c.first;
        second = c.second;
        places = placed c (pair_key-cases (c.pair.0) (c.pair.1) i j (sym c.key ∙ key));
        checked = c.checked;
        reaches = rw (← c.score) reaches;
      }
    where
      placed :
          {entry : (ℕ × ℕ) × Score} (c : IsCompared inputs entry)
          → Holds c.pair i j
          → ((input_at inputs i ≡ some c.first) × (input_at inputs j ≡ some c.second))
            ⊎ ((input_at inputs j ≡ some c.first) × (input_at inputs i ≡ some c.second))
      placed c (inl (p, q)) =
          inl
            (ap (input_at inputs) (sym p) ∙ c.at_first, ap (input_at inputs) (sym q) ∙ c.at_second)
      placed c (inr (p, q)) =
          inr
            (ap (input_at inputs) (sym p) ∙ c.at_first, ap (input_at inputs) (sym q) ∙ c.at_second)
