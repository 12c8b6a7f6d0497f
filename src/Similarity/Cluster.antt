-- ===== src/Similarity/Cluster.antt =====
-- The clusters of similar episodes (packages/pattern-engine/src/similarity.ts): complete linkage over
-- the pairs that were compared.
use maman_agent.Prelude.{
  ℕ, zero, suc, ◌+◌, ◌*◌, ltb, leb, ◌==◌, if◌then◌else◌, Bool, true, false, not, ◌&&◌, ◌||◌, List,
  [], ◌∷◌, ◌++◌, map, flat_map, filter, length, Option, none, some, String, includes, min,
}
use maman_agent.Similarity.{Score, max, sequence_similarity}
use maman_agent.Similarity.Minhash.{candidate_pairs, same_pair}

pub record ClusterInput : Type 0 where
  pub tokens : List (List ℕ)
  pub active_duration_ms : ℕ
  pub app_categories : List String

pub record EpisodeCluster : Type 0 where
  pub members : List ℕ
  pub similarity_mean : Score

abbrev pub default_similarity_threshold : Score
default_similarity_threshold = record { num = 82; den = 100 }

-- The comparison of two fractions.
abbrev pub score_lt : Score → Score → Bool
score_lt s t = ltb (s.num * t.den) (t.num * s.den)

abbrev distinct_categories : List String → List String
distinct_categories [] = []
distinct_categories (s ∷ ss) =
    let rest = distinct_categories ss in if includes ss s then rest else s ∷ rest

unfoldable pub passes_sanity_checks : ClusterInput → ClusterInput → Bool
passes_sanity_checks a b =
    let lo = min a.active_duration_ms b.active_duration_ms in
    let hi = max a.active_duration_ms b.active_duration_ms in
    let union = length (distinct_categories (a.app_categories ++ b.app_categories)) in
    let intersection = length (filter (includes a.app_categories) b.app_categories) in
    not (lo == 0 || ltb (3 * lo) hi) && ltb 0 union && leb union (2 * intersection)

abbrev pub range_from : ℕ → ℕ → List ℕ
range_from i zero = []
range_from i (suc n) = i ∷ range_from (suc i) n

-- Every index with those after it.
abbrev all_pairs : ℕ → ℕ → List (ℕ × ℕ)
all_pairs i zero = []
all_pairs i (suc n) = map (λ j. (i, j)) (range_from (suc i) n) ++ all_pairs (suc i) n

abbrev pub exact_pairwise_limit : ℕ
exact_pairwise_limit = 64

unfoldable pub pairs_to_compare : List ClusterInput → List (ℕ × ℕ)
pairs_to_compare inputs =
    if leb (length inputs) exact_pairwise_limit
    then all_pairs 0 (length inputs)
    else candidate_pairs (map (λ x. x.tokens) inputs)

abbrev pub input_at : List ClusterInput → ℕ → Option ClusterInput
input_at [] k = none
input_at (x ∷ xs) zero = some x
input_at (x ∷ xs) (suc k) = input_at xs k

abbrev pub pair_key : ℕ → ℕ → ℕ × ℕ
pair_key i j = if ltb i j then (i, j) else (j, i)

-- The map from pairs to similarities; the pairs are distinct, so that no entry is set twice.
abbrev pub compare_both : ℕ × ℕ → Option ClusterInput → Option ClusterInput → List ((ℕ × ℕ) × Score)
compare_both p (some a) (some b) =
    if passes_sanity_checks a b
    then (pair_key (p.0) (p.1), sequence_similarity a.tokens b.tokens) ∷ []
    else []
compare_both p _ _ = []

abbrev pub compare_pair : List ClusterInput → ℕ × ℕ → List ((ℕ × ℕ) × Score)
compare_pair inputs p = compare_both p (input_at inputs (p.0)) (input_at inputs (p.1))

unfoldable pub similarities : List ClusterInput → List ((ℕ × ℕ) × Score)
similarities inputs = flat_map (compare_pair inputs) (pairs_to_compare inputs)

abbrev pub no_score : Score
no_score = record { num = 0; den = 1 }

abbrev pub lookup_score : List ((ℕ × ℕ) × Score) → ℕ × ℕ → Score
lookup_score [] k = no_score
lookup_score ((key, s) ∷ rest) k = if same_pair key k then s else lookup_score rest k

-- A merge that was found: the places of the two clusters, and their least similarity.
pub record Merge : Type 0 where
  pub a : ℕ
  pub b : ℕ
  pub s : Option Score

-- Infinity is `none`.
abbrev pub lower_score : Option Score → Score → Option Score
lower_score none s = some s
lower_score (some m) s = if score_lt s m then some s else some m

abbrev pub is_below : Option Score → Score → Bool
is_below none threshold = false
is_below (some m) threshold = score_lt m threshold

abbrev pub exceeds : Option Score → Option Score → Bool
exceeds none none = false
exceeds none (some t) = true
exceeds (some s) none = false
exceeds (some s) (some t) = score_lt t s

module _ (sim : List ((ℕ × ℕ) × Score)) (threshold : Score) where
  abbrev pub similarity : ℕ → ℕ → Score
  similarity i j = lookup_score sim (pair_key i j)

  -- The loops over two clusters, left as soon as the least similarity is too low.
  abbrev pub min_with : ℕ → List ℕ → Option Score → Option Score
  min_with i [] least = least
  min_with i (j ∷ js) least =
      let least' = lower_score least (similarity i j) in
      let rest = min_with i js least' in if is_below least' threshold then least' else rest

  abbrev pub min_between : List ℕ → List ℕ → Option Score → Option Score
  min_between [] ds least = least
  min_between (i ∷ is) ds least =
      let least' = min_with i ds least in
      let rest = min_between is ds least' in if is_below least' threshold then least' else rest

  abbrev pub beats : Option Score → Option Merge → Bool
  beats s none = true
  beats s (some best) = exceeds s best.s

  abbrev pub consider : ℕ → ℕ → List ℕ → List ℕ → Option Merge → Option Merge
  consider a b c d best =
      let least = min_between c d none in
      if not (is_below least threshold) && beats least best
      then some (record { a = a; b = b; s = least })
      else best

  abbrev pub best_with : ℕ → ℕ → List ℕ → List (List ℕ) → Option Merge → Option Merge
  best_with a b c [] best = best
  best_with a b c (d ∷ ds) best = best_with a (suc b) c ds (consider a b c d best)

  abbrev pub best_from : ℕ → List (List ℕ) → Option Merge → Option Merge
  best_from a [] best = best
  best_from a (c ∷ cs) best = best_from (suc a) cs (best_with a (suc a) c cs best)

  unfoldable pub find_best : List (List ℕ) → Option Merge
  find_best clusters = best_from 0 clusters none

  abbrev pub cluster_at : List (List ℕ) → ℕ → List ℕ
  cluster_at [] k = []
  cluster_at (c ∷ cs) zero = c
  cluster_at (c ∷ cs) (suc k) = cluster_at cs k

  -- `filter` by places, the first of which is `k`.
  abbrev pub without : ℕ → ℕ → ℕ → List (List ℕ) → List (List ℕ)
  without a b k [] = []
  without a b k (c ∷ cs) =
      let rest = without a b (suc k) cs in if k == a || k == b then rest else c ∷ rest

  unfoldable pub merge_clusters : List (List ℕ) → Merge → List (List ℕ)
  merge_clusters clusters m =
      without m.a m.b 0 clusters ++ (cluster_at clusters m.a ++ cluster_at clusters m.b) ∷ []

  abbrev pub merge_found :
      (List (List ℕ) → List (List ℕ)) → List (List ℕ) → Option Merge → List (List ℕ)
  merge_found rest clusters none = clusters
  merge_found rest clusters (some m) = rest (merge_clusters clusters m)

  -- The loop that merges the best two clusters until none can be merged, `fuel` rounds at most.
  unfoldable pub merge_rounds : ℕ → List (List ℕ) → List (List ℕ)
  merge_rounds zero clusters = clusters
  merge_rounds (suc fuel) clusters = merge_found (merge_rounds fuel) clusters (find_best clusters)

  abbrev pub singletons : ℕ → List (List ℕ)
  singletons n = map (λ i. i ∷ []) (range_from 0 n)

  unfoldable pub clusters_of : ℕ → List (List ℕ)
  clusters_of n = merge_rounds n (singletons n)

  abbrev add_score : Score → Score → Score
  add_score s t = record { num = s.num * t.den + t.num * s.den; den = s.den * t.den }

  abbrev total_with : ℕ → List ℕ → Score → Score
  total_with i [] total = total
  total_with i (j ∷ js) total = total_with i js (add_score total (similarity i j))

  abbrev total_within : List ℕ → Score → Score
  total_within [] total = total
  total_within (i ∷ is) total = total_within is (total_with i is total)

  abbrev pairs_in : List ℕ → ℕ
  pairs_in [] = 0
  pairs_in (i ∷ is) = length is + pairs_in is

  abbrev mean : Score → ℕ → Score
  mean total zero = record { num = 1; den = 1 }
  mean total (suc count) = record { num = total.num; den = total.den * suc count }

  abbrev pub describe_cluster : List ℕ → EpisodeCluster
  describe_cluster members = record {
    members = members;
    similarity_mean =
        if length members == 1
        then record { num = 1; den = 1 }
        else mean (total_within members no_score) (pairs_in members);
  }

unfoldable pub cluster_episodes : List ClusterInput → Score → List EpisodeCluster
cluster_episodes inputs threshold =
    let sim = similarities inputs in
    map (describe_cluster sim threshold) (clusters_of sim threshold (length inputs))
