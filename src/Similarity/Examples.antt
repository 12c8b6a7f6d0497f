-- ===== src/Similarity/Examples.antt =====
-- Distances, signatures and clusters of concrete sequences.
use maman_agent.Prelude.{count, ◌≡◌, ◌≤◌, refl, List, [], ◌∷◌, ℕ, codes, map, arith, Memᴰ, sym}
use maman_agent.Similarity.{substitution_cost, table_distance, fill_table, sequence_similarity}
use maman_agent.Similarity.Alignment.{Aligns}
use maman_agent.Similarity.Laws.{table_distance-least}
use maman_agent.Similarity.Minhash.{candidate_pairs}
use maman_agent.Similarity.Cluster.{
  ClusterInput, cluster_episodes, passes_sanity_checks, default_similarity_threshold, similarities,
  pairs_to_compare, clusters_of, merge_rounds, merge_clusters, find_best,
}
use maman_agent.Similarity.Merges.{sum_of}
use maman_agent.Similarity.Search.{AreApart}
use maman_agent.Similarity.Linkage.{
  AreAlike, members_of, cluster_episodes-partition, cluster_episodes-AreAlike,
  cluster_episodes-AreApart,
}
use mathlib.Core.Path.{subst}

abbrev open_record : List ℕ
open_record = codes "chrome:crm:open:link:open:account"

abbrev edit_field : List ℕ
edit_field = codes "chrome:crm:edit:textbox:edit:account"

abbrev edit_button : List ℕ
edit_button = codes "chrome:crm:edit:button:edit:account"

abbrev edit_sheet : List ℕ
edit_sheet = codes "chrome:sheet:edit:cell:edit:account"

abbrev mail : List ℕ
mail = codes "mail:email:send"

-- The weights of the substitutions.
costs :
    (substitution_cost edit_field edit_field ≡ 0)
    × (substitution_cost edit_field edit_button ≡ 5)
    × (substitution_cost open_record edit_field ≡ 12)
    × (substitution_cost edit_field edit_sheet ≡ 10)
    × (substitution_cost edit_field mail ≡ 20)
unfolding substitution_cost
costs = (refl, refl, refl, refl, refl)

abbrev first_trace : List (List ℕ)
first_trace = open_record ∷ edit_field ∷ mail ∷ []

abbrev second_trace : List (List ℕ)
second_trace = open_record ∷ edit_button ∷ mail ∷ mail ∷ []

first-second : table_distance first_trace second_trace ≡ 19
unfolding fill_table substitution_cost
first-second = refl

table_distance-least_example :
    Aligns first_trace second_trace 3 4 (table_distance first_trace second_trace)
    × ((c : ℕ)
        → Aligns first_trace second_trace 3 4 c
        → table_distance first_trace second_trace ≤ c)
table_distance-least_example = table_distance-least first_trace second_trace

abbrev sample_episode : List (List ℕ) → ℕ → ClusterInput
sample_episode tokens duration = record {
  tokens = tokens;
  active_duration_ms = duration;
  app_categories = "crm" ∷ [];
}

abbrev inputs : List ClusterInput
inputs =
    sample_episode first_trace 20000
    ∷ sample_episode (mail ∷ []) 20000
    ∷ sample_episode (open_record ∷ edit_button ∷ mail ∷ []) 30000
    ∷ []

alike :
    map (λ e. e.members) (cluster_episodes inputs default_similarity_threshold)
    ≡ (1 ∷ []) ∷ (0 ∷ 2 ∷ []) ∷ []
unfolding cluster_episodes similarities pairs_to_compare passes_sanity_checks sequence_similarity
    fill_table substitution_cost clusters_of merge_rounds merge_clusters find_best
alike = refl

cluster_episodes-partition_example :
    sum_of (count 2) (members_of inputs default_similarity_threshold) ≡ 1
cluster_episodes-partition_example =
    cluster_episodes-partition inputs default_similarity_threshold 2

cluster_episodes-AreApart_example :
    AreApart
      (similarities inputs)
      default_similarity_threshold
      (members_of inputs default_similarity_threshold)
cluster_episodes-AreApart_example = cluster_episodes-AreApart inputs default_similarity_threshold

cluster_episodes-AreAlike_example : AreAlike inputs default_similarity_threshold 0 2
cluster_episodes-AreAlike_example =
    cluster_episodes-AreAlike inputs default_similarity_threshold (0 ∷ 2 ∷ []) 0 2 (omega arith)
      (subst (λ cs. Memᴰ (0 ∷ 2 ∷ []) cs) (sym alike) (Memᴰ.tail (Memᴰ.head refl))) (Memᴰ.head refl)
      (Memᴰ.tail (Memᴰ.head refl)) (λ e. absurd (omega arith))

-- Signatures are 64 hashes; equal sequences share a band.
same_bands : candidate_pairs (first_trace ∷ first_trace ∷ []) ≡ (0, 1) ∷ []
unfolding candidate_pairs
same_bands = refl
