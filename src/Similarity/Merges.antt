-- ===== src/Similarity/Merges.antt =====
-- What merging two clusters keeps (packages/pattern-engine/src/similarity.ts, `clusterEpisodes`).
use maman_agent.Prelude.{
  count, ℕ, zero, suc, ◌+◌, ◌<◌, ◌≡◌, ◌≢◌, refl, arith, List, [], ◌∷◌, ◌++◌, length, ap, Bool-cases,
  inl, inr, true, false, ◌==◌, ◌||◌, Memᴰ, All,
}
use maman_agent.Similarity.{Score}
use maman_agent.Similarity.Cluster.{cluster_at, without, merge_clusters, Merge}
use maman_agent.Similarity.Merging.{Reaches}

-- The sum of a weight over clusters.
abbrev pub sum_of : (List ℕ → ℕ) → List (List ℕ) → ℕ
sum_of w [] = 0
sum_of w (c ∷ cs) = w c + sum_of w cs

count-append : (i : ℕ) (c d : List ℕ) → count i (c ++ d) ≡ count i c + count i d
count-append i [] d = omega arith
count-append i (j ∷ c) d = ground (arith, count-append i c d)

sum_of-append :
    (w : List ℕ → ℕ) (cs ds : List (List ℕ)) → sum_of w (cs ++ ds) ≡ sum_of w cs + sum_of w ds
sum_of-append w [] ds = omega arith
sum_of-append w (c ∷ cs) ds = omega (arith, sum_of-append w cs ds)

module _ (sim : List ((ℕ × ℕ) × Score)) (threshold : Score) where
  without_none :
      (a b k : ℕ) (cs : List (List ℕ)) → a < k → b < k → without sim threshold a b k cs ≡ cs
  without_none a b k [] h l = refl
  without_none a b k (c ∷ cs) h l =
      let miss : (k == a || k == b) ≡ false = ground arith in
      rw miss (ap (λ ds. c ∷ ds) (without_none a b (suc k) cs (omega arith) (omega arith)))

  without_one :
      (w : List ℕ → ℕ) (a b k y : ℕ) (cs : List (List ℕ))
      → a < k
      → b ≡ k + y
      → y < length cs
      → sum_of w (without sim threshold a b k cs) + w (cluster_at sim threshold cs y) ≡ sum_of w cs
  without_one w a b k y [] h e l = absurd (omega arith)
  without_one w a b k zero (c ∷ cs) h e l =
      let hit : (k == a || k == b) ≡ true = ground arith in
      rw (hit, without_none a b (suc k) cs (omega arith) (omega arith)) (omega arith)
  without_one w a b k (suc y) (c ∷ cs) h e l =
      let miss : (k == a || k == b) ≡ false = ground arith in
      rw miss
        (omega (arith, without_one w a b (suc k) y cs (omega arith) (omega arith) (omega arith)))

  without_two :
      (w : List ℕ → ℕ) (a b k x y : ℕ) (cs : List (List ℕ))
      → a ≡ k + x
      → b ≡ k + y
      → x < y
      → y < length cs
      → sum_of w (without sim threshold a b k cs)
          + w (cluster_at sim threshold cs x)
          + w (cluster_at sim threshold cs y)
        ≡ sum_of w cs
  without_two w a b k x y [] h e o l = absurd (omega arith)
  without_two w a b k x zero (c ∷ cs) h e o l = absurd (omega arith)
  without_two w a b k zero (suc y) (c ∷ cs) h e o l =
      let hit : (k == a || k == b) ≡ true = ground arith in
      rw hit
        (omega (arith, without_one w a b (suc k) y cs (omega arith) (omega arith) (omega arith)))
  without_two w a b k (suc x) (suc y) (c ∷ cs) h e o l =
      let miss : (k == a || k == b) ≡ false = ground arith in
      rw miss (
        omega (
          arith,
          without_two w a b (suc k) x y cs (omega arith) (omega arith) (omega arith) (omega arith),
        ))

  -- A merge keeps how often each index stands in the clusters, and takes one cluster away.
  pub merge_clusters-sum :
      (w : List ℕ → ℕ) (cs : List (List ℕ)) (m : Merge)
      → m.a < m.b
      → m.b < length cs
      → sum_of w (merge_clusters sim threshold cs m)
          + w (cluster_at sim threshold cs m.a)
          + w (cluster_at sim threshold cs m.b)
        ≡ sum_of w cs + w (cluster_at sim threshold cs m.a ++ cluster_at sim threshold cs m.b)
  unfolding merge_clusters
  merge_clusters-sum w cs m h l =
      let merged = cluster_at sim threshold cs m.a ++ cluster_at sim threshold cs m.b in
      omega (
        arith,
        sum_of-append w (without sim threshold m.a m.b 0 cs) (merged ∷ []),
        without_two w m.a m.b 0 m.a m.b cs (omega arith) (omega arith) h l,
      )

  pub merge_clusters-count :
      (i : ℕ) (cs : List (List ℕ)) (m : Merge)
      → m.a < m.b
      → m.b < length cs
      → sum_of (count i) (merge_clusters sim threshold cs m) ≡ sum_of (count i) cs
  merge_clusters-count i cs m h l = omega (
    arith,
    merge_clusters-sum (count i) cs m h l,
    count-append i (cluster_at sim threshold cs m.a) (cluster_at sim threshold cs m.b),
  )

  length-sum_of : (cs : List (List ℕ)) → sum_of (λ _. 1) cs ≡ length cs
  length-sum_of [] = refl
  length-sum_of (c ∷ cs) = omega (arith, length-sum_of cs)

  pub length-merge_clusters :
      (cs : List (List ℕ)) (m : Merge)
      → m.a < m.b
      → m.b < length cs
      → suc (length (merge_clusters sim threshold cs m)) ≡ length cs
  length-merge_clusters cs m h l = omega (
    arith,
    merge_clusters-sum (λ _. 1) cs m h l,
    length-sum_of cs,
    length-sum_of (merge_clusters sim threshold cs m),
  )

  -- Every two different members of a cluster reach the threshold.
  abbrev pub IsTight : List ℕ → Type 0
  IsTight c = (i j : ℕ) → Memᴰ i c → Memᴰ j c → i ≢ j → Reaches sim threshold i j

  pub without-All :
      (P : List ℕ → Type 0) (a b k : ℕ) (cs : List (List ℕ))
      → All P cs
      → All P (without sim threshold a b k cs)
  without-All P a b k [] h = tt
  without-All P a b k (c ∷ cs) (p, h) = elim (Bool-cases (k == a || k == b)) [
    | inl e ↦ rw e (without-All P a b (suc k) cs h)
    | inr e ↦ rw e (p, without-All P a b (suc k) cs h)
  ]

  pub cluster_at-All :
      (P : List ℕ → Type 0) (cs : List (List ℕ)) (k : ℕ)
      → All P cs
      → k < length cs
      → P (cluster_at sim threshold cs k)
  cluster_at-All P [] k h l = absurd (omega arith)
  cluster_at-All P (c ∷ cs) zero (p, h) l = p
  cluster_at-All P (c ∷ cs) (suc k) (p, h) l = cluster_at-All P cs k h (omega arith)
