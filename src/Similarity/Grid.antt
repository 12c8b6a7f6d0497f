-- ===== src/Similarity/Grid.antt =====
-- The array that `sequenceSimilarity` fills holds the distances
-- (packages/pattern-engine/src/similarity.ts).
use maman_agent.Prelude.{
  ℕ, zero, suc, ◌+◌, ◌*◌, ◌≤◌, ◌<◌, ◌≡◌, ◌≢◌, refl, arith, List, [], ◌∷◌, length, sym, ap, ◌∙◌,
  Bool-cases, inl, inr, Bool, true, false, ◌&&◌, ◌==◌, ltb, ◌||◌, ◌-◌,
}
use maman_agent.Similarity.{
  read_at, write_at, zeros, for_from, cols, w_indel, first_column, first_row, fill_cell, fill_table,
  table_distance,
}
use native.Mathlib.Numerals.{sub-one}
use maman_agent.Similarity.Alignment.{distance}
use mathlib.Core.Path.{subst}

length-write_at : (d : List ℕ) (k v : ℕ) → length (write_at d k v) ≡ length d
length-write_at [] k v = refl
length-write_at (x ∷ d) zero v = refl
length-write_at (x ∷ d) (suc k) v = ap suc (length-write_at d k v)

read_at-write_at_self : (d : List ℕ) (k v : ℕ) → k < length d → read_at (write_at d k v) k ≡ v
read_at-write_at_self [] k v h = absurd (omega arith)
read_at-write_at_self (x ∷ d) zero v h = refl
read_at-write_at_self (x ∷ d) (suc k) v h = read_at-write_at_self d k v (omega arith)

read_at-write_at_ne : (d : List ℕ) (k m v : ℕ) → k ≢ m → read_at (write_at d k v) m ≡ read_at d m
read_at-write_at_ne [] k m v h = refl
read_at-write_at_ne (x ∷ d) zero zero v h = absurd (h refl)
read_at-write_at_ne (x ∷ d) zero (suc m) v h = refl
read_at-write_at_ne (x ∷ d) (suc k) zero v h = refl
read_at-write_at_ne (x ∷ d) (suc k) (suc m) v h = read_at-write_at_ne d k m v (λ e. h (ap suc e))

length-zeros : (n : ℕ) → length (zeros n) ≡ n
length-zeros zero = refl
length-zeros (suc n) = ap suc (length-zeros n)

read_at-zeros : (n k : ℕ) → read_at (zeros n) k ≡ 0
read_at-zeros zero k = refl
read_at-zeros (suc n) zero = refl
read_at-zeros (suc n) (suc k) = read_at-zeros n k

-- What every round keeps holds after the loop.
for_from-keeps {ℓ κ} :
    {S : Type ℓ} (P : ℕ → S → Type κ) (body : ℕ → S → S) (stop n i : ℕ) (s : S)
    → i + n ≡ stop
    → ((k : ℕ) (t : S) → i ≤ k → k < stop → P k t → P (suc k) (body k t))
    → P i s
    → P stop (for_from n i body s)
for_from-keeps P body stop zero i s e keep p = subst (λ k. P k s) (omega arith) p
for_from-keeps P body stop (suc n) i s e keep p =
    for_from-keeps P body stop n (suc i) (body i s) (omega arith)
      (λ k t lo hi q. keep k t (omega arith) hi q) (keep i s (omega arith) (omega arith) p)

-- Two cells of rows of the same width have different places.
index_injective : (c i j k l : ℕ) → j < c → l < c → i * c + j ≡ k * c + l → (i ≡ k) × (j ≡ l)
index_injective c zero j zero l hj hl e = (refl, omega arith)
index_injective c zero j (suc k) l hj hl e = absurd (grind arith)
index_injective c (suc i) j zero l hj hl e = absurd (grind arith)
index_injective c (suc i) j (suc k) l hj hl e =
    let (p, q) = index_injective c i j k l hj hl (grind arith) in (ap suc p, q)

index_in_range : (i j h w : ℕ) → i < h → j < w → i * w + j < h * w
index_in_range i j h w p q = grind arith

module _ (a b : List (List ℕ)) where
  -- The cells of which `known` is true hold their distance.
  record Holds (known : ℕ → ℕ → Bool) (d : List ℕ) : Type 0 where
    size : length d ≡ (length a + 1) * cols a b
    cells :
        (i j : ℕ)
        → i < length a + 1
        → j < cols a b
        → known i j ≡ true
        → read_at d (i * cols a b + j) ≡ distance a b i j

  write_at-Holds :
      {known wider : ℕ → ℕ → Bool} {d : List ℕ} (i j : ℕ)
      → Holds known d
      → i < length a + 1
      → j < cols a b
      → ((k l : ℕ) → wider k l ≡ true → (k == i && l == j) ≡ false → known k l ≡ true)
      → Holds wider (write_at d (i * cols a b + j) (distance a b i j))
  write_at-Holds {d = d} i j p hi hj old =
      let v = distance a b i j in
      let inside = index_in_range i j (length a + 1) (cols a b) hi hj in
      record {
        size = length-write_at d (i * cols a b + j) v ∙ p.size;
        cells = λ k l hk hl h. elim (Bool-cases (k == i && l == j)) [
          | inl same ↦
              let row : k ≡ i = ground arith in
              let column : l ≡ j = ground arith in
              rw (row, column)
                (read_at-write_at_self d (i * cols a b + j) v
                  (subst (λ n. i * cols a b + j < n) (sym p.size) inside))
          | inr other ↦
              read_at-write_at_ne d (i * cols a b + j) (k * cols a b + l) v (λ e.
                let (row, column) = index_injective (cols a b) i j k l hj hl e in
                absurd (ground arith))
              ∙ p.cells k l hk hl (old k l h other)
        ];
      }

  Holds-weaken :
      {known smaller : ℕ → ℕ → Bool} {d : List ℕ}
      → Holds known d
      → ((i j : ℕ) → i < length a + 1 → j < cols a b → smaller i j ≡ true → known i j ≡ true)
      → Holds smaller d
  Holds-weaken p less = record {
    size = p.size;
    cells = λ i j hi hj h. p.cells i j hi hj (less i j hi hj h);
  }

  abbrev column_known : ℕ → ℕ → ℕ → Bool
  column_known k i j = j == 0 && ltb i k

  abbrev row_known : ℕ → ℕ → ℕ → Bool
  row_known k i j = j == 0 || i == 0 && ltb j k

  abbrev cell_known : ℕ → ℕ → ℕ → ℕ → Bool
  cell_known i j k l = l == 0 || k == 0 || ltb k i || k == i && ltb l j

  distance_column : (i : ℕ) → distance a b i zero ≡ i * w_indel
  unfolding distance
  distance_column zero = refl
  distance_column (suc i) = refl

  distance_row : (j : ℕ) → distance a b zero j ≡ j * w_indel
  unfolding distance
  distance_row j = refl

  zeros-Holds : Holds (column_known 1) (zeros ((length a + 1) * cols a b))
  zeros-Holds = record {
    size = length-zeros _;
    cells = λ i j hi hj h.
        let row : i ≡ 0 = ground arith in
        let column : j ≡ 0 = ground arith in
        rw (row, column)
          (read_at-zeros ((length a + 1) * cols a b) (0 * cols a b + 0) ∙ sym (distance_column 0));
  }

  first_column-Holds :
      (d : List ℕ)
      → Holds (column_known 1) d
      → Holds (column_known (length a + 1)) (first_column a b d)
  first_column-Holds d p =
      for_from-keeps (λ k. Holds (column_known k)) _ (length a + 1) (length a) 1 d (omega arith)
        (λ k t lo hi q.
          let place : k * cols a b ≡ k * cols a b + 0 = omega arith in
          rw (place, ← distance_column k)
            (write_at-Holds k 0 q hi (omega arith) (λ i j h other. ground arith)))
        p

  first_row-Holds :
      (d : List ℕ) → Holds (row_known 1) d → Holds (row_known (cols a b)) (first_row a b d)
  first_row-Holds d p =
      for_from-keeps (λ k. Holds (row_known k)) _ (cols a b) (length b) 1 d (omega arith)
        (λ k t lo hi q.
          let place : 0 * cols a b + k ≡ k = omega arith in
          rw (← distance_row k) (
            subst (λ m. Holds (row_known (suc k)) (write_at t m (distance a b 0 k))) place
              (write_at-Holds 0 k q (omega arith) hi (λ i j h other. ground arith))))
        p

  fill_cell-Holds :
      (i j : ℕ) (d : List ℕ)
      → suc i < length a + 1
      → suc j < cols a b
      → Holds (cell_known (suc i) (suc j)) d
      → Holds (cell_known (suc i) (suc (suc j))) (fill_cell a b (suc i) (suc j) d)
  unfolding distance
  fill_cell-Holds i j d hi hj p =
      simp
        (
          sub-one,
          p.cells i j (omega arith) (omega arith) (ground arith),
          p.cells i (suc j) (omega arith) hj (ground arith),
          p.cells (suc i) j hi (omega arith) (ground arith),
        )
        (write_at-Holds (suc i) (suc j) p hi hj (λ k l h other. ground arith))

  fill_row-Holds :
      (i : ℕ) (d : List ℕ)
      → suc i < length a + 1
      → Holds (cell_known (suc i) 1) d
      → Holds (cell_known (suc (suc i)) 1) (for_from (length b) 1 (fill_cell a b (suc i)) d)
  fill_row-Holds i d hi p =
      Holds-weaken
        (for_from-keeps (λ j. Holds (cell_known (suc i) j)) (fill_cell a b (suc i)) (cols a b)
          (length b) 1 d (omega arith) (λ k t lo hk q. round k t lo hk q) p)
        (λ k l hk hl h. ground arith)
    where
      round :
          (k : ℕ) (t : List ℕ)
          → 1 ≤ k
          → k < cols a b
          → Holds (cell_known (suc i) k) t
          → Holds (cell_known (suc i) (suc k)) (fill_cell a b (suc i) k t)
      round zero t lo hk q = absurd (omega arith)
      round (suc j) t lo hk q = fill_cell-Holds i j t hi hk q

  fill_table-Holds : Holds (cell_known (length a + 1) 1) (fill_table a b)
  unfolding fill_table
  fill_table-Holds =
      for_from-keeps (λ i. Holds (cell_known i 1)) _ (length a + 1) (length a) 1 _ (omega arith)
        round
        (Holds-weaken
          (first_row-Holds _
            (Holds-weaken (first_column-Holds _ zeros-Holds) (λ i j hi hj h. ground arith)))
          (λ i j hi hj h. ground arith))
    where
      round :
          (i : ℕ) (d : List ℕ)
          → 1 ≤ i
          → i < length a + 1
          → Holds (cell_known i 1) d
          → Holds (cell_known (suc i) 1) (for_from (length b) 1 (fill_cell a b i) d)
      round zero d lo hi p = absurd (omega arith)
      round (suc i) d lo hi p = fill_row-Holds i d hi p

  -- The last cell of the array holds the distance of the whole sequences.
  pub table_distance-eq-distance : table_distance a b ≡ distance a b (length a) (length b)
  table_distance-eq-distance =
      let last : (length a + 1) * cols a b - 1 ≡ length a * cols a b + length b = grind arith in
      rw last
        (fill_table-Holds.cells (length a) (length b) (omega arith) (omega arith) (ground arith))
