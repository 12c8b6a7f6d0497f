-- ===== src/Similarity/Laws.antt =====
-- The distance and the similarity of two sequences (packages/pattern-engine/src/similarity.ts).
use maman_agent.Prelude.{
  same_codes_comm, ℕ, zero, suc, ◌≤◌, ◌<◌, ◌≡◌, refl, arith, List, [], ◌∷◌, length, sym, ◌∙◌,
  same_codes_refl,
}
use maman_agent.Similarity.{
  substitution_cost, parse_token, token_at, max, table_distance, sequence_similarity,
}
use maman_agent.Similarity.Alignment.{distance, Aligns, distance-le, distance-Aligns}
use maman_agent.Similarity.Grid.{table_distance-eq-distance}

-- The distance that the array ends with is the cost of some alignment of the two sequences, and no
-- alignment costs less.
pub table_distance-least :
    (a b : List (List ℕ))
    → Aligns a b (length a) (length b) (table_distance a b)
      × ((c : ℕ) → Aligns a b (length a) (length b) c → table_distance a b ≤ c)
table_distance-least a b =
    rw (table_distance-eq-distance a b)
      (distance-Aligns a b (length a) (length b), λ c p. distance-le a b p)

substitution_cost_comm : (a b : List ℕ) → substitution_cost a b ≡ substitution_cost b a
unfolding substitution_cost
substitution_cost_comm a b =
    let pa = parse_token a in
    let pb = parse_token b in
    rw
      (
        same_codes_comm a b,
        same_codes_comm pa.app pb.app,
        same_codes_comm pa.event_type pb.event_type,
        same_codes_comm pa.object pb.object,
      )
      refl

substitution_cost_self : (a : List ℕ) → substitution_cost a a ≡ 0
unfolding substitution_cost
substitution_cost_self a = rw (same_codes_refl a) refl

distance_comm : (a b : List (List ℕ)) (i j : ℕ) → distance a b i j ≡ distance b a j i
unfolding distance
distance_comm a b zero zero = refl
distance_comm a b zero (suc j) = refl
distance_comm a b (suc i) zero = refl
distance_comm a b (suc i) (suc j) = omega (
  arith,
  distance_comm a b i j,
  distance_comm a b i (suc j),
  distance_comm a b (suc i) j,
  substitution_cost_comm (token_at a i) (token_at b j),
)

distance_self : (a : List (List ℕ)) (i : ℕ) → distance a a i i ≡ 0
unfolding distance
distance_self a zero = refl
distance_self a (suc i) = omega (arith, distance_self a i, substitution_cost_self (token_at a i))

max_comm : (m n : ℕ) → max m n ≡ max n m
max_comm m n = ground arith

table_distance_comm : (a b : List (List ℕ)) → table_distance a b ≡ table_distance b a
table_distance_comm a b =
    table_distance-eq-distance a b
    ∙ distance_comm a b (length a) (length b)
    ∙ sym (table_distance-eq-distance b a)

table_distance_self : (a : List (List ℕ)) → table_distance a a ≡ 0
table_distance_self a = table_distance-eq-distance a a ∙ distance_self a (length a)

-- Similarity does not depend on the order of its arguments.
sequence_similarity_comm : (a b : List (List ℕ)) → sequence_similarity a b ≡ sequence_similarity b a
unfolding sequence_similarity
sequence_similarity_comm [] [] = refl
sequence_similarity_comm [] (y ∷ b) = refl
sequence_similarity_comm (x ∷ a) [] = refl
sequence_similarity_comm (x ∷ a) (y ∷ b) =
    rw (table_distance_comm (x ∷ a) (y ∷ b), max_comm (length (x ∷ a)) (length (y ∷ b))) refl

-- A similarity is a fraction between 0 and 1, and that of a sequence with itself is 1.
pub sequence_similarity_bounds :
    (a b : List (List ℕ))
    → (0 < (sequence_similarity a b).den)
      × ((sequence_similarity a b).num ≤ (sequence_similarity a b).den)
      × ((sequence_similarity a a).num ≡ (sequence_similarity a a).den)
unfolding sequence_similarity
sequence_similarity_bounds [] [] = (omega arith, omega arith, refl)
sequence_similarity_bounds [] (y ∷ b) = (omega arith, omega arith, refl)
sequence_similarity_bounds (x ∷ a) [] =
    (omega arith, omega arith, omega (arith, table_distance_self (x ∷ a)))
sequence_similarity_bounds (x ∷ a) (y ∷ b) =
    (ground arith, omega arith, omega (arith, table_distance_self (x ∷ a)))
