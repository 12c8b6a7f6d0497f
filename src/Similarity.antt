-- ===== src/Similarity.antt =====
-- The similarity of two sequences of tokens (packages/pattern-engine/src/similarity.ts), and in child
-- modules their signatures and clusters. A token is the list of its UTF-16 code units; costs are in
-- twentieths, and a similarity is a fraction.
pub mod Alignment
mod Grid
pub mod Laws
pub mod Minhash
pub mod Cluster
pub mod Merging
mod Search
mod Merges
pub mod Clusters
pub mod Linkage
mod Examples
use maman_agent.Prelude.{
  ℕ, zero, suc, ◌+◌, ◌-◌, ◌*◌, ◌==◌, leb, ltb, if◌then◌else◌, Bool, true, false, ◌&&◌, ◌||◌, List,
  [], ◌∷◌, min, same_codes, length, Option, none, some, get_elem?,
}

-- `num / den`
pub record Score : Type 0 where
  pub num : ℕ
  pub den : ℕ

abbrev pub max : ℕ → ℕ → ℕ
max a b = if leb a b then b else a

abbrev pub w_same_app_same_type_diff_role : ℕ
w_same_app_same_type_diff_role = 5

abbrev pub w_same_app_diff_type : ℕ
w_same_app_diff_type = 12

abbrev pub w_diff_app_equivalent_action : ℕ
w_diff_app_equivalent_action = 10

abbrev pub w_unrelated : ℕ
w_unrelated = 20

abbrev pub w_indel : ℕ
w_indel = 14

pub record TokenParts : Type 0 where
  pub source : List ℕ
  pub app : List ℕ
  pub event_type : List ℕ
  pub role : List ℕ
  pub semantic : List ℕ
  pub object : List ℕ

abbrev put_first : ℕ → List (List ℕ) → List (List ℕ)
put_first c [] = (c ∷ []) ∷ []
put_first c (part ∷ parts) = (c ∷ part) ∷ parts

-- `token.split(":")`
abbrev split_colon : List ℕ → List (List ℕ)
split_colon [] = [] ∷ []
split_colon (c ∷ cs) =
    let parts = split_colon cs in if c == 58 then [] ∷ parts else put_first c parts

abbrev part_at : List (List ℕ) → ℕ → List ℕ
part_at [] k = 45 ∷ []
part_at (part ∷ parts) zero = part
part_at (part ∷ parts) (suc k) = part_at parts k

abbrev pub parse_token : List ℕ → TokenParts
parse_token token =
    let parts = split_colon token in
    record {
      source = part_at parts 0;
      app = part_at parts 1;
      event_type = part_at parts 2;
      role = part_at parts 3;
      semantic = part_at parts 4;
      object = part_at parts 5;
    }

abbrev parts_cost : TokenParts → TokenParts → ℕ
parts_cost pa pb =
    let same_app = same_codes pa.app pb.app in
    let same_type = same_codes pa.event_type pb.event_type in
    if same_app && same_type
    then w_same_app_same_type_diff_role
    else if same_app
    then w_same_app_diff_type
    else if same_type && same_codes pa.object pb.object
    then w_diff_app_equivalent_action
    else w_unrelated

unfoldable pub substitution_cost : List ℕ → List ℕ → ℕ
substitution_cost a b = if same_codes a b then 0 else parts_cost (parse_token a) (parse_token b)

-- The array of the distances: reads and writes at an index; a write out of range does nothing.
abbrev pub zeros : ℕ → List ℕ
zeros zero = []
zeros (suc n) = 0 ∷ zeros n

abbrev pub read_at : List ℕ → ℕ → ℕ
read_at [] k = 0
read_at (x ∷ xs) zero = x
read_at (x ∷ xs) (suc k) = read_at xs k

abbrev pub write_at : List ℕ → ℕ → ℕ → List ℕ
write_at [] k v = []
write_at (x ∷ xs) zero v = v ∷ xs
write_at (x ∷ xs) (suc k) v = x ∷ write_at xs k v

-- `n` rounds of a loop, the first at `i`.
abbrev pub for_from {ℓ} : {S : Type ℓ} (n i : ℕ) → (ℕ → S → S) → S → S
for_from zero i body s = s
for_from (suc n) i body s = for_from n (suc i) body (body i s)

abbrev pub token_at : List (List ℕ) → ℕ → List ℕ
token_at [] k = []
token_at (t ∷ ts) zero = t
token_at (t ∷ ts) (suc k) = token_at ts k

module _ (a b : List (List ℕ)) where
  abbrev pub cols : ℕ
  cols = length b + 1

  abbrev pub fill_cell : (i j : ℕ) → List ℕ → List ℕ
  fill_cell i j d =
      let sub =
        read_at d ((i - 1) * cols + (j - 1))
        + substitution_cost (token_at a (i - 1)) (token_at b (j - 1)) in
      let del = read_at d ((i - 1) * cols + j) + w_indel in
      let ins = read_at d (i * cols + (j - 1)) + w_indel in
      write_at d (i * cols + j) (min (min sub del) ins)

  abbrev pub first_column : List ℕ → List ℕ
  first_column d = for_from (length a) 1 (λ i e. write_at e (i * cols) (i * w_indel)) d

  abbrev pub first_row : List ℕ → List ℕ
  first_row d = for_from (length b) 1 (λ j e. write_at e j (j * w_indel)) d

  unfoldable pub fill_table : List ℕ
  fill_table =
      for_from (length a) 1 (λ i. for_from (length b) 1 (fill_cell i))
        (first_row (first_column (zeros ((length a + 1) * cols))))

  abbrev pub table_distance : ℕ
  table_distance = read_at fill_table ((length a + 1) * cols - 1)

unfoldable pub sequence_similarity : List (List ℕ) → List (List ℕ) → Score
sequence_similarity [] [] = record { num = 1; den = 1 }
sequence_similarity [] (_ ∷ _) = record { num = 0; den = 1 }
sequence_similarity (_ ∷ _) [] = record { num = 0; den = 1 }
sequence_similarity (x ∷ xs) (y ∷ ys) =
    let most = max (length (x ∷ xs)) (length (y ∷ ys)) * w_indel in
    record { num = most - table_distance (x ∷ xs) (y ∷ ys); den = most }
