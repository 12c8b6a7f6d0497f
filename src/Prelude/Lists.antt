-- ===== src/Prelude/Lists.antt =====
-- Lists measured by native numbers, Boolean filters and searches, and predicates on all elements.
use Prim.Native.Nat.{ℕ, zero, suc, ◌+◌, ◌≤◌}
use mathlib.Core.Path.{subst, ◌≡◌, refl, ap, ◌∙◌}
use mathlib.Core.Logic.{◌↔◌, ◌⊎◌, inl, inr}
use mathlib.Core.Bool.{Bool, true, false, ◌&&◌, ◌||◌}
use mathlib.Core.Option.{Option, none, some}
use mathlib.Core.List.{List, [], ◌∷◌, ◌++◌, map, Memᴰ}
use native.Mathlib.Omega.{arith}
use maman_agent.Prelude.Tests.{◌==◌, if◌then◌else◌, Bool-cases}

module _ {ℓ} {A : Type ℓ} where
  abbrev pub length : List A → ℕ
  length [] = 0
  length (x ∷ xs) = suc (length xs)

  -- JavaScript's `filter`, `some`, `every` and `find`.
  abbrev pub filter : (A → Bool) → List A → List A
  filter p [] = []
  filter p (x ∷ xs) = let rest = filter p xs in if p x then x ∷ rest else rest

  abbrev pub any : (A → Bool) → List A → Bool
  any p [] = false
  any p (x ∷ xs) = p x || any p xs

  abbrev pub all : (A → Bool) → List A → Bool
  all p [] = true
  all p (x ∷ xs) = p x && all p xs

  abbrev pub find : (A → Bool) → List A → Option A
  find p [] = none
  find p (x ∷ xs) = if p x then some x else find p xs

  abbrev pub flat_map {κ} : {B : Type κ} → (A → List B) → List A → List B
  flat_map f [] = []
  flat_map f (x ∷ xs) = f x ++ flat_map f xs

  abbrev pub get_elem? : List A → ℕ → Option A
  get_elem? [] i = none
  get_elem? (x ∷ xs) zero = some x
  get_elem? (x ∷ xs) (suc i) = get_elem? xs i

  pub length-append : (xs ys : List A) → length (xs ++ ys) ≡ length xs + length ys
  length-append [] ys = omega arith
  length-append (x ∷ xs) ys = omega (arith, length-append xs ys)

  pub filter-append :
      (p : A → Bool) (xs ys : List A) → filter p (xs ++ ys) ≡ filter p xs ++ filter p ys
  filter-append p [] ys = refl
  filter-append p (x ∷ xs) ys = ground (arith, filter-append p xs ys)

  pub length-filter-le : (p : A → Bool) (xs : List A) → length (filter p xs) ≤ length xs
  length-filter-le p [] = omega arith
  length-filter-le p (x ∷ xs) = ground (arith, length-filter-le p xs)

  -- What a successful search found, and what a failed one excludes.
  pub any_witness :
      (p : A → Bool) (xs : List A) → any p xs ≡ true → (x : A) × Memᴰ x xs × (p x ≡ true)
  any_witness p (x ∷ xs) h = elim (Bool-cases (p x)) [
    | inl e ↦ (x, Memᴰ.head refl, e)
    | inr e ↦ let (y, m, q) = any_witness p xs (ground arith) in (y, Memᴰ.tail m, q)
  ]
  any_witness p [] h = absurd (ground arith)

  pub any_intro : (p : A → Bool) (x : A) (xs : List A) → Memᴰ x xs → p x ≡ true → any p xs ≡ true
  any_intro p x [] m h = elim m [ ]
  any_intro p x (y ∷ ys) (Memᴰ.head e) h = ground arith
  any_intro p x (y ∷ ys) (Memᴰ.tail m) h = ground (arith, any_intro p x ys m h)

  pub List-cases : (xs : List A) → (xs ≡ []) ⊎ ((x : A) × (rest : List A) × (xs ≡ x ∷ rest))
  List-cases [] = inl refl
  List-cases (x ∷ xs) = inr (x, xs, refl)

  kept-mem :
      (b : Bool) (x y : A) (xs : List A)
      → Memᴰ x (if b then y ∷ xs else xs)
      → ((x ≡ y) × (b ≡ true)) ⊎ Memᴰ x xs
  kept-mem true x y xs (Memᴰ.head e) = inl (e, refl)
  kept-mem true x y xs (Memᴰ.tail m) = inr m
  kept-mem false x y xs m = inr m

  pub filter-mem :
      (p : A → Bool) (x : A) (xs : List A) → Memᴰ x (filter p xs) → Memᴰ x xs × (p x ≡ true)
  filter-mem p x [] m = elim m [ ]
  filter-mem p x (y ∷ ys) m = elim (kept-mem (p y) x y (filter p ys) m) [
    | inl (e, q) ↦ (Memᴰ.head e, ap p e ∙ q)
    | inr k ↦ let (n, q) = filter-mem p x ys k in (Memᴰ.tail n, q)
  ]

  pub get_elem?-mem : (xs : List A) (i : ℕ) (x : A) → get_elem? xs i ≡ some x → Memᴰ x xs
  get_elem?-mem [] i x h = absurd (ground arith)
  get_elem?-mem (y ∷ ys) zero x h = Memᴰ.head (ground arith)
  get_elem?-mem (y ∷ ys) (suc i) x h = Memᴰ.tail (get_elem?-mem ys i x h)

-- How often a number stands in a list.
abbrev pub count : ℕ → List ℕ → ℕ
count i [] = 0
count i (j ∷ js) = let rest = count i js in if i == j then suc rest else rest

module _ {ℓ κ} {A : Type ℓ} (P : A → Type κ) where
  abbrev pub All : List A → Type κ
  All [] = Unit
  All (x ∷ xs) = P x × All xs

  pub All-append : (xs ys : List A) → All xs → All ys → All (xs ++ ys)
  All-append [] ys h k = k
  All-append (x ∷ xs) ys (p, h) k = (p, All-append xs ys h k)

  pub All-filter : (p : A → Bool) (xs : List A) → All xs → All (filter p xs)
  All-filter p [] h = tt
  All-filter p (x ∷ xs) h = elim (Bool-cases (p x)) [
    | inl e ↦ rw e (h.0, All-filter p xs h.1)
    | inr e ↦ rw e (All-filter p xs h.1)
  ]

  pub All-mem : (x : A) (xs : List A) → All xs → Memᴰ x xs → P x
  All-mem x [] h m = elim m [ ]
  All-mem x (y ∷ ys) (p, h) (Memᴰ.head e) = rw e p
  All-mem x (y ∷ ys) (p, h) (Memᴰ.tail m) = All-mem x ys h m

  pub find-All :
      (p : A → Bool) (xs : List A) {x : A} → All xs → find p xs ≡ some x → P x × (p x ≡ true)
  find-All p [] h e = cc
  find-All p (y ∷ ys) {x} (q, h) e = elim (Bool-cases (p y)) [
    | inl hit ↦ let same : y ≡ x = ground arith in (rw (← same) q, rw (← same) hit)
    | inr miss ↦ find-All p ys h (ground arith)
  ]

-- A list that is collected from parts is empty exactly when each part is.
module _ {ℓ} {A : Type ℓ} where
  abbrev pub is_empty : List A → Bool
  is_empty [] = true
  is_empty (_ ∷ _) = false

  pub is_empty-append : (xs ys : List A) → is_empty (xs ++ ys) ≡ (is_empty xs && is_empty ys)
  is_empty-append [] ys = refl
  is_empty-append (x ∷ xs) ys = refl

module _ {ℓ κ} {A : Type ℓ} {B : Type κ} where
  pub is_empty-flat_map :
      (f : A → List B) (xs : List A) → is_empty (flat_map f xs) ≡ all (λ x. is_empty (f x)) xs
  is_empty-flat_map f [] = refl
  is_empty-flat_map f (x ∷ xs) =
      is_empty-append (f x) (flat_map f xs) ∙ ap (λ b. is_empty (f x) && b) (is_empty-flat_map f xs)

  pub length-map : (f : A → B) (xs : List A) → length (map f xs) ≡ length xs
  length-map f [] = refl
  length-map f (x ∷ xs) = ap suc (length-map f xs)

  pub map-append : (f : A → B) (xs ys : List A) → map f (xs ++ ys) ≡ map f xs ++ map f ys
  map-append f [] ys = refl
  map-append f (x ∷ xs) ys = ap (λ zs. f x ∷ zs) (map-append f xs ys)

  pub is_empty-map : (f : A → B) (xs : List A) → is_empty (map f xs) ≡ is_empty xs
  is_empty-map f [] = refl
  is_empty-map f (x ∷ xs) = refl

-- `every` decides a predicate on all elements, if the test decides it on each.
module _ {ℓ κ} {A : Type ℓ} (P : A → Type κ) (p : A → Bool) where
  pub all-All_iff : ((x : A) → (p x ≡ true) ↔ P x) → (xs : List A) → (all p xs ≡ true) ↔ All P xs
  all-All_iff d [] = ((λ _. tt), (λ _. refl))
  all-All_iff d (x ∷ xs) =
      let (to, from) = all-All_iff d xs in
      let (to_x, from_x) = d x in
      ((λ h. (to_x (ground arith), to (ground arith))), (λ h. ground (arith, from_x h.0, from h.1)))

-- Filters, predicates on all elements, and their combinations.
module _ {ℓ} {A : Type ℓ} where
  pub filter-nil_iff : (p : A → Bool) (xs : List A) → (filter p xs ≡ []) ↔ All (λ x. p x ≡ false) xs
  filter-nil_iff p [] = (λ _. tt, λ _. refl)
  filter-nil_iff p (x ∷ xs) =
      let ih = filter-nil_iff p xs in
      elim (Bool-cases (p x)) [
        | inl e ↦ (λ h. absurd (ground arith), λ h. let q = h.0 in absurd (ground arith))
        | inr e ↦ (λ h. (e, ih.0 (ground arith)), λ h. let q = ih.1 h.1 in ground arith)
      ]

  pub All-kept {κ} :
      (P : A → Type κ) (p : A → Bool) (xs : List A)
      → All P (filter p xs)
      → All (λ x. p x ≡ true → P x) xs
  All-kept P p [] h = tt
  All-kept P p (x ∷ xs) h = elim (Bool-cases (p x)) [
    | inl e ↦
        let k : All P (x ∷ filter p xs) =
          subst (λ b. All P (if b then x ∷ filter p xs else filter p xs)) e h in
        (λ _. k.0, All-kept P p xs k.1)
    | inr e ↦
        let k : All P (filter p xs) =
          subst (λ b. All P (if b then x ∷ filter p xs else filter p xs)) e h in
        (λ q. absurd (ground arith), All-kept P p xs k)
  ]

  pub All-both :
      (P Q R : A → Type 0) (xs : List A)
      → All P xs
      → All Q xs
      → ((x : A) → P x → Q x → R x)
      → All R xs
  All-both P Q R [] h k f = tt
  All-both P Q R (x ∷ xs) (p, h) (q, k) f = (f x p q, All-both P Q R xs h k f)
