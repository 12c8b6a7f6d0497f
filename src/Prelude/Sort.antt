-- ===== src/Prelude/Sort.antt =====
-- The stable sort by a number, JavaScript's `sort((a, b) => key(a) - key(b))`.
use Prim.Native.Nat.{ℕ, ◌≤◌}
use mathlib.Core.Bool.{Bool, true, false}
use mathlib.Core.Path.{ap, subst, sym, ◌≡◌, refl}
use mathlib.Core.List.{List, [], ◌∷◌, Perm, Memᴰ}
use mathlib.Core.List.Memᴰ.{eq_of_singleton}
use mathlib.Core.List.Perm
use native.Mathlib.Omega.{arith}
use mathlib.Core.Logic.{◌⊎◌, inl, inr}
use maman_agent.Prelude.Tests.{leb, if◌then◌else◌, Bool-cases}
use maman_agent.Prelude.Lists.{length, All}

module _ {ℓ} {A : Type ℓ} (key : A → ℕ) where
  abbrev pub insert_by : A → List A → List A
  insert_by x [] = x ∷ []
  insert_by x (y ∷ ys) =
      let later = y ∷ insert_by x ys in if leb (key x) (key y) then x ∷ y ∷ ys else later

  abbrev pub sort_by : List A → List A
  sort_by [] = []
  sort_by (x ∷ xs) = insert_by x (sort_by xs)

  length-insert_by : (x : A) (xs : List A) → length (insert_by x xs) ≡ length (x ∷ xs)
  length-insert_by x [] = refl
  length-insert_by x (y ∷ ys) = ground (arith, length-insert_by x ys)

  pub length-sort_by : (xs : List A) → length (sort_by xs) ≡ length xs
  length-sort_by [] = refl
  length-sort_by (x ∷ xs) = ground (arith, length-insert_by x (sort_by xs), length-sort_by xs)

  insert_by-perm : (x : A) (xs : List A) → Perm (insert_by x xs) (x ∷ xs)
  insert_by-perm x [] = Perm.refl (x ∷ [])
  insert_by-perm x (y ∷ ys) = elim (Bool-cases (leb (key x) (key y))) [
    | inl e ↦ rw e (Perm.refl (x ∷ y ∷ ys))
    | inr e ↦ rw e (Perm.trans (Perm.cons y (insert_by-perm x ys)) (Perm.swap x y ys))
  ]

  -- The sorted list is a rearrangement, in ascending order of the key.
  pub sort_by-perm : (xs : List A) → Perm (sort_by xs) xs
  sort_by-perm [] = Perm.refl []
  sort_by-perm (x ∷ xs) = Perm.trans (insert_by-perm x (sort_by xs)) (Perm.cons x (sort_by-perm xs))

  abbrev pub IsAtMost : ℕ → List A → Type 0
  IsAtMost n [] = Unit
  IsAtMost n (x ∷ xs) = n ≤ key x

  abbrev pub IsSortedBy : List A → Type 0
  IsSortedBy [] = Unit
  IsSortedBy (x ∷ xs) = IsAtMost (key x) xs × IsSortedBy xs

  insert_by-IsSortedBy : (x : A) (xs : List A) → IsSortedBy xs → IsSortedBy (insert_by x xs)
  insert_by-IsSortedBy x [] h = (tt, tt)
  insert_by-IsSortedBy x (y ∷ []) h = ground arith
  insert_by-IsSortedBy x (y ∷ z ∷ ys) h = ground (arith, insert_by-IsSortedBy x (z ∷ ys) h.1)

  pub sort_by-IsSortedBy : (xs : List A) → IsSortedBy (sort_by xs)
  sort_by-IsSortedBy [] = tt
  sort_by-IsSortedBy (x ∷ xs) = insert_by-IsSortedBy x (sort_by xs) (sort_by-IsSortedBy xs)

  -- What holds of an `if` holds of the branch taken.
  branch_taken {κ} :
      (P : List A → Type κ) (b : Bool) (xs ys : List A) → P (if b then xs else ys) → P xs ⊎ P ys
  branch_taken P true xs ys h = inl h
  branch_taken P false xs ys h = inr h

  insert_by-mem : (x a : A) (xs : List A) → Memᴰ a (insert_by x xs) → (a ≡ x) ⊎ Memᴰ a xs
  insert_by-mem x a [] m = inl (eq_of_singleton m)
  insert_by-mem x a (y ∷ ys) m =
      elim (branch_taken (Memᴰ a) (leb (key x) (key y)) (x ∷ y ∷ ys) (y ∷ insert_by x ys) m) [
        | inl (Memᴰ.head q) ↦ inl q
        | inl (Memᴰ.tail k) ↦ inr k
        | inr (Memᴰ.head q) ↦ inr (Memᴰ.head q)
        | inr (Memᴰ.tail k) ↦ elim (insert_by-mem x a ys k) [
          | inl q ↦ inl q
          | inr l ↦ inr (Memᴰ.tail l)
        ]
      ]

  pub sort_by-mem : (a : A) (xs : List A) → Memᴰ a (sort_by xs) → Memᴰ a xs
  sort_by-mem a [] m = m
  sort_by-mem a (x ∷ xs) m = elim (insert_by-mem x a (sort_by xs) m) [
    | inl e ↦ Memᴰ.head e
    | inr k ↦ Memᴰ.tail (sort_by-mem a xs k)
  ]

  mem-insert_by : (x a : A) (xs : List A) → Memᴰ a (x ∷ xs) → Memᴰ a (insert_by x xs)
  mem-insert_by x a [] m = m
  mem-insert_by x a (y ∷ ys) m = elim (Bool-cases (leb (key x) (key y))) [
    | inl e ↦ rw e m
    | inr e ↦ rw e (elim m [
      | Memᴰ.head q ↦ Memᴰ.tail (mem-insert_by x a ys (Memᴰ.head q))
      | Memᴰ.tail (Memᴰ.head q) ↦ Memᴰ.head q
      | Memᴰ.tail (Memᴰ.tail k) ↦ Memᴰ.tail (mem-insert_by x a ys (Memᴰ.tail k))
    ])
  ]

  -- Sorting keeps every element.
  pub mem-sort_by : (a : A) (xs : List A) → Memᴰ a xs → Memᴰ a (sort_by xs)
  mem-sort_by a (x ∷ xs) (Memᴰ.head e) = mem-insert_by x a (sort_by xs) (Memᴰ.head e)
  mem-sort_by a (x ∷ xs) (Memᴰ.tail m) =
      mem-insert_by x a (sort_by xs) (Memᴰ.tail (mem-sort_by a xs m))
  mem-sort_by a [] m = m

  IsSortedBy-All : (n : ℕ) (xs : List A) → IsAtMost n xs → IsSortedBy xs → All (λ x. n ≤ key x) xs
  IsSortedBy-All n [] h s = tt
  IsSortedBy-All n (x ∷ []) h s = (h, tt)
  IsSortedBy-All n (x ∷ y ∷ ys) h (le, s) = (h, IsSortedBy-All n (y ∷ ys) (omega arith) s)

  insert_by-All :
      (n : ℕ) (x : A) (xs : List A)
      → All (λ y. n ≤ key y) (insert_by x xs)
      → (n ≤ key x) × All (λ y. n ≤ key y) xs
  insert_by-All n x [] h = h
  insert_by-All n x (y ∷ ys) h =
      elim (branch_taken (All (λ z. n ≤ key z)) (leb (key x) (key y)) (x ∷ y ∷ ys)
        (y ∷ insert_by x ys) h) [
          | inl k ↦ (k.0, k.1)
          | inr k ↦ let (l, ls) = insert_by-All n x ys k.1 in (l, (k.0, ls))
        ]

  sort_by-All : (n : ℕ) (xs : List A) → All (λ y. n ≤ key y) (sort_by xs) → All (λ y. n ≤ key y) xs
  sort_by-All n [] h = tt
  sort_by-All n (x ∷ xs) h =
      let (k, ks) = insert_by-All n x (sort_by xs) h in (k, sort_by-All n xs ks)

  -- What stands first after sorting is a least element.
  pub sort_by-first :
      (x : A) (rest xs : List A) → sort_by xs ≡ x ∷ rest → All (λ y. key x ≤ key y) xs
  sort_by-first x rest xs e =
      let sorted : IsSortedBy (x ∷ rest) = subst IsSortedBy e (sort_by-IsSortedBy xs) in
      let least : All (λ y. key x ≤ key y) (x ∷ rest) =
        (omega arith, IsSortedBy-All (key x) rest sorted.0 sorted.1) in
      sort_by-All (key x) xs (subst (All (λ y. key x ≤ key y)) (sym e) least)

  pub sort_by-nil : (xs : List A) → sort_by xs ≡ [] → xs ≡ []
  sort_by-nil [] e = refl
  sort_by-nil (x ∷ xs) e =
      let n : length (sort_by (x ∷ xs)) ≡ 0 = ap length e in
      absurd (omega (arith, n, length-sort_by (x ∷ xs)))
