-- ===== src/Comparison/Laws.antt =====
-- The counts of a comparison (packages/agent-runtime/src/shadow.ts, `compareShadowRun`).
use maman_agent.Prelude.{
  same_codes→≡, same_codes_comm, ℕ, ◌+◌, ◌≡◌, refl, arith, same_codes, List, [], ◌∷◌, filter,
  length, Bool, not, if◌then◌else◌, ◌≤◌, Bool-cases, ◌∙◌, map, String, inl, sym, length-filter-le,
  inr, true, ap, false, ◌-◌,
}
use maman_agent.Comparison.{key_set, matches, ProposedChange, compare_shadow_run, has, key, rounded}

-- How many keys of a list are equal to one.
abbrev hits : List ℕ → List (List ℕ) → ℕ
hits k ks = length (filter (same_codes k) ks)

abbrev all_hits : List (List ℕ) → List (List ℕ) → ℕ
all_hits [] bs = 0
all_hits (a ∷ as_) bs = hits a bs + all_hits as_ bs

hits_swap :
    (b : List ℕ) (as_ bs : List (List ℕ)) → all_hits as_ (b ∷ bs) ≡ hits b as_ + all_hits as_ bs
hits_swap b [] bs = omega arith
hits_swap b (a ∷ as_) bs =
    let swap = same_codes_comm a b in let ih = hits_swap b as_ bs in ground arith

all_hits_none : (as_ : List (List ℕ)) → all_hits as_ [] ≡ 0
all_hits_none [] = refl
all_hits_none (a ∷ as_) = omega (arith, all_hits_none as_)

all_hits_comm : (as_ bs : List (List ℕ)) → all_hits as_ bs ≡ all_hits bs as_
all_hits_comm as_ [] = all_hits_none as_
all_hits_comm as_ (b ∷ bs) = omega (arith, hits_swap b as_ bs, all_hits_comm as_ bs)

-- No key of the list comes twice.
abbrev IsKeySet : List (List ℕ) → Type 0
IsKeySet [] = Unit
IsKeySet (k ∷ ks) = (hits k ks ≡ 0) × IsKeySet ks

hits-filter :
    (p : List ℕ → Bool) (k : List ℕ) (ks : List (List ℕ)) → hits k (filter p ks) ≤ hits k ks
hits-filter p k [] = omega arith
hits-filter p k (x ∷ ks) = let ih = hits-filter p k ks in ground arith

hits-unequal :
    (k : List ℕ) (ks : List (List ℕ)) → hits k (filter (λ x. not (same_codes k x)) ks) ≡ 0
hits-unequal k [] = refl
hits-unequal k (x ∷ ks) = let ih = hits-unequal k ks in ground arith

filter-IsKeySet : (p : List ℕ → Bool) (ks : List (List ℕ)) → IsKeySet ks → IsKeySet (filter p ks)
filter-IsKeySet p [] h = tt
filter-IsKeySet p (k ∷ ks) (h, hs) = elim (Bool-cases (p k)) [
  | inl e ↦ rw e (omega (arith, hits-filter p k ks), filter-IsKeySet p ks hs)
  | inr e ↦ rw e (filter-IsKeySet p ks hs)
]

key_set-IsKeySet : (ks : List (List ℕ)) → IsKeySet (key_set ks)
key_set-IsKeySet [] = tt
key_set-IsKeySet (k ∷ ks) = (
  hits-unequal k (key_set ks),
  filter-IsKeySet (λ x. not (same_codes k x)) (key_set ks) (key_set-IsKeySet ks),
)

-- In a set a key is found once or not at all.
hits-has : (a : List ℕ) (bs : List (List ℕ)) → IsKeySet bs → hits a bs ≡ (if has bs a then 1 else 0)
hits-has a [] h = refl
hits-has a (b ∷ bs) (h, hs) = elim (Bool-cases (same_codes a b)) [
  | inl e ↦
      let same : a ≡ b = same_codes→≡ a b e in
      let found : same_codes b a ≡ true = same_codes_comm b a ∙ e in
      let none_left : hits a bs ≡ 0 = rw same h in rw (e, found, none_left) refl
  | inr e ↦
      let missing : same_codes b a ≡ false = same_codes_comm b a ∙ e in
      rw (e, missing) (hits-has a bs hs)
]

matches-all_hits : (as_ bs : List (List ℕ)) → IsKeySet bs → matches as_ bs ≡ all_hits as_ bs
matches-all_hits [] bs h = refl
matches-all_hits (a ∷ as_) bs h =
    let ih = matches-all_hits as_ bs h in let here = hits-has a bs h in ground arith

matches_comm :
    (as_ bs : List (List ℕ)) → IsKeySet as_ → IsKeySet bs → matches as_ bs ≡ matches bs as_
matches_comm as_ bs h k =
    matches-all_hits as_ bs k ∙ all_hits_comm as_ bs ∙ sym (matches-all_hits bs as_ h)

abbrev pub keys_of : List ProposedChange → List (List ℕ)
keys_of changes = key_set (map key changes)

pub run-matches_comm :
    (proposed actual : List ProposedChange)
    → matches (keys_of proposed) (keys_of actual) ≡ matches (keys_of actual) (keys_of proposed)
run-matches_comm proposed actual =
    matches_comm (keys_of proposed) (keys_of actual) (key_set-IsKeySet (map key proposed))
      (key_set-IsKeySet (map key actual))

-- What matches and what is missed are together the different keys of the user's changes, what matches
-- and what is extra those of the run's; and if the two change places, so do the missed and the extra
-- ones, while the matches and the agreement stay.
pub compare_shadow_run-balanced :
    (run_id : String) (proposed actual : List ProposedChange)
    → let c = compare_shadow_run run_id proposed actual in
      let d = compare_shadow_run run_id actual proposed in
      (c.matched + c.missed ≡ length (keys_of actual))
      × (c.matched + c.extra ≡ length (keys_of proposed))
      × (c.matched ≡ d.matched)
      × (c.missed ≡ d.extra)
      × (c.extra ≡ d.missed)
      × (c.agreement ≡ d.agreement)
unfolding compare_shadow_run
compare_shadow_run-balanced run_id proposed actual =
    let ps = keys_of proposed in
    let as_ = keys_of actual in
    let swap = run-matches_comm proposed actual in
    let inside = length-filter-le (has as_) ps in
    let inside' = length-filter-le (has ps) as_ in
    let total : length ps + length as_ ≡ length as_ + length ps = omega arith in
    (
      omega arith,
      omega arith,
      swap,
      ap (λ m. length as_ - m) swap,
      ap (λ m. length ps - m) swap,
      ap (λ m. rounded m (length ps + length as_ - m)) swap
          ∙ ap (λ n. rounded (matches as_ ps) (n - matches as_ ps)) total,
    )
