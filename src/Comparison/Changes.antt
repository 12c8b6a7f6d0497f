-- ===== src/Comparison/Changes.antt =====
-- The counts of a comparison, in changes in place of keys (packages/agent-runtime/src/shadow.ts,
-- `compareShadowRun`).
use Prim.Native.Char.{code}
use text.Mathlib.TextEquality.{Char-path}
use mathlib.Core.Path.{subst}
use maman_agent.Prelude.{
  same_codes→≡, same_codes_refl, same_codes, codes, String, ◌===◌, ===→≡, ≡→===, ◌==◌, ◌&&◌, ◌||◌,
  ℕ, ◌+◌, ◌≡◌, refl, arith, List, [], ◌∷◌, ◌++◌, filter, any, all, All, All-filter, map, length,
  Bool, true, false, not, Bool-cases, ◌∙◌, inl, inr, sym, ap, append_assoc, length-map,
}
use maman_agent.Comparison.{key_set, matches, ProposedChange, compare_shadow_run, has, key}
use maman_agent.Comparison.Laws.{keys_of, run-matches_comm}

-- No code is that of the separator.
abbrev pub is_unseparated : String → Bool
is_unseparated s = all (λ x. not (x == b'|')) (codes s)

-- The parts of a change before the last one do not hold the separator.
abbrev pub IsPlain : ProposedChange → Type 0
IsPlain c = (is_unseparated c.object_ref ≡ true) × (is_unseparated c.field ≡ true)

abbrev pub same_change : ProposedChange → ProposedChange → Bool
same_change c d =
    c.object_ref === d.object_ref
    && (c.field === d.field && c.proposed_value_hash === d.proposed_value_hash)

-- The different changes of a list, each once.
abbrev pub distinct : List ProposedChange → List ProposedChange
distinct [] = []
distinct (c ∷ cs) = c ∷ filter (λ d. not (same_change c d)) (distinct cs)

abbrev pub made : List ProposedChange → ProposedChange → Bool
made changes c = any (λ d. same_change d c) changes

codes→≡ : (s t : String) → codes s ≡ codes t → s ≡ t
codes→≡ String.[] String.[] e = refl
codes→≡ String.[] (String.◌∷◌ d t) e = absurd (ground arith)
codes→≡ (String.◌∷◌ c s) String.[] e = absurd (ground arith)
codes→≡ (String.◌∷◌ c s) (String.◌∷◌ d t) e =
    let first : code c ≡ code d = cc in
    let rest : codes s ≡ codes t = cc in
    let same = Char-path c d first in let more = codes→≡ s t rest in cc

codes-same : (s t : String) → same_codes (codes s) (codes t) ≡ (s === t)
codes-same s t = elim (Bool-cases (s === t)) [
  | inl e ↦
      let same = ===→≡ s t e in
      rw e (subst (λ u. same_codes (codes s) (codes u) ≡ true) same (same_codes_refl (codes s)))
  | inr e ↦ elim (Bool-cases (same_codes (codes s) (codes t))) [
    | inl k ↦
        let yes = ≡→=== s t (codes→≡ s t (same_codes→≡ (codes s) (codes t) k)) in
        absurd (ground arith)
    | inr k ↦ rw (k, e) refl
  ]
]

separated :
    (a b x y : List ℕ)
    → all (λ z. not (z == b'|')) a ≡ true
    → all (λ z. not (z == b'|')) b ≡ true
    → same_codes (a ++ b'|' ∷ x) (b ++ b'|' ∷ y) ≡ (same_codes a b && same_codes x y)
separated [] [] x y h k = refl
separated [] (d ∷ b) x y h k = ground arith
separated (c ∷ a) [] x y h k = ground arith
separated (c ∷ a) (d ∷ b) x y h k =
    let ih = separated a b x y (ground arith) (ground arith) in ground arith

key-parts :
    (c : ProposedChange)
    → key c ≡ codes c.object_ref ++ (b'|' ∷ (codes c.field ++ (b'|' ∷ codes c.proposed_value_hash)))
key-parts c =
    append_assoc (codes c.object_ref) (b'|' ∷ codes c.field) (b'|' ∷ codes c.proposed_value_hash)

key-same :
    (c d : ProposedChange) → IsPlain c → IsPlain d → same_codes (key c) (key d) ≡ same_change c d
key-same c d (o, f) (p, g) =
    let tail_c = codes c.field ++ b'|' ∷ codes c.proposed_value_hash in
    let tail_d = codes d.field ++ b'|' ∷ codes d.proposed_value_hash in
    let first = separated (codes c.object_ref) (codes d.object_ref) tail_c tail_d o p in
    let second =
      separated (codes c.field) (codes d.field) (codes c.proposed_value_hash)
        (codes d.proposed_value_hash) f g in
    rw
      (
        key-parts c,
        key-parts d,
        first,
        second,
        codes-same c.object_ref d.object_ref,
        codes-same c.field d.field,
        codes-same c.proposed_value_hash d.proposed_value_hash,
      )
      refl

has-made :
    (c : ProposedChange) (cs : List ProposedChange)
    → IsPlain c
    → All IsPlain cs
    → has (map key cs) (key c) ≡ made cs c
has-made c [] h k = refl
has-made c (d ∷ cs) h (k, ks) = rw (key-same d c k h, has-made c cs h ks) refl

has-without :
    (x k : List ℕ) (ks : List (List ℕ))
    → same_codes x k ≡ false
    → has (filter (λ y. not (same_codes x y)) ks) k ≡ has ks k
has-without x k [] h = refl
has-without x k (y ∷ ks) h = elim (Bool-cases (same_codes x y)) [
  | inl e ↦
      let other : same_codes y k ≡ false =
        subst (λ z. same_codes z k ≡ false) (same_codes→≡ x y e) h in
      rw (e, other) (has-without x k ks h)
  | inr e ↦ rw e (ap (λ b. same_codes y k || b) (has-without x k ks h))
]

has-key_set : (k : List ℕ) (ks : List (List ℕ)) → has (key_set ks) k ≡ has ks k
has-key_set k [] = refl
has-key_set k (x ∷ ks) = elim (Bool-cases (same_codes x k)) [
  | inl e ↦ rw e refl
  | inr e ↦ rw e (has-without x k (key_set ks) e ∙ has-key_set k ks)
]

distinct-IsPlain : (cs : List ProposedChange) → All IsPlain cs → All IsPlain (distinct cs)
distinct-IsPlain [] h = tt
distinct-IsPlain (c ∷ cs) (h, hs) =
    (h, All-filter IsPlain (λ d. not (same_change c d)) (distinct cs) (distinct-IsPlain cs hs))

map-without :
    (c : ProposedChange) (ds : List ProposedChange)
    → IsPlain c
    → All IsPlain ds
    → map key (filter (λ d. not (same_change c d)) ds)
      ≡ filter (λ x. not (same_codes (key c) x)) (map key ds)
map-without c [] h k = refl
map-without c (d ∷ ds) h (k, ks) = elim (Bool-cases (same_change c d)) [
  | inl e ↦ rw (key-same c d h k, e) (map-without c ds h ks)
  | inr e ↦ rw (key-same c d h k, e) (ap (λ l. key d ∷ l) (map-without c ds h ks))
]

map-distinct : (cs : List ProposedChange) → All IsPlain cs → map key (distinct cs) ≡ keys_of cs
map-distinct [] h = refl
map-distinct (c ∷ cs) (h, hs) =
    ap (λ l. key c ∷ l)
      (map-without c (distinct cs) h (distinct-IsPlain cs hs)
        ∙ ap (filter (λ x. not (same_codes (key c) x))) (map-distinct cs hs))

found_made :
    (others ds : List ProposedChange)
    → All IsPlain others
    → All IsPlain ds
    → matches (map key ds) (keys_of others) ≡ length (filter (made others) ds)
found_made others [] h k = refl
found_made others (d ∷ ds) h (k, ks) =
    let ih = found_made others ds h ks in
    let same : has (keys_of others) (key d) ≡ made others d =
      has-key_set (key d) (map key others) ∙ has-made d others k h in
    ground arith

split_length :
    (p : ProposedChange → Bool) (cs : List ProposedChange)
    → length cs ≡ length (filter p cs) + length (filter (λ c. not (p c)) cs)
split_length p [] = refl
split_length p (c ∷ cs) = let ih = split_length p cs in ground arith

-- The changes that both made, of the different ones of the first.
abbrev Shares : List ProposedChange → List ProposedChange → Type 0
Shares cs others =
    (matches (keys_of cs) (keys_of others) ≡ length (filter (made others) (distinct cs)))
    × (length (keys_of cs) ≡ length (distinct cs))

shares : (cs others : List ProposedChange) → All IsPlain cs → All IsPlain others → Shares cs others
shares cs others h k =
    let e = map-distinct cs h in
    (
      subst (λ ks. matches ks (keys_of others) ≡ length (filter (made others) (distinct cs))) e
          (found_made others (distinct cs) k (distinct-IsPlain cs h)),
      ap length (sym e) ∙ length-map key (distinct cs),
    )

-- If no object and no field of a change holds the separator `|`, the matches are the different changes
-- of the run that the user made too, and the different changes of the user that the run made too; the
-- extra ones are the different changes of the run that the user did not make, and the missed ones those
-- of the user that the run did not make.
pub compare_shadow_run-counts :
    (run_id : String) (proposed actual : List ProposedChange)
    → All IsPlain proposed
    → All IsPlain actual
    → let c = compare_shadow_run run_id proposed actual in
      (c.matched ≡ length (filter (made actual) (distinct proposed)))
      × (c.matched ≡ length (filter (made proposed) (distinct actual)))
      × (c.extra ≡ length (filter (λ d. not (made actual d)) (distinct proposed)))
      × (c.missed ≡ length (filter (λ d. not (made proposed d)) (distinct actual)))
unfolding compare_shadow_run
compare_shadow_run-counts run_id proposed actual h k =
    let swap = run-matches_comm proposed actual in
    let (run, size) = shares proposed actual h k in
    let (user, size') = shares actual proposed k h in
    let split = split_length (made actual) (distinct proposed) in
    let split' = split_length (made proposed) (distinct actual) in
    (run, swap ∙ user, omega (arith, run, size, split), omega (arith, swap, user, size', split'))
