-- ===== src/Comparison.antt =====
-- The comparison of a shadow run with what the user did, and the readiness for promotion
-- (packages/agent-runtime/src/shadow.ts). An agreement is in thousandths, as the source rounds it.
pub mod Laws
pub mod Changes
pub mod Promotion
mod Examples
use maman_agent.Prelude.{
  ℕ, zero, suc, ◌+◌, ◌-◌, ◌*◌, ◌/◌, leb, if◌then◌else◌, Bool, true, false, not, ◌||◌, String, codes,
  includes, same_codes, List, [], ◌∷◌, ◌++◌, map, filter, any, length, Option, none, some,
}

pub record ProposedChange : Type 0 where
  pub object_ref : String
  pub field : String
  pub proposed_value_hash : String

-- The texts of the rules that are missing, with the field that they name.
pub data MissingRule : Type 0 where
  not_learned not_done : (field : String) → MissingRule

pub record ShadowComparison : Type 0 where
  pub run_id : String
  pub agreement : ℕ
  pub matched : ℕ
  pub missed : ℕ
  pub extra : ℕ
  pub missing_rules : List MissingRule

abbrev pub key : ProposedChange → List ℕ
key c = codes c.object_ref ++ b'|' ∷ codes c.field ++ b'|' ∷ codes c.proposed_value_hash

abbrev pub has : List (List ℕ) → List ℕ → Bool
has ks k = any (λ x. same_codes x k) ks

-- `new Set(...)` of keys and of fields: the first of equal elements stays.
abbrev pub key_set : List (List ℕ) → List (List ℕ)
key_set [] = []
key_set (k ∷ ks) = k ∷ filter (λ x. not (same_codes k x)) (key_set ks)

abbrev field_set : List String → List String
field_set [] = []
field_set (f ∷ fs) = f ∷ filter (λ g. not (includes (f ∷ []) g)) (field_set fs)

abbrev pub matches : List (List ℕ) → List (List ℕ) → ℕ
matches proposed actual = length (filter (has actual) proposed)

-- `Math.round(matched / union * 1000)`; two empty sets agree.
abbrev pub rounded : ℕ → ℕ → ℕ
rounded matched zero = 1000
rounded matched (suc union) = (2000 * matched + suc union) / (2 * suc union)

-- The fields of the changes that are not among the keys.
abbrev absent_fields : List (List ℕ) → List ProposedChange → List String
absent_fields ks changes =
    field_set (map (λ c. c.field) (filter (λ c. not (has ks (key c))) changes))

unfoldable pub compare_shadow_run :
    String → List ProposedChange → List ProposedChange → ShadowComparison
compare_shadow_run run_id proposed actual =
    let ps = key_set (map key proposed) in
    let as_ = key_set (map key actual) in
    let matched = matches ps as_ in
    record {
      run_id = run_id;
      agreement = rounded matched (length ps + length as_ - matched);
      matched = matched;
      missed = length as_ - matched;
      extra = length ps - matched;
      missing_rules =
          map not_learned (absent_fields ps actual) ++ map not_done (absent_fields as_ proposed);
    }

pub record PromotionReadiness : Type 0 where
  pub ready : Bool
  pub successful_comparisons : ℕ
  pub required_comparisons : ℕ
  pub latest_agreement : Option ℕ

abbrev default_required_comparisons : ℕ
default_required_comparisons = 3

abbrev success_agreement_threshold : ℕ
success_agreement_threshold = 900

abbrev last_agreement : List ShadowComparison → Option ℕ
last_agreement [] = none
last_agreement (c ∷ []) = some c.agreement
last_agreement (c ∷ d ∷ cs) = last_agreement (d ∷ cs)

abbrev pub succeeds : ShadowComparison → Bool
succeeds c = leb success_agreement_threshold c.agreement

unfoldable pub promotion_readiness : List ShadowComparison → ℕ → PromotionReadiness
promotion_readiness comparisons required =
    let successful = length (filter succeeds comparisons) in
    record {
      ready = leb required successful;
      successful_comparisons = successful;
      required_comparisons = required;
      latest_agreement = last_agreement comparisons;
    }
