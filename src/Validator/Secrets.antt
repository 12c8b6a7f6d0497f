-- ===== src/Validator/Secrets.antt =====
-- Texts that look like secrets, addresses or code (packages/contracts/src/common.ts, `looksLikeSecret`,
-- and the expressions of packages/agent-runtime/src/validator.ts).
use maman_agent.Prelude.{
  Bool, true, false, ◌||◌, not, ◌==◌, String, codes, lower_codes, is_space, any, List, [], ◌∷◌,
  none, has_prefix,
}
use maman_agent.Validator.Regex.{
  Regex, one, seq, alt, many, Pattern, search_from, word, times, at_least, maybe, is_digit,
  is_upper, is_alnum,
}

abbrev then : List Regex → Regex
then [] = Regex.empty
then (r ∷ rs) = seq r (then rs)

abbrev dashed : Regex
dashed = one (λ c. is_alnum c || c == b'_' || c == b'-')

abbrev alnum : Regex
alnum = one is_alnum

abbrev spaces : Regex
spaces = many (one is_space)

abbrev private_key : Pattern
private_key = record {
  before = false;
  body = then (
      word (codes "-----BEGIN ")
      ∷ many (one (λ c. is_upper c || c == 32))
      ∷ word (codes "PRIVATE KEY-----")
      ∷ []);
  after = false;
}

abbrev token : String → Regex → Bool → Pattern
token prefix rest after = record {
  before = true;
  body = seq (word (codes prefix)) rest;
  after = after;
}

abbrev slack_token : Pattern
slack_token = record {
  before = true;
  body = then (
      word (codes "xox")
      ∷ one (λ c. any (λ d. c == d) (codes "baprs"))
      ∷ word (codes "-")
      ∷ at_least 10 (one (λ c. is_alnum c || c == b'-'))
      ∷ []);
  after = false;
}

abbrev jwt : Pattern
jwt = record {
  before = true;
  body = then (
      word (codes "eyJ")
      ∷ at_least 10 dashed
      ∷ word (codes ".")
      ∷ at_least 10 dashed
      ∷ word (codes ".")
      ∷ at_least 5 dashed
      ∷ []);
  after = true;
}

abbrev dash : Regex
dash = maybe (one (λ c. c == b'_' || c == b'-'))

abbrev secret_names : Regex
secret_names = alt (word (codes "password")) (
    alt (word (codes "passwd")) (
      alt (word (codes "secret")) (
        alt (then (word (codes "api") ∷ dash ∷ word (codes "key") ∷ [])) (
          alt (then (word (codes "access") ∷ dash ∷ word (codes "token") ∷ []))
            (then (word (codes "refresh") ∷ dash ∷ word (codes "token") ∷ []))))))

-- Case does not count here: the text is put in lower case first.
abbrev assignment : Pattern
assignment = record {
  before = true;
  body = then (
      secret_names
      ∷ spaces
      ∷ one (λ c. c == b'=' || c == b':')
      ∷ spaces
      ∷ at_least 1 (one (λ c. not (is_space c)))
      ∷ []);
  after = false;
}

abbrev secret_shapes : List Pattern
secret_shapes =
    private_key
    ∷ token "sk-ant-" (at_least 10 dashed) false
    ∷ token "sk_live_" (at_least 10 alnum) false
    ∷ token "sk-" (at_least 20 alnum) false
    ∷ token "AKIA" (times 16 (one (λ c. is_digit c || is_upper c))) true
    ∷ token "ghp_" (times 36 alnum) true
    ∷ slack_token
    ∷ jwt
    ∷ []

unfoldable pub looks_like_secret : String → Bool
looks_like_secret value =
    any (λ p. search_from p none (codes value)) secret_shapes
    || search_from assignment none (lower_codes (codes value))

-- `/^https?:\/\//i`
unfoldable pub is_url : String → Bool
is_url value =
    let text = lower_codes (codes value) in
    has_prefix text (codes "http://") || has_prefix text (codes "https://")

abbrev code_shape : Pattern
code_shape = record {
  before = false;
  body = alt (one (λ c. any (λ d. c == d) (codes ";&|`$"))) (
      alt (word (codes "<script")) (
        alt
          (then (
            word (codes "select")
            ∷ at_least 1 (one is_space)
            ∷ many (one (λ c. not (c == 10 || c == 13 || c == 8232 || c == 8233)))
            ∷ at_least 1 (one is_space)
            ∷ word (codes "from")
            ∷ []))
          (then (word (codes "drop") ∷ at_least 1 (one is_space) ∷ word (codes "table") ∷ []))));
  after = false;
}

unfoldable pub looks_like_code : String → Bool
looks_like_code value = search_from code_shape none (lower_codes (codes value))
