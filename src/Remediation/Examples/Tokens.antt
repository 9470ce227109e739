-- ===== src/Remediation/Examples/Tokens.antt =====
-- Examples of the theorems about the tokens of src/paic/remediation/approval.py.
use native.Mathlib.Decide.{ℕ_discrete}
use probabilistic_ai_inciden.Base.{ℕ, ◌≡◌, ◌↔◌, refl, true, some, List, [], ◌∷◌, arith, ok}
use probabilistic_ai_inciden.Base.Discrete.{String-discrete}
use probabilistic_ai_inciden.Remediation.Models.Plan.{
  Standing-discrete, Texts-discrete, claims_are_valid,
}
use probabilistic_ai_inciden.Remediation.Token.{
  Bytes-discrete, prepend, split_dot, two_parts, new_claims, issue_token, open_token, check_claims,
  verify_token,
}
use probabilistic_ai_inciden.Remediation.Token.Base64.{
  to_char, of_char, b64encode, decode, same_bytes, b64decode,
}
use probabilistic_ai_inciden.Remediation.Token.RoundTrip.{b64decode_iff}
use probabilistic_ai_inciden.Remediation.Token.Split.{token_text}
use probabilistic_ai_inciden.Remediation.Token.Claims.{Covers}
use probabilistic_ai_inciden.Remediation.Token.Issue.{verify_token-signed, issue_token-verifies}
use probabilistic_ai_inciden.Remediation.Samples.{
  sample_claims, sample_crypto, sample_plan, sample_status, sample_config, sample_token,
  sample_secret,
}

sample_decoded : b64decode (b'B' ∷ b'w' ∷ []) ≡ some (7 ∷ [])
unfolding b64decode decode of_char same_bytes b64encode to_char
sample_decoded = refl

b64decode_iff_example :
    (b64decode (b'B' ∷ b'w' ∷ []) ≡ some (7 ∷ [])) ↔ (b64encode (7 ∷ []) ≡ b'B' ∷ b'w' ∷ [])
b64decode_iff_example = b64decode_iff (b'B' ∷ b'w' ∷ []) (7 ∷ []) (omega arith, tt)

sample_verified :
    verify_token sample_crypto sample_token sample_plan sample_status sample_config 3000
      sample_secret
    ≡ ok sample_claims
unfolding verify_token open_token split_dot prepend two_parts b64decode decode of_char same_bytes
    b64encode to_char Bytes-discrete ℕ_discrete claims_are_valid check_claims Standing-discrete
    Texts-discrete String-discrete
sample_verified = refl

verify_token-signed_example :
    (payload : List ℕ) × (sample_token
      ≡ token_text payload (sample_crypto.token_hmac sample_secret payload))
    × (sample_crypto.read_claims payload ≡ some sample_claims)
    × (claims_are_valid sample_claims ≡ true)
    × Covers sample_claims sample_plan sample_status 3000
verify_token-signed_example =
    verify_token-signed sample_crypto sample_plan sample_status sample_config sample_secret
      sample_token 3000 sample_claims sample_verified

sample_new : new_claims sample_plan sample_status sample_config 2000 "n-1" "token-1" ≡ sample_claims
unfolding new_claims
sample_new = refl

sample_issued :
    issue_token sample_crypto sample_plan sample_status sample_config 2000 sample_secret "n-1"
      "token-1"
    ≡ ok sample_token
unfolding issue_token new_claims claims_are_valid b64encode to_char Standing-discrete
sample_issued = refl

issue_token-verifies_example :
    verify_token sample_crypto sample_token sample_plan sample_status sample_config 3000
      sample_secret
    ≡ ok (new_claims sample_plan sample_status sample_config 2000 "n-1" "token-1")
unfolding new_claims
issue_token-verifies_example =
    issue_token-verifies sample_crypto sample_plan sample_status sample_config sample_secret
      sample_token 2000 3000 "n-1" "token-1" refl (omega arith, (omega arith, (omega arith, tt)))
      (omega arith, tt) sample_issued (omega arith) (omega arith)
