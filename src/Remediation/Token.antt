-- ===== src/Remediation/Token.antt =====
-- The tokens of src/paic/remediation/approval.py: URL-safe base64, issue and verification. A token
-- is the list of the codes of its characters.
pub mod Base64
pub mod RoundTrip
pub mod Split
pub mod Claims
pub mod Issue
use probabilistic_ai_inciden.Base.{
  ℕ, ◌+◌, ◌<◌, String, Bool, true, false, not, ◌||◌, Option, none, some, List, [], ◌∷◌, ◌++◌, map,
  min, leb, ltb, nat_beq, length, ◌==◌, ◌!=◌, string_eq, if◌then◌else◌, Eq, Result, ok, err, ◌>>=◌,
  ◌>>◌, reject_if, or_raise,
}
use native.Mathlib.Decide.{ℕ_discrete}
use probabilistic_ai_inciden.Base.Discrete.{discrete_eq}
use probabilistic_ai_inciden.Remediation.Models.{action_id}
use probabilistic_ai_inciden.Remediation.Models.Plan.{
  Instant, ApprovalStatus, approved, standing_eq, ApprovalTokenClaims, claims_are_valid,
  RemediationPlan, texts_eq,
}
use probabilistic_ai_inciden.Remediation.Config.{RemediationConfig, Crypto}
use probabilistic_ai_inciden.Remediation.Policy.{minutes}
use Base64.{b64encode, b64decode}

-- One constructor for each message of an `ApprovalError` about a token.
pub data TokenError : Type 0 where
  not_approved status_of_other_plan plan_expired secret_too_short invalid_claims : TokenError
  bad_structure bad_encoding bad_signature bad_payload no_longer_approved other_plan : TokenError
  stale_snapshot other_actions outside_window : TokenError

unfoldable pub Bytes-discrete : Discrete (List ℕ)
Bytes-discrete = hlevel ℕ_discrete

instance abbrev pub bytes_eq : Eq (List ℕ)
bytes_eq = discrete_eq Bytes-discrete

-- One character before the parts of the rest.
unfoldable pub prepend : Bool → ℕ → List (List ℕ) → List (List ℕ)
prepend true c parts = [] ∷ parts
prepend false c [] = (c ∷ []) ∷ []
prepend false c (part ∷ parts) = (c ∷ part) ∷ parts

-- `token.split(".")`
unfoldable pub split_dot : List ℕ → List (List ℕ)
unfolding prepend
split_dot [] = [] ∷ []
split_dot (c ∷ rest) = prepend (nat_beq c b'.') c (split_dot rest)

-- The parts of a token that has two.
unfoldable pub two_parts : List (List ℕ) → Option (List ℕ × List ℕ)
two_parts (a ∷ b ∷ []) = some (a, b)
two_parts _ = none

-- The claims that `issue_token` makes.
unfoldable pub new_claims :
    RemediationPlan
    → ApprovalStatus
    → RemediationConfig
    → Instant
    → String
    → String
    → ApprovalTokenClaims
new_claims plan status config at nonce token_id = record {
  token_id = token_id;
  plan_sha256 = plan.plan_sha256;
  incident_id = plan.incident_id;
  action_ids = map action_id plan.actions;
  approval_snapshot_sha256 = status.approval_snapshot_sha256;
  issued_at = at;
  expires_at = min plan.expires_at (at + minutes config.approval.token_ttl_minutes);
  nonce = nonce;
}

-- `issue_token`; a nonce and a token id that the caller leaves out are drawn outside.
unfoldable pub issue_token :
    Crypto
    → RemediationPlan
    → ApprovalStatus
    → RemediationConfig
    → Instant
    → List ℕ
    → String
    → String
    → Result TokenError (List ℕ)
issue_token crypto plan status config at secret nonce token_id = do
  reject_if (status.status != approved) not_approved
  reject_if (status.plan_sha256 != plan.plan_sha256) status_of_other_plan
  reject_if (leb plan.expires_at at) plan_expired
  reject_if (ltb (length secret) config.approval.minimum_secret_bytes) secret_too_short
  let claims = new_claims plan status config at nonce token_id
  reject_if (not (claims_are_valid claims)) invalid_claims
  let payload = crypto.claims_bytes claims
  let signature = crypto.token_hmac secret payload
  ok (b64encode payload ++ (b'.' ∷ b64encode signature))

-- The signed claims of a token: the part of `verify_token` up to the claims.
unfoldable pub open_token : Crypto → List ℕ → List ℕ → Result TokenError ApprovalTokenClaims
open_token crypto token secret = do
  parts ← or_raise (two_parts (split_dot token)) bad_structure
  payload ← or_raise (b64decode parts.0) bad_encoding
  supplied ← or_raise (b64decode parts.1) bad_encoding
  reject_if (supplied != crypto.token_hmac secret payload) bad_signature
  claims ← or_raise (crypto.read_claims payload) bad_payload
  reject_if (not (claims_are_valid claims)) bad_payload
  ok claims

-- The tests of `verify_token` on the claims.
unfoldable pub check_claims :
    ApprovalTokenClaims → RemediationPlan → ApprovalStatus → Instant → Result TokenError (Unit {0})
check_claims claims plan status at = do
  reject_if (status.status != approved) no_longer_approved
  reject_if (claims.plan_sha256 != plan.plan_sha256 || claims.incident_id != plan.incident_id)
      other_plan
  reject_if (claims.approval_snapshot_sha256 != status.approval_snapshot_sha256) stale_snapshot
  reject_if (claims.action_ids != map action_id plan.actions) other_actions
  reject_if (ltb at claims.issued_at || leb claims.expires_at at || leb plan.expires_at at)
      outside_window
  ok tt

unfoldable pub verify_token :
    Crypto
    → List ℕ
    → RemediationPlan
    → ApprovalStatus
    → RemediationConfig
    → Instant
    → List ℕ
    → Result TokenError ApprovalTokenClaims
verify_token crypto token plan status config at secret = do
  reject_if (ltb (length secret) config.approval.minimum_secret_bytes) secret_too_short
  claims ← open_token crypto token secret
  check_claims claims plan status at
  ok claims
