-- ===== src/Remediation/Token/Issue.antt =====
-- Tokens of src/paic/remediation/approval.py: what is issued verifies, and what verifies was
-- signed.
use probabilistic_ai_inciden.Base.{
  ℕ, ◌<◌, ◌≤◌, ◌≡◌, refl, ap, sym, ◌∙◌, subst, String, true, not, some, List, ◌∷◌, ◌++◌, arith,
  length, ltb, leb, ◌!=◌, string_eq, passes_ne, same→passes, not-false, ok, >>=-eq-ok,
  or_raise-eq-ok, reject_if-eq-ok, reject_if-false, ok-injective, ◌>>=◌, ◌>>◌,
}
use probabilistic_ai_inciden.Remediation.Models.Plan.{
  Instant, ApprovalStatus, approved, standing_eq, ApprovalTokenClaims, claims_are_valid,
  RemediationPlan, texts_eq,
}
use probabilistic_ai_inciden.Remediation.Config.{RemediationConfig, Crypto}
use probabilistic_ai_inciden.Remediation.Token.{
  bytes_eq, split_dot, two_parts, new_claims, issue_token, open_token, check_claims, verify_token,
  not_approved, status_of_other_plan, plan_expired, secret_too_short, invalid_claims, bad_structure,
  bad_encoding, bad_signature, bad_payload,
}
use probabilistic_ai_inciden.Remediation.Token.Base64.{b64encode, b64decode}
use probabilistic_ai_inciden.Remediation.Token.RoundTrip.{
  AreBytes, b64decode-b64encode, b64encode-b64decode,
}
use probabilistic_ai_inciden.Remediation.Token.Split.{
  token_text, split_token, joined, joined-split_dot, two_parts-some,
}
use probabilistic_ai_inciden.Remediation.Token.Claims.{
  Covers, Covers-check_claims, check_claims-Covers,
}

-- A token that opens is the text of its payload and of the payload's signature.
open_token-parts :
    (crypto : Crypto) (token secret : List ℕ) (claims : ApprovalTokenClaims)
    → open_token crypto token secret ≡ ok claims
    → (payload : List ℕ) × (token ≡ token_text payload (crypto.token_hmac secret payload))
      × (crypto.read_claims payload ≡ some claims)
      × (claims_are_valid claims ≡ true)
unfolding open_token
open_token-parts crypto token secret claims h =
    let (parts, split, h1) = or_raise-eq-ok (two_parts (split_dot token)) bad_structure _ h in
    let (payload, first, h2) = or_raise-eq-ok (b64decode parts.0) bad_encoding _ h1 in
    let (supplied, second, h3) = or_raise-eq-ok (b64decode parts.1) bad_encoding _ h2 in
    let (signed, h4) =
      reject_if-eq-ok (supplied != crypto.token_hmac secret payload) bad_signature _ h3 in
    let (read, there, h5) = or_raise-eq-ok (crypto.read_claims payload) bad_payload _ h4 in
    let (valid, h6) = reject_if-eq-ok (not (claims_are_valid read)) bad_payload _ h5 in
    let same = ok-injective h6 in
    let text = sym (joined-split_dot token) ∙ ap joined (two_parts-some _ parts.0 parts.1 split) in
    let head = b64encode-b64decode parts.0 payload first in
    let tail = b64encode-b64decode parts.1 supplied second in
    let signature = passes_ne supplied (crypto.token_hmac secret payload) signed in
    (
      payload,
      text ∙ (λ i. sym head i ++ (b'.' ∷ (sym tail ∙ ap b64encode signature) i)),
      there ∙ ap some same,
      subst (λ c. claims_are_valid c ≡ true) same (not-false _ valid),
    )

open_token-text :
    (crypto : Crypto) (payload secret : List ℕ) (claims : ApprovalTokenClaims)
    → AreBytes payload
    → AreBytes (crypto.token_hmac secret payload)
    → crypto.read_claims payload ≡ some claims
    → claims_are_valid claims ≡ true
    → open_token crypto (token_text payload (crypto.token_hmac secret payload)) secret ≡ ok claims
unfolding open_token
open_token-text crypto payload secret claims bytes signature_bytes reads valid =
    rw
      (
        split_token payload (crypto.token_hmac secret payload),
        b64decode-b64encode payload bytes,
        b64decode-b64encode (crypto.token_hmac secret payload) signature_bytes,
      )
      (reject_if-false _ _ _
        (same→passes (crypto.token_hmac secret payload) (crypto.token_hmac secret payload) refl)
        (rw (reads, valid) refl))

module _ (crypto : Crypto) (plan : RemediationPlan) (status : ApprovalStatus)
    (config : RemediationConfig) (secret : List ℕ) where
  -- A token that `verify_token` accepts is exactly the base64 text of a payload and of the
  -- payload's keyed hash under the secret, the payload reads as valid claims, and these are about
  -- the plan, its incident, its actions in order and the approval snapshot of an approved status,
  -- at a time in their window and before the plan expires.
  pub verify_token-signed :
      (token : List ℕ) (at : Instant) (claims : ApprovalTokenClaims)
      → verify_token crypto token plan status config at secret ≡ ok claims
      → (payload : List ℕ) × (token ≡ token_text payload (crypto.token_hmac secret payload))
        × (crypto.read_claims payload ≡ some claims)
        × (claims_are_valid claims ≡ true)
        × Covers claims plan status at
  unfolding verify_token
  verify_token-signed token at claims h =
      let (_, h1) =
        reject_if-eq-ok (ltb (length secret) config.approval.minimum_secret_bytes) secret_too_short
          _ h in
      let (c, opened, h2) = >>=-eq-ok (open_token crypto token secret) _ h1 in
      let (_, checked, h3) = >>=-eq-ok (check_claims c plan status at) _ h2 in
      let same = ok-injective h3 in
      let (payload, text, read, valid) =
        open_token-parts crypto token secret claims (opened ∙ ap ok same) in
      (
        payload,
        text,
        read,
        valid,
        subst (λ x. Covers x plan status at) same (check_claims-Covers c plan status at checked),
      )

  new_claims-Covers :
      (at later : Instant) (nonce token_id : String)
      → status.status ≡ approved
      → at ≤ later
      → later < (new_claims plan status config at nonce token_id).expires_at
      → Covers (new_claims plan status config at nonce token_id) plan status later
  unfolding new_claims
  new_claims-Covers at later nonce token_id is_approved after early = record {
    is_approved = is_approved;
    of_plan = refl;
    of_incident = refl;
    of_snapshot = refl;
    of_actions = refl;
    in_window = (after, early, omega (arith, early));
  }

  -- Where the claims of a new token read back from their bytes, and the bytes of the claims and of
  -- their keyed hash are bytes, a token that `issue_token` returns is accepted by `verify_token`,
  -- with those claims, from the time of issue until the claims or the plan expire.
  pub issue_token-verifies :
      (token : List ℕ) (at later : Instant) (nonce token_id : String)
      → crypto.read_claims (crypto.claims_bytes (new_claims plan status config at nonce token_id))
        ≡ some (new_claims plan status config at nonce token_id)
      → AreBytes (crypto.claims_bytes (new_claims plan status config at nonce token_id))
      → AreBytes (
          crypto.token_hmac secret
            (crypto.claims_bytes (new_claims plan status config at nonce token_id)))
      → issue_token crypto plan status config at secret nonce token_id ≡ ok token
      → at ≤ later
      → later < (new_claims plan status config at nonce token_id).expires_at
      → verify_token crypto token plan status config later secret
        ≡ ok (new_claims plan status config at nonce token_id)
  unfolding issue_token verify_token
  issue_token-verifies token at later nonce token_id reads bytes signature_bytes h after early =
      let claims = new_claims plan status config at nonce token_id in
      let payload = crypto.claims_bytes claims in
      let (is_approved, h1) = reject_if-eq-ok (status.status != approved) not_approved _ h in
      let (_, h2) =
        reject_if-eq-ok (status.plan_sha256 != plan.plan_sha256) status_of_other_plan _ h1 in
      let (_, h3) = reject_if-eq-ok (leb plan.expires_at at) plan_expired _ h2 in
      let (long, h4) =
        reject_if-eq-ok (ltb (length secret) config.approval.minimum_secret_bytes) secret_too_short
          _ h3 in
      let (valid, h5) = reject_if-eq-ok (not (claims_are_valid claims)) invalid_claims _ h4 in
      let opened =
        open_token-text crypto payload secret claims bytes signature_bytes reads
          (not-false _ valid) in
      let covered =
        new_claims-Covers at later nonce token_id (passes_ne _ _ is_approved) after early in
      reject_if-false _ _ _ long (
        subst
          (λ t.
            (open_token crypto t secret >>= λ c. check_claims c plan status later >> ok c)
            ≡ ok claims)
          (ok-injective h5)
          (rw (opened, Covers-check_claims claims plan status later covered) refl))
