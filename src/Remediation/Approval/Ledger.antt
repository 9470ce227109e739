-- ===== src/Remediation/Approval/Ledger.antt =====
-- The approval ledger is an append-only hash chain: `append` and `validate` of approval.py.
use probabilistic_ai_inciden.Base.{
  ℕ, suc, ◌+◌, ◌≡◌, ◌↔◌, refl, ap, sym, ◌∙◌, subst, String, false, List, [], ◌∷◌, ◌++◌, map, inl,
  inr, arith, length, ◌==◌, string_eq, nat_eq, passes_ne, same→passes, ||_false, beq_false→ne,
  ne→beq_false, ok, >>=-eq-ok, >>=_assoc, reject_if-eq-ok, reject_if-false, or_false,
}
use probabilistic_ai_inciden.Base.Membership.{
  In, In-map_inv, Distinct, Distinct-snoc, not_In→has_false,
}
use probabilistic_ai_inciden.Chain.{Chained, head_hash, Chained-unique, Chained-fresh}
use probabilistic_ai_inciden.Remediation.Models.Plan.{
  ApprovalDecision, LedgerBody, ApprovalLedgerRecord,
}
use probabilistic_ai_inciden.Remediation.Config.{Crypto}
use probabilistic_ai_inciden.Remediation.Decisions.{
  ApprovalError, zero_hash, ApprovalLedger, check_record, validate_from, validate, last_hash,
  new_record, append, has_decided,
}

-- Records of the two ledgers with equal digests have equal bodies.
abbrev pub CollisionFree : Crypto → ApprovalLedger → ApprovalLedger → Type 0
CollisionFree crypto xs ys =
    (r s : ApprovalLedgerRecord)
    → In r xs
    → In s ys
    → crypto.record_digest r.body ≡ crypto.record_digest s.body
    → r.body ≡ s.body

abbrev body_of : ApprovalLedgerRecord → LedgerBody
body_of r = r.body

abbrev pub hash_of : ApprovalLedgerRecord → String
hash_of r = r.record_sha256

abbrev pub decision_of : ApprovalLedgerRecord → ApprovalDecision
decision_of r = r.decision

abbrev pub approvers : ApprovalLedger → List String
approvers = map (λ (r : ApprovalLedgerRecord). r.decision.approver_id)

module _ (crypto : Crypto) where
  abbrev pub Linked : ℕ → String → ApprovalLedger → Type 0
  Linked =
      Chained body_of hash_of (λ (b : LedgerBody). b.sequence)
        (λ (b : LedgerBody). b.previous_record_sha256) crypto.record_digest

  last_hash-head_hash :
      (p : String) (xs : ApprovalLedger)
      → last_hash p xs
        ≡ head_hash body_of hash_of
            (λ (b : LedgerBody). b.sequence)
            (λ (b : LedgerBody). b.previous_record_sha256)
            crypto.record_digest
            p
            xs
  unfolding last_hash
  last_hash-head_hash p [] = refl
  last_hash-head_hash p (x ∷ xs) = last_hash-head_hash x.record_sha256 xs

  -- What a record that `validate` passes has.
  check_record_sound :
      (n : ℕ) (p : String) (seen : List String) (r : ApprovalLedgerRecord)
      → check_record crypto n p seen r ≡ ok tt
      → (r.sequence ≡ n)
        × (r.previous_record_sha256 ≡ p)
        × (r.record_sha256 ≡ crypto.record_digest r.body)
        × (r.decision_sha256 ≡ crypto.decision_digest r.decision)
  unfolding check_record
  check_record_sound n p seen r h =
      let e1 = reject_if-eq-ok _ _ _ h in
      let e2 = reject_if-eq-ok _ _ _ e1.1 in
      let e3 = reject_if-eq-ok _ _ _ e2.1 in
      let e4 = reject_if-eq-ok _ _ _ e3.1 in
      let linked = ||_false _ _ e1.0 in
      (passes_ne _ _ linked.0, passes_ne _ _ linked.1, sym (passes_ne _ _ e4.0), passes_ne _ _ e3.0)

  check_record_complete :
      (n : ℕ) (p : String) (seen : List String) (r : ApprovalLedgerRecord)
      → r.sequence ≡ n
      → r.previous_record_sha256 ≡ p
      → r.record_sha256 ≡ crypto.record_digest r.body
      → r.decision_sha256 ≡ crypto.decision_digest r.decision
      → ¬ In r.record_sha256 seen
      → check_record crypto n p seen r ≡ ok tt
  unfolding check_record
  check_record_complete n p seen r s q h d fresh =
      reject_if-false _ _ _ (or_false (same→passes _ _ s) (same→passes _ _ q)) (
        reject_if-false _ _ _ (not_In→has_false _ _ fresh) (
          reject_if-false _ _ _ (same→passes _ _ d)
            (reject_if-false _ _ _ (same→passes _ _ (sym h)) refl)))

  validate_from_sound :
      (n : ℕ) (p : String) (seen : List String) (xs : ApprovalLedger)
      → validate_from crypto n p seen xs ≡ ok tt
      → Linked n p xs
  unfolding validate_from
  validate_from_sound n p seen [] h = tt
  validate_from_sound n p seen (x ∷ xs) h =
      let (u, e, k) = >>=-eq-ok (check_record crypto n p seen x) _ h in
      let f = check_record_sound n p seen x e in
      (f.0, f.1, f.2, validate_from_sound (suc n) x.record_sha256 (x.record_sha256 ∷ seen) xs k)

  validate_from-snoc :
      (n : ℕ) (p : String) (seen : List String) (xs : ApprovalLedger) (r : ApprovalLedgerRecord)
      → validate_from crypto n p seen xs ≡ ok tt
      → r.sequence ≡ n + length xs
      → r.previous_record_sha256 ≡ last_hash p xs
      → r.record_sha256 ≡ crypto.record_digest r.body
      → r.decision_sha256 ≡ crypto.decision_digest r.decision
      → ¬ In r.record_sha256 seen
      → ¬ In r.record_sha256 (map hash_of xs)
      → validate_from crypto n p seen (xs ++ r ∷ []) ≡ ok tt
  unfolding validate_from last_hash
  validate_from-snoc n p seen [] r v s q h d fresh other =
      rw (check_record_complete n p seen r (omega arith) q h d fresh)
  validate_from-snoc n p seen (x ∷ xs) r v s q h d fresh other =
      let (u, e, k) = >>=-eq-ok (check_record crypto n p seen x) _ v in
      rw e (
        validate_from-snoc (suc n) x.record_sha256 (x.record_sha256 ∷ seen) xs r k (omega arith) q h
          d (λ m. elim m [ inl same ↦ other (inl same) | inr old ↦ fresh old ])
          (λ m. other (inr m)))

  validate_iff :
      (xs ys : ApprovalLedger)
      → validate crypto xs ≡ ok ys
      → (validate_from crypto 1 zero_hash [] xs ≡ ok tt) × (xs ≡ ys)
  unfolding validate
  validate_iff xs ys h =
      let (u, e, k) = >>=-eq-ok (validate_from crypto 1 zero_hash [] xs) _ h in (e, cc)

  any_false→not_In :
      (xs : ApprovalLedger) (id : String) → (has_decided xs id ≡ false) ↔ (¬ In id (approvers xs))
  any_false→not_In [] id = ((λ _ m. m), (λ _. refl))
  any_false→not_In (x ∷ xs) id = (
    (λ h m.
        let e = ||_false (x.decision.approver_id == id) _ h in
        elim m [
          | inl same ↦ beq_false→ne _ _ e.0 same
          | inr old ↦ (any_false→not_In xs id).0 e.1 old
        ]),
    (λ n.
        or_false (ne→beq_false _ _ (λ e. n (inl e))) ((any_false→not_In xs id).1 (λ m. n (inr m)))),
  )

approvers-snoc :
    (xs : ApprovalLedger) (r : ApprovalLedgerRecord)
    → approvers (xs ++ r ∷ []) ≡ approvers xs ++ r.decision.approver_id ∷ []
approvers-snoc [] r = refl
approvers-snoc (x ∷ xs) r = ap (◌∷◌ x.decision.approver_id) (approvers-snoc xs r)

record_ext :
    (r s : ApprovalLedgerRecord) → r.body ≡ s.body → r.record_sha256 ≡ s.record_sha256 → r ≡ s
record_ext r s b h = λ i. record { body = b i; record_sha256 = h i }

new_record-fresh :
    (crypto : Crypto) (ledger : ApprovalLedger) (d : ApprovalDecision)
    → CollisionFree crypto (new_record crypto ledger d ∷ []) ledger
    → Linked crypto 1 zero_hash ledger
    → ¬ In (new_record crypto ledger d).record_sha256 (map hash_of ledger)
unfolding new_record
new_record-fresh crypto ledger d free linked m =
    let (r, at, e) = In-map_inv hash_of _ ledger m in
    Chained-fresh body_of hash_of (λ (b : LedgerBody). b.sequence)
      (λ (b : LedgerBody). b.previous_record_sha256) crypto.record_digest
      (new_record crypto ledger d) 1 zero_hash ledger free linked (omega arith) r at (sym e)

module _ (crypto : Crypto) (ledger : ApprovalLedger) (d : ApprovalDecision) where
  -- An append that succeeds validated the ledger, found no decision of the approver, and made the
  -- new record.
  append_parts :
      (r : ApprovalLedgerRecord) (ledger' : ApprovalLedger)
      → append crypto ledger d ≡ ok (r, ledger')
      → (validate_from crypto 1 zero_hash [] ledger ≡ ok tt)
        × (¬ In d.approver_id (approvers ledger))
        × (new_record crypto ledger d ≡ r)
        × (ledger ++ new_record crypto ledger d ∷ [] ≡ ledger')
  unfolding append validate
  append_parts r ledger' h =
      let (u, v, k) =
        >>=-eq-ok (validate_from crypto 1 zero_hash [] ledger) _ (rw >>=_assoc at h) in
      let (other, made) =
        reject_if-eq-ok (has_decided ledger d.approver_id) ApprovalError.second_decision
          (ok (new_record crypto ledger d, ledger ++ new_record crypto ledger d ∷ [])) k in
      (v, (any_false→not_In crypto ledger d.approver_id).0 other, cc, cc)

  append_made :
      validate_from crypto 1 zero_hash [] ledger ≡ ok tt
      → ¬ In d.approver_id (approvers ledger)
      → append crypto ledger d
        ≡ ok (new_record crypto ledger d, ledger ++ new_record crypto ledger d ∷ [])
  unfolding append validate
  append_made v absent =
      rw v (reject_if-false _ _ _ ((any_false→not_In crypto ledger d.approver_id).1 absent) refl)

  new_record-validates :
      CollisionFree crypto (new_record crypto ledger d ∷ []) ledger
      → validate_from crypto 1 zero_hash [] ledger ≡ ok tt
      → validate crypto (ledger ++ new_record crypto ledger d ∷ [])
        ≡ ok (ledger ++ new_record crypto ledger d ∷ [])
  unfolding validate new_record
  new_record-validates free v =
      let fresh =
        new_record-fresh crypto ledger d free
          (validate_from_sound crypto 1 zero_hash [] ledger v) in
      rw (
        validate_from-snoc crypto 1 zero_hash [] ledger (new_record crypto ledger d) v (omega arith)
          refl refl refl (λ m. m) fresh)

  -- Where the digest of the new record collides with none in the ledger, and no approver has
  -- decided twice there, an append that succeeds adds one record with the decision at the end of
  -- the ledger, the new ledger validates, and no approver has decided twice in it.
  pub append-validates :
      (r : ApprovalLedgerRecord) (ledger' : ApprovalLedger)
      → CollisionFree crypto (r ∷ []) ledger
      → Distinct (approvers ledger)
      → append crypto ledger d ≡ ok (r, ledger')
      → (validate crypto ledger' ≡ ok ledger')
        × (ledger' ≡ ledger ++ r ∷ [])
        × (r.decision ≡ d)
        × Distinct (approvers ledger')
  unfolding new_record
  append-validates r ledger' free distinct h =
      let (v, absent, made, grown) = append_parts r ledger' h in
      (
        rw grown at (
            new_record-validates (subst (λ x. CollisionFree crypto (x ∷ []) ledger) (sym made) free)
              v),
        sym grown ∙ ap (λ x. ledger ++ x ∷ []) made,
        ap decision_of (sym made),
        subst Distinct
            (sym (approvers-snoc ledger (new_record crypto ledger d)) ∙ ap approvers grown)
            (Distinct-snoc (approvers ledger) d.approver_id distinct absent),
      )

  -- On a ledger that validates, an append succeeds exactly when the approver has no decision there.
  pub append_iff :
      validate crypto ledger ≡ ok ledger
      → ((out : ApprovalLedgerRecord × ApprovalLedger) × (append crypto ledger d ≡ ok out))
        ↔ (¬ In d.approver_id (approvers ledger))
  append_iff valid = (
    (λ done. (append_parts done.0.0 done.0.1 done.1).1),
    (λ absent. (_, append_made (validate_iff crypto ledger ledger valid).0 absent)),
  )

-- Where record digests do not collide, two ledgers that validate, have as many records, and end in
-- the same hash are the same ledger: no record can be changed, dropped or moved under a known hash.
pub validate_tamper_evident :
    (crypto : Crypto) (xs ys : ApprovalLedger)
    → CollisionFree crypto xs ys
    → validate crypto xs ≡ ok xs
    → validate crypto ys ≡ ok ys
    → length xs ≡ length ys
    → last_hash zero_hash xs ≡ last_hash zero_hash ys
    → xs ≡ ys
validate_tamper_evident crypto xs ys free v w l h =
    (Chained-unique body_of hash_of (λ (b : LedgerBody). b.sequence)
      (λ (b : LedgerBody). b.previous_record_sha256) crypto.record_digest xs ys free record_ext 1
      zero_hash zero_hash
      (validate_from_sound crypto 1 zero_hash [] xs (validate_iff crypto xs xs v).0)
      (validate_from_sound crypto 1 zero_hash [] ys (validate_iff crypto ys ys w).0) l
      (sym (last_hash-head_hash crypto zero_hash xs)
        ∙ h
        ∙ last_hash-head_hash crypto zero_hash ys)).1
