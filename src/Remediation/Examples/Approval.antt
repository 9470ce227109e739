-- ===== src/Remediation/Examples/Approval.antt =====
-- Examples of the theorems about src/paic/remediation/approval.py.
use mathlib.Core.Logic.{◌↔◌}
use probabilistic_ai_inciden.Base.{
  ◌≡◌, ◌≢◌, refl, string_eq, beq_false→ne, ap, sym, ◌∙◌, inl, inr, String, [], ◌∷◌, ◌++◌, ok,
}
use probabilistic_ai_inciden.Base.Membership.{In, Distinct}
use probabilistic_ai_inciden.Base.Sort.{insort, sort_by, sorted}
use probabilistic_ai_inciden.Remediation.Models.Plan.{
  ApprovalLedgerRecord, RiskLevel-discrete, PlanStatus-discrete,
}
use probabilistic_ai_inciden.Remediation.Decisions.{
  ApprovalLedger, check_record, validate_from, validate, last_hash, new_record, append,
}
use probabilistic_ai_inciden.Remediation.Approval.{
  registered_identity, check_attestation, verify_attestation, aware, check_decision, collect,
  standing, conclude, evaluate_approval,
}
use probabilistic_ai_inciden.Remediation.Approval.Ledger.{
  CollisionFree, approvers, append-validates, append_iff, validate_tamper_evident,
}
use probabilistic_ai_inciden.Remediation.Approval.Quorum.{HasQuorum, evaluate_approval_quorum}
use probabilistic_ai_inciden.Remediation.Samples.{
  sample_crypto, sample_plan, sample_config, sample_status, record_of_alice, record_of_bob,
  decision_of_bob,
}

abbrev first_ledger : ApprovalLedger
first_ledger = record_of_alice ∷ []

abbrev second_ledger : ApprovalLedger
second_ledger = record_of_alice ∷ record_of_bob ∷ []

abbrev digest_of : ApprovalLedgerRecord → String
digest_of r = sample_crypto.record_digest r.body

digests_differ : digest_of record_of_bob ≢ digest_of record_of_alice
digests_differ = beq_false→ne "record:decision:bob" "record:decision:alice" refl

-- The new record's digest is not that of the first.
bob-CollisionFree : CollisionFree sample_crypto (record_of_bob ∷ []) first_ledger
bob-CollisionFree r s (inl e) (inl k) h =
    absurd (digests_differ (ap digest_of e ∙ h ∙ sym (ap digest_of k)))
bob-CollisionFree r s (inl e) (inr m) h = absurd m
bob-CollisionFree r s (inr m) k h = absurd m

alice-CollisionFree : CollisionFree sample_crypto first_ledger first_ledger
alice-CollisionFree r s (inl e) (inl k) h = ap (λ (x : ApprovalLedgerRecord). x.body) (sym e ∙ k)
alice-CollisionFree r s (inl e) (inr m) h = absurd m
alice-CollisionFree r s (inr m) k h = absurd m

first_ledger-valid : validate sample_crypto first_ledger ≡ ok first_ledger
unfolding validate validate_from check_record
first_ledger-valid = refl

bob_appended : append sample_crypto first_ledger decision_of_bob ≡ ok (record_of_bob, second_ledger)
unfolding append validate validate_from check_record new_record last_hash
bob_appended = refl

append-validates_example :
    (validate sample_crypto second_ledger ≡ ok second_ledger)
    × (second_ledger ≡ first_ledger ++ record_of_bob ∷ [])
    × (record_of_bob.decision ≡ decision_of_bob)
    × Distinct (approvers second_ledger)
append-validates_example =
    append-validates sample_crypto first_ledger decision_of_bob record_of_bob second_ledger
      bob-CollisionFree ((λ m. m), tt) bob_appended

append_iff_example :
    ((out : ApprovalLedgerRecord × ApprovalLedger) × (append sample_crypto first_ledger
          decision_of_bob
        ≡ ok out))
    ↔ (¬ In "bob" (approvers first_ledger))
append_iff_example = append_iff sample_crypto first_ledger decision_of_bob first_ledger-valid

validate_tamper_evident_example : first_ledger ≡ first_ledger
validate_tamper_evident_example =
    validate_tamper_evident sample_crypto first_ledger first_ledger alice-CollisionFree
      first_ledger-valid first_ledger-valid refl refl

first_ledger-approved :
    evaluate_approval sample_crypto sample_plan first_ledger sample_config (aware 2000)
    ≡ ok sample_status
unfolding evaluate_approval validate validate_from check_record collect verify_attestation
    registered_identity check_attestation check_decision conclude standing sorted sort_by insort
    RiskLevel-discrete PlanStatus-discrete
first_ledger-approved = refl

evaluate_approval_quorum_example :
    HasQuorum sample_crypto sample_plan first_ledger sample_config 2000
evaluate_approval_quorum_example =
    evaluate_approval_quorum sample_crypto sample_plan sample_config 2000 first_ledger sample_status
      first_ledger-approved refl
