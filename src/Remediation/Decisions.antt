-- ===== src/Remediation/Decisions.antt =====
-- src/paic/remediation/approval.py: the ledger of decisions.
use probabilistic_ai_inciden.Base.{
  ℕ, suc, ◌+◌, String, Bool, ◌||◌, List, [], ◌∷◌, ◌++◌, length, any, ◌==◌, ◌!=◌, string_eq, nat_eq,
  Result, ok, ◌>>=◌, ◌>>◌, reject_if,
}
use probabilistic_ai_inciden.Base.Membership.{has}
use probabilistic_ai_inciden.Remediation.Models.Plan.{
  ApprovalDecision, LedgerBody, ApprovalLedgerRecord, plan_status_eq, risk_level_eq,
}
use probabilistic_ai_inciden.Remediation.Config.{Crypto}

-- One constructor for each message of an `ApprovalError`.
pub data ApprovalError : Type 0 where
  unregistered_approver registry_required bad_attestation_key wrong_group : ApprovalError
  nonce_duplicated key_unavailable bad_attestation : ApprovalError
  broken_chain duplicated_hash bad_decision_hash bad_record_hash second_decision : ApprovalError
  naive_time other_plan outside_window future_decision requester_approval : ApprovalError
  duplicate_identity groups_not_distinct : ApprovalError
  secret_unset secret_too_short secret_short_attestation : ApprovalError

-- `"0" * 64`
abbrev pub zero_hash : String
zero_hash = "0000000000000000000000000000000000000000000000000000000000000000"

-- The records of the file, oldest first. Reading and writing their JSON lines is not modelled.
abbrev pub ApprovalLedger : Type 0
ApprovalLedger = List ApprovalLedgerRecord

-- One round of the loop of `ApprovalLedger.validate`.
unfoldable pub check_record :
    Crypto → ℕ → String → List String → ApprovalLedgerRecord → Result ApprovalError (Unit {0})
check_record crypto expected previous seen_hashes record' = do
  reject_if (record'.sequence != expected || record'.previous_record_sha256 != previous)
      ApprovalError.broken_chain
  reject_if (has seen_hashes record'.record_sha256) ApprovalError.duplicated_hash
  reject_if (record'.decision_sha256 != crypto.decision_digest record'.decision)
      ApprovalError.bad_decision_hash
  reject_if (crypto.record_digest record'.body != record'.record_sha256)
      ApprovalError.bad_record_hash
  ok tt

unfoldable pub validate_from :
    Crypto → ℕ → String → List String → ApprovalLedger → Result ApprovalError (Unit {0})
validate_from crypto expected previous seen_hashes [] = ok tt
validate_from crypto expected previous seen_hashes (r ∷ rest) =
    check_record crypto expected previous seen_hashes r
    >> validate_from crypto (suc expected) r.record_sha256 (r.record_sha256 ∷ seen_hashes) rest

-- `ApprovalLedger.validate`
unfoldable pub validate : Crypto → ApprovalLedger → Result ApprovalError ApprovalLedger
validate crypto ledger = do validate_from crypto 1 zero_hash [] ledger; ok ledger

-- `records[-1].record_sha256 if records else "0" * 64`
unfoldable pub last_hash : String → ApprovalLedger → String
last_hash previous [] = previous
last_hash previous (r ∷ rest) = last_hash r.record_sha256 rest

-- The record that `append` makes.
unfoldable pub new_record : Crypto → ApprovalLedger → ApprovalDecision → ApprovalLedgerRecord
new_record crypto ledger decision = record {
  body = body;
  record_sha256 = crypto.record_digest body;
}
  where
    body : LedgerBody
    body = record {
      sequence = length ledger + 1;
      previous_record_sha256 = last_hash zero_hash ledger;
      decision = decision;
      decision_sha256 = crypto.decision_digest decision;
    }

-- `any(item.decision.approver_id == approver_id for item in records)`
abbrev pub has_decided : ApprovalLedger → String → Bool
has_decided records approver_id =
    any (λ (item : ApprovalLedgerRecord). item.decision.approver_id == approver_id) records

-- `ApprovalLedger.append`: the record, and the ledger with it.
unfoldable pub append :
    Crypto
    → ApprovalLedger
    → ApprovalDecision
    → Result ApprovalError (ApprovalLedgerRecord × ApprovalLedger)
append crypto ledger decision = do
  records ← validate crypto ledger
  reject_if (has_decided records decision.approver_id) ApprovalError.second_decision
  ok (new_record crypto records decision, records ++ new_record crypto records decision ∷ [])
