-- ===== src/Tools/Gateway/Invocation.antt =====
-- What a call of the gateway (gateway.py) returns, and what its ledger records.
use Prim.Native.String.{count}
use probabilistic_ai_inciden.Base.{
  ◌≡◌, ◌⊎◌, ◌↔◌, ℕ, ◌+◌, ◌<◌, String, Bool, none, true, false, Option, some, [], ◌∷◌, ◌++◌, length,
  Result, ok, err,
}
use probabilistic_ai_inciden.Base.Membership.{In}
use probabilistic_ai_inciden.Tools.Json.{Json, object, array, null, items_of}
use probabilistic_ai_inciden.Tools.EvidenceRefs.Cited.{Cited}
use probabilistic_ai_inciden.Tools.Policy.{Allowed}
use probabilistic_ai_inciden.Tools.Ledger.{
  LedgerRecord, AuditLedger, LedgerError, zero_hash, redact, without_result, validate, last_hash,
  new_record,
}
use probabilistic_ai_inciden.Tools.Gateway.{
  ToolRequest, ToolResponse, World, InvokeError, invalid_error, ledger_failed, run, attempt,
  dump_request, dump_response, policy_text, decide, row_count, or_else, hashes_eq,
}

module _ (w : World) (req : ToolRequest) where
  -- A response that stands for an error, with its code and its text, and no result.
  pub record Fails (allowed : Bool) (code message : String) (r : ToolResponse) : Type 0 where
    pub decided : (decide w req).allowed ≡ allowed
    pub policy : r.policy_decision ≡ policy_text allowed
    pub status : r.execution_status ≡ "error"
    pub reported : r.error ≡ some (record { code = code; message = message })
    pub no_sources : r.source_manifest_hashes ≡ []
    pub no_rows : (r.row_count ≡ 0) × (r.byte_count ≡ 0) × (r.truncated ≡ false)
    pub no_evidence : r.evidence_record_ids ≡ []
    pub no_result : (r.result ≡ null) × (r.result_sha256 ≡ w.python.digest null)

  -- The number of rows of a list, and one for any other result.
  abbrev pub rows_of : Json → ℕ
  rows_of (array items) = length (items_of items)
  rows_of _ = 1

  -- A response that stands for a result, read of sources with the same hashes before and after.
  pub record Succeeds (r : ToolResponse) : Type 0 where
    pub allowed :
        Allowed w.parse req.role req.tool req.tool_version req.arguments r.normalized_arguments
    pub policy : r.policy_decision ≡ "allow"
    pub status : r.execution_status ≡ "success"
    pub reported : r.error ≡ none
    pub bound : w.bind_sources req ≡ ok r.source_manifest_hashes
    pub rebound : w.rebind_sources req ≡ ok r.source_manifest_hashes
    pub ran :
        run w req.tool r.source_manifest_hashes r.normalized_arguments ≡ ok (r.result, r.truncated)
    pub rows : r.row_count ≡ rows_of r.result
    pub bytes : r.byte_count ≡ w.python.encoded_length r.result
    pub digest : r.result_sha256 ≡ w.python.digest r.result
    pub evidence : (x : String) → In x r.evidence_record_ids ↔ Cited w.python r.result x

  -- Every response repeats the request and what the policy made of its arguments.
  pub record Repeats (r : ToolResponse) : Type 0 where
    pub call : r.call_id ≡ or_else req.call_id (w.python.uuid5 (object (dump_request req)))
    pub incident : r.incident_id ≡ req.incident_id
    pub tool : (r.tool ≡ req.tool) × (r.tool_version ≡ req.tool_version)
    pub arguments : r.normalized_arguments ≡ (decide w req).normalized_arguments

  -- The text of an error: the reason of the policy, or that of the attempt.
  pub data Raised : Bool → String → String → Type 0 where
    by_policy :
        (decide w req).allowed ≡ false → Raised false (decide w req).code (decide w req).reason
    by_attempt :
        (message : String)
        → (decide w req).allowed ≡ true
        → attempt w req (decide w req).normalized_arguments ≡ err message
        → Raised true "request_rejected" message

  pub data Governed (r : ToolResponse) : Type 0 where
    rejected :
        (allowed : Bool) (code message : String)
        → Raised allowed code message
        → Fails allowed code message r
        → Governed r
    answered : Succeeds r → Governed r

  -- A message that the error model refuses.
  abbrev pub IsRefused : String → Type 0
  IsRefused message = (count message < 1) ⊎ (1000 < count message)

  -- The record of a call, at the end of the ledger.
  pub record Records (ledger : AuditLedger) (response : ToolResponse) (r : LedgerRecord)
      : Type 0 where
    pub sequence : r.sequence ≡ length ledger + 1
    pub previous : r.previous_record_sha256 ≡ last_hash zero_hash ledger
    pub request : r.request ≡ redact w.python (object (dump_request req))
    pub receipt :
        r.response_receipt ≡ redact w.python (object (without_result (dump_response w response)))
    pub result : r.result_sha256 ≡ response.result_sha256
    pub policy : r.policy_outcome ≡ policy_text (decide w req).allowed
    pub sources : r.source_manifest_hashes ≡ response.source_manifest_hashes
    pub call : r.call_id ≡ response.call_id
    pub hash : r.record_sha256 ≡ w.record_digest r.body

  -- How a call ends.
  pub data Outcome (ledger : AuditLedger)
      : Option AuditLedger × Result InvokeError ToolResponse → Type 0 where
    returned :
        (response : ToolResponse) (r : LedgerRecord)
        → Repeats response
        → Governed response
        → validate w.python w.record_digest ledger ≡ ok tt
        → Records ledger response r
        → Outcome ledger (some (ledger ++ r ∷ []), ok response)
    refused :
        (allowed : Bool) (code message : String)
        → Raised allowed code message
        → IsRefused message
        → Outcome ledger (some ledger, err invalid_error)
    corrupt :
        (e : LedgerError)
        → validate w.python w.record_digest ledger ≡ err e
        → Outcome ledger (some ledger, err (ledger_failed e))

  -- A response is made and governed, or its error has a message that is refused.
  abbrev Responds : Result InvokeError ToolResponse → Type 0
  Responds out =
      ((response : ToolResponse) × (out ≡ ok response) × Repeats response × Governed response)
      ⊎ ((allowed : Bool) × (code : String) × (message : String) × (out ≡ err invalid_error)
          × Raised allowed code message
          × IsRefused message)

  -- A valid ledger takes the record of any response.
  module _ (ledger : AuditLedger) (response : ToolResponse) where
    abbrev Appended : Type 0
    Appended =
        (r : LedgerRecord) × (new_record w.python w.record_digest ledger (dump_request req)
            (dump_response w response) (policy_text (decide w req).allowed)
            response.source_manifest_hashes
          ≡ ok r)
        × Records ledger response r
