-- ===== src/Tools/Ledger.antt =====
-- src/paic/tools/ledger.py: redaction, and the append-only ledger of invocations. The file is the
-- list of its records; locks and the text of a line are not modelled.
use Prim.Native.String.{len, slice, find}
use Prim.Native.Nat.{◌-◌}
use probabilistic_ai_inciden.Base.{
  ℕ, suc, ◌+◌, String, Bool, true, false, not, ◌&&◌, ◌||◌, leb, Option, none, some, List, [], ◌∷◌,
  ◌++◌, any, length, ◌==◌, ◌!=◌, string_eq, nat_eq, Result, ok, err, ◌>>=◌, ◌>>◌, reject_if,
  if◌then◌else◌,
}
use probabilistic_ai_inciden.Base.Membership.{has}
use probabilistic_ai_inciden.Tools.Json.{
  Json, Items, Fields, no_items, no_fields, text, array, object, item, field, get, Python,
}

-- `_PATH_FIELDS`
abbrev path_fields : List String
path_fields =
    "dataset_dir" ∷ "analytics_dir" ∷ "detection_dir" ∷ "impact_dir" ∷ "evidence_dir" ∷ "audit_dir"
    ∷ []

-- `_SECRET_MARKERS`
abbrev secret_markers : List String
secret_markers = "api_key" ∷ "token" ∷ "secret" ∷ "password" ∷ "authorization" ∷ []

-- `marker in lowered`
abbrev contains : String → String → Bool
contains s t = leb (find s t) (len s)

-- `lowered.endswith(suffix)`
abbrev ends_with : String → String → Bool
ends_with s suffix = leb (len suffix) (len s) && slice s (len s - len suffix) (len s) == suffix

unfoldable pub is_path_key : String → Bool
is_path_key lowered = has path_fields lowered || lowered == "path" || ends_with lowered "_path"

unfoldable pub is_secret_key : String → Bool
is_secret_key lowered = any (contains lowered) secret_markers

-- `_redact`
unfoldable mutual
  pub redact : Python → Json → Json
  redact python (object fields) = object (redact_fields python fields)
  redact python (array items) = array (redact_items python items)
  redact python (text t) = text (python.sub_paths t)
  redact python v = v

  pub redact_items : Python → Items → Items
  redact_items python no_items = no_items
  redact_items python (item v rest) = item (redact python v) (redact_items python rest)

  pub redact_fields : Python → Fields → Fields
  redact_fields python no_fields = no_fields
  redact_fields python (field key v rest) =
      let others = redact_fields python rest in
      let value = redact python v in
      if is_path_key (python.lower key)
      then others
      else (if is_secret_key (python.lower key)
          then field key (text "[REDACTED]") others
          else field key value others)

-- `{key: value for key, value in response.items() if key != "result"}`
unfoldable pub without_result : Fields → Fields
without_result no_fields = no_fields
without_result (field key v rest) =
    let others = without_result rest in if key == "result" then others else field key v others

-- A dictionary from names to hashes, in order of the names.
abbrev pub Hashes : Type 0
Hashes = List (String × String)

-- A record without its hash.
pub record RecordBody : Type 0 where
  pub sequence : ℕ
  pub previous_record_sha256 : String
  pub request : Json
  pub request_sha256 : String
  pub response_receipt : Json
  pub response_receipt_sha256 : String
  pub result_sha256 : String
  pub policy_outcome : String
  pub source_manifest_hashes : Hashes
  pub call_id : String
  pub tool : String

pub record LedgerRecord : Type 0 where
  pub body : RecordBody
  pub open body use *
  pub record_sha256 : String

abbrev pub AuditLedger : Type 0
AuditLedger = List LedgerRecord

-- One constructor for each message of the `ValueError` of `validate`, and for a missing key.
pub data LedgerError : Type 0 where
  duplicated_hash broken_chain bad_request_hash bad_receipt_hash bad_receipt : LedgerError
  inconsistent_result bad_record_hash key_error : LedgerError

-- `"0" * 64`
abbrev pub zero_hash : String
zero_hash = "0000000000000000000000000000000000000000000000000000000000000000"

-- `receipt.get(key)` of an object
abbrev pub field_of : Json → String → Option Json
field_of (object fields) key = get fields key
field_of _ key = none

abbrev pub is_object : Json → Bool
is_object (object _) = true
is_object _ = false

abbrev pub is_text : Option Json → String → Bool
is_text (some (text t)) s = t == s
is_text _ s = false

-- One round of the loop of `validate`, with the digest of a record's body.
unfoldable pub check_record :
    Python
    → (RecordBody → String)
    → ℕ
    → String
    → List String
    → LedgerRecord
    → Result LedgerError (Unit {0})
check_record python record_digest expected previous seen r = do
  reject_if (has seen r.record_sha256) duplicated_hash
  reject_if (r.sequence != expected || r.previous_record_sha256 != previous) broken_chain
  reject_if (r.request_sha256 != python.digest r.request) bad_request_hash
  reject_if (r.response_receipt_sha256 != python.digest r.response_receipt) bad_receipt_hash
  reject_if (not (is_object r.response_receipt)) bad_receipt
  reject_if (not (is_text (field_of r.response_receipt "result_sha256") r.result_sha256))
      inconsistent_result
  reject_if (r.record_sha256 != record_digest r.body) bad_record_hash
  ok tt

unfoldable pub validate_from :
    Python
    → (RecordBody → String)
    → ℕ
    → String
    → List String
    → AuditLedger
    → Result LedgerError (Unit {0})
validate_from python record_digest expected previous seen [] = ok tt
validate_from python record_digest expected previous seen (r ∷ rest) =
    check_record python record_digest expected previous seen r
    >> validate_from python record_digest (suc expected) r.record_sha256 (r.record_sha256 ∷ seen)
        rest

-- `AuditLedger.validate`
abbrev pub validate : Python → (RecordBody → String) → AuditLedger → Result LedgerError (Unit {0})
validate python record_digest = validate_from python record_digest 1 zero_hash []

-- `json.loads(records[-1])["record_sha256"] if records else "0" * 64`
unfoldable pub last_hash : String → AuditLedger → String
last_hash previous [] = previous
last_hash previous (r ∷ rest) = last_hash r.record_sha256 rest

-- `response[key]`, a text
abbrev pub text_at : Fields → String → Result LedgerError String
text_at fields key = elim (get fields key) [ some (text t) ↦ ok t | _ ↦ err key_error ]

-- The record that `append` makes.
unfoldable pub new_record :
    Python
    → (RecordBody → String)
    → AuditLedger
    → Fields
    → Fields
    → String
    → Hashes
    → Result LedgerError LedgerRecord
new_record python record_digest ledger request response policy sources = do
  result_sha256 ← text_at response "result_sha256"
  call_id ← text_at response "call_id"
  tool ← text_at response "tool"
  let safe_request = redact python (object request)
  let receipt = redact python (object (without_result response))
  let body : RecordBody = record {
    sequence = length ledger + 1;
    previous_record_sha256 = last_hash zero_hash ledger;
    request = safe_request;
    request_sha256 = python.digest safe_request;
    response_receipt = receipt;
    response_receipt_sha256 = python.digest receipt;
    result_sha256 = result_sha256;
    policy_outcome = policy;
    source_manifest_hashes = sources;
    call_id = call_id;
    tool = tool;
  }
  ok (record { body = body; record_sha256 = record_digest body })

-- `AuditLedger.append`
unfoldable pub append :
    Python
    → (RecordBody → String)
    → AuditLedger
    → Fields
    → Fields
    → String
    → Hashes
    → Result LedgerError AuditLedger
append python record_digest ledger request response policy sources = do
  validate python record_digest ledger
  r ← new_record python record_digest ledger request response policy sources
  ok (ledger ++ r ∷ [])
