-- ===== src/Tools/Gateway.antt =====
-- `Gateway.invoke` of src/paic/tools/gateway.py, with the wire models of models.py. Reading the
-- artifacts and querying their tables are the work of a numeric library: what a call reads from
-- them, before and after the query, is an argument.
pub mod Invocation
use Prim.Native.String.{count}
use probabilistic_ai_inciden.Base.{
  ℕ, String, Bool, true, false, not, ◌||◌, ltb, Option, none, some, List, [], ◌∷◌, length, ◌==◌,
  ◌!=◌, Eq, nat_eq, string_eq, Result, ok, err, ◌>>=◌, ◌>>◌, reject_if, if◌then◌else◌,
}
use probabilistic_ai_inciden.Base.Discrete.{String-discrete, discrete_eq}
use probabilistic_ai_inciden.Base.Membership.{has}
use probabilistic_ai_inciden.Tools.Json.{
  Json, null, bool, number, text, array, object, items_of, array_of, fields_from, Fields, no_fields,
  Python,
}
use probabilistic_ai_inciden.Tools.EvidenceRefs.{evidence_refs}
use probabilistic_ai_inciden.Tools.Policy.{PolicyDecision, tools, authorize}
use probabilistic_ai_inciden.Tools.Bounded.{bounded}
use probabilistic_ai_inciden.Tools.Ledger.{Hashes, RecordBody, AuditLedger, LedgerError, append}

pub record ToolRequest : Type 0 where
  pub tool : String
  pub tool_version : String
  pub incident_id : String
  pub role : String
  pub arguments : Json
  pub dataset_dir : String
  pub analytics_dir : Option String
  pub detection_dir : Option String
  pub impact_dir : Option String
  pub evidence_dir : Option String
  pub audit_dir : Option String
  pub call_id : Option String

pub record ToolError : Type 0 where
  pub code : String
  pub message : String

pub record ToolResponse : Type 0 where
  pub call_id : String
  pub incident_id : String
  pub tool : String
  pub tool_version : String
  pub policy_decision : String
  pub execution_status : String
  pub source_manifest_hashes : Hashes
  pub row_count : ℕ
  pub byte_count : ℕ
  pub truncated : Bool
  pub evidence_record_ids : List String
  pub normalized_arguments : Json
  pub result : Json
  pub result_sha256 : String
  pub error : Option ToolError

-- What is outside of a call: the validation of arguments, the hashes of the sources when they are
-- bound and when they are bound again, and what a tool reads from the tables.
pub record World : Type 0 where
  pub python : Python
  pub record_digest : RecordBody → String
  -- the text of a number in a dump
  pub numeral : ℕ → String
  pub parse : String → Json → Result String Json
  pub bind_sources : ToolRequest → Result String Hashes
  pub rebind_sources : ToolRequest → Result String Hashes
  -- `execute` of sql.py, which has limits of its own
  pub query_sql : Hashes → Json → Result String (Json × Bool)
  pub query_tables : String → Hashes → Json → Result String Json
  pub row_limit : ℕ
  pub byte_limit : ℕ

-- A `ValidationError` of the error model, and what the ledger raises.
pub data InvokeError : Type 0 where
  invalid_error : InvokeError
  ledger_failed : LedgerError → InvokeError

unfoldable pub Hashes-discrete : Discrete Hashes
Hashes-discrete = hlevel String-discrete

instance abbrev pub hashes_eq : Eq Hashes
hashes_eq = discrete_eq Hashes-discrete

-- `_run`
unfoldable pub run : World → String → Hashes → Json → Result String (Json × Bool)
run w tool bound args =
    if tool == "sql.query"
    then w.query_sql bound args
    else (if has tools tool
        then w.query_tables tool bound args >>= bounded w.python w.row_limit w.byte_limit
        else err "unknown tool")

abbrev pub row_count : Json → ℕ
row_count (array items) = length (items_of items)
row_count _ = 1

-- What a call that succeeds updates in its response.
pub record Success : Type 0 where
  pub hashes : Hashes
  pub result : Json
  pub truncated : Bool
  pub refs : List String

-- The body of the `try` of `invoke`. The fuel of `evidence_refs` always suffices.
unfoldable pub attempt : World → ToolRequest → Json → Result String Success
attempt w req args = do
  bound ← w.bind_sources req
  out ← run w req.tool bound args
  rebound ← w.rebind_sources req
  reject_if (rebound != bound) "source artifacts changed during tool invocation"
  elim (evidence_refs w.python out.0) [
    | none ↦ err "out of fuel"
    | some refs ↦ ok (record { hashes = bound; result = out.0; truncated = out.1; refs = refs })
  ]

-- `ToolError(code=code, message=message)`, whose message has 1 to 1,000 characters
unfoldable pub new_error : String → String → Result InvokeError ToolError
new_error code message = do
  reject_if (ltb (count message) 1 || ltb 1000 (count message)) invalid_error
  ok (record { code = code; message = message })

-- `str | None`
abbrev optional : Option String → Json
optional none = null
optional (some t) = text t

-- `req.model_dump(mode="json")`
unfoldable pub dump_request : ToolRequest → Fields
dump_request req = fields_from (
    ("tool", text req.tool)
    ∷ ("tool_version", text req.tool_version)
    ∷ ("incident_id", text req.incident_id)
    ∷ ("role", text req.role)
    ∷ ("arguments", req.arguments)
    ∷ ("dataset_dir", text req.dataset_dir)
    ∷ ("analytics_dir", optional req.analytics_dir)
    ∷ ("detection_dir", optional req.detection_dir)
    ∷ ("impact_dir", optional req.impact_dir)
    ∷ ("evidence_dir", optional req.evidence_dir)
    ∷ ("audit_dir", optional req.audit_dir)
    ∷ ("call_id", optional req.call_id)
    ∷ [])

abbrev texts_of : List String → List Json
texts_of [] = []
texts_of (t ∷ rest) = text t ∷ texts_of rest

abbrev hash_fields : Hashes → List (String × Json)
hash_fields [] = []
hash_fields (h ∷ rest) = (h.0, text h.1) ∷ hash_fields rest

abbrev dump_error : Option ToolError → Json
dump_error none = null
dump_error (some e) =
    object (fields_from (("code", text e.code) ∷ ("message", text e.message) ∷ []))

-- `response.model_dump(mode="json")`
unfoldable pub dump_response : World → ToolResponse → Fields
dump_response w r = fields_from (
    ("call_id", text r.call_id)
    ∷ ("incident_id", text r.incident_id)
    ∷ ("tool", text r.tool)
    ∷ ("tool_version", text r.tool_version)
    ∷ ("policy_decision", text r.policy_decision)
    ∷ ("execution_status", text r.execution_status)
    ∷ ("source_manifest_hashes", object (fields_from (hash_fields r.source_manifest_hashes)))
    ∷ ("row_count", number (w.numeral r.row_count))
    ∷ ("byte_count", number (w.numeral r.byte_count))
    ∷ ("truncated", bool r.truncated)
    ∷ ("evidence_record_ids", array (array_of (texts_of r.evidence_record_ids)))
    ∷ ("normalized_arguments", r.normalized_arguments)
    ∷ ("result", r.result)
    ∷ ("result_sha256", text r.result_sha256)
    ∷ ("error", dump_error r.error)
    ∷ [])

abbrev pub or_else : Option String → String → String
or_else none d = d
or_else (some t) d = t

abbrev pub policy_text : Bool → String
policy_text true = "allow"
policy_text false = "deny"

abbrev pub decide : World → ToolRequest → PolicyDecision
decide w req = authorize w.parse req.role req.tool req.tool_version req.arguments

-- `base`
unfoldable pub base_response : World → ToolRequest → ToolResponse
base_response w req = record {
  call_id = or_else req.call_id (w.python.uuid5 (object (dump_request req)));
  incident_id = req.incident_id;
  tool = req.tool;
  tool_version = req.tool_version;
  policy_decision = policy_text (decide w req).allowed;
  execution_status = "error";
  source_manifest_hashes = [];
  row_count = 0;
  byte_count = 0;
  truncated = false;
  evidence_record_ids = [];
  normalized_arguments = (decide w req).normalized_arguments;
  result = null;
  result_sha256 = w.python.digest null;
  error = none;
}

abbrev pub failed : World → ToolRequest → String → String → Result InvokeError ToolResponse
failed w req code message = do
  e ← new_error code message
  ok (record (base_response w req) { error = some e })

-- `base.update(...)`
abbrev pub succeeded : World → ToolRequest → Success → ToolResponse
succeeded w req s = record (base_response w req) {
  execution_status = "success";
  source_manifest_hashes = s.hashes;
  row_count = row_count s.result;
  byte_count = w.python.encoded_length s.result;
  truncated = s.truncated;
  evidence_record_ids = s.refs;
  result = s.result;
  result_sha256 = w.python.digest s.result;
}

abbrev pub of_attempt :
    World → ToolRequest → Result String Success → Result InvokeError ToolResponse
of_attempt w req (err message) = failed w req "request_rejected" message
of_attempt w req (ok s) = ok (succeeded w req s)

-- The response that `invoke` makes.
unfoldable pub respond : World → ToolRequest → Result InvokeError ToolResponse
respond w req =
    let decision = decide w req in
    if not decision.allowed
    then failed w req decision.code decision.reason
    else of_attempt w req (attempt w req decision.normalized_arguments)

-- The appends of `invoke`, with the ledger where the request names one.
unfoldable pub record_call :
    World
    → ToolRequest
    → Option AuditLedger
    → ToolResponse
    → Option AuditLedger × Result InvokeError ToolResponse
record_call w req none response = (none, ok response)
record_call w req (some ledger) response =
    elim (append w.python w.record_digest ledger (dump_request req) (dump_response w response)
      (policy_text (decide w req).allowed) response.source_manifest_hashes) [
        | err e ↦ (some ledger, err (ledger_failed e))
        | ok longer ↦ (some longer, ok response)
      ]

-- `invoke`: the ledger after the call, and what it returns or raises.
unfoldable pub invoke :
    World → ToolRequest → Option AuditLedger → Option AuditLedger × Result InvokeError ToolResponse
invoke w req ledger = elim (respond w req) [
  | err e ↦ (ledger, err e)
  | ok response ↦ record_call w req ledger response
]
