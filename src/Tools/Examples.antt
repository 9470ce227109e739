-- ===== src/Tools/Examples.antt =====
-- Examples of the theorems about src/paic/tools/gateway.py.
use Prim.Native.String.{◌++◌ as text_append}
use probabilistic_ai_inciden.Base.{
  ◌≡◌, ◌↔◌, refl, ◌<◌, String, Bool, true, Option, none, some, List, [], ◌∷◌, Result, ok, err,
  length,
}
use probabilistic_ai_inciden.Base.Membership.{In, Distinct}
use probabilistic_ai_inciden.Base.Sort.{IsSorted, text_le, insort, sort_by, sorted}
use probabilistic_ai_inciden.Base.Discrete.{String-discrete}
use probabilistic_ai_inciden.Tools.Json.{
  Json, text, array, object, no_items, no_fields, fields_from, array_of, Python,
}
use probabilistic_ai_inciden.Tools.Lineage.{
  Node, Edge, downstream, Trace, ends, include, visit, scan, rounds, lineage_trace,
}
use probabilistic_ai_inciden.Tools.Lineage.Invariant.{Near, Taken}
use probabilistic_ai_inciden.Tools.Lineage.Walks.{lineage_trace-walks}
use probabilistic_ai_inciden.Tools.EvidenceRefs.{own_refs, collect, evidence_refs}
use probabilistic_ai_inciden.Tools.EvidenceRefs.Cited.{Cited, evidence_refs-Cited}
use probabilistic_ai_inciden.Tools.Policy.{tools, roles, capabilities, authorize}
use probabilistic_ai_inciden.Tools.Bounded.{fit, list_bytes, bounded}
use probabilistic_ai_inciden.Tools.Bounded.Limits.{Longest, row_count, bounded-Longest}
use probabilistic_ai_inciden.Tools.Ledger.{
  AuditLedger, redact, is_path_key, is_secret_key, without_result, append, new_record,
  validate_from, last_hash,
}
use probabilistic_ai_inciden.Tools.Gateway.{
  ToolRequest, ToolResponse, World, InvokeError, run, attempt, new_error, dump_request,
  dump_response, InvokeError, base_response, respond, record_call, invoke, Hashes-discrete,
}

abbrev node : String → Node
node id = record { node_id = id; columns = "" }

abbrev edge : String → String → String → Edge
edge id up down = record {
  edge_id = id;
  upstream_node_id = up;
  downstream_node_id = down;
  columns = "";
}

abbrev sample_nodes : List Node
sample_nodes = node "orders" ∷ node "revenue" ∷ node "report" ∷ node "board" ∷ []

-- A chain of three edges.
abbrev sample_edges : List Edge
sample_edges =
    edge "e1" "orders" "revenue" ∷ edge "e2" "revenue" "report" ∷ edge "e3" "report" "board" ∷ []

lineage_trace-walks_example :
    (trace : Trace) × (lineage_trace sample_nodes sample_edges "orders" downstream 2 ≡ ok trace)
    × ((n : Node)
        → In n trace.nodes
          ↔ (In n sample_nodes × Near downstream sample_edges "orders" 2 n.node_id))
    × ((e : Edge)
        → In e trace.edges
          ↔ (In e sample_edges × Taken downstream sample_edges "orders" 2 e.edge_id))
lineage_trace-walks_example =
    lineage_trace-walks sample_nodes sample_edges "orders" downstream 2 refl refl

-- Two steps lead to the report, and not to the board.
sample_trace :
    lineage_trace sample_nodes sample_edges "orders" downstream 2
    ≡ ok (record {
      nodes = node "orders" ∷ node "revenue" ∷ node "report" ∷ [];
      edges = edge "e1" "orders" "revenue" ∷ edge "e2" "revenue" "report" ∷ [];
    })
unfolding lineage_trace rounds scan visit ends include
sample_trace = refl

abbrev sample_python : Python
sample_python = record {
  loads = λ t. none;
  str = λ v. elim v [ text t ↦ t | _ ↦ "?" ];
  lower = λ t. t;
  sub_paths = λ t. t;
  digest = λ v. "digest";
  encoded_length = λ v. elim v [ array items ↦ elim items [ no_items ↦ 2 | _ ↦ 40 ] | _ ↦ 10 ];
  uuid5 = λ v. "call-1";
}

abbrev sample_result : Json
sample_result = array (
    array_of (
      object (fields_from (("evidence_record_id", text "ev-2") ∷ []))
      ∷ object (
          fields_from
            (("evidence_record_ids", array (array_of (text "ev-1" ∷ text "ev-2" ∷ []))) ∷ []))
      ∷ []))

evidence_refs-Cited_example :
    (refs : List String) × (evidence_refs sample_python sample_result ≡ some refs)
    × Distinct refs
    × IsSorted text_le refs
    × ((x : String) → In x refs ↔ Cited sample_python sample_result x)
evidence_refs-Cited_example = evidence_refs-Cited sample_python sample_result

sample_refs : evidence_refs sample_python sample_result ≡ some ("ev-1" ∷ "ev-2" ∷ [])
unfolding evidence_refs collect own_refs sorted sort_by insort
sample_refs = refl

abbrev three_rows : List Json
three_rows = text "a" ∷ text "b" ∷ text "c" ∷ []

bounded-Longest_example :
    (result : List Json) × (truncated : Bool) × (popped : Bool) × (bounded sample_python 2 50
        (array (array_of three_rows))
      ≡ ok (array (array_of result), truncated))
    × Longest (list_bytes sample_python) 50 (row_count 2 three_rows) three_rows result popped
    × ((truncated ≡ true) ↔ (length result < 3))
bounded-Longest_example = bounded-Longest sample_python 2 50 three_rows

-- No text of a list is as short as one byte, so the limit of one byte leaves the empty list.
over_limit : bounded sample_python 2 1 (array (array_of three_rows)) ≡ ok (array no_items, true)
unfolding bounded fit
over_limit = refl

abbrev sample_world : World
sample_world = record {
  python = sample_python;
  record_digest = λ b. text_append "record:" b.call_id;
  numeral = λ n. "0";
  parse = λ tool arguments. ok arguments;
  bind_sources = λ req. ok (("dataset", "hash-1") ∷ []);
  rebind_sources = λ req. ok (("dataset", "hash-1") ∷ []);
  query_sql = λ hashes args. err "no tables";
  query_tables = λ tool hashes args. ok sample_result;
  row_limit = 500;
  byte_limit = 100_000;
}

abbrev sample_request : ToolRequest
sample_request = record {
  tool = "evidence.search";
  tool_version = "1.0";
  incident_id = "inc-1";
  role = "observer";
  arguments = object no_fields;
  dataset_dir = "data";
  analytics_dir = none;
  detection_dir = none;
  impact_dir = none;
  evidence_dir = none;
  audit_dir = some "audit";
  call_id = none;
}

abbrev status_of : Option AuditLedger × Result InvokeError ToolResponse → String
status_of out = elim out.1 [ ok r ↦ r.execution_status | err e ↦ "raised" ]

-- The search succeeds, and an observer's query of the tables is denied.
sample_status :
    (status_of (invoke sample_world sample_request (some [])) ≡ "success")
    × (status_of (invoke sample_world (record sample_request { tool = "sql.query" }) (some []))
        ≡ "error")
unfolding invoke respond attempt run new_error dump_request dump_response base_response record_call
    append new_record validate_from last_hash redact is_path_key is_secret_key without_result
    authorize tools roles capabilities bounded fit evidence_refs collect own_refs sorted sort_by
    insort Hashes-discrete String-discrete
sample_status = (refl, refl)
