-- ===== src/Tools/EvidenceRefs.antt =====
-- `_evidence_refs` of src/paic/tools/gateway.py: the evidence ids that a tool's result mentions.
pub mod Search
pub mod Cited
use probabilistic_ai_inciden.Base.{
  ℕ, zero, suc, String, Option, none, some, List, [], ◌∷◌, ◌++◌, map, string_eq,
}
use probabilistic_ai_inciden.Base.Membership.{to_set}
use probabilistic_ai_inciden.Base.Sort.{sorted}
use probabilistic_ai_inciden.Tools.Json.{
  Json, Python, Items, Fields, text, array, object, item, field, items_of, values_of, get, children,
  size,
}

module _ (python : Python) where
  -- `refs.update(str(value) for value in many)` where `many` is a list
  abbrev pub texts : Json → List String
  texts (array items) = map python.str (items_of items)
  texts _ = []

  abbrev direct : Option Json → List String
  direct (some (text t)) = t ∷ []
  direct _ = []

  abbrev many : Option Json → List String
  many none = []
  many (some v) = texts v

  abbrev raw : Option Json → List String
  raw (some (text t)) = many (python.loads t)
  raw _ = []

  -- What one item of the queue adds to the references.
  unfoldable pub own_refs : Json → List String
  own_refs (object fields) =
      direct (get fields "evidence_record_id")
      ++ many (get fields "evidence_record_ids")
      ++ raw (get fields "evidence_record_ids_json")
  own_refs _ = []

  -- The loop over the queue; the fuel is none where it does not suffice.
  unfoldable pub collect : ℕ → List Json → List String → Option (List String)
  collect fuel [] refs = some refs
  collect zero (v ∷ queue) refs = none
  collect (suc fuel) (v ∷ queue) refs = collect fuel (queue ++ children v) (own_refs v ++ refs)

  -- `_evidence_refs`, with the number of values as the fuel
  unfoldable pub evidence_refs : Json → Option (List String)
  evidence_refs value = elim (collect (size value) (value ∷ []) []) [
    | none ↦ none
    | some refs ↦ some (sorted (to_set refs))
  ]
