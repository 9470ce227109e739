-- ===== src/Tools/Bounded.antt =====
-- `Gateway._bounded` of src/paic/tools/gateway.py: the limits on rows and bytes.
pub mod Limits
use Prim.Native.Nat.{◌-◌}
use probabilistic_ai_inciden.Base.{
  ◌≡◌, ◌⊎◌, ◌↔◌, String, refl, ap, sym, ◌∙◌, subst, ℕ, zero, suc, ◌+◌, ◌≤◌, ◌<◌, min, Bool, true,
  false, not, ◌&&◌, ltb, leb, leb→le, leb_false→lt, ltb→lt, ltb_false→le, lt→ltb, ok-injective,
  List, [], ◌∷◌, inl, inr, arith, Bool-cases, length, Result, ok, err, if◌then◌else◌,
}
use probabilistic_ai_inciden.Tools.Json.{
  Json, null, bool, number, text, array, object, items_of, array_of, Python,
}

module _ {A : Type 0} where
  -- `value[:n]`
  abbrev pub take : ℕ → List A → List A
  take zero xs = []
  take (suc n) [] = []
  take (suc n) (x ∷ xs) = x ∷ take n xs

  -- `result.pop()`
  abbrev pub pop : List A → List A
  pop [] = []
  pop (x ∷ []) = []
  pop (x ∷ y ∷ rest) = x ∷ pop (y ∷ rest)

  abbrev pub nonempty : List A → Bool
  nonempty [] = false
  nonempty (x ∷ xs) = true

-- The loop `while result and len(canonical(result).encode()) > self.byte_limit`, with the number
-- of rows as the fuel, where `bytes` is the length of a list's text.
unfoldable pub fit : (List Json → ℕ) → ℕ → ℕ → List Json → List Json × Bool
fit bytes byte_limit zero result = (result, false)
fit bytes byte_limit (suc fuel) result =
    let rest = fit bytes byte_limit fuel (pop result) in
    if nonempty result && ltb byte_limit (bytes result) then (rest.0, true) else (result, false)

abbrev pub list_bytes : Python → List Json → ℕ
list_bytes python rows = python.encoded_length (array (array_of rows))

-- `_bounded`
unfoldable pub bounded : Python → ℕ → ℕ → Json → Result String (Json × Bool)
bounded python row_limit byte_limit (array items) =
    let rows = items_of items in
    let result = take row_limit rows in
    let fitted = fit (list_bytes python) byte_limit (length result) result in
    ok (array (array_of fitted.0), (if fitted.1 then true else ltb (length result) (length rows)))
bounded python row_limit byte_limit value =
    if ltb byte_limit (python.encoded_length value)
    then err "tool result exceeds byte limit"
    else ok (value, false)
