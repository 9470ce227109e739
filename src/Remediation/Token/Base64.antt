-- ===== src/Remediation/Token/Base64.antt =====
-- `_b64encode` and `_b64decode` of approval.py, with the parts of Python's `base64` they use. Bytes
-- and characters are numbers.
use Prim.Native.Nat.{◌/◌, ◌%◌}
use probabilistic_ai_inciden.Base.{
  ℕ, ◌+◌, ◌-◌, ◌*◌, Bool, true, false, ◌&&◌, Option, none, some, List, [], ◌∷◌, ltb, leb, nat_beq,
  if◌then◌else◌,
}

-- The character of six bits in the URL-safe alphabet.
unfoldable pub to_char : ℕ → ℕ
to_char n =
    if ltb n 26
    then n + 65
    else if ltb n 52
    then n + 71
    else if ltb n 62
    then n - 4
    else if nat_beq n 62
    then b'-'
    else b'_'

-- `base64.urlsafe_b64encode(value).rstrip(b"=")`
unfoldable pub b64encode : List ℕ → List ℕ
b64encode [] = []
b64encode (a ∷ []) = to_char (a / 4) ∷ to_char (a % 4 * 16) ∷ []
b64encode (a ∷ b ∷ []) = to_char (a / 4) ∷ to_char (a % 4 * 16 + b / 16) ∷ to_char (b % 16 * 4) ∷ []
b64encode (a ∷ b ∷ c ∷ rest) =
    to_char (a / 4)
    ∷ to_char (a % 4 * 16 + b / 16)
    ∷ to_char (b % 16 * 4 + c / 64)
    ∷ to_char (c % 64)
    ∷ b64encode rest

-- The six bits of a character. `b64decode` with `altchars` reads `+` and `/` too.
unfoldable pub of_char : ℕ → Option ℕ
of_char c =
    if leb b'A' c && leb c b'Z'
    then some (c - 65)
    else if leb b'a' c && leb c b'z'
    then some (c - 71)
    else if leb b'0' c && leb c b'9'
    then some (c + 4)
    else if nat_beq c b'-'
    then some 62
    else if nat_beq c b'_'
    then some 63
    else if nat_beq c b'+'
    then some 62
    else if nat_beq c b'/'
    then some 63
    else none

-- `base64.b64decode` of the text with its padding put back. A text with a `=` of its own is never
-- what `b64encode` returns, so that `_b64decode` refuses it whatever this makes of it.
unfoldable pub decode : List ℕ → Option (List ℕ)
decode [] = some []
decode (p ∷ []) = none
decode (p ∷ q ∷ []) = elim (of_char p) [
  | none ↦ none
  | some i ↦ elim (of_char q) [ none ↦ none | some j ↦ some ((i * 4 + j / 16) ∷ []) ]
]
decode (p ∷ q ∷ r ∷ []) = elim (of_char p) [
  | none ↦ none
  | some i ↦ elim (of_char q) [
    | none ↦ none
    | some j ↦ elim (of_char r) [
      | none ↦ none
      | some k ↦ some ((i * 4 + j / 16) ∷ (j % 16 * 16 + k / 4) ∷ [])
    ]
  ]
]
decode (p ∷ q ∷ r ∷ s ∷ rest) = elim (of_char p) [
  | none ↦ none
  | some i ↦ elim (of_char q) [
    | none ↦ none
    | some j ↦ elim (of_char r) [
      | none ↦ none
      | some k ↦ elim (of_char s) [
        | none ↦ none
        | some l ↦ elim (decode rest) [
          | none ↦ none
          | some bytes ↦ some ((i * 4 + j / 16) ∷ (j % 16 * 16 + k / 4) ∷ (k % 4 * 64 + l) ∷ bytes)
        ]
      ]
    ]
  ]
]

-- `_b64encode(decoded) != value`
unfoldable pub same_bytes : List ℕ → List ℕ → Bool
same_bytes [] [] = true
same_bytes (x ∷ xs) (y ∷ ys) = nat_beq x y && same_bytes xs ys
same_bytes _ _ = false

unfoldable pub b64decode : List ℕ → Option (List ℕ)
b64decode value = elim (decode value) [
  | none ↦ none
  | some decoded ↦ if same_bytes (b64encode decoded) value then some decoded else none
]
