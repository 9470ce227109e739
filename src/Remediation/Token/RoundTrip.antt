-- ===== src/Remediation/Token/RoundTrip.antt =====
-- The base64 of src/paic/remediation/approval.py reads back what it writes, and accepts one text
-- for each sequence of bytes.
use Prim.Native.Nat.{◌/◌, ◌%◌}
use probabilistic_ai_inciden.Base.{
  ℕ, ◌+◌, ◌*◌, ◌<◌, ◌≡◌, ◌≢◌, ◌↔◌, subst, refl, ap, sym, ◌∙◌, true, some, List, [], ◌∷◌, inl, inr,
  arith, All, Bool-cases, Option-cases, nat_beq, nat_beq_iff, &&_true, &&_intro,
}
use probabilistic_ai_inciden.Remediation.Token.Base64.{
  to_char, of_char, b64encode, decode, same_bytes, b64decode,
}

-- Bytes are below 256.
abbrev pub AreBytes : List ℕ → Type 0
AreBytes = All (λ b. b < 256)

of_char-to_char : (n : ℕ) → n < 64 → of_char (to_char n) ≡ some n
unfolding of_char to_char
of_char-to_char n h = ground arith

pub to_char-ne-dot : (n : ℕ) → to_char n ≢ b'.'
unfolding to_char
to_char-ne-dot n h = ground arith

decode_two :
    (i j : ℕ) → i < 64 → j < 64 → decode (to_char i ∷ to_char j ∷ []) ≡ some ((i * 4 + j / 16) ∷ [])
unfolding decode
decode_two i j hi hj = rw (of_char-to_char i hi, of_char-to_char j hj, decode)

decode_three :
    (i j k : ℕ)
    → i < 64
    → j < 64
    → k < 64
    → decode (to_char i ∷ to_char j ∷ to_char k ∷ [])
      ≡ some ((i * 4 + j / 16) ∷ (j % 16 * 16 + k / 4) ∷ [])
unfolding decode
decode_three i j k hi hj hk =
    rw (of_char-to_char i hi, of_char-to_char j hj, of_char-to_char k hk, decode)

decode_four :
    (i j k l : ℕ) (rest bytes : List ℕ)
    → i < 64
    → j < 64
    → k < 64
    → l < 64
    → decode rest ≡ some bytes
    → decode (to_char i ∷ to_char j ∷ to_char k ∷ to_char l ∷ rest)
      ≡ some ((i * 4 + j / 16) ∷ (j % 16 * 16 + k / 4) ∷ (k % 4 * 64 + l) ∷ bytes)
unfolding decode
decode_four i j k l rest bytes hi hj hk hl h = rw (
  of_char-to_char i hi,
  of_char-to_char j hj,
  of_char-to_char k hk,
  of_char-to_char l hl,
  h,
  decode,
)

first_byte : (a b : ℕ) → b < 16 → a / 4 * 4 + (a % 4 * 16 + b) / 16 ≡ a
first_byte a b k = omega arith

second_byte : (a b c : ℕ) → b < 256 → c < 4 → (a * 16 + b / 16) % 16 * 16 + (b % 16 * 4 + c) / 4 ≡ b
second_byte a b c h k = omega arith

third_byte : (b c : ℕ) → c < 256 → (b * 4 + c / 64) % 4 * 64 + c % 64 ≡ c
third_byte b c h = omega arith

decode-b64encode : (xs : List ℕ) → AreBytes xs → decode (b64encode xs) ≡ some xs
unfolding b64encode
decode-b64encode [] h = unfold decode in refl
decode-b64encode (a ∷ []) h =
    decode_two (a / 4) (a % 4 * 16) (omega (arith, h.0)) (omega arith)
    ∙ (λ i. some (last_byte i ∷ []))
  where
    last_byte : a / 4 * 4 + a % 4 * 16 / 16 ≡ a
    last_byte = omega arith
decode-b64encode (a ∷ b ∷ []) h =
    decode_three (a / 4) (a % 4 * 16 + b / 16) (b % 16 * 4) (omega (arith, h.0))
      (omega (arith, h.1.0)) (omega arith)
    ∙ (λ i. some (first_byte a (b / 16) (omega (arith, h.1.0)) i ∷ last_byte i ∷ []))
  where
    last_byte : (a % 4 * 16 + b / 16) % 16 * 16 + b % 16 * 4 / 4 ≡ b
    last_byte = omega (arith, h.1.0)
decode-b64encode (a ∷ b ∷ c ∷ rest) h =
    decode_four (a / 4) (a % 4 * 16 + b / 16) (b % 16 * 4 + c / 64) (c % 64) (b64encode rest) rest
      (omega (arith, h.0)) (omega (arith, h.1.0)) (omega (arith, h.1.1.0)) (omega arith)
      (decode-b64encode rest h.1.1.1)
    ∙ (λ i. some (
        first_byte a (b / 16) (omega (arith, h.1.0)) i
        ∷ second_byte (a % 4) b (c / 64) h.1.0 (omega (arith, h.1.1.0)) i
        ∷ third_byte (b % 16) c h.1.1.0 i
        ∷ rest))

same_bytes_refl : (xs : List ℕ) → same_bytes xs xs ≡ true
unfolding same_bytes
same_bytes_refl [] = refl
same_bytes_refl (x ∷ xs) = &&_intro ((nat_beq_iff x x).1 refl) (same_bytes_refl xs)

same_bytes-eq : (xs ys : List ℕ) → same_bytes xs ys ≡ true → xs ≡ ys
unfolding same_bytes
same_bytes-eq [] [] h = refl
same_bytes-eq [] (y ∷ ys) h = cc
same_bytes-eq (x ∷ xs) [] h = cc
same_bytes-eq (x ∷ xs) (y ∷ ys) h =
    let (e, rest) = &&_true (nat_beq x y) _ h in
    λ i. (nat_beq_iff x y).0 e i ∷ same_bytes-eq xs ys rest i

pub b64decode-b64encode : (xs : List ℕ) → AreBytes xs → b64decode (b64encode xs) ≡ some xs
unfolding b64decode
b64decode-b64encode xs h = rw (decode-b64encode xs h, same_bytes_refl (b64encode xs), b64decode)

pub b64encode-b64decode :
    (value bytes : List ℕ) → b64decode value ≡ some bytes → b64encode bytes ≡ value
unfolding b64decode
b64encode-b64decode value bytes h = elim (Option-cases (decode value)) [
  | inl e ↦ absurd (cc (rw (e, b64decode) at h))
  | inr (decoded, e) ↦ elim (Bool-cases (same_bytes (b64encode decoded) value)) [
    | inr f ↦ absurd (cc (rw (e, f, b64decode) at h))
    | inl t ↦
        let same : some decoded ≡ some bytes = rw (e, t, b64decode) at h in
        let d : decoded ≡ bytes = cc in
        ap b64encode (sym d) ∙ same_bytes-eq (b64encode decoded) value t
  ]
]

-- A text decodes to bytes exactly when it is their encoding: decoding what was encoded gives the
-- bytes back, and no two texts decode to the same bytes.
pub b64decode_iff :
    (value bytes : List ℕ)
    → AreBytes bytes
    → (b64decode value ≡ some bytes) ↔ (b64encode bytes ≡ value)
b64decode_iff value bytes h = (
  b64encode-b64decode value bytes,
  λ e. subst (λ v. b64decode v ≡ some bytes) e (b64decode-b64encode bytes h),
)

abbrev pub NoDot : List ℕ → Type 0
NoDot = All (λ c. c ≢ b'.')

pub b64encode-NoDot : (xs : List ℕ) → NoDot (b64encode xs)
unfolding b64encode
b64encode-NoDot [] = tt
b64encode-NoDot (a ∷ []) = (to_char-ne-dot _, (to_char-ne-dot _, tt))
b64encode-NoDot (a ∷ b ∷ []) = (to_char-ne-dot _, (to_char-ne-dot _, (to_char-ne-dot _, tt)))
b64encode-NoDot (a ∷ b ∷ c ∷ rest) = (
  to_char-ne-dot _,
  (to_char-ne-dot _, (to_char-ne-dot _, (to_char-ne-dot _, b64encode-NoDot rest))),
)
