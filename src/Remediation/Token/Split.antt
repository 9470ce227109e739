-- ===== src/Remediation/Token/Split.antt =====
-- The text of a token of src/paic/remediation/approval.py: two parts around one dot.
use probabilistic_ai_inciden.Base.{
  ℕ, ◌≡◌, ◌≢◌, refl, ap, sym, ◌∙◌, Bool, true, false, some, List, [], ◌∷◌, ◌++◌, inl, inr, nat_beq,
  nat_beq_iff, string_eq, Bool-cases,
}
use probabilistic_ai_inciden.Remediation.Models.Plan.{standing_eq, texts_eq}
use probabilistic_ai_inciden.Remediation.Token.{bytes_eq, prepend, split_dot, two_parts}
use probabilistic_ai_inciden.Remediation.Token.Base64.{b64encode}
use probabilistic_ai_inciden.Remediation.Token.RoundTrip.{NoDot, b64encode-NoDot}

not_dot : (c : ℕ) → c ≢ b'.' → nat_beq c b'.' ≡ false
not_dot c n = elim (Bool-cases (nat_beq c b'.')) [
  | inl t ↦ absurd (n ((nat_beq_iff c b'.').0 t))
  | inr f ↦ f
]

split_dot-NoDot : (xs : List ℕ) → NoDot xs → split_dot xs ≡ xs ∷ []
unfolding split_dot prepend
split_dot-NoDot [] h = refl
split_dot-NoDot (x ∷ xs) h = rw (not_dot x h.0, split_dot-NoDot xs h.1)

split_dot-append :
    (xs ys : List ℕ) → NoDot xs → NoDot ys → split_dot (xs ++ (b'.' ∷ ys)) ≡ xs ∷ ys ∷ []
unfolding split_dot prepend
split_dot-append [] ys h k = rw (split_dot-NoDot ys k)
split_dot-append (x ∷ xs) ys h k = rw (not_dot x h.0, split_dot-append xs ys h.1 k)

-- The text of a token: a payload and its signature.
abbrev pub token_text : List ℕ → List ℕ → List ℕ
token_text payload signature = b64encode payload ++ (b'.' ∷ b64encode signature)

pub split_token :
    (payload signature : List ℕ)
    → two_parts (split_dot (token_text payload signature))
      ≡ some (b64encode payload, b64encode signature)
unfolding two_parts
split_token payload signature = rw (
    split_dot-append (b64encode payload) (b64encode signature) (b64encode-NoDot payload)
      (b64encode-NoDot signature))

-- The text of some parts, with a dot between each two.
abbrev pub joined : List (List ℕ) → List ℕ
joined [] = []
joined (p ∷ []) = p
joined (p ∷ q ∷ rest) = p ++ (b'.' ∷ joined (q ∷ rest))

joined-prepend :
    (c : ℕ) (p : List ℕ) (ps : List (List ℕ))
    → joined (prepend (nat_beq c b'.') c (p ∷ ps)) ≡ c ∷ joined (p ∷ ps)
unfolding prepend
joined-prepend c p ps = elim (Bool-cases (nat_beq c b'.')) [
  | inl t ↦ rw t (λ i. sym ((nat_beq_iff c b'.').0 t) i ∷ joined (p ∷ ps))
  | inr f ↦ rw f (kept ps)
]
  where
    kept : (rest : List (List ℕ)) → joined ((c ∷ p) ∷ rest) ≡ c ∷ joined (p ∷ rest)
    kept [] = refl
    kept (q ∷ rest) = refl

prepend-some :
    (flag : Bool) (c : ℕ) (parts : List (List ℕ))
    → (p : List ℕ) × (ps : List (List ℕ)) × (prepend flag c parts ≡ p ∷ ps)
unfolding prepend
prepend-some true c parts = ([], parts, refl)
prepend-some false c [] = (c ∷ [], [], refl)
prepend-some false c (p ∷ ps) = (c ∷ p, ps, refl)

split_dot-some : (t : List ℕ) → (p : List ℕ) × (ps : List (List ℕ)) × (split_dot t ≡ p ∷ ps)
unfolding split_dot
split_dot-some [] = ([], [], refl)
split_dot-some (c ∷ rest) = prepend-some (nat_beq c b'.') c (split_dot rest)

pub joined-split_dot : (t : List ℕ) → joined (split_dot t) ≡ t
unfolding split_dot
joined-split_dot [] = refl
joined-split_dot (c ∷ rest) =
    let (p, ps, e) = split_dot-some rest in
    ap (λ parts. joined (prepend (nat_beq c b'.') c parts)) e
    ∙ joined-prepend c p ps
    ∙ (λ i. c ∷ (ap joined (sym e) ∙ joined-split_dot rest) i)

pub two_parts-some :
    (parts : List (List ℕ)) (a b : List ℕ) → two_parts parts ≡ some (a, b) → parts ≡ a ∷ b ∷ []
unfolding two_parts
two_parts-some [] a b h = cc
two_parts-some (p ∷ []) a b h = cc
two_parts-some (p ∷ q ∷ []) a b h = cc
two_parts-some (p ∷ q ∷ r ∷ rest) a b h = cc
