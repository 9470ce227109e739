-- ===== src/Base/Results.antt =====
-- Code that returns a value or raises: the error carries the exception.
use mathlib.Core.Path.{◌≡◌, refl, ap}
use mathlib.Core.Logic.{◌⊎◌, inl, inr}
use mathlib.Core.Bool.{Bool, true, false}
use mathlib.Core.Option.{Option, none, some}

pub data Result {ℓ} (E : Type ℓ) (A : Type ℓ) : Type ℓ where
  ok : A → Result E A
  err : E → Result E A

infixl 5 ◌>>=◌ ◌>>◌
-- `if b: raise e`
abbrev pub reject_if {ℓ} : {E : Type ℓ} → Bool → E → Result E (Unit {ℓ})
reject_if true e = err e
reject_if false e = ok tt

-- `if o is None: raise e`
abbrev pub or_raise {ℓ} : {E A : Type ℓ} → Option A → E → Result E A
or_raise none e = err e
or_raise (some a) e = ok a

-- Code that goes on with the value, or without one.
abbrev pub ◌>>=◌ {κ} : {X S T : Type κ} → Result X S → (S → Result X T) → Result X T
err x >>= next = err x
ok v >>= next = next v

abbrev pub ◌>>◌ {κ} : {X T : Type κ} → Result X (Unit {κ}) → Result X T → Result X T
first >> next = first >>= λ _. next

abbrev value_of {ℓ} : {E A : Type ℓ} → A → Result E A → A
value_of d (ok a) = a
value_of d (err e) = d

pub ok-injective {ℓ} : {E A : Type ℓ} {a b : A} → ◌≡◌ {A = Result E A} (ok a) (ok b) → a ≡ b
ok-injective {a} h = ap (value_of a) h

module _ {ℓ} {E A B : Type ℓ} where
  -- Code that returned went past each of its steps.
  pub >>=-eq-ok :
      (first : Result E A) (next : A → Result E B) {r : B}
      → (first >>= next) ≡ ok r
      → (v : A) × (first ≡ ok v) × (next v ≡ ok r)
  >>=-eq-ok (err e) next returned = cc
  >>=-eq-ok (ok v) next returned = (v, refl, returned)

  pub or_raise-eq-ok :
      (o : Option A) (e : E) (f : A → Result E B) {b : B}
      → (or_raise o e >>= f) ≡ ok b
      → (a : A) × (o ≡ some a) × (f a ≡ ok b)
  or_raise-eq-ok none e f h = cc
  or_raise-eq-ok (some a) e f h = (a, refl, h)

module _ {ℓ} {E B : Type ℓ} where
  pub reject_if-eq-ok :
      (b : Bool) (e : E) (k : Result E B) {r : B}
      → (reject_if b e >> k) ≡ ok r
      → (b ≡ false) × (k ≡ ok r)
  reject_if-eq-ok true e k h = cc
  reject_if-eq-ok false e k h = (refl, h)

  pub reject_if-false :
      (b : Bool) (e : E) (k : Result E B) {r : Result E B}
      → b ≡ false
      → k ≡ r
      → (reject_if b e >> k) ≡ r
  reject_if-false true e k h q = cc
  reject_if-false false e k h q = q

-- The error of a step whose exception the caller converts.
abbrev pub map_err {ℓ} : {E F A : Type ℓ} → (E → F) → Result E A → Result F A
map_err f (ok a) = ok a
map_err f (err e) = err (f e)

module _ {ℓ} {E A B C : Type ℓ} where
  pub >>=_assoc :
      (m : Result E A) (f : A → Result E B) (g : B → Result E C)
      → ((m >>= f) >>= g) ≡ (m >>= λ a. f a >>= g)
  >>=_assoc (ok a) f g = refl
  >>=_assoc (err e) f g = refl

-- A conversion of errors keeps what was returned.
pub map_err-eq-ok {ℓ} :
    {E F A : Type ℓ} (convert : E → F) (m : Result E A) {a : A}
    → map_err convert m ≡ ok a
    → m ≡ ok a
map_err-eq-ok convert (ok v) h = ap ok (ok-injective h)
map_err-eq-ok convert (err e) h = cc

-- To split on what code returns or raises, and keep the equation.
pub Result-cases {ℓ} :
    {E A : Type ℓ} (m : Result E A) → ((a : A) × (m ≡ ok a)) ⊎ ((e : E) × (m ≡ err e))
Result-cases (ok a) = inl (a, refl)
Result-cases (err e) = inr (e, refl)
