-- ===== src/Base/Discrete.antt =====
-- Equality tests that come from a decision: `a == b` on records and lists, which Python compares
-- field by field and item by item.
use Prim.Native.String.{String}
use mathlib.Core.Path.{◌≡◌, refl}
use mathlib.Core.Logic.{◌↔◌}
use mathlib.Core.Bool.{Bool, true, false, false≢true}
use text.Mathlib.Text.{◌==◌ as text_eq}
use text.Mathlib.TextEquality.{eq_iff}
use probabilistic_ai_inciden.Base.Tests.{Eq}

abbrev pub dec_of_test : {P : Type 0} (b : Bool) → (b ≡ true) ↔ P → Dec P
dec_of_test true f = yes (f.0 refl)
dec_of_test false f = no (λ p. false≢true (f.1 p))

unfoldable pub String-discrete : Discrete String
String-discrete a b = dec_of_test (text_eq a b) (eq_iff a b)

module _ {A : Type 0} where
  abbrev pub is_yes : Dec A → Bool
  is_yes (yes a) = true
  is_yes (no n) = false

  pub is_yes_iff : (d : Dec A) → (is_yes d ≡ true) ↔ A
  is_yes_iff (yes a) = ((λ _. a), (λ _. refl))
  is_yes_iff (no n) = ((λ h. cc), (λ a. absurd (n a)))

-- The equality test of a type whose equality is decided.
abbrev pub discrete_eq : {A : Type 0} → Discrete A → Eq A
discrete_eq d = record { beq = λ a b. is_yes (d a b); beq_iff = λ a b. is_yes_iff (d a b) }
