-- ===== src/Prelude/Equality.antt =====
-- Equality of keys and names as a decision, so that a test hands its branch the equation.
use Prim.Native.Nat.{ℕ}
use Prim.Native.String.{String}
use mathlib.Core.Path.{◌≡◌, refl}
use mathlib.Core.Bool.{Bool, true, false}
use native.Mathlib.Decide.{ℕ_discrete}
use text.Mathlib.Text.{◌==◌ as text_eq}
use text.Mathlib.TextEquality.{eq_iff}

decision : (s t : String) (b : Bool) → text_eq s t ≡ b → Dec (s ≡ t)
decision s t true e = yes ((eq_iff s t).0 e)
decision s t false e = no (λ p. differ ((eq_iff s t).1 p) e)
  where
    differ : {b : Bool} → b ≡ true → b ≡ false → ⊥
    differ p q = cc

unfoldable pub String_discrete : (s t : String) → Dec (s ≡ t)
unfolding decision
String_discrete s t = decision s t (text_eq s t) refl

pub record Eq {ℓ} (A : Type ℓ) : Type ℓ where
  pub dec : (a b : A) → Dec (a ≡ b)

instance abbrev pub nat_eq : Eq ℕ
nat_eq = record { dec = ℕ_discrete }

instance abbrev pub string_eq : Eq String
string_eq = record { dec = String_discrete }

abbrev pub is_yes {ℓ} : {A : Type ℓ} → Dec A → Bool
is_yes (yes _) = true
is_yes (no _) = false

infix 50 ◌==◌
abbrev pub ◌==◌ {ℓ} : {A : Type ℓ} ⦃e : Eq A⦄ → A → A → Bool
◌==◌ ⦃e⦄ a b = is_yes (e.dec a b)
