-- ===== src/Prelude/Int.antt =====
-- Go's signed `int`, as an unbounded integer over the native numbers.
use Prim.Native.Nat.{ℕ, suc, ◌+◌, ◌-◌, ◌≤◌}
use mathlib.Core.Path.{◌≡◌, ap}
use mathlib.Core.Bool.{Bool}
use native.Mathlib.Decide.{ℕ_discrete}
use nexa_flow.Prelude.Tests.{ltb, leb, if◌then◌else◌}
use nexa_flow.Prelude.Equality.{Eq}

-- `negsuc n` is -(n + 1).
pub data ℤ : Type 0 where
  pos : ℕ → ℤ
  negsuc : ℕ → ℤ

abbrev pub pos_part : ℤ → ℕ
pos_part (pos n) = n
pos_part (negsuc n) = 0

abbrev pub neg_part : ℤ → ℕ
neg_part (pos n) = 0
neg_part (negsuc n) = suc n

pub negsuc_injective : {a b : ℕ} → negsuc a ≡ negsuc b → a ≡ b
negsuc_injective p = cc

unfoldable pub ℤ_discrete : (a b : ℤ) → Dec (a ≡ b)
ℤ_discrete (pos a) (pos b) = elim (ℕ_discrete a b) [
  | yes e ↦ yes (ap pos e)
  | no h ↦ no (λ p. h (ap pos_part p))
]
ℤ_discrete (negsuc a) (negsuc b) = elim (ℕ_discrete a b) [
  | yes e ↦ yes (ap negsuc e)
  | no h ↦ no (λ p. h (negsuc_injective p))
]
ℤ_discrete (pos a) (negsuc b) = no (λ p. cc)
ℤ_discrete (negsuc a) (pos b) = no (λ p. cc)

instance abbrev pub int_eq : Eq ℤ
int_eq = record { dec = ℤ_discrete }

abbrev pub sub_ℕ : ℕ → ℕ → ℤ
sub_ℕ a b = if leb b a then pos (a - b) else negsuc (b - a - 1)

infixl 65 ◌+ℤ◌ ◌-ℤ◌
infix 50 ◌≤ℤ◌
abbrev pub ◌+ℤ◌ : ℤ → ℤ → ℤ
a +ℤ b = sub_ℕ (pos_part a + pos_part b) (neg_part a + neg_part b)

abbrev pub ◌-ℤ◌ : ℤ → ℤ → ℤ
a -ℤ b = sub_ℕ (pos_part a + neg_part b) (neg_part a + pos_part b)

abbrev pub ◌≤ℤ◌ : ℤ → ℤ → Type 0
a ≤ℤ b = pos_part a + neg_part b ≤ pos_part b + neg_part a

abbrev pub ltb_ℤ : ℤ → ℤ → Bool
ltb_ℤ a b = ltb (pos_part a + neg_part b) (pos_part b + neg_part a)
