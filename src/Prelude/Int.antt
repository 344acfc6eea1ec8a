-- ===== src/Prelude/Int.antt =====
-- Signed amounts over the native numbers: `pos n` is n, `negsuc n` is -(n + 1).
use Prim.Native.Nat.{ℕ, suc, ◌+◌, ◌-◌, ◌≤◌, ◌<◌, ◌*◌}
use mathlib.Core.Path.{◌≡◌, ap}
use mathlib.Core.Bool.{Bool, true, false}
use native.Mathlib.Omega.{arith}
use strikefluency.Prelude.Tests.{ltb, leb, ◌==◌, if◌then◌else◌}

pub data ℤ : Type 0 where
  pos : ℕ → ℤ
  negsuc : ℕ → ℤ

abbrev pub pos_part : ℤ → ℕ
pos_part (pos n) = n
pos_part (negsuc n) = 0

abbrev pub neg_part : ℤ → ℕ
neg_part (pos n) = 0
neg_part (negsuc n) = suc n

-- a - b, as an integer.
abbrev pub sub_ℕ : ℕ → ℕ → ℤ
sub_ℕ a b = if leb b a then pos (a - b) else negsuc (b - a - 1)

infixl 65 ◌+ℤ◌ ◌-ℤ◌
infix 50 ◌≤ℤ◌ ◌<ℤ◌
unfoldable pub ◌+ℤ◌ : ℤ → ℤ → ℤ
a +ℤ b = sub_ℕ (pos_part a + pos_part b) (neg_part a + neg_part b)

unfoldable pub ◌-ℤ◌ : ℤ → ℤ → ℤ
a -ℤ b = sub_ℕ (pos_part a + neg_part b) (neg_part a + pos_part b)

-- The product of two integers.
infixl 70 ◌*ℤ◌
unfoldable pub ◌*ℤ◌ : ℤ → ℤ → ℤ
a *ℤ b =
    sub_ℕ (pos_part a * pos_part b + neg_part a * neg_part b)
      (pos_part a * neg_part b + neg_part a * pos_part b)

-- The negation of a number.
unfoldable pub neg : ℕ → ℤ
neg n = sub_ℕ 0 n

-- An integer times a number.
unfoldable pub scale : ℤ → ℕ → ℤ
scale a n = sub_ℕ (pos_part a * n) (neg_part a * n)

abbrev pub ◌≤ℤ◌ : ℤ → ℤ → Type 0
a ≤ℤ b = pos_part a + neg_part b ≤ pos_part b + neg_part a

abbrev pub ◌<ℤ◌ : ℤ → ℤ → Type 0
a <ℤ b = pos_part a + neg_part b < pos_part b + neg_part a

abbrev pub ltb_ℤ : ℤ → ℤ → Bool
ltb_ℤ a b = ltb (pos_part a + neg_part b) (pos_part b + neg_part a)

abbrev pub leb_ℤ : ℤ → ℤ → Bool
leb_ℤ a b = leb (pos_part a + neg_part b) (pos_part b + neg_part a)

abbrev pub eqb_ℤ : ℤ → ℤ → Bool
eqb_ℤ a b = pos_part a + neg_part b == pos_part b + neg_part a

abbrev pub larger_ℤ : ℤ → ℤ → ℤ
larger_ℤ a b = if ltb_ℤ a b then b else a

abbrev pub smaller_ℤ : ℤ → ℤ → ℤ
smaller_ℤ a b = if ltb_ℤ b a then b else a

-- With these the operations can stay shut under `omega` and `grind`.
pub +ℤ_parts :
    (a b : ℤ)
    → pos_part (a +ℤ b) + neg_part a + neg_part b ≡ neg_part (a +ℤ b) + pos_part a + pos_part b
unfolding ◌+ℤ◌
+ℤ_parts a b = ground arith

pub -ℤ_parts :
    (a b : ℤ)
    → pos_part (a -ℤ b) + neg_part a + pos_part b ≡ neg_part (a -ℤ b) + pos_part a + neg_part b
unfolding ◌-ℤ◌
-ℤ_parts a b = ground arith

pub scale_parts :
    (a : ℤ) (n : ℕ) → pos_part (scale a n) + neg_part a * n ≡ neg_part (scale a n) + pos_part a * n
unfolding scale
scale_parts a n = ground arith

pub neg_parts : (n : ℕ) → neg_part (neg n) ≡ pos_part (neg n) + n
unfolding neg
neg_parts n = ground arith

pub eq_of_parts : (a b : ℤ) → pos_part a + neg_part b ≡ pos_part b + neg_part a → a ≡ b
eq_of_parts a b h = ground arith

pub ruleset int_laws = (arith, +ℤ_parts, -ℤ_parts, neg_parts, eq_of_parts)

pub neg-ne_zero : (n : ℕ) → 0 < n → ¬ (neg n ≡ pos 0)
neg-ne_zero n h e = omega (int_laws, ap pos_part e, ap neg_part e)

pub pos-ne_zero : (n : ℕ) → 0 < n → ¬ (pos n ≡ pos 0)
pos-ne_zero n h e = omega (int_laws, ap pos_part e)

pub eqb_ℤ_iff : (a b : ℤ) → (eqb_ℤ a b ≡ true → a ≡ b) × (eqb_ℤ a b ≡ false → ¬ (a ≡ b))
eqb_ℤ_iff a b = ground arith

pub ltb_ℤ_iff : (a b : ℤ) → (ltb_ℤ a b ≡ true → a <ℤ b) × (ltb_ℤ a b ≡ false → b ≤ℤ a)
ltb_ℤ_iff a b = ground arith

-- Two debits that a balance covers together, it covers one after the other.
pub debits_covered :
    (b : ℤ) (m n : ℕ) → pos (m + n) ≤ℤ b → (pos 0 ≤ℤ b +ℤ neg m) × (pos 0 ≤ℤ b +ℤ neg m +ℤ neg n)
debits_covered b m n h = omega int_laws

*ℤ_parts :
    (a b : ℤ)
    → pos_part (a *ℤ b) + (pos_part a * neg_part b + neg_part a * pos_part b)
      ≡ neg_part (a *ℤ b) + (pos_part a * pos_part b + neg_part a * neg_part b)
unfolding ◌*ℤ◌
*ℤ_parts a b = ground arith

-- A factor that grows by one adds the other factor once.
pub *ℤ_step :
    (q x y : ℤ) → pos_part y + neg_part x ≡ suc (pos_part x + neg_part y) → q *ℤ y ≡ q *ℤ x +ℤ q
*ℤ_step q x y h = eq_of_parts _ _ (
    omega (
      arith,
      *ℤ_parts q x,
      *ℤ_parts q y,
      +ℤ_parts (q *ℤ x) q,
      ap (λ z. pos_part q * z) h,
      ap (λ z. neg_part q * z) h,
    ))
