-- ===== src/Prelude/Int.antt =====
-- Signed integers over the native numbers, under the library's names.
use Prim.Native.Nat.{ℕ, zero, suc, ◌+◌, ◌-◌, ◌%◌, compare, Ordering}
use mathlib.Core.Bool.{Bool, true, false}

-- `negsuc n` is -(n + 1).
pub data ℤ : Type 0 where
  pos : ℕ → ℤ
  negsuc : ℕ → ℤ

-- `-n`
abbrev pub neg : ℕ → ℤ
neg zero = pos 0
neg (suc n) = negsuc n

abbrev pub eqb_ℤ : ℤ → ℤ → Bool
eqb_ℤ (pos a) (pos b) = elim (compare a b) [ Ordering.eq ↦ true | _ ↦ false ]
eqb_ℤ (negsuc a) (negsuc b) = elim (compare a b) [ Ordering.eq ↦ true | _ ↦ false ]
eqb_ℤ _ _ = false

-- `a < b`
abbrev pub ltb_ℤ : ℤ → ℤ → Bool
ltb_ℤ (pos a) (pos b) = elim (compare a b) [ Ordering.lt ↦ true | _ ↦ false ]
ltb_ℤ (pos a) (negsuc b) = false
ltb_ℤ (negsuc a) (pos b) = true
ltb_ℤ (negsuc a) (negsuc b) = elim (compare b a) [ Ordering.lt ↦ true | _ ↦ false ]

-- `a - b` on the native numbers
abbrev pub sub_ℕ : ℕ → ℕ → ℤ
sub_ℕ a b = elim (compare a b) [ Ordering.lt ↦ negsuc (b - a - 1) | _ ↦ pos (a - b) ]

infixl 60 ◌+ℤ◌
abbrev pub ◌+ℤ◌ : ℤ → ℤ → ℤ
pos a +ℤ pos b = pos (a + b)
pos a +ℤ negsuc b = sub_ℕ a (suc b)
negsuc a +ℤ pos b = sub_ℕ b (suc a)
negsuc a +ℤ negsuc b = negsuc (suc (a + b))

-- the remainder of C, which has the sign of the dividend
infixl 70 ◌%ℤ◌
abbrev pub ◌%ℤ◌ : ℤ → ℕ → ℤ
pos a %ℤ n = pos (a % n)
negsuc a %ℤ n = neg (suc a % n)
