-- ===== src/Int.antt =====
-- Integers over the native numbers, for counts that may fall below zero.
use lamp.Prelude.{ℕ, suc, ◌+◌, ◌-◌, ◌%◌, Bool, false, leb, ◌==◌, if◌then◌else◌}

-- `negsuc n` is -(n + 1)
pub data ℤ : Type 0 where
  pos : ℕ → ℤ
  negsuc : ℕ → ℤ

abbrev pub pos_part : ℤ → ℕ
pos_part (pos n) = n
pos_part (negsuc n) = 0

abbrev pub neg_part : ℤ → ℕ
neg_part (pos n) = 0
neg_part (negsuc n) = suc n

-- the difference of two natural numbers
abbrev pub sub_ℕ : ℕ → ℕ → ℤ
sub_ℕ a b = if leb b a then pos (a - b) else negsuc (b - a - 1)

infixl 65 ◌+ℤ◌
unfoldable pub ◌+ℤ◌ : ℤ → ℤ → ℤ
a +ℤ b = sub_ℕ (pos_part a + pos_part b) (neg_part a + neg_part b)

abbrev pub is_pos : ℕ → ℤ → Bool
is_pos n (pos m) = n == m
is_pos n (negsuc m) = false

-- a remainder of 0 at the division by 2
abbrev pub is_even : ℤ → Bool
is_even (pos n) = n % 2 == 0
is_even (negsuc n) = suc n % 2 == 0
