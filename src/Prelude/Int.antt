-- ===== src/Prelude/Int.antt =====
-- Signed integers over the native numbers: `negsuc n` is -(n + 1).
use gtproxy.Prelude.Tests.{ltb, leb, ◌==◌, if◌then◌else◌}
use Prim.Native.Nat.{ℕ, suc, ◌+◌, ◌-◌, ◌^◌}
use mathlib.Core.Bool.{Bool, true, false}
use mathlib.Core.Path.{◌≡◌}
use mathlib.Core.Logic.{◌↔◌}
use native.Mathlib.Omega.{arith}

pub data ℤ : Type 0 where
  pos : ℕ → ℤ
  negsuc : ℕ → ℤ

abbrev pos_part : ℤ → ℕ
pos_part (pos n) = n
pos_part (negsuc n) = 0

abbrev neg_part : ℤ → ℕ
neg_part (pos n) = 0
neg_part (negsuc n) = suc n

-- a - b, as an integer.
abbrev sub_ℕ : ℕ → ℕ → ℤ
sub_ℕ a b = if leb b a then pos (a - b) else negsuc (b - a - 1)

infixl 65 ◌+ℤ◌ ◌-ℤ◌
unfoldable ◌+ℤ◌ : ℤ → ℤ → ℤ
a +ℤ b = sub_ℕ (pos_part a + pos_part b) (neg_part a + neg_part b)

unfoldable pub ◌-ℤ◌ : ℤ → ℤ → ℤ
a -ℤ b = sub_ℕ (pos_part a + neg_part b) (neg_part a + pos_part b)

-- The integer that a word of 32 bits stands for as an int32_t, and back.
abbrev signed32 : ℕ → ℤ
signed32 w = if ltb w (2 ^ 31) then pos w else negsuc (2 ^ 32 - w - 1)

unfoldable pub int_eq : ℤ → ℤ → Bool
int_eq (pos a) (pos b) = a == b
int_eq (negsuc a) (negsuc b) = a == b
int_eq _ _ = false

pub int_eq_iff : (a b : ℤ) → (int_eq a b ≡ true) ↔ (a ≡ b)
unfolding int_eq
int_eq_iff (pos a) (pos b) = ground arith
int_eq_iff (negsuc a) (negsuc b) = ground arith
int_eq_iff _ _ = ground arith

-- a > b
unfoldable pub int_gt : ℤ → ℤ → Bool
int_gt (pos a) (pos b) = ltb b a
int_gt (pos a) (negsuc b) = true
int_gt (negsuc a) (pos b) = false
int_gt (negsuc a) (negsuc b) = ltb a b

-- a > b and c ≥ a give c > b.
pub int_gt_chain : (a b c : ℤ) → int_gt a b ≡ true → int_gt a c ≡ false → int_gt c b ≡ true
unfolding int_gt
int_gt_chain (pos a) (pos b) (pos c) = ground arith
int_gt_chain (pos a) (pos b) (negsuc c) = ground arith
int_gt_chain (pos a) (negsuc b) (pos c) = ground arith
int_gt_chain (pos a) (negsuc b) (negsuc c) = ground arith
int_gt_chain (negsuc a) (pos b) c = ground arith
int_gt_chain (negsuc a) (negsuc b) (pos c) = ground arith
int_gt_chain (negsuc a) (negsuc b) (negsuc c) = ground arith

pub int_gt_asym : (a b : ℤ) → int_gt a b ≡ true → int_gt b a ≡ false
unfolding int_gt
int_gt_asym (pos a) (pos b) = ground arith
int_gt_asym (pos a) (negsuc b) = ground arith
int_gt_asym (negsuc a) (pos b) = ground arith
int_gt_asym (negsuc a) (negsuc b) = ground arith
