-- ===== src/Prelude/Int.antt =====
-- Signed integers over the native numbers, and `i64` arithmetic that panics when it overflows.
use Prim.Native.Nat.{ℕ, suc, ◌+◌, ◌-◌, ◌*◌, ◌/◌, ◌^◌, ◌≤◌, ◌<◌}
use mathlib.Core.Path.{◌≡◌}
use native.Mathlib.Omega.{arith}
use native.Mathlib.Nat.{div-le_self}
use mathlib.Core.Bool.{◌&&◌}
use cratetorrent.Prelude.Tests.{ltb, leb, ◌==◌, if◌then◌else◌}
use cratetorrent.Prelude.Panic.{Checked, ret, panic}

-- `negsuc n` is -(n + 1).
pub data ℤ : Type 0 where
  pos : ℕ → ℤ
  negsuc : ℕ → ℤ

abbrev pub pos_part : ℤ → ℕ
pos_part (pos n) = n
pos_part (negsuc n) = 0

abbrev pub neg_part : ℤ → ℕ
neg_part (pos n) = 0
neg_part (negsuc n) = suc n

-- a - b, as an integer.
abbrev pub sub_ℕ : ℕ → ℕ → ℤ
sub_ℕ a b = if leb b a then pos (a - b) else negsuc (b - a - 1)

-- A result that must fit in an `i64`.
unfoldable pub int64 : ℤ → Checked ℤ
int64 x = if ltb (pos_part x) (2 ^ 63) && leb (neg_part x) (2 ^ 63) then ret x else panic

unfoldable pub add_i64 : ℤ → ℤ → Checked ℤ
unfolding int64
add_i64 a b = int64 (sub_ℕ (pos_part a + pos_part b) (neg_part a + neg_part b))

unfoldable pub sub_i64 : ℤ → ℤ → Checked ℤ
unfolding int64
sub_i64 a b = int64 (sub_ℕ (pos_part a + neg_part b) (neg_part a + pos_part b))

-- By a number that is not negative.
unfoldable pub mul_i64 : ℤ → ℕ → Checked ℤ
unfolding int64
mul_i64 a n = int64 (sub_ℕ (pos_part a * n) (neg_part a * n))

-- By a number that is not negative; the quotient is rounded toward 0.
unfoldable pub div_i64 : ℤ → ℕ → Checked ℤ
unfolding int64
div_i64 a n = if n == 0 then panic else int64 (sub_ℕ (pos_part a / n) (neg_part a / n))

unfoldable pub abs_i64 : ℤ → Checked ℤ
unfolding int64
abs_i64 a = int64 (pos (pos_part a + neg_part a))

div_zero : (n : ℕ) → 0 / n ≡ 0
div_zero n = grind arith

zero_mul : (n : ℕ) → 0 * n ≡ 0
zero_mul n = omega arith

-- The operations where the result is a value of the type.
pub sub_i64-pos : (a b : ℕ) → b ≤ a → a < 2 ^ 63 → sub_i64 (pos a) (pos b) ≡ ret (pos (a - b))
unfolding sub_i64
sub_i64-pos a b h k = ground arith

pub sub_i64-negsuc :
    (a b : ℕ) → a < b → b < 2 ^ 63 → sub_i64 (pos a) (pos b) ≡ ret (negsuc (b - a - 1))
unfolding sub_i64
sub_i64-negsuc a b h k = ground arith

pub div_i64-pos : (a n : ℕ) → 0 < n → a < 2 ^ 63 → div_i64 (pos a) n ≡ ret (pos (a / n))
unfolding div_i64
div_i64-pos a n h k = let l = div-le_self a n in let z = div_zero n in ground arith

pub div_i64-negsuc :
    (a n : ℕ) → 0 < n → a < 2 ^ 63 → div_i64 (negsuc a) n ≡ ret (sub_ℕ 0 (suc a / n))
unfolding div_i64
div_i64-negsuc a n h k = let l = div-le_self (suc a) n in let z = div_zero n in ground arith

pub add_i64-pos : (a b : ℕ) → a + b < 2 ^ 63 → add_i64 (pos a) (pos b) ≡ ret (pos (a + b))
unfolding add_i64
add_i64-pos a b h = ground arith

pub add_i64-sub : (a k : ℕ) → k ≤ a → a < 2 ^ 63 → add_i64 (pos a) (sub_ℕ 0 k) ≡ ret (pos (a - k))
unfolding add_i64
add_i64-sub a k h l = ground arith

pub mul_i64-pos : (a n : ℕ) → a * n < 2 ^ 63 → mul_i64 (pos a) n ≡ ret (pos (a * n))
unfolding mul_i64
mul_i64-pos a n h = let z = zero_mul n in ground arith

pub abs_i64-pos : (a : ℕ) → a < 2 ^ 63 → abs_i64 (pos a) ≡ ret (pos a)
unfolding abs_i64
abs_i64-pos a h = ground arith

pub abs_i64-negsuc : (a : ℕ) → suc a < 2 ^ 63 → abs_i64 (negsuc a) ≡ ret (pos (suc a))
unfolding abs_i64
abs_i64-negsuc a h = ground arith
