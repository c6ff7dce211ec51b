-- ===== src/Prelude/Int.antt =====
-- Signed integers over the native numbers, with Rust's division and casts.
use Prim.Native.Nat.{ℕ, suc, ◌≤◌, ◌<◌, ◌+◌, ◌-◌, ◌*◌, ◌/◌, ◌%◌, ◌^◌}
use mathlib.Core.Path.{◌≡◌, ap}
use mathlib.Core.Bool.{Bool, true, false}
use native.Mathlib.Omega.{arith}
use stardelt_nova.Prelude.Tests.{leb, ltb, if◌then◌else◌}

-- `negsuc n` is -(n + 1).
pub data ℤ : Type 0 where
  pos : ℕ → ℤ
  negsuc : ℕ → ℤ

abbrev pub pos_part : ℤ → ℕ
pos_part (pos n) = n
pos_part (negsuc n) = 0

abbrev pub neg_part : ℤ → ℕ
neg_part (pos n) = 0
neg_part (negsuc n) = suc n

-- The difference of two numbers.
abbrev pub sub_ℕ : ℕ → ℕ → ℤ
sub_ℕ a b = if leb b a then pos (a - b) else negsuc (b - a - 1)

infixl 65 ◌+ℤ◌ ◌-ℤ◌
infixl 70 ◌*ℤ◌
unfoldable pub ◌+ℤ◌ : ℤ → ℤ → ℤ
a +ℤ b = sub_ℕ (pos_part a + pos_part b) (neg_part a + neg_part b)

unfoldable pub ◌-ℤ◌ : ℤ → ℤ → ℤ
a -ℤ b = sub_ℕ (pos_part a + neg_part b) (neg_part a + pos_part b)

unfoldable pub ◌*ℤ◌ : ℤ → ℕ → ℤ
a *ℤ k = sub_ℕ (pos_part a * k) (neg_part a * k)

-- `a / k` for `k > 0`, which rounds towards zero.
unfoldable pub tdiv : ℤ → ℕ → ℤ
tdiv a k = sub_ℕ (pos_part a / k) (neg_part a / k)

-- `div_euclid` and `rem_euclid` by `k > 0`.
unfoldable pub div_euclid : ℤ → ℕ → ℤ
div_euclid (pos n) k = pos (n / k)
div_euclid (negsuc n) k = negsuc (n / k)

unfoldable pub rem_euclid : ℤ → ℕ → ℕ
rem_euclid (pos n) k = n % k
rem_euclid (negsuc n) k = k - 1 - n % k

-- `a as u64`.
unfoldable pub as_u64 : ℤ → ℕ
as_u64 (pos n) = n % 2 ^ 64
as_u64 (negsuc n) = 2 ^ 64 - 1 - n % 2 ^ 64

-- The i64 that the lowest 64 bits of an integer make.
unfoldable pub as_i64 : ℤ → ℤ
unfolding as_u64
as_i64 a = let u = as_u64 a in if ltb u (2 ^ 63) then pos u else negsuc (2 ^ 64 - 1 - u)

-- `a + b`, `a - b` and `a * k` on i64, which wrap.
unfoldable pub add64 : ℤ → ℤ → ℤ
unfolding ◌+ℤ◌ as_i64
add64 a b = as_i64 (a +ℤ b)

unfoldable pub sub64 : ℤ → ℤ → ℤ
unfolding ◌-ℤ◌ as_i64
sub64 a b = as_i64 (a -ℤ b)

unfoldable pub mul64 : ℤ → ℕ → ℤ
unfolding ◌*ℤ◌ as_i64
mul64 a k = as_i64 (a *ℤ k)

abbrev pub is_negative : ℤ → Bool
is_negative (pos n) = false
is_negative (negsuc n) = true

-- The two parts tell an integer, and one of them is zero.
pub eq_of_parts : (a b : ℤ) → pos_part a + neg_part b ≡ pos_part b + neg_part a → a ≡ b
eq_of_parts (pos m) (pos n) h = ap pos (omega arith)
eq_of_parts (pos m) (negsuc n) h = absurd (omega arith)
eq_of_parts (negsuc m) (pos n) h = absurd (omega arith)
eq_of_parts (negsuc m) (negsuc n) h = ap negsuc (omega arith)

pub sub_ℕ-parts : (a b : ℕ) → pos_part (sub_ℕ a b) + b ≡ neg_part (sub_ℕ a b) + a
sub_ℕ-parts a b = ground arith

pub +ℤ-parts :
    (a b : ℤ)
    → pos_part (a +ℤ b) + (neg_part a + neg_part b) ≡ neg_part (a +ℤ b) + (pos_part a + pos_part b)
unfolding ◌+ℤ◌
+ℤ-parts a b = sub_ℕ-parts (pos_part a + pos_part b) (neg_part a + neg_part b)

pub -ℤ-parts :
    (a b : ℤ)
    → pos_part (a -ℤ b) + (neg_part a + pos_part b) ≡ neg_part (a -ℤ b) + (pos_part a + neg_part b)
unfolding ◌-ℤ◌
-ℤ-parts a b = sub_ℕ-parts (pos_part a + neg_part b) (neg_part a + pos_part b)

pub *ℤ-parts :
    (a : ℤ) (k : ℕ) → pos_part (a *ℤ k) + neg_part a * k ≡ neg_part (a *ℤ k) + pos_part a * k
unfolding ◌*ℤ◌
*ℤ-parts a k = sub_ℕ-parts (pos_part a * k) (neg_part a * k)

pub as_i64_fits : (a : ℤ) → pos_part a < 2 ^ 63 → neg_part a ≤ 2 ^ 63 → as_i64 a ≡ a
unfolding as_i64
as_i64_fits (pos n) h k = ground arith
as_i64_fits (negsuc n) h k = ground arith

pub sub_ℕ_le : (a b : ℕ) → (pos_part (sub_ℕ a b) ≤ a) × (neg_part (sub_ℕ a b) ≤ b)
sub_ℕ_le a b = ground arith

-- No operation wraps whose parts are small.
pub add64_fits :
    (a b : ℤ)
    → pos_part a + pos_part b < 2 ^ 63
    → neg_part a + neg_part b ≤ 2 ^ 63
    → add64 a b ≡ a +ℤ b
unfolding add64
add64_fits a b h k =
    let (low, high) = sub_ℕ_le (pos_part a + pos_part b) (neg_part a + neg_part b) in
    as_i64_fits (a +ℤ b) (omega arith) (omega arith)

pub sub64_fits :
    (a b : ℤ)
    → pos_part a + neg_part b < 2 ^ 63
    → neg_part a + pos_part b ≤ 2 ^ 63
    → sub64 a b ≡ a -ℤ b
unfolding sub64
sub64_fits a b h k =
    let (low, high) = sub_ℕ_le (pos_part a + neg_part b) (neg_part a + pos_part b) in
    as_i64_fits (a -ℤ b) (omega arith) (omega arith)

pub mul64_fits :
    (a : ℤ) (k : ℕ) → pos_part a * k < 2 ^ 63 → neg_part a * k ≤ 2 ^ 63 → mul64 a k ≡ a *ℤ k
unfolding mul64
mul64_fits a k h j =
    let (low, high) = sub_ℕ_le (pos_part a * k) (neg_part a * k) in
    as_i64_fits (a *ℤ k) (omega arith) (omega arith)
