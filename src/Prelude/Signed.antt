-- ===== src/Prelude/Signed.antt =====
-- Signed integers over the native numbers, and the conversions between C++ integer types.
use Prim.Native.Nat.{ℕ, suc, ◌+◌, ◌-◌, ◌%◌, ◌^◌, ◌<◌}
use mathlib.Core.Path.{◌≡◌}
use mathlib.Core.Bool.{Bool}
use native.Mathlib.Omega.{arith}
use wirebone_cpp.Prelude.Tests.{ltb, leb, if◌then◌else◌, ◌==◌}

-- `negsuc n` is -(n + 1).
pub data ℤ : Type 0 where
  pos : ℕ → ℤ
  negsuc : ℕ → ℤ

abbrev pub pos_part : ℤ → ℕ
pos_part (pos n) = n
pos_part (negsuc n) = 0

abbrev pub neg_part : ℤ → ℕ
neg_part (pos n) = 0
neg_part (negsuc n) = suc n

abbrev pub ltb_ℤ : ℤ → ℤ → Bool
ltb_ℤ a b = ltb (pos_part a + neg_part b) (pos_part b + neg_part a)

abbrev pub is_zero_ℤ : ℤ → Bool
is_zero_ℤ a = pos_part a == neg_part a

abbrev sub_ℕ : ℕ → ℕ → ℤ
sub_ℕ a b = if leb b a then pos (a - b) else negsuc (b - a - 1)

infixl 65 ◌+ℤ◌
abbrev pub ◌+ℤ◌ : ℤ → ℤ → ℤ
a +ℤ b = sub_ℕ (pos_part a + pos_part b) (neg_part a + neg_part b)

-- `static_cast<uint32_t>` and `static_cast<uint64_t>` of a signed value.
abbrev pub to_u32 : ℤ → ℕ
to_u32 (pos n) = n % 2 ^ 32
to_u32 (negsuc n) = 2 ^ 32 - 1 - n % 2 ^ 32

abbrev pub to_u64 : ℤ → ℕ
to_u64 (pos n) = n % 2 ^ 64
to_u64 (negsuc n) = 2 ^ 64 - 1 - n % 2 ^ 64

-- `static_cast<int>`: the low 32 bits, read as a signed number.
abbrev pub to_i32 : ℤ → ℤ
to_i32 z = if ltb (to_u32 z) (2 ^ 31) then pos (to_u32 z) else negsuc (2 ^ 32 - 1 - to_u32 z)

pub to_i32-pos : (n : ℕ) → n < 2 ^ 31 → to_i32 (pos n) ≡ pos n
to_i32-pos n h = ground arith

pub to_u32-to_i32 : (z : ℤ) → to_u32 (to_i32 z) ≡ to_u32 z
to_u32-to_i32 (pos n) = ground arith
to_u32-to_i32 (negsuc n) = ground arith
