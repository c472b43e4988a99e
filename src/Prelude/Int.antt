-- ===== src/Prelude/Int.antt =====
-- Signed integers over the native numbers, and the C conversions between integer types.
use Prim.Native.Nat.{ℕ, suc, ◌+◌, ◌-◌, ◌%◌, ◌^◌, ◌≤◌, ◌<◌}
use mathlib.Core.Path.{◌≡◌, refl}
use mathlib.Core.Bool.{Bool, true}
use native.Mathlib.Omega.{arith}
use light_lua.Prelude.Tests.{ltb, leb, ◌==◌, if◌then◌else◌}

-- `negsuc n` is -(n + 1).
pub data ℤ : Type 0 where
  pos : ℕ → ℤ
  negsuc : ℕ → ℤ

abbrev pub pos_part : ℤ → ℕ
pos_part (pos n) = n
pos_part (negsuc n) = 0

abbrev pub neg_part : ℤ → ℕ
neg_part (pos n) = 0
neg_part (negsuc n) = suc n

infix 50 ◌≤ℤ◌ ◌<ℤ◌
abbrev pub ◌≤ℤ◌ : ℤ → ℤ → Type 0
a ≤ℤ b = pos_part a + neg_part b ≤ pos_part b + neg_part a

abbrev pub ◌<ℤ◌ : ℤ → ℤ → Type 0
a <ℤ b = pos_part a + neg_part b < pos_part b + neg_part a

abbrev pub ltb_ℤ : ℤ → ℤ → Bool
ltb_ℤ a b = ltb (pos_part a + neg_part b) (pos_part b + neg_part a)

abbrev pub leb_ℤ : ℤ → ℤ → Bool
leb_ℤ a b = leb (pos_part a + neg_part b) (pos_part b + neg_part a)

abbrev pub eqb_ℤ : ℤ → ℤ → Bool
eqb_ℤ a b = pos_part a + neg_part b == pos_part b + neg_part a

pub eqb_ℤ-eq : (m n : ℤ) → eqb_ℤ m n ≡ true → m ≡ n
eqb_ℤ-eq m n h = ground arith

pub eqb_ℤ-refl : (m : ℤ) → eqb_ℤ m m ≡ true
eqb_ℤ-refl m = ground arith

abbrev pub minus_one : ℤ
minus_one = negsuc 0

abbrev pub suc_ℤ : ℤ → ℤ
suc_ℤ (pos n) = pos (suc n)
suc_ℤ (negsuc n) = if n == 0 then pos 0 else negsuc (n - 1)

-- Conversion to an unsigned type keeps the value modulo 2 ^ w.
abbrev pub to_unsigned : ℕ → ℤ → ℕ
to_unsigned m (pos n) = n % m
to_unsigned m (negsuc n) = m - 1 - n % m

-- Conversion to a signed type of the pattern `n`, of modulus `m` with half modulus `h`.
abbrev pub as_signed : ℕ → ℕ → ℕ → ℤ
as_signed m h n = if ltb n h then pos n else negsuc (m - 1 - n)

-- (UInt64) x
pub to_uint64 : ℤ → ℕ
to_uint64 = to_unsigned (2 ^ 64)

-- (UInt16) x of an unsigned x
pub to_uint16 : ℕ → ℕ
to_uint16 n = n % 2 ^ 16

-- (Int32) x
pub to_int32 : ℤ → ℤ
to_int32 x = as_signed (2 ^ 32) (2 ^ 31) (to_unsigned (2 ^ 32) x)

-- (Int8) x, where `char` is signed
pub to_int8 : ℤ → ℤ
to_int8 x = as_signed (2 ^ 8) (2 ^ 7) (to_unsigned (2 ^ 8) x)

pub to_uint64-pos : (n : ℕ) → n < 2 ^ 64 → to_uint64 (pos n) ≡ n
unfolding to_uint64
to_uint64-pos n h = omega arith

pub to_uint16_lem : (n : ℕ) → to_uint16 n ≡ n % 2 ^ 16
unfolding to_uint16
to_uint16_lem n = refl

pub to_int32-small : (n : ℕ) → n < 2 ^ 31 → to_int32 (pos n) ≡ pos n
unfolding to_int32
to_int32-small n h = ground arith

pub to_int32-pos_part : (n : ℕ) → pos_part (to_int32 (pos n)) ≤ n
unfolding to_int32
to_int32-pos_part n = ground arith
