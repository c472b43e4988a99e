-- ===== src/Prelude/Bits/Masks.antt =====
-- Setting and clearing the bits of a mask.
use Prim.Native.Nat.{ℕ, zero, suc, ◌-◌, ◌*◌, ◌/◌, ◌%◌, ◌^◌, ◌≤◌, ◌<◌, min, max, bit_and, bit_or}
use mathlib.Core.Path.{◌≡◌, refl, ◌∙◌}
use native.Mathlib.Omega.{arith}
use light_lua.Prelude.Bits.{
  bit_and_digit, bit_and_half, bit_and_parity, bit_or_half, bit_or_parity, two_to, two_to_pos,
}

bit_and_nothing : (n a : ℕ) → a ≤ n → bit_and a 0 ≡ 0
bit_and_nothing n zero h = refl
bit_and_nothing zero (suc a) h = absurd (omega arith)
bit_and_nothing (suc n) (suc a) h =
    omega (arith, bit_and_digit (suc a) 0, bit_and_nothing n (suc a / 2) (omega arith))

-- With the bits of a mask set, the mask gives itself.
set_below : (n f m : ℕ) → m ≤ n → bit_and (bit_or f m) m ≡ m
set_below n f zero h = bit_and_nothing (bit_or f 0) (bit_or f 0) (omega arith)
set_below zero f (suc m) h = absurd (omega arith)
set_below (suc n) f (suc m) h =
    let rest : bit_and (bit_or (f / 2) (suc m / 2)) (suc m / 2) ≡ suc m / 2 =
      set_below n (f / 2) (suc m / 2) (omega arith) in
    let last : min (max (f % 2) (suc m % 2)) (suc m % 2) ≡ suc m % 2 = omega arith in
    bit_and_digit (bit_or f (suc m)) (suc m)
    ∙ rw (bit_or_half f (suc m), bit_or_parity f (suc m), rest, last) (omega arith)

pub bit_and-bit_or : (f m : ℕ) → bit_and (bit_or f m) m ≡ m
bit_and-bit_or f m = set_below m f m (omega arith)

-- With the bits of a mask cleared, the mask gives nothing.
cleared_below : (n f m : ℕ) → m < two_to n → bit_and (bit_and f (two_to n - 1 - m)) m ≡ 0
unfolding two_to
cleared_below zero f zero h = bit_and_nothing (bit_and f 0) (bit_and f 0) (omega arith)
cleared_below zero f (suc m) h = absurd (omega arith)
cleared_below (suc n) f m h =
    let c = two_to n * 2 - 1 - m in
    let half : c / 2 ≡ two_to n - 1 - m / 2 = omega (arith, two_to_pos n) in
    let rest : bit_and (bit_and (f / 2) (c / 2)) (m / 2) ≡ 0 =
      rw half (cleared_below n (f / 2) (m / 2) (omega arith)) in
    let last : min (min (f % 2) (c % 2)) (m % 2) ≡ 0 = omega (arith, two_to_pos n) in
    bit_and_digit (bit_and f c) m
    ∙ rw (bit_and_half f c, bit_and_parity f c, rest, last) (omega arith)

pub bit_and-bit_and_complement : (f m : ℕ) → m < 2 ^ 32 → bit_and (bit_and f (2 ^ 32 - 1 - m)) m ≡ 0
unfolding two_to
bit_and-bit_and_complement f m h = cleared_below 32 f m h
