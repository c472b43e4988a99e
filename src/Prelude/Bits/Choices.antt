-- ===== src/Prelude/Bits/Choices.antt =====
-- The digitwise choice and the digitwise majority, each written in two ways.
use Prim.Native.Nat.{
  ℕ, zero, suc, ◌+◌, ◌*◌, ◌/◌, ◌%◌, ◌≤◌, ◌<◌, min, max, differ, bit_and, bit_or, bit_xor,
}
use mathlib.Core.Path.{◌≡◌, refl, ap₂}
use native.Mathlib.Omega.{arith}
use light_lua.Prelude.Bits.{
  bit_or_digit, bit_xor_digit, bit_and_half, bit_and_parity, bit_or_half, bit_or_parity,
  bit_xor_half, bit_xor_parity,
}

-- The bits of `z` that `x` has not.
pub without : ℕ → ℕ → ℕ
without z x = bit_xor z (bit_and z x)

-- Both sides of a bitwise equation agree if their lowest digits do, and so do the rest.
choose_digit :
    (x y z : ℕ)
    → x < 2
    → y < 2
    → z < 2
    → differ z (min x (differ y z)) ≡ max (min x y) (differ z (min z x))
choose_digit zero zero zero h k l = refl
choose_digit zero zero (suc zero) h k l = refl
choose_digit zero (suc zero) zero h k l = refl
choose_digit zero (suc zero) (suc zero) h k l = refl
choose_digit (suc zero) zero zero h k l = refl
choose_digit (suc zero) zero (suc zero) h k l = refl
choose_digit (suc zero) (suc zero) zero h k l = refl
choose_digit (suc zero) (suc zero) (suc zero) h k l = refl
choose_digit (suc (suc x)) y z h k l = absurd (omega arith)
choose_digit zero (suc (suc y)) z h k l = absurd (omega arith)
choose_digit zero zero (suc (suc z)) h k l = absurd (omega arith)
choose_digit zero (suc zero) (suc (suc z)) h k l = absurd (omega arith)
choose_digit (suc zero) (suc (suc y)) z h k l = absurd (omega arith)
choose_digit (suc zero) zero (suc (suc z)) h k l = absurd (omega arith)
choose_digit (suc zero) (suc zero) (suc (suc z)) h k l = absurd (omega arith)

majority_digit :
    (x y z : ℕ)
    → x < 2
    → y < 2
    → z < 2
    → max (min x y) (min z (max x y)) ≡ max (max (min x y) (min x z)) (min y z)
majority_digit x y z h k l = omega arith

ruleset digits_of =
    (bit_and_half, bit_and_parity, bit_or_half, bit_or_parity, bit_xor_half, bit_xor_parity)

choose_below :
    (n x y z : ℕ)
    → x ≤ n
    → y ≤ n
    → z ≤ n
    → bit_xor z (bit_and x (bit_xor y z)) ≡ bit_or (bit_and x y) (bit_xor z (bit_and z x))
choose_below zero zero zero zero h k l = refl
choose_below zero (suc x) y z h k l = absurd (omega arith)
choose_below zero zero (suc y) z h k l = absurd (omega arith)
choose_below zero zero zero (suc z) h k l = absurd (omega arith)
choose_below (suc n) x y z h k l =
    rw
      (
        bit_xor_digit z (bit_and x (bit_xor y z)),
        bit_or_digit (bit_and x y) (bit_xor z (bit_and z x)),
      )
      (simp digits_of (
        ap₂ (λ s t. s * 2 + t)
          (choose_below n (x / 2) (y / 2) (z / 2) (omega arith) (omega arith) (omega arith))
          (choose_digit (x % 2) (y % 2) (z % 2) (omega arith) (omega arith) (omega arith))))

pub choose_bits :
    (x y z : ℕ) → bit_xor z (bit_and x (bit_xor y z)) ≡ bit_or (bit_and x y) (without z x)
unfolding without
choose_bits x y z = choose_below (x + y + z) x y z (omega arith) (omega arith) (omega arith)

majority_below :
    (n x y z : ℕ)
    → x ≤ n
    → y ≤ n
    → z ≤ n
    → bit_or (bit_and x y) (bit_and z (bit_or x y))
      ≡ bit_or (bit_or (bit_and x y) (bit_and x z)) (bit_and y z)
majority_below zero zero zero zero h k l = refl
majority_below zero (suc x) y z h k l = absurd (omega arith)
majority_below zero zero (suc y) z h k l = absurd (omega arith)
majority_below zero zero zero (suc z) h k l = absurd (omega arith)
majority_below (suc n) x y z h k l =
    rw
      (
        bit_or_digit (bit_and x y) (bit_and z (bit_or x y)),
        bit_or_digit (bit_or (bit_and x y) (bit_and x z)) (bit_and y z),
      )
      (simp digits_of (
        ap₂ (λ s t. s * 2 + t)
          (majority_below n (x / 2) (y / 2) (z / 2) (omega arith) (omega arith) (omega arith))
          (majority_digit (x % 2) (y % 2) (z % 2) (omega arith) (omega arith) (omega arith))))

pub majority_bits :
    (x y z : ℕ)
    → bit_or (bit_and x y) (bit_and z (bit_or x y))
      ≡ bit_or (bit_or (bit_and x y) (bit_and x z)) (bit_and y z)
majority_bits x y z = majority_below (x + y + z) x y z (omega arith) (omega arith) (omega arith)
