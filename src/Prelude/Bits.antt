-- ===== src/Prelude/Bits.antt =====
-- Laws of the bit operations at variables, from one equation for the lowest digit.
pub mod Joined
pub mod Masks
pub mod Choices
use Prim.Native.Nat.{
  ℕ, zero, suc, ◌+◌, ◌*◌, ◌/◌, ◌%◌, ◌^◌, ◌≤◌, ◌<◌, min, max, digits, differ, bit_and, bit_or,
  bit_xor, bit_and-bitwise, bit_or-bitwise, bit_xor-bitwise,
}
use mathlib.Core.Path.{◌≡◌, refl, sym, ap, ap₂, ◌∙◌}
use native.Mathlib.Omega.{arith}
use native.Mathlib.Nat.{div-add-mod, mod-lt, mod-eq_of_lt, mul-add-mod_self_left}

-- A number of digits that covers `a` gives the same as any other.
enough_digits :
    (z : ℕ → ℕ) (f : ℕ → ℕ → ℕ) (n m a b : ℕ) → a ≤ n → a ≤ m → digits z f n a b ≡ digits z f m a b
enough_digits z f zero zero a b p q = refl
enough_digits z f zero (suc m) zero b p q = refl
enough_digits z f zero (suc m) (suc a) b p q = absurd (omega arith)
enough_digits z f (suc n) zero zero b p q = refl
enough_digits z f (suc n) zero (suc a) b p q = absurd (omega arith)
enough_digits z f (suc n) (suc m) zero b p q = refl
enough_digits z f (suc n) (suc m) (suc a) b p q =
    ap (λ t. t * 2 + f (suc a % 2) (b % 2))
      (enough_digits z f n m (suc a / 2) (b / 2) (omega arith) (omega arith))

lowest_digit :
    (z : ℕ → ℕ) (f : ℕ → ℕ → ℕ) (a b : ℕ)
    → digits z f (suc a) (suc a) b
      ≡ digits z f (suc a / 2) (suc a / 2) (b / 2) * 2 + f (suc a % 2) (b % 2)
lowest_digit z f a b =
    ap (λ t. t * 2 + f (suc a % 2) (b % 2))
      (enough_digits z f a (suc a / 2) (suc a / 2) (b / 2) (omega arith) (omega arith))

pub bit_and_digit : (a b : ℕ) → bit_and a b ≡ bit_and (a / 2) (b / 2) * 2 + min (a % 2) (b % 2)
bit_and_digit zero b = simp bit_and-bitwise (omega arith)
bit_and_digit (suc a) b = simp bit_and-bitwise (lowest_digit (λ y. 0) min a b)

pub bit_or_digit : (a b : ℕ) → bit_or a b ≡ bit_or (a / 2) (b / 2) * 2 + max (a % 2) (b % 2)
bit_or_digit zero b = simp bit_or-bitwise (omega arith)
bit_or_digit (suc a) b = simp bit_or-bitwise (lowest_digit (λ y. y) max a b)

pub bit_xor_digit : (a b : ℕ) → bit_xor a b ≡ bit_xor (a / 2) (b / 2) * 2 + differ (a % 2) (b % 2)
bit_xor_digit zero b = simp bit_xor-bitwise (omega arith)
bit_xor_digit (suc a) b = simp bit_xor-bitwise (lowest_digit (λ y. y) differ a b)

-- The digits above the lowest, and the lowest.
differ_small : (a b : ℕ) → a < 2 → b < 2 → differ a b < 2
differ_small zero b h k = k
differ_small (suc zero) zero h k = omega arith
differ_small (suc zero) (suc zero) h k = omega arith
differ_small (suc zero) (suc (suc b)) h k = absurd (omega arith)
differ_small (suc (suc a)) b h k = absurd (omega arith)

pub bit_and_half : (a b : ℕ) → bit_and a b / 2 ≡ bit_and (a / 2) (b / 2)
bit_and_half a b = omega (arith, bit_and_digit a b)

pub bit_and_parity : (a b : ℕ) → bit_and a b % 2 ≡ min (a % 2) (b % 2)
bit_and_parity a b = omega (arith, bit_and_digit a b)

pub bit_or_half : (a b : ℕ) → bit_or a b / 2 ≡ bit_or (a / 2) (b / 2)
bit_or_half a b = omega (arith, bit_or_digit a b)

pub bit_or_parity : (a b : ℕ) → bit_or a b % 2 ≡ max (a % 2) (b % 2)
bit_or_parity a b = omega (arith, bit_or_digit a b)

pub bit_xor_half : (a b : ℕ) → bit_xor a b / 2 ≡ bit_xor (a / 2) (b / 2)
bit_xor_half a b =
    omega (arith, bit_xor_digit a b, differ_small (a % 2) (b % 2) (omega arith) (omega arith))

pub bit_xor_parity : (a b : ℕ) → bit_xor a b % 2 ≡ differ (a % 2) (b % 2)
bit_xor_parity a b =
    omega (arith, bit_xor_digit a b, differ_small (a % 2) (b % 2) (omega arith) (omega arith))

-- `k` ones, and the power of 2 above them.
pub ones : ℕ → ℕ
ones zero = 0
ones (suc k) = ones k * 2 + 1

pub two_to : ℕ → ℕ
two_to zero = 1
two_to (suc k) = two_to k * 2

pub two_to_pos : (k : ℕ) → 0 < two_to k
unfolding two_to
two_to_pos zero = omega arith
two_to_pos (suc k) = omega (arith, two_to_pos k)

mod_double : (p a : ℕ) → 0 < p → a / 2 % p * 2 + a % 2 ≡ a % (p * 2)
mod_double p a h =
    let q = a / 2 / p in
    let r = a / 2 % p in
    let small : r * 2 + a % 2 < p * 2 = omega (arith, mod-lt (a / 2) h) in
    let whole : a ≡ p * 2 * q + (r * 2 + a % 2) = grind (arith, div-add-mod (a / 2) p) in
    sym (mod-eq_of_lt small)
    ∙ sym (mul-add-mod_self_left (p * 2) q (r * 2 + a % 2))
    ∙ ap (λ t. t % (p * 2)) (sym whole)

bit_and-ones : (k a : ℕ) → bit_and a (ones k) ≡ a % two_to k
unfolding ones two_to
bit_and-ones zero a = bit_and-zero a a (omega arith) ∙ omega arith
  where
    bit_and-zero : (n a : ℕ) → a ≤ n → bit_and a 0 ≡ 0
    bit_and-zero n zero h = refl
    bit_and-zero zero (suc a) h = absurd (omega arith)
    bit_and-zero (suc n) (suc a) h =
        omega (arith, bit_and_digit (suc a) 0, bit_and-zero n (suc a / 2) (omega arith))
bit_and-ones (suc k) a =
    let half : (ones k * 2 + 1) / 2 ≡ ones k = omega arith in
    let odd : (ones k * 2 + 1) % 2 ≡ 1 = omega arith in
    bit_and_digit a (ones k * 2 + 1)
    ∙ rw (half, odd, bit_and-ones k (a / 2)) (omega (arith, mod_double (two_to k) a (two_to_pos k)))

pub bit_and_fifteen : (a : ℕ) → bit_and a 0x0F ≡ a % 16
unfolding ones two_to
bit_and_fifteen a = bit_and-ones 4 a

pub bit_and_sixty_three : (a : ℕ) → bit_and a 0x3F ≡ a % 64
unfolding ones two_to
bit_and_sixty_three a = bit_and-ones 6 a

pub bit_and_word : (a : ℕ) → bit_and a 0xFFFFFFFF ≡ a % 2 ^ 32
unfolding ones two_to
bit_and_word a = bit_and-ones 32 a
