-- ===== src/Prelude/Bits/Joined.antt =====
-- `bit_or` of numbers that have no digit in common is their sum.
use Prim.Native.Nat.{ℕ, zero, suc, ◌+◌, ◌*◌, ◌/◌, ◌%◌, ◌^◌, ◌≤◌, ◌<◌, bit_or}
use mathlib.Core.Path.{◌≡◌, refl, ◌∙◌}
use native.Mathlib.Omega.{arith}
use light_lua.Prelude.Bits.{bit_or_digit, two_to}

bit_or_doubled : (c b : ℕ) → bit_or (c * 2) b ≡ bit_or c (b / 2) * 2 + b % 2
bit_or_doubled c b =
    let half : c * 2 / 2 ≡ c = omega arith in
    let even : c * 2 % 2 ≡ 0 = omega arith in bit_or_digit (c * 2) b ∙ rw (half, even) (omega arith)

bit_or_nothing : (n a b : ℕ) → a ≤ n → b < 1 → bit_or a b ≡ a + b
bit_or_nothing n zero b h k = let e : b ≡ 0 = omega arith in rw e refl
bit_or_nothing zero (suc a) b h k = absurd (omega arith)
bit_or_nothing (suc n) (suc a) b h k = omega (
  arith,
  bit_or_digit (suc a) b,
  bit_or_nothing n (suc a / 2) (b / 2) (omega arith) (omega arith),
)

pub bit_or-two_to : (k c b : ℕ) → b < two_to k → bit_or (c * two_to k) b ≡ c * two_to k + b
unfolding two_to
bit_or-two_to zero c b h =
    let e : c * 1 ≡ c = omega arith in rw e (bit_or_nothing c c b (omega arith) h)
bit_or-two_to (suc k) c b h =
    let e : c * (two_to k * 2) ≡ c * two_to k * 2 = grind arith in
    rw e (
      bit_or_doubled (c * two_to k) b
      ∙ rw (bit_or-two_to k c (b / 2) (omega (arith, h))) (omega arith))

-- Four bytes of a word.
pub bit_or_bytes :
    (a b c d : ℕ)
    → a < 256
    → b < 256
    → c < 256
    → d < 256
    → bit_or (bit_or (bit_or (a * 2 ^ 24 % 2 ^ 32) (b * 2 ^ 16 % 2 ^ 32)) (c * 2 ^ 8 % 2 ^ 32)) d
      ≡ a * 2 ^ 24 + b * 2 ^ 16 + c * 2 ^ 8 + d
unfolding two_to
bit_or_bytes a b c d ha hb hc hd =
    let ea : a * 2 ^ 24 % 2 ^ 32 ≡ a * 2 ^ 24 = omega arith in
    let eb : b * 2 ^ 16 % 2 ^ 32 ≡ b * 2 ^ 16 = omega arith in
    let ec : c * 2 ^ 8 % 2 ^ 32 ≡ c * 2 ^ 8 = omega arith in
    let sb : a * 2 ^ 24 + b * 2 ^ 16 ≡ (a * 2 ^ 8 + b) * 2 ^ 16 = omega arith in
    let sc : (a * 2 ^ 8 + b) * 2 ^ 16 + c * 2 ^ 8 ≡ (a * 2 ^ 16 + b * 2 ^ 8 + c) * 2 ^ 8 =
      omega arith in
    rw
      (
        ea,
        eb,
        ec,
        bit_or-two_to 24 a (b * 2 ^ 16) (omega arith),
        sb,
        bit_or-two_to 16 (a * 2 ^ 8 + b) (c * 2 ^ 8) (omega arith),
        sc,
        bit_or-two_to 8 (a * 2 ^ 16 + b * 2 ^ 8 + c) d (omega arith),
      )
      (omega arith)
