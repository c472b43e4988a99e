-- ===== src/Sha1/Fips.antt =====
-- The secure hash algorithm as FIPS 180-1 describes it, independent of light/socket/src/sha1.c: a
-- schedule that keeps every word, and rounds that shift five registers.
use light_lua.Prelude.{
  ℕ, zero, suc, ◌+◌, ◌-◌, ◌*◌, ◌/◌, ◌%◌, ◌^◌, bit_and, bit_or, List, [], ◌∷◌, ◌++◌, get_or, length,
  map, take, drop, replicate,
}
use light_lua.Prelude.Bits.Choices.{without}
use light_lua.Sha1.Lines.{Registers}
use Prim.Native.Nat.{bit_xor}

-- `S^n(X)`
unfoldable pub rotate_left : ℕ → ℕ → ℕ
rotate_left n x = bit_or (x * 2 ^ n % 2 ^ 32) (x % 2 ^ 32 / 2 ^ (32 - n))

-- The functions `f(t;B,C,D)`: (B AND C) OR ((NOT B) AND D), and so on.
unfoldable pub choose : ℕ → ℕ → ℕ → ℕ
choose b c d = bit_or (bit_and b c) (without d b)

unfoldable pub parity : ℕ → ℕ → ℕ → ℕ
parity b c d = bit_xor (bit_xor b c) d

unfoldable pub majority : ℕ → ℕ → ℕ → ℕ
majority b c d = bit_or (bit_or (bit_and b c) (bit_and b d)) (bit_and c d)

-- The words so far, the newest first, and the registers.
pub record Progress : Type 0 where
  pub words : List ℕ
  pub registers : Registers

-- W(t) = S^1(W(t-3) XOR W(t-8) XOR W(t-14) XOR W(t-16))
unfoldable pub next_word : List ℕ → ℕ
next_word words = rotate_left 1 (
    bit_xor (bit_xor (bit_xor (get_or words 2 0) (get_or words 7 0)) (get_or words 13 0))
      (get_or words 15 0))

-- TEMP = S^5(A) + f(t;B,C,D) + E + W(t) + K(t); E = D; D = C; C = S^30(B); B = A; A = TEMP
abbrev pub round : (ℕ → ℕ → ℕ → ℕ) → ℕ → ℕ → Registers → Registers
round f k w r = record {
  a = (rotate_left 5 r.a + f r.b r.c r.d + r.e + w + k) % 2 ^ 32;
  b = r.a;
  c = rotate_left 30 r.b;
  d = r.c;
  e = r.d;
}

abbrev pub one_round : (ℕ → ℕ → ℕ → ℕ) → ℕ → ℕ → Progress → Progress
one_round f k w s = record { words = w ∷ s.words; registers = round f k w s.registers }

-- Rounds with given words, and with words of the schedule.
unfoldable pub given : (ℕ → ℕ → ℕ → ℕ) → ℕ → List ℕ → Progress → Progress
given f k [] s = s
given f k (w ∷ ws) s = given f k ws (one_round f k w s)

unfoldable pub made : (ℕ → ℕ → ℕ → ℕ) → ℕ → ℕ → Progress → Progress
made f k zero s = s
made f k (suc n) s = made f k n (one_round f k (next_word s.words) s)

abbrev added : Registers → Registers → Registers
added h r = record {
  a = (h.a + r.a) % 2 ^ 32;
  b = (h.b + r.b) % 2 ^ 32;
  c = (h.c + r.c) % 2 ^ 32;
  d = (h.d + r.d) % 2 ^ 32;
  e = (h.e + r.e) % 2 ^ 32;
}

-- The eighty rounds on a block of sixteen words.
unfoldable pub compress : Registers → List ℕ → Registers
compress h words =
    let s16 = given choose 0x5A827999 words (record { words = []; registers = h }) in
    let s20 = made choose 0x5A827999 4 s16 in
    let s40 = made parity 0x6ED9EBA1 20 s20 in
    let s60 = made majority 0x8F1BBCDC 20 s40 in
    let s80 = made parity 0xCA62C1D6 20 s60 in added h s80.registers

-- The word of the four bytes at `i`, the highest first, and the sixteen words of a block.
unfoldable pub word_at : List ℕ → ℕ → ℕ
word_at block i =
    get_or block i 0 * 2 ^ 24
    + get_or block (i + 1) 0 * 2 ^ 16
    + get_or block (i + 2) 0 * 2 ^ 8
    + get_or block (i + 3) 0

abbrev pub offsets : List ℕ
offsets = 0 ∷ 4 ∷ 8 ∷ 12 ∷ 16 ∷ 20 ∷ 24 ∷ 28 ∷ 32 ∷ 36 ∷ 40 ∷ 44 ∷ 48 ∷ 52 ∷ 56 ∷ 60 ∷ []

unfoldable pub block_words : List ℕ → List ℕ
unfolding word_at
block_words block = map (word_at block) offsets

unfoldable pub hash_blocks : ℕ → Registers → List ℕ → Registers
unfolding compress block_words
hash_blocks zero h msg = h
hash_blocks (suc n) h msg = hash_blocks n (compress h (block_words (take 64 msg))) (drop 64 msg)

abbrev pub first_state : Registers
first_state = record {
  a = 0x67452301;
  b = 0xEFCDAB89;
  c = 0x98BADCFE;
  d = 0x10325476;
  e = 0xC3D2E1F0;
}

-- A number of 32 bits, and one of 64 bits, as bytes, the highest first.
abbrev pub word_bytes : ℕ → List ℕ
word_bytes n = n / 2 ^ 24 % 256 ∷ n / 2 ^ 16 % 256 ∷ n / 2 ^ 8 % 256 ∷ n % 256 ∷ []

abbrev pub long_bytes : ℕ → List ℕ
long_bytes n =
    n / 2 ^ 56 % 256 ∷ n / 2 ^ 48 % 256 ∷ n / 2 ^ 40 % 256 ∷ n / 2 ^ 32 % 256 ∷ word_bytes n

-- A one bit, zeros up to eight bytes in front of a whole block, and the length in bits.
unfoldable pub padded : List ℕ → List ℕ
padded msg =
    msg
    ++ (0x80 ∷ replicate ((119 - length msg % 64) % 64) 0 ++ long_bytes (8 * length msg % 2 ^ 64))

unfoldable pub message_digest : List ℕ → List ℕ
unfolding hash_blocks
message_digest msg =
    let s = hash_blocks (length (padded msg) / 64) first_state (padded msg) in
    word_bytes s.a ++ (word_bytes s.b ++ (word_bytes s.c ++ (word_bytes s.d ++ word_bytes s.e)))
