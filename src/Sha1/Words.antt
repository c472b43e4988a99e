-- ===== src/Sha1/Words.antt =====
-- The 32-bit arithmetic of light/socket/src/sha1.c, with its wrap-around, and its macros.
use light_lua.Prelude.{ℕ, ◌+◌, ◌-◌, ◌*◌, ◌/◌, ◌%◌, ◌^◌, bit_and, bit_or, List, [], ◌∷◌, get_or}

-- UInt32 a + b
unfoldable pub add32 : ℕ → ℕ → ℕ
add32 a b = (a + b) % 2 ^ 32

-- UInt32 a << n
abbrev pub shl32 : ℕ → ℕ → ℕ
shl32 a n = a * 2 ^ n % 2 ^ 32

-- `S(x,n)`
unfoldable pub circular_shift : ℕ → ℕ → ℕ
circular_shift x n = bit_or (shl32 x n) (bit_and x 0xFFFFFFFF / 2 ^ (32 - n))

-- `GET_UINT32(n,b,i)`: the word at byte `i`.
unfoldable pub get_uint32 : List ℕ → ℕ → ℕ
get_uint32 b i =
    bit_or
      (bit_or (bit_or (shl32 (get_or b i 0) 24) (shl32 (get_or b (i + 1) 0) 16))
        (shl32 (get_or b (i + 2) 0) 8))
      (get_or b (i + 3) 0)

-- `PUT_UINT32(n,b,i)`: the four bytes that it stores.
abbrev pub put_uint32 : ℕ → List ℕ
put_uint32 n = n / 2 ^ 24 % 256 ∷ n / 2 ^ 16 % 256 ∷ n / 2 ^ 8 % 256 ∷ n % 256 ∷ []
