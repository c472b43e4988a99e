-- ===== src/Memory.antt =====
-- The receive buffer of a socket (`Byte * buffer` of light/socket/include/socket.h) as a block of
-- the C++ heap. `none` as a result stands for undefined behaviour: an access outside a block, a
-- read of an indeterminate byte, or the use or a second `delete []` of a block that was freed.
pub mod Laws
use mathlib.Core.Option as Opt
use light_lua.Prelude.{
  ℕ, zero, suc, ◌≡◌, Option, none, some, List, [], ◌∷◌, ◌++◌, map, length, drop, replicate, leb,
  ◌==◌, if◌then◌else◌,
}

-- A byte that was never written is indeterminate, `none`.
abbrev pub Cells : Type 0
Cells = List (Option ℕ)

pub data Buffer : Type 0 where
  null freed : Buffer
  block : Cells → Buffer

-- `new Byte[n]`
abbrev pub new_array : ℕ → Buffer
new_array n = block (replicate n none)

-- `delete [] buffer`
abbrev pub delete_array : Buffer → Option (Unit {0})
delete_array null = some tt
delete_array freed = none
delete_array (block cells) = some tt

abbrev overwrite : ℕ → Cells → Buffer → Option Buffer
overwrite n cells null = if n == 0 then some null else none
overwrite n cells freed = none
overwrite n cells (block old) =
    if leb n (length old) then some (block (cells ++ drop n old)) else none

-- `memset(buffer, 0, n)`, which a null pointer makes undefined, for whatever `n`
pub memset_zero : ℕ → Buffer → Option Buffer
memset_zero n null = none
memset_zero n freed = none
memset_zero n (block cells) = overwrite n (replicate n (some 0)) (block cells)

-- What a system call stores at the start of the buffer.
pub store_bytes : List ℕ → Buffer → Option Buffer
store_bytes bytes buffer = overwrite (length bytes) (map some bytes) buffer

pub load_cells : ℕ → Cells → Option (List ℕ)
load_cells zero cells = some []
load_cells (suc n) [] = none
load_cells (suc n) (none ∷ cells) = none
load_cells (suc n) (some b ∷ cells) = Opt.map (◌∷◌ b) (load_cells n cells)

-- The bytes up to the first zero, as `strlen` walks them.
pub until_zero : Cells → Option (List ℕ)
until_zero [] = none
until_zero (none ∷ cells) = none
until_zero (some zero ∷ cells) = some []
until_zero (some (suc b) ∷ cells) = Opt.map (◌∷◌ (suc b)) (until_zero cells)

-- `n` bytes from the start, as `lua_pushlstring` reads them.
pub load_bytes : ℕ → Buffer → Option (List ℕ)
load_bytes n null = if n == 0 then some [] else none
load_bytes n freed = none
load_bytes n (block cells) = load_cells n cells

-- The C string at the start, as `lua_pushstring` reads it.
pub load_c_string : Buffer → Option (List ℕ)
load_c_string null = none
load_c_string freed = none
load_c_string (block cells) = until_zero cells

-- The part of a byte sequence in front of its first zero.
unfoldable pub c_prefix : List ℕ → List ℕ
c_prefix [] = []
c_prefix (zero ∷ bytes) = []
c_prefix (suc b ∷ bytes) = suc b ∷ c_prefix bytes
