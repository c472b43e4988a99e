-- ===== src/Memory/Laws.antt =====
-- What a read gives after the writes that a receive makes.
use light_lua.Prelude.{
  ℕ, zero, suc, ◌-◌, ◌≤◌, ◌≡◌, refl, ap, ◌∙◌, Option, none, some, List, [], ◌∷◌, ◌++◌, map, length,
  drop, replicate, arith, length-replicate, length-append, drop-replicate_append,
  drop-replicate_all, ◌+◌, ◌<◌, drop-replicate,
}
use mathlib.Core.List.{append-nil}
use light_lua.Prelude.Bytes.{Bytes, none_left, one_more}
use light_lua.Memory.{
  Buffer, null, freed, block, Cells, overwrite, new_array, delete_array, memset_zero, store_bytes,
  load_cells, until_zero, load_bytes, load_c_string, c_prefix,
}

pub length-map {ℓ κ} :
    {A : Type ℓ} {B : Type κ} (f : A → B) (xs : List A) → length (map f xs) ≡ length xs
length-map f [] = refl
length-map f (x ∷ xs) = ap suc (length-map f xs)

pub load_cells-stored :
    (bytes : List ℕ) (cells : Cells)
    → load_cells (length bytes) (map some bytes ++ cells) ≡ some bytes
unfolding load_cells
load_cells-stored [] cells = refl
load_cells-stored (b ∷ bytes) cells = rw (load_cells-stored bytes cells)

-- A zero behind the stored bytes ends the string.
until_zero-stored :
    (bytes : List ℕ) (cells : Cells)
    → until_zero (map some bytes ++ (some 0 ∷ cells)) ≡ some (c_prefix bytes)
unfolding until_zero c_prefix
until_zero-stored [] cells = refl
until_zero-stored (zero ∷ bytes) cells = refl
until_zero-stored (suc b ∷ bytes) cells = rw (until_zero-stored bytes cells)

-- With an indeterminate byte behind them, and no zero among them, the walk leaves what is defined.
pub until_zero-unterminated :
    (bytes : List ℕ) (cells : Cells)
    → c_prefix bytes ≡ bytes
    → until_zero (map some bytes ++ (none ∷ cells)) ≡ none
unfolding until_zero c_prefix
until_zero-unterminated [] cells h = refl
until_zero-unterminated (zero ∷ bytes) cells h = cc
until_zero-unterminated (suc b ∷ bytes) cells h =
    rw (until_zero-unterminated bytes cells (ground arith))

-- A fresh block, cleared: every byte is defined.
pub memset_zero-new :
    (n m : ℕ)
    → n ≤ m
    → memset_zero n (block (replicate m none))
      ≡ some (block (replicate n (some 0) ++ replicate (m - n) none))
unfolding memset_zero
memset_zero-new n m h =
    ground (arith, length-replicate {A = Option ℕ} m none, drop-replicate {A = Option ℕ} n m none)

-- Bytes that fit are stored, and what is behind them stays.
pub store_bytes-block :
    (bytes : List ℕ) (cells : Cells)
    → length bytes ≤ length cells
    → store_bytes bytes (block cells) ≡ some (block (map some bytes ++ drop (length bytes) cells))
unfolding store_bytes
store_bytes-block bytes cells h = ground arith

pub load_bytes-stored :
    (bytes : List ℕ) (cells : Cells)
    → load_bytes (length bytes) (block (map some bytes ++ cells)) ≡ some bytes
unfolding load_bytes
load_bytes-stored = load_cells-stored

-- A fresh block that is cleared whole.
pub memset_zero-whole :
    (n : ℕ) → memset_zero n (block (replicate n none)) ≡ some (block (replicate n (some 0)))
memset_zero-whole n =
    let e : n - n ≡ 0 = omega arith in
    memset_zero-new n n (omega arith)
    ∙ (rw e (ap (λ cells. some (block cells)) (append-nil (replicate n (some 0)))))

-- What a block of `n` zero bytes holds once `bytes` stand at its start.
abbrev pub zeros_with : ℕ → List ℕ → Buffer
zeros_with n bytes = block (map some bytes ++ drop (length bytes) (replicate n (some 0)))

pub store_bytes-zeros :
    (n : ℕ) (bytes : List ℕ)
    → length bytes ≤ n
    → store_bytes bytes (block (replicate n (some 0))) ≡ some (zeros_with n bytes)
store_bytes-zeros n bytes h =
    store_bytes-block bytes (replicate n (some 0))
      (omega (arith, length-replicate {A = Option ℕ} n (some 0)))

-- Behind fewer bytes than it holds, a block of zero bytes keeps a zero.
drop-replicate_less :
    (k n : ℕ)
    → k < n
    → (m : ℕ) × (drop k (replicate {A = Option ℕ} n (some 0)) ≡ some 0 ∷ replicate m (some 0))
drop-replicate_less k zero h = absurd (omega (arith, h))
drop-replicate_less zero (suc n) h = (n, refl)
drop-replicate_less (suc k) (suc n) h = drop-replicate_less k n (omega (arith, h))

pub load_c_string-zeros :
    (n : ℕ) (bytes : List ℕ)
    → length bytes < n
    → load_c_string (zeros_with n bytes) ≡ some (c_prefix bytes)
unfolding load_c_string
load_c_string-zeros n bytes h =
    let (m, e) = drop-replicate_less (length bytes) n h in
    rw e (until_zero-stored bytes (replicate m (some 0)))

-- A fresh block of one byte more than is cleared: its last byte stays indeterminate.
abbrev pub cleared_but_last : ℕ → Buffer
cleared_but_last n = block (replicate n (some 0) ++ (none ∷ []))

pub memset_zero-but_last :
    (n : ℕ) → memset_zero n (block (replicate (n + 1) none)) ≡ some (cleared_but_last n)
memset_zero-but_last n =
    let e : n + 1 - n ≡ 1 = omega arith in memset_zero-new n (n + 1) (omega arith) ∙ rw e refl

-- What such a block holds once `bytes` stand at its start.
abbrev pub last_open_with : ℕ → List ℕ → Buffer
last_open_with n bytes =
    block (map some bytes ++ drop (length bytes) (replicate n (some 0) ++ (none ∷ [])))

pub store_bytes-but_last :
    (n : ℕ) (bytes : List ℕ)
    → length bytes ≤ n
    → store_bytes bytes (cleared_but_last n) ≡ some (last_open_with n bytes)
store_bytes-but_last n bytes h = store_bytes-block bytes (replicate n (some 0) ++ (none ∷ [])) (
    omega (
      arith,
      length-replicate {A = Option ℕ} n (some 0),
      length-append {A = Option ℕ} (replicate n (some 0)) (none ∷ []),
    ))

-- Fewer bytes than were asked for are read back up to their first zero.
pub load_c_string-short :
    (n : ℕ) (bytes : List ℕ)
    → length bytes < n
    → load_c_string (last_open_with n bytes) ≡ some (c_prefix bytes)
unfolding load_c_string
load_c_string-short n bytes h =
    rw (drop-replicate_append {A = Option ℕ} (length bytes) n (some 0) (none ∷ []) h)
      (until_zero-stored bytes (replicate (n - length bytes - 1) (some 0) ++ (none ∷ [])))

-- As many bytes as were asked for, none of them zero, run into the indeterminate byte.
pub load_c_string-full :
    (n : ℕ) (bytes : List ℕ)
    → length bytes ≡ n
    → c_prefix bytes ≡ bytes
    → load_c_string (last_open_with n bytes) ≡ none
unfolding load_c_string
load_c_string-full n bytes e h =
    rw (e, drop-replicate_all {A = Option ℕ} n (some 0) (none ∷ []))
      (until_zero-unterminated bytes [] h)

overwrite-deletable :
    (n : ℕ) (cells : Cells) (buffer after : Buffer)
    → overwrite n cells buffer ≡ some after
    → delete_array after ≡ some tt
overwrite-deletable n cells buffer null h = refl
overwrite-deletable n cells buffer (block after) h = refl
overwrite-deletable n cells null freed h = ground (arith, h)
overwrite-deletable n cells freed freed h = ground (arith, h)
overwrite-deletable n cells (block old) freed h = ground (arith, h)

-- A buffer that was written into is not freed.
pub memset_zero-deletable :
    (n : ℕ) (buffer after : Buffer)
    → memset_zero n buffer ≡ some after
    → delete_array after ≡ some tt
unfolding memset_zero
memset_zero-deletable n null after h = absurd (cc)
memset_zero-deletable n freed after h = absurd (cc)
memset_zero-deletable n (block cells) after h =
    overwrite-deletable n (replicate n (some 0)) (block cells) after h

pub store_bytes-deletable :
    (bytes : List ℕ) (buffer after : Buffer)
    → store_bytes bytes buffer ≡ some after
    → delete_array after ≡ some tt
unfolding store_bytes
store_bytes-deletable bytes buffer after h =
    overwrite-deletable (length bytes) (map some bytes) buffer after h

pub new_array-deletable :
    (n : ℕ) (buffer : Buffer) → some (new_array n) ≡ some buffer → delete_array buffer ≡ some tt
new_array-deletable n null h = refl
new_array-deletable n freed h = ground (arith, h)
new_array-deletable n (block cells) h = refl

pub Bytes-c_prefix : (bs : List ℕ) → Bytes bs → Bytes (c_prefix bs)
unfolding c_prefix
Bytes-c_prefix [] h = none_left
Bytes-c_prefix (zero ∷ bs) h = none_left
Bytes-c_prefix (suc b ∷ bs) (one_more _ _ small rest) =
    one_more (suc b) (c_prefix bs) small (Bytes-c_prefix bs rest)

pub memset_zero-freed : (n : ℕ) → memset_zero n freed ≡ none
unfolding memset_zero
memset_zero-freed n = refl
