-- ===== src/Sha1/Blocks.antt =====
-- Whole blocks of bytes: light/socket/src/sha1.c loads the words of FIPS 180-1.
use light_lua.Prelude.{ℕ, zero, suc, ◌+◌, ◌≡◌, refl, ap, ◌∙◌, List, map, take, drop, get_or}
use light_lua.Prelude.Bits.Joined.{bit_or_bytes}
use light_lua.Prelude.Bytes.{Bytes, Bytes-take, Bytes-drop, get_or-Bytes}
use light_lua.Sha1.Words.{get_uint32}
use light_lua.Sha1.Lines.{Registers}
use light_lua.Sha1.Process.{load_block, sha1_process}
use light_lua.Sha1.Fips.{word_at, offsets, block_words, compress, hash_blocks}
use light_lua.Sha1.Compression.{sha1_process-compress}
use light_lua.Sha1.Loop.{process_blocks}

get_uint32-word_at : (b : List ℕ) → Bytes b → (i : ℕ) → get_uint32 b i ≡ word_at b i
unfolding get_uint32 word_at
get_uint32-word_at b h i =
    bit_or_bytes (get_or b i 0) (get_or b (i + 1) 0) (get_or b (i + 2) 0) (get_or b (i + 3) 0)
      (get_or-Bytes b i h) (get_or-Bytes b (i + 1) h) (get_or-Bytes b (i + 2) h)
      (get_or-Bytes b (i + 3) h)

load_block-block_words : (b : List ℕ) → Bytes b → load_block b ≡ block_words b
unfolding load_block block_words
load_block-block_words b h = λ j. map (λ i. get_uint32-word_at b h i j) offsets

-- On every state and every block of bytes, `sha1_process` gives the state that FIPS 180-1 gives for
-- the block's words: with the window of sixteen words for the schedule, and the turning roles for
-- the shift of the registers.
pub sha1_process-block_words :
    (state : Registers) (block : List ℕ)
    → Bytes block
    → sha1_process state block ≡ compress state (block_words block)
sha1_process-block_words state block h =
    sha1_process-compress state block ∙ ap (compress state) (load_block-block_words block h)

pub process_blocks-hash_blocks :
    (n : ℕ) (s : Registers) (msg : List ℕ)
    → Bytes msg
    → process_blocks n s msg ≡ hash_blocks n s msg
unfolding process_blocks hash_blocks
process_blocks-hash_blocks zero s msg h = refl
process_blocks-hash_blocks (suc n) s msg h =
    rw (sha1_process-block_words s (take 64 msg) (Bytes-take 64 msg h)) (
      process_blocks-hash_blocks n (compress s (block_words (take 64 msg))) (drop 64 msg)
        (Bytes-drop 64 msg h))
