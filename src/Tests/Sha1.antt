-- ===== src/Tests/Sha1.antt =====
-- The FIPS 180-1 test vectors of light/socket/src/sha1.c, and each theorem on it applied.
use light_lua.Prelude.Bytes.{Bytes-replicate, none_left, one_more}
use light_lua.Prelude.{leb, false, replicate, take, ◌++◌, arith, ℕ, ◌≡◌, refl, List, [], ◌∷◌}
use light_lua.Sha1.Words.{circular_shift, get_uint32, add32}
use light_lua.Sha1.Lines.{
  run_line, run_lines, expand, f_1, f_2, f_3, f_4, lines_1, lines_2, lines_3, lines_4,
}
use light_lua.Sha1.Process.{load_block, sha1_process}
use light_lua.Sha1.Fips.{block_words, compress, message_digest}
use light_lua.Sha1.Blocks.{sha1_process-block_words}
use light_lua.Sha1.Message.{Represents, sha1_update-Represents}
use light_lua.Sha1.Digest.{sha1_starts-Represents, digest_of-message_digest}
use light_lua.Sha1.Loop.{after_blocks, while_blocks-after_blocks}
use light_lua.Sha1.Context.{
  Unread, initial_state, zero_context, sha1_starts, copy, while_blocks, count, update_rest,
  sha1_update, sha1_finish, digest_of,
}

-- "abc"
digest_of_abc :
    digest_of (97 ∷ 98 ∷ 99 ∷ [])
    ≡ 0xa9 ∷ 0x99 ∷ 0x3e ∷ 0x36 ∷ 0x47 ∷ 0x06 ∷ 0x81 ∷ 0x6a ∷ 0xba ∷ 0x3e ∷ 0x25 ∷ 0x71 ∷ 0x78
      ∷ 0x50 ∷ 0xc2 ∷ 0x6c ∷ 0x9c ∷ 0xd0 ∷ 0xd8 ∷ 0x9d ∷ []
unfolding digest_of sha1_finish sha1_update sha1_starts copy while_blocks count update_rest
    sha1_process load_block run_lines run_line expand f_1 f_2 f_3 f_4 lines_1 lines_2 lines_3
    lines_4 circular_shift get_uint32 add32
digest_of_abc = refl

-- The empty text, and a text whose padding needs a second block.
digest_of_nothing :
    digest_of []
    ≡ 0xda ∷ 0x39 ∷ 0xa3 ∷ 0xee ∷ 0x5e ∷ 0x6b ∷ 0x4b ∷ 0x0d ∷ 0x32 ∷ 0x55 ∷ 0xbf ∷ 0xef ∷ 0x95
      ∷ 0x60 ∷ 0x18 ∷ 0x90 ∷ 0xaf ∷ 0xd8 ∷ 0x07 ∷ 0x09 ∷ []
unfolding digest_of sha1_finish sha1_update sha1_starts copy while_blocks count update_rest
    sha1_process load_block run_lines run_line expand f_1 f_2 f_3 f_4 lines_1 lines_2 lines_3
    lines_4 circular_shift get_uint32 add32
digest_of_nothing = refl

-- "abcdbcdecdefdefgefghfghighijhijkijkljklmklmnlmnomnopnopq"
abbrev fifty_six : List ℕ
fifty_six =
    97 ∷ 98 ∷ 99 ∷ 100 ∷ 98 ∷ 99 ∷ 100 ∷ 101 ∷ 99 ∷ 100 ∷ 101 ∷ 102 ∷ 100 ∷ 101 ∷ 102 ∷ 103 ∷ 101
    ∷ 102 ∷ 103 ∷ 104 ∷ 102 ∷ 103 ∷ 104 ∷ 105 ∷ 103 ∷ 104 ∷ 105 ∷ 106 ∷ 104 ∷ 105 ∷ 106 ∷ 107 ∷ 105
    ∷ 106 ∷ 107 ∷ 108 ∷ 106 ∷ 107 ∷ 108 ∷ 109 ∷ 107 ∷ 108 ∷ 109 ∷ 110 ∷ 108 ∷ 109 ∷ 110 ∷ 111 ∷ 109
    ∷ 110 ∷ 111 ∷ 112 ∷ 110 ∷ 111 ∷ 112 ∷ 113 ∷ []

digest_of-fifty_six :
    digest_of fifty_six
    ≡ 0x84 ∷ 0x98 ∷ 0x3e ∷ 0x44 ∷ 0x1c ∷ 0x3b ∷ 0xd2 ∷ 0x6e ∷ 0xba ∷ 0xae ∷ 0x4a ∷ 0xa1 ∷ 0xf9
      ∷ 0x51 ∷ 0x29 ∷ 0xe5 ∷ 0xe5 ∷ 0x46 ∷ 0x70 ∷ 0xf1 ∷ []
unfolding digest_of sha1_finish sha1_update sha1_starts copy while_blocks count update_rest
    sha1_process load_block run_lines run_line expand f_1 f_2 f_3 f_4 lines_1 lines_2 lines_3
    lines_4 circular_shift get_uint32 add32
digest_of-fifty_six = refl

sha1_process-block_words_example :
    sha1_process initial_state (replicate 64 97)
    ≡ compress initial_state (block_words (replicate 64 97))
sha1_process-block_words_example =
    sha1_process-block_words initial_state (replicate 64 97) (Bytes-replicate 64 97 (omega arith))

abbrev two_letters : List ℕ
two_letters = 97 ∷ 98 ∷ []

sha1_update-Represents_example :
    Represents (sha1_update (sha1_starts zero_context) two_letters 2) ([] ++ take 2 two_letters)
sha1_update-Represents_example =
    sha1_update-Represents (sha1_starts zero_context) [] two_letters 2 sha1_starts-Represents
      (omega arith) (omega arith)

digest_of-message_digest_example : digest_of two_letters ≡ message_digest two_letters
digest_of-message_digest_example =
    digest_of-message_digest two_letters
      (one_more 97 (98 ∷ []) (omega arith) (one_more 98 [] (omega arith) none_left))

-- A hundred bytes are one block and 36 bytes.
abbrev hundred : Unread
hundred = record { state = initial_state; input = replicate 100 97; length = 100 }

while_blocks-after_blocks_example :
    (while_blocks 1 hundred ≡ after_blocks hundred)
    × (leb 64 (while_blocks 1 hundred).length ≡ false)
while_blocks-after_blocks_example = while_blocks-after_blocks 1 hundred (omega arith)
