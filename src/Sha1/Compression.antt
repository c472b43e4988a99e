-- ===== src/Sha1/Compression.antt =====
-- `sha1_process` of light/socket/src/sha1.c is the compression of FIPS 180-1.
use light_lua.Prelude.{
  ℕ, zero, suc, ◌<◌, ◌%◌, ◌+◌, ◌-◌, ◌≡◌, refl, ap, List, [], ◌∷◌, ◌++◌, get_or, arith,
}
use light_lua.Prelude.Bits.Choices.{choose_bits, majority_bits}
use light_lua.Sha1.Words.{add32, get_uint32}
use light_lua.Sha1.Lines.{
  Registers, Machine, run_lines, f_1, f_2, f_3, f_4, k_1, k_2, k_3, k_4, lines_1, lines_2, lines_3,
  lines_4,
}
use light_lua.Sha1.Process.{load_block, add_registers, sha1_process}
use light_lua.Sha1.Fips.{choose, parity, majority, Progress, given, made, compress}
use light_lua.Sha1.Schedule.{Window}
use light_lua.Sha1.Rounds.{
  first, second, lines_loaded, lines_expanded, Follows, run_lines-append, run_lines-loaded,
  run_lines-expanded,
}

f_1-choose : (x y z : ℕ) → f_1 x y z ≡ choose x y z
unfolding f_1 choose
f_1-choose x y z = choose_bits x y z

f_2-parity : (x y z : ℕ) → f_2 x y z ≡ parity x y z
unfolding f_2 parity
f_2-parity x y z = refl

f_3-majority : (x y z : ℕ) → f_3 x y z ≡ majority x y z
unfolding f_3 majority
f_3-majority x y z = majority_bits x y z

f_4-parity : (x y z : ℕ) → f_4 x y z ≡ parity x y z
unfolding f_4 parity
f_4-parity x y z = refl

lines_1_turning : lines_1 ≡ lines_loaded 16 0 first ++ lines_expanded 4 16 second
unfolding lines_1
lines_1_turning = refl

lines_2_turning : lines_2 ≡ lines_expanded 20 20 first
unfolding lines_2
lines_2_turning = refl

lines_3_turning : lines_3 ≡ lines_expanded 20 40 first
unfolding lines_3
lines_3_turning = refl

lines_4_turning : lines_4 ≡ lines_expanded 20 60 first
unfolding lines_4
lines_4_turning = refl

module _ (state : Registers) (w0 w1 w2 w3 w4 w5 w6 w7 w8 w9 w10 w11 w12 w13 w14 w15 : ℕ) where
  abbrev filled : List ℕ
  filled = w0 ∷ w1 ∷ w2 ∷ w3 ∷ w4 ∷ w5 ∷ w6 ∷ w7 ∷ w8 ∷ w9 ∷ w10 ∷ w11 ∷ w12 ∷ w13 ∷ w14 ∷ w15 ∷ []

  abbrev begun : Progress
  begun = record { words = []; registers = state }

  loaded_window :
      (i : ℕ)
      → i < 16
      → get_or filled ((16 + 15 - i) % 16) 0 ≡ get_or (given choose k_1 filled begun).words i 0
  unfolding given
  loaded_window zero h = refl
  loaded_window (suc zero) h = refl
  loaded_window (suc (suc zero)) h = refl
  loaded_window (suc (suc (suc zero))) h = refl
  loaded_window (suc (suc (suc (suc zero)))) h = refl
  loaded_window (suc (suc (suc (suc (suc zero))))) h = refl
  loaded_window (suc (suc (suc (suc (suc (suc zero)))))) h = refl
  loaded_window (suc (suc (suc (suc (suc (suc (suc zero))))))) h = refl
  loaded_window (suc (suc (suc (suc (suc (suc (suc (suc zero)))))))) h = refl
  loaded_window (suc (suc (suc (suc (suc (suc (suc (suc (suc zero))))))))) h = refl
  loaded_window (suc (suc (suc (suc (suc (suc (suc (suc (suc (suc zero)))))))))) h = refl
  loaded_window (suc (suc (suc (suc (suc (suc (suc (suc (suc (suc (suc zero))))))))))) h = refl
  loaded_window (suc (suc (suc (suc (suc (suc (suc (suc (suc (suc (suc (suc zero)))))))))))) h =
      refl
  loaded_window (suc (suc (suc (suc (suc (suc (suc (suc (suc (suc (suc (suc (suc zero)))))))))))))
        h =
      refl
  loaded_window
        (suc (suc (suc (suc (suc (suc (suc (suc (suc (suc (suc (suc (suc (suc zero)))))))))))))) h =
      refl
  loaded_window
        (suc
          (suc (suc (suc (suc (suc (suc (suc (suc (suc (suc (suc (suc (suc (suc zero)))))))))))))))
        h =
      refl
  loaded_window
        (suc (
          suc
            (suc (suc (suc (suc (suc (suc (suc (suc (suc (suc (suc (suc (suc (suc i))))))))))))))))
        h =
      absurd (omega arith)

  -- After the first twenty lines.
  first_lines :
      Follows 20 first
        (run_lines f_1 k_1 lines_1 (record { registers = state; w = filled }))
        (made choose k_1 4 (given choose k_1 filled begun))
  first_lines =
      let m : Machine = record { registers = state; w = filled } in
      let (registers, kept) = run_lines-loaded f_1 choose k_1 f_1-choose 16 0 first m begun refl in
      let m16 = run_lines f_1 k_1 (lines_loaded 16 0 first) m in
      let window : Window 16 (given choose k_1 filled begun).words m16.w =
        rw kept (record { sixteen = refl; held = loaded_window }) in
      rw
        (
          lines_1_turning,
          run_lines-append f_1 k_1 (lines_loaded 16 0 first) (lines_expanded 4 16 second) m,
        )
        (run_lines-expanded f_1 choose k_1 f_1-choose 4 16 second m16
          (given choose k_1 filled begun)
          (record { same_registers = registers; same_words = window; late = omega arith }))

  -- After all eighty.
  all_lines :
      (let m1 = run_lines f_1 k_1 lines_1 (record { registers = state; w = filled }) in
        let m4 =
          run_lines f_4 k_4 lines_4 (run_lines f_3 k_3 lines_3 (run_lines f_2 k_2 lines_2 m1)) in
        let s20 = made choose k_1 4 (given choose k_1 filled begun) in
        let s80 = made parity k_4 20 (made majority k_3 20 (made parity k_2 20 s20)) in
        m4.registers ≡ s80.registers)
  all_lines =
      let m1 = run_lines f_1 k_1 lines_1 (record { registers = state; w = filled }) in
      let s20 = made choose k_1 4 (given choose k_1 filled begun) in
      let m2 = run_lines f_2 k_2 lines_2 m1 in
      let s40 = made parity k_2 20 s20 in
      let m3 = run_lines f_3 k_3 lines_3 m2 in
      let s60 = made majority k_3 20 s40 in
      let at_40 : Follows 40 first m2 s40 =
        rw lines_2_turning
          (run_lines-expanded f_2 parity k_2 f_2-parity 20 20 first m1 s20 first_lines) in
      let at_60 : Follows 60 first m3 s60 =
        rw lines_3_turning
          (run_lines-expanded f_3 majority k_3 f_3-majority 20 40 first m2 s40 at_40) in
      let at_80 : Follows 80 first (run_lines f_4 k_4 lines_4 m3) (made parity k_4 20 s60) =
        rw lines_4_turning
          (run_lines-expanded f_4 parity k_4 f_4-parity 20 60 first m3 s60 at_60) in
      at_80.same_registers

-- The rounds of FIPS 180-1 on the words that `load_block` gives.
pub sha1_process-compress :
    (state : Registers) (block : List ℕ)
    → sha1_process state block ≡ compress state (load_block block)
unfolding sha1_process compress load_block add32
sha1_process-compress state block = ap (add_registers state) (
    all_lines state (get_uint32 block 0) (get_uint32 block 4) (get_uint32 block 8)
      (get_uint32 block 12) (get_uint32 block 16) (get_uint32 block 20) (get_uint32 block 24)
      (get_uint32 block 28) (get_uint32 block 32) (get_uint32 block 36) (get_uint32 block 40)
      (get_uint32 block 44) (get_uint32 block 48) (get_uint32 block 52) (get_uint32 block 56)
      (get_uint32 block 60))
