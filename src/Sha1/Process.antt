-- ===== src/Sha1/Process.antt =====
-- light/socket/src/sha1.c: `sha1_process`.
use light_lua.Prelude.{ℕ, List, [], ◌∷◌}
use light_lua.Sha1.Words.{add32, get_uint32}
use light_lua.Sha1.Lines.{
  Registers, run_lines, f_1, f_2, f_3, f_4, k_1, k_2, k_3, k_4, lines_1, lines_2, lines_3, lines_4,
}

-- `W`, as the sixteen `GET_UINT32` fill it.
unfoldable pub load_block : List ℕ → List ℕ
load_block block =
    get_uint32 block 0
    ∷ get_uint32 block 4
    ∷ get_uint32 block 8
    ∷ get_uint32 block 12
    ∷ get_uint32 block 16
    ∷ get_uint32 block 20
    ∷ get_uint32 block 24
    ∷ get_uint32 block 28
    ∷ get_uint32 block 32
    ∷ get_uint32 block 36
    ∷ get_uint32 block 40
    ∷ get_uint32 block 44
    ∷ get_uint32 block 48
    ∷ get_uint32 block 52
    ∷ get_uint32 block 56
    ∷ get_uint32 block 60
    ∷ []

-- `ctx->state[0] += A` and the four assignments after it.
abbrev pub add_registers : Registers → Registers → Registers
add_registers s r = record {
  a = add32 s.a r.a;
  b = add32 s.b r.b;
  c = add32 s.c r.c;
  d = add32 s.d r.d;
  e = add32 s.e r.e;
}

unfoldable pub sha1_process : Registers → List ℕ → Registers
sha1_process state block =
    let m1 = run_lines f_1 k_1 lines_1 (record { registers = state; w = load_block block }) in
    let m2 = run_lines f_2 k_2 lines_2 m1 in
    let m3 = run_lines f_3 k_3 lines_3 m2 in
    let m4 = run_lines f_4 k_4 lines_4 m3 in add_registers state m4.registers
