-- ===== src/Sha1/Loop.antt =====
-- The loop of `sha1_update` of light/socket/src/sha1.c ends, and what it has done then.
use light_lua.Prelude.{
  ℕ, zero, suc, ◌+◌, ◌-◌, ◌*◌, ◌/◌, ◌%◌, ◌≤◌, ◌≡◌, refl, ◌∙◌, leb, ◌==◌, Bool-cases, inl, inr,
  leb→le, false, if◌then◌else◌, List, take, drop, arith,
}
use light_lua.Prelude.Slices.{drop-drop}
use light_lua.Sha1.Lines.{Registers}
use light_lua.Sha1.Process.{sha1_process}
use light_lua.Sha1.Context.{Context, Unread, while_blocks, copy, update_rest}

-- The state after `n` blocks of the input.
unfoldable pub process_blocks : ℕ → Registers → List ℕ → Registers
process_blocks zero state input = state
process_blocks (suc n) state input =
    process_blocks n (sha1_process state (take 64 input)) (drop 64 input)

-- What the loop leaves: every whole block is hashed, and less than a block is left.
abbrev pub after_blocks : Unread → Unread
after_blocks u = record {
  state = process_blocks (u.length / 64) u.state u.input;
  input = drop (64 * (u.length / 64)) u.input;
  length = u.length % 64;
}

one_block :
    (s : Registers) (input : List ℕ) (length : ℕ)
    → 64 ≤ length
    → after_blocks (record {
      state = sha1_process s (take 64 input);
      input = drop 64 input;
      length = length - 64;
    })
      ≡ after_blocks (record { state = s; input = input; length = length })
unfolding process_blocks
one_block s input length h =
    let q = (length - 64) / 64 in
    let blocks : length / 64 ≡ suc q = omega arith in
    let rest : length % 64 ≡ (length - 64) % 64 = omega arith in
    let far : 64 * suc q ≡ 64 + 64 * q = omega arith in
    rw (blocks, rest, far, ← drop-drop 64 (64 * q) input) refl

-- From any state and any input the loop ends: with fuel for as many rounds as the length has whole
-- blocks it stops by its test, at less than 64, having hashed these blocks in order and passed over
-- their bytes; more fuel changes nothing.
pub while_blocks-after_blocks :
    (fuel : ℕ) (u : Unread)
    → u.length / 64 ≤ fuel
    → (while_blocks fuel u ≡ after_blocks u) × (leb 64 (while_blocks fuel u).length ≡ false)
unfolding while_blocks process_blocks
while_blocks-after_blocks zero u h =
    let none : u.length / 64 ≡ 0 = omega arith in
    let same : u.length % 64 ≡ u.length = omega arith in (rw (none, same) refl, ground arith)
while_blocks-after_blocks (suc fuel) u h = elim (Bool-cases (leb 64 u.length)) [
  | inl e ↦
      let big : 64 ≤ u.length = leb→le 64 u.length e in
      let (run, test) =
        while_blocks-after_blocks fuel
          (record {
            state = sha1_process u.state (take 64 u.input);
            input = drop 64 u.input;
            length = u.length - 64;
          })
          (omega arith) in
      (
        rw (while_blocks, e) (run ∙ one_block u.state u.input u.length big),
        rw (while_blocks, e) test,
      )
  | inr e ↦
      let none : u.length / 64 ≡ 0 = ground arith in
      let same : u.length % 64 ≡ u.length = ground arith in
      (rw (while_blocks, e, none, same) refl, rw (while_blocks, e) e)
]

-- `update_rest` without its loop.
pub update_rest_lem :
    (input : List ℕ) (length left : ℕ) (ctx : Context)
    → update_rest input length left ctx ≡ record ctx {
      state = process_blocks (length / 64) ctx.state input;
      buffer =
          if length % 64 == 0
          then ctx.buffer
          else copy ctx.buffer left (drop (64 * (length / 64)) input) (length % 64);
    }
unfolding update_rest
update_rest_lem input length left ctx =
    rw
      (while_blocks-after_blocks length
        (record { state = ctx.state; input = input; length = length }) (omega arith)).0
      refl
