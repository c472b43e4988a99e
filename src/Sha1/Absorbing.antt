-- ===== src/Sha1/Absorbing.antt =====
-- One call of `sha1_update` (light/socket/src/sha1.c): the blocks that it takes from the buffered
-- bytes and its input in a row, and the bytes that it leaves in the buffer.
use light_lua.Prelude.{
  ℕ, suc, ◌+◌, ◌-◌, ◌*◌, ◌/◌, ◌%◌, ◌≤◌, ◌<◌, ◌≡◌, inl, inr, refl, sym, ap, ◌∙◌, leb, ◌==◌, ==_iff,
  leb→le, Bool-cases, false, List, ◌++◌, length, take, drop, length-drop, take-length_append, arith,
}
use light_lua.Prelude.Bits.{bit_and_sixty_three}
use light_lua.Prelude.Slices.{length-take_le, drop_all, take-append_add, drop-append_add, drop-drop}
use mathlib.Core.List.{append-nil}
use light_lua.Sha1.Lines.{Registers}
use light_lua.Sha1.Process.{sha1_process}
use light_lua.Sha1.Copies.{length-copy, take-copy}
use light_lua.Sha1.Loop.{process_blocks, update_rest_lem}
use light_lua.Sha1.Context.{Context, copy, count, update_rest, sha1_update}

-- How many bytes the buffer holds.
abbrev pub held : Context → ℕ
held ctx = ctx.total_0 / 8 % 64

-- The bytes in the buffer, and the input behind them.
abbrev pub stream : Context → List ℕ → List ℕ
stream ctx input = take (held ctx) ctx.buffer ++ input

-- The buffer is full size, and has taken the blocks of `bytes` up to `n`.
pub record Took (n : ℕ) (bytes : List ℕ) (state : Registers) (ctx : Context) : Type 0 where
  pub full_size : length ctx.buffer ≡ 64
  pub hashed : ctx.state ≡ process_blocks (n / 64) state bytes
  pub left_over : take (n % 64) ctx.buffer ≡ take (n % 64) (drop (64 * (n / 64)) bytes)

-- The loop and the copy behind it, with nothing in the buffer.
update_rest-Took :
    (input : List ℕ) (n : ℕ) (ctx : Context)
    → length ctx.buffer ≡ 64
    → n ≤ length input
    → Took n input ctx.state (update_rest input n 0 ctx)
update_rest-Took input n ctx size h =
    rw (update_rest_lem input n 0 ctx) (elim (Bool-cases (n % 64 == 0)) [
      | inl e ↦ rw e (record {
        full_size = size;
        hashed = refl;
        left_over = rw ((==_iff (n % 64) 0).0 e) refl;
      })
      | inr e ↦
          let rest = drop (64 * (n / 64)) input in
          let enough : n % 64 ≤ length rest = omega (arith, length-drop (64 * (n / 64)) input) in
          rw e (record {
            full_size = length-copy ctx.buffer rest 0 (n % 64) size (omega arith) enough;
            hashed = refl;
            left_over =
                (let z : 0 + n % 64 ≡ n % 64 = omega arith in
                  ap (λ j. take j (copy ctx.buffer 0 rest (n % 64))) (sym z)
                  ∙ take-copy ctx.buffer rest 0 (n % 64) (omega arith) enough);
          })
    ])

module _ (ctx : Context) (input : List ℕ) (n : ℕ) (size : length ctx.buffer ≡ 64)
    (fits : n ≤ length input) where
  length-held : length (take (held ctx) ctx.buffer) ≡ held ctx
  length-held = length-take_le (held ctx) ctx.buffer (omega arith)

  -- No input.
  Took-none : n ≡ 0 → Took (held ctx + n) (stream ctx input) ctx.state ctx
  unfolding process_blocks
  Took-none none =
      let q : (held ctx + n) / 64 ≡ 0 = omega arith in
      let r : (held ctx + n) % 64 ≡ held ctx = omega arith in
      record {
        full_size = size;
        hashed = rw q refl;
        left_over =
            rw (r, q)
              (sym (take-length_append (take (held ctx) ctx.buffer) input)
                ∙ ap (λ j. take j (stream ctx input)) length-held);
      }

  -- The input stays in the buffer.
  Took-kept :
      (k : Context)
      → k.buffer ≡ ctx.buffer
      → k.state ≡ ctx.state
      → 0 < n
      → held ctx + n < 64
      → Took (held ctx + n) (stream ctx input) ctx.state (update_rest input n (held ctx) k)
  unfolding process_blocks
  Took-kept k same_buffer same_state positive room =
      let none : n / 64 ≡ 0 = omega arith in
      let all : n % 64 ≡ n = omega arith in
      let more : (n == 0) ≡ false = ground arith in
      let q : (held ctx + n) / 64 ≡ 0 = omega arith in
      let r : (held ctx + n) % 64 ≡ held ctx + n = omega arith in
      rw (update_rest_lem input n (held ctx) k) (record {
        full_size =
            rw (all, more, none, same_buffer)
              (length-copy ctx.buffer input (held ctx) n size (omega arith) fits);
        hashed = rw (none, q) same_state;
        left_over =
            rw (all, more, none, same_buffer, r, q)
              (take-copy ctx.buffer input (held ctx) n (omega arith) fits
                ∙ sym (take-append_add (take (held ctx) ctx.buffer) n input)
                ∙ ap (λ j. take (j + n) (stream ctx input)) length-held);
      })

  full_block : copy ctx.buffer (held ctx) input (64 - held ctx) ≡ take 64 (stream ctx input)
  unfolding copy
  full_block =
      let fill = 64 - held ctx in
      let t = take (held ctx) ctx.buffer in
      let sixty_four : length t + fill ≡ 64 = omega (arith, length-held) in
      ap (λ ys. t ++ (take fill input ++ ys)) (drop_all (held ctx + fill) ctx.buffer (omega arith))
      ∙ ap (λ ys. t ++ ys) (append-nil (take fill input))
      ∙ sym (take-append_add t fill input)
      ∙ ap (λ j. take j (t ++ input)) sixty_four

  behind_block : drop (64 - held ctx) input ≡ drop 64 (stream ctx input)
  behind_block =
      let fill = 64 - held ctx in
      let t = take (held ctx) ctx.buffer in
      let sixty_four : length t + fill ≡ 64 = omega (arith, length-held) in
      sym (drop-append_add t fill input) ∙ ap (λ j. drop j (t ++ input)) sixty_four

  -- The input fills the buffer, which is a block.
  Took-filled :
      (k : Context)
      → k.buffer ≡ ctx.buffer
      → k.state ≡ ctx.state
      → 64 - held ctx ≤ n
      → (let fill = 64 - held ctx in
          let full = copy k.buffer (held ctx) input fill in
          Took (held ctx + n) (stream ctx input) ctx.state (
            update_rest
              (drop fill input)
              (n - fill)
              0
              (record k { buffer = full; state = sha1_process k.state full })))
  unfolding process_blocks
  Took-filled k same_buffer same_state enough =
      let fill = 64 - held ctx in
      let m = n - fill in
      let bytes = stream ctx input in
      let full = copy ctx.buffer (held ctx) input fill in
      let after = record k { buffer = full; state = sha1_process ctx.state full } in
      let q : (held ctx + n) / 64 ≡ suc (m / 64) = omega arith in
      let r : (held ctx + n) % 64 ≡ m % 64 = omega arith in
      let blocks : 64 * suc (m / 64) ≡ 64 + 64 * (m / 64) = omega arith in
      let took : Took m (drop fill input) (sha1_process ctx.state full)
          (update_rest (drop fill input) m 0 after) =
        update_rest-Took (drop fill input) m after
          (length-copy ctx.buffer input (held ctx) fill size (omega arith) (omega arith))
          (omega (arith, length-drop fill input)) in
      rw (same_buffer, same_state)
        (record {
          full_size = took.full_size;
          hashed = took.hashed ∙ rw (q, full_block, behind_block) refl;
          left_over =
              rw (r, q, blocks)
                (took.left_over
                  ∙ ap (λ ys. take (m % 64) (drop (64 * (m / 64)) ys)) behind_block
                  ∙ ap (take (m % 64)) (drop-drop 64 (64 * (m / 64)) bytes));
        })

  -- Nothing was in the buffer.
  Took-empty :
      (k : Context)
      → k.buffer ≡ ctx.buffer
      → k.state ≡ ctx.state
      → held ctx ≡ 0
      → Took (held ctx + n) (stream ctx input) ctx.state (update_rest input n (held ctx) k)
  Took-empty k same_buffer same_state e =
      let z : 0 + n ≡ n = omega arith in
      rw (e, z, ← same_state) (update_rest-Took input n k (rw same_buffer size) fits)

  -- Whatever is in the buffer and however long the input: the call takes the blocks of the stream,
  -- and keeps what is left of it.
  pub sha1_update-Took : Took (held ctx + n) (stream ctx input) ctx.state (sha1_update ctx input n)
  unfolding sha1_update count
  sha1_update-Took = rw (bit_and_sixty_three (ctx.total_0 / 8)) (elim (Bool-cases (n == 0)) [
    | inl e ↦ rw e (Took-none ((==_iff n 0).0 e))
    | inr e ↦ elim (Bool-cases (held ctx == 0)) [
      | inl z ↦ rw (e, z) (Took-empty (count n ctx) refl refl ((==_iff (held ctx) 0).0 z))
      | inr z ↦ elim (Bool-cases (leb (64 - held ctx) n)) [
        | inl f ↦ rw (e, z, f) (Took-filled (count n ctx) refl refl (leb→le (64 - held ctx) n f))
        | inr f ↦ rw (e, z, f) (Took-kept (count n ctx) refl refl (ground arith) (ground arith))
      ]
    ]
  ])
