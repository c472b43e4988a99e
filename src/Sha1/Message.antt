-- ===== src/Sha1/Message.antt =====
-- A context of light/socket/src/sha1.c stands for the message that it was given, and `sha1_update`
-- appends to it.
use light_lua.Prelude.{
  ℕ, zero, suc, ◌+◌, ◌-◌, ◌*◌, ◌/◌, ◌%◌, ◌^◌, ◌≤◌, ◌<◌, ◌≡◌, inl, inr, refl, sym, ap, ◌∙◌, bit_and,
  not, leb, ltb, ◌==◌, ==_iff, Bool-cases, ◌&&◌, if◌then◌else◌, true, false, List, ◌++◌, length,
  take, drop, length-append, take-append_le, arith,
}
use light_lua.Prelude.Bits.{bit_and_word}
use light_lua.Prelude.Slices.{
  length-take_le, take-append_add, drop-append_le, drop-drop, drop-take, take-take_le,
}
use light_lua.Sha1.Words.{add32, shl32}
use light_lua.Sha1.Lines.{Registers}
use light_lua.Sha1.Process.{sha1_process}
use light_lua.Sha1.Loop.{process_blocks}
use light_lua.Sha1.Context.{Context, initial_state, count, update_rest, sha1_update}
use light_lua.Sha1.Absorbing.{held, stream, sha1_update-Took}

-- The context after `msg`: the bits are counted modulo 2^64, the whole blocks are hashed, and the
-- buffer holds the bytes behind them.
pub record Represents (ctx : Context) (msg : List ℕ) : Type 0 where
  pub full_size : length ctx.buffer ≡ 64
  pub low : ctx.total_0 < 2 ^ 32
  pub high : ctx.total_1 < 2 ^ 32
  pub counted : ctx.total_1 * 2 ^ 32 + ctx.total_0 ≡ 8 * length msg % 2 ^ 64
  pub hashed : ctx.state ≡ process_blocks (length msg / 64) initial_state msg
  pub pending : take (length msg % 64) ctx.buffer ≡ drop (64 * (length msg / 64)) msg

pub process_blocks-take :
    (k m : ℕ) (s : Registers) (xs : List ℕ)
    → 64 * k ≤ m
    → process_blocks k s (take m xs) ≡ process_blocks k s xs
unfolding process_blocks
process_blocks-take zero m s xs h = refl
process_blocks-take (suc k) m s xs h =
    let split : 64 + (m - 64) ≡ m = omega arith in
    let shorter : drop 64 (take m xs) ≡ take (m - 64) (drop 64 xs) =
      ap (λ j. drop 64 (take j xs)) (sym split) ∙ drop-take 64 (m - 64) xs in
    rw (take-take_le 64 m xs (omega arith), shorter)
      (process_blocks-take k (m - 64) (sha1_process s (take 64 xs)) (drop 64 xs) (omega arith))

pub process_blocks_add :
    (j k : ℕ) (s : Registers) (xs : List ℕ)
    → process_blocks (j + k) s xs ≡ process_blocks k (process_blocks j s xs) (drop (64 * j) xs)
unfolding process_blocks
process_blocks_add zero k s xs = let e : 0 + k ≡ k = omega arith in rw e
process_blocks_add (suc j) k s xs =
    let e : suc j + k ≡ suc (j + k) = omega arith in
    let f : 64 * suc j ≡ 64 + 64 * j = omega arith in
    rw (e, f)
      (process_blocks_add j k (sha1_process s (take 64 xs)) (drop 64 xs)
        ∙ ap (process_blocks k (process_blocks j (sha1_process s (take 64 xs)) (drop 64 xs)))
            (drop-drop 64 (64 * j) xs))

-- The counters.
totals :
    (t0 t1 n l : ℕ)
    → t0 < 2 ^ 32
    → t1 * 2 ^ 32 + t0 ≡ 8 * l % 2 ^ 64
    → n < 2 ^ 32
    → (let t0' = bit_and (add32 t0 (shl32 n 3)) 0xFFFFFFFF in
        let t1' = add32 (add32 t1 (n / 2 ^ 29)) (if ltb t0' (shl32 n 3) then 1 else 0) in
        (t0' < 2 ^ 32) × (t1' < 2 ^ 32) × (t1' * 2 ^ 32 + t0' ≡ 8 * (l + n) % 2 ^ 64))
unfolding add32
totals t0 t1 n l h e k =
    rw (bit_and_word ((t0 + n * 2 ^ 3 % 2 ^ 32) % 2 ^ 32)) (omega arith, omega arith, ground arith)

sha1_update-totals :
    (ctx : Context) (input : List ℕ) (n : ℕ)
    → 0 < n
    → ((sha1_update ctx input n).total_0 ≡ (count n ctx).total_0)
      × ((sha1_update ctx input n).total_1 ≡ (count n ctx).total_1)
unfolding sha1_update update_rest
sha1_update-totals ctx input n h =
    let left = bit_and (ctx.total_0 / 2 ^ 3) 0x3F in
    let some_input : (n == 0) ≡ false = ground arith in
    elim (Bool-cases (not (left == 0) && leb (64 - left) n)) [
      | inl e ↦ rw (some_input, e) (refl, refl)
      | inr e ↦ rw (some_input, e) (refl, refl)
    ]

sha1_update-none :
    (ctx : Context) (input : List ℕ) (n : ℕ) → (n == 0) ≡ true → sha1_update ctx input n ≡ ctx
unfolding sha1_update
sha1_update-none ctx input n e = rw e refl

module _ (ctx : Context) (msg input : List ℕ) (n : ℕ) (stands : Represents ctx msg)
    (fits : n ≤ length input) where
  abbrev q : ℕ
  q = length msg / 64

  abbrev longer : List ℕ
  longer = msg ++ take n input

  held_lem : held ctx ≡ length msg % 64
  held_lem = omega (arith, stands.counted, stands.low)

  length-longer : length longer ≡ length msg + n
  length-longer = omega (arith, length-append msg (take n input), length-take_le n input fits)

  -- The buffered bytes are the message behind its whole blocks.
  tail_lem : take (held ctx) ctx.buffer ≡ drop (64 * q) msg
  tail_lem = rw held_lem stands.pending

  stream_lem : take (held ctx + n) (stream ctx input) ≡ drop (64 * q) longer
  stream_lem =
      let t = take (held ctx) ctx.buffer in
      let size : length t ≡ held ctx =
        length-take_le (held ctx) ctx.buffer (omega (arith, stands.full_size)) in
      ap (λ j. take (j + n) (t ++ input)) (sym size)
      ∙ take-append_add t n input
      ∙ ap (λ ys. ys ++ take n input) tail_lem
      ∙ sym (drop-append_le (64 * q) msg (take n input) (omega arith))

  abbrev blocks : ℕ
  blocks = (held ctx + n) / 64

  new_blocks : length longer / 64 ≡ q + blocks
  new_blocks = omega (arith, length-longer, held_lem)

  new_rest : length longer % 64 ≡ (held ctx + n) % 64
  new_rest = omega (arith, length-longer, held_lem)

  same_start : process_blocks q initial_state msg ≡ process_blocks q initial_state longer
  same_start =
      sym (process_blocks-take q (64 * q) initial_state msg (omega arith))
      ∙ ap (process_blocks q initial_state)
          (sym (take-append_le (64 * q) msg (take n input) (omega arith)))
      ∙ process_blocks-take q (64 * q) initial_state longer (omega arith)

  rest_lem :
      take ((held ctx + n) % 64) (drop (64 * blocks) (stream ctx input))
      ≡ drop (64 * (q + blocks)) longer
  rest_lem =
      let split : 64 * blocks + (held ctx + n) % 64 ≡ held ctx + n = omega arith in
      let sum : 64 * q + 64 * blocks ≡ 64 * (q + blocks) = omega arith in
      sym (drop-take (64 * blocks) ((held ctx + n) % 64) (stream ctx input))
      ∙ ap (λ j. drop (64 * blocks) (take j (stream ctx input))) split
      ∙ ap (drop (64 * blocks)) stream_lem
      ∙ drop-drop (64 * q) (64 * blocks) longer
      ∙ ap (λ j. drop j longer) sum

  totals_after :
      n < 2 ^ 32
      → ((sha1_update ctx input n).total_0 < 2 ^ 32)
        × ((sha1_update ctx input n).total_1 < 2 ^ 32)
        × ((sha1_update ctx input n).total_1 * 2 ^ 32 + (sha1_update ctx input n).total_0
            ≡ 8 * length longer % 2 ^ 64)
  unfolding count
  totals_after small = elim (Bool-cases (n == 0)) [
    | inl e ↦
        let none : n ≡ 0 = (==_iff n 0).0 e in
        rw (sha1_update-none ctx input n e)
          (stands.low, stands.high, omega (arith, none, length-longer, stands.counted))
    | inr e ↦
        let (e0, e1) = sha1_update-totals ctx input n (ground arith) in
        rw (e0, e1, length-longer)
          (totals ctx.total_0 ctx.total_1 n (length msg) stands.low stands.counted small)
  ]

  -- Where a context stands for a message, `sha1_update` with a length below 2^32 that the input has
  -- makes it stand for the message with the first bytes of the input, as many, appended.
  pub sha1_update-Represents : n < 2 ^ 32 → Represents (sha1_update ctx input n) longer
  sha1_update-Represents small =
      let took = sha1_update-Took ctx input n stands.full_size fits in
      let (low, high, counted) = totals_after small in
      record {
        full_size = took.full_size;
        low = low;
        high = high;
        counted = counted;
        hashed =
            took.hashed
            ∙ sym (
                process_blocks-take blocks (held ctx + n) ctx.state (stream ctx input)
                  (omega arith))
            ∙ ap (process_blocks blocks ctx.state) stream_lem
            ∙ ap (λ s. process_blocks blocks s (drop (64 * q) longer)) (stands.hashed ∙ same_start)
            ∙ sym (process_blocks_add q blocks initial_state longer)
            ∙ ap (λ j. process_blocks j initial_state longer) (sym new_blocks);
        pending = rw (new_rest, new_blocks) (took.left_over ∙ rest_lem);
      }
