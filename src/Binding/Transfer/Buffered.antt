-- ===== src/Binding/Transfer/Buffered.antt =====
-- The steps of a receive of light/socket/src/socket.cpp, on a live socket.
use light_lua.Prelude.{ℕ, ◌+◌, ◌^◌, ◌≡◌, refl, ◌<◌, pos, lt→ltb, Option, some, arith}
use light_lua.Memory.{Buffer, new_array, delete_array, memset_zero, store_bytes}
use light_lua.Socket.{Socket}
use light_lua.Machine.{State, Live, at, moved, returns}
use light_lua.Machine.Laws.{load-at, store-at, method-at}
use light_lua.Backend.{Method, Received}
use light_lua.Binding.Transfer.{set_buffer, reserve, clear, fill}

abbrev pub with_buffer : Buffer → Socket → Socket
with_buffer b s = record s { buffer = b }

module _ {W : Type 0} (p : ℕ) (st : State W) {s0 : Socket} (live : Live st p s0) where
  set_buffer-at :
      (s : Socket) (b : Buffer) (o : Option Buffer)
      → o ≡ some b
      → set_buffer p o (at p s st) ≡ returns tt (at p (with_buffer b s) st)
  set_buffer-at s b o e = rw (e, load-at p st live s, store-at p st live s (with_buffer b s))

  -- A size above `bufferSize` gets a fresh block of one byte more.
  pub reserve-at :
      (s : Socket) (n : ℕ)
      → delete_array s.buffer ≡ some tt
      → s.buffer_size < n
      → n + 1 < 2 ^ 63
      → reserve p (pos n) (at p s st) ≡ returns tt (at p (with_buffer (new_array (n + 1)) s) st)
  unfolding reserve
  reserve-at s n d h k =
      rw
        (
          load-at p st live s,
          lt→ltb (s.buffer_size + 0) (n + 0) (omega arith),
          d,
          lt→ltb (n + 1) (2 ^ 63) k,
        )
        (set_buffer-at s (new_array (n + 1)) (some (new_array (n + 1))) refl)

  pub clear-at :
      (s : Socket) (n : ℕ) (b : Buffer)
      → memset_zero n s.buffer ≡ some b
      → clear p n (at p s st) ≡ returns tt (at p (with_buffer b s) st)
  unfolding clear
  clear-at s n b e = rw (load-at p st live s) (set_buffer-at s b (memset_zero n s.buffer) e)

module _ {W : Type 0} (p : ℕ) (st : State W) {s0 : Socket} (live : Live st p s0) where
  pub fill-at :
      (s : Socket) (call : Method W Received) (b : Buffer)
      → store_bytes (call s st.world).0.bytes (call s st.world).1.buffer ≡ some b
      → fill p call (at p s st)
        ≡ (let (r, s', w') = call s st.world in returns r.ret (moved p (with_buffer b s') w' st))
  unfolding fill
  fill-at s call b e =
      let (r, s', w') = call s st.world in
      let st' : State W = record st { world = w' } in
      rw (method-at p st live s call, load-at p st' live s', set_buffer-at p st' live s' b _ e)
