-- ===== src/Binding/Transfer/Receive.antt =====
-- What `SocketReceive` and `SocketReceiveNow` of light/socket/src/socket.cpp give to Lua.
use light_lua.Prelude.{
  ℕ, suc, ◌^◌, ◌≡◌, ◌<◌, ◌∙◌, ap, sym, subst, to_uint64-pos, ◌⊎◌, inl, inr, ℤ, pos, negsuc, eqb_ℤ,
  ltb, lt→ltb, le→ltb, lt→==, ◌+◌, some, List, [], ◌∷◌, replicate, drop, length, arith, pos_part,
  if◌then◌else◌,
}
use light_lua.Memory.{block, new_array, delete_array, load_bytes, store_bytes}
use light_lua.Memory.Laws.{memset_zero-whole, zeros_with, store_bytes-zeros, load_bytes-stored}
use light_lua.Socket.{Socket}
use light_lua.Machine.{State, Live, at, moved, returns}
use light_lua.Machine.Laws.{load-at, at_self}
use light_lua.Backend.{Method, Received, Lua, Backend, ReceiveLaws}
use light_lua.Binding.Values.{Pushed, string, integer}
use light_lua.Binding.Transfer.{
  reserve, push_received, receive_with, socket_receive, socket_receive_now,
}
use light_lua.Binding.Transfer.Buffered.{with_buffer, reserve-at, clear-at, fill-at}

module _ {W F V : Type 0} (b : Backend W F V) where
  -- What Lua gets for a receive: its bytes, or an empty string with the reason.
  abbrev pub reported : Received → W → List Pushed
  reported r w =
      if ltb 0 (length r.bytes)
      then string r.bytes ∷ integer (pos 0) ∷ []
      else if eqb_ℤ r.ret (pos 0)
      then string [] ∷ integer b.econnreset ∷ []
      else string [] ∷ integer (b.get_error w) ∷ []

  push_received-reported :
      (p n : ℕ) (s s0 : Socket) (ret : ℤ) (bytes : List ℕ) (st : State W)
      → Live st p s0
      → (ret ≡ pos (length bytes)) ⊎ ((m : ℕ) × (ret ≡ negsuc m) × (bytes ≡ []))
      → push_received b p
          (load_bytes (pos_part ret))
          ret
          (at p (with_buffer (zeros_with n bytes) s) st)
        ≡ returns
            (reported (record { ret = ret; bytes = bytes }) st.world)
            (at p (with_buffer (zeros_with n bytes) s) st)
  unfolding push_received
  push_received-reported p n s s0 ret bytes st live (inr (m, e, f)) =
      rw (e, f, le→ltb (0 + suc m) (0 + 0) (omega arith), lt→== (0 + 0) (0 + suc m) (omega arith))
  push_received-reported p n s s0 ret [] st live (inl e) = rw e
  push_received-reported p n s s0 ret (x ∷ bytes) st live (inl e) = rw (
    e,
    lt→ltb (0 + 0) (suc (length bytes) + 0) (omega arith),
    lt→ltb 0 (suc (length bytes)) (omega arith),
    load-at p st live (with_buffer (zeros_with n (x ∷ bytes)) s),
    load_bytes-stored (x ∷ bytes) (drop (length (x ∷ bytes)) (replicate n (some 0))),
  )

module _ {W F V : Type 0} (b : Backend W F V) (l : Lua V) where
  -- The socket and the state that a receive is made in, and what it leaves.
  abbrev pub cleared : ℕ → Socket → Socket
  cleared n s = with_buffer (block (replicate (n + 1) (some 0))) s

  pub receive_with-delivers :
      (call : ℕ → Method W Received) (self size_arg : V) (p n : ℕ) (s : Socket) (st : State W)
      → ReceiveLaws call
      → Live st p s
      → delete_array s.buffer ≡ some tt
      → s.buffer_size < n
      → n + 1 < 2 ^ 63
      → l.to_userdata self ≡ some p
      → l.check_integer size_arg ≡ some (pos n)
      → receive_with b l call self size_arg st ≡ (
          let (r, s', w') = call n (cleared n s) st.world in
          returns (reported b r w') (moved p (with_buffer (zeros_with (n + 1) r.bytes) s') w' st))
  receive_with-delivers call self size_arg p n s st laws live d h k eu es =
      let (r, s', w') = call n (cleared n s) st.world in
      let st' : State W = record st { world = w' } in
      let stored =
        subst (λ buffer. store_bytes r.bytes buffer ≡ some (zeros_with (n + 1) r.bytes))
          (sym (laws.kept n (cleared n s) st.world))
          (store_bytes-zeros (n + 1) r.bytes (omega (arith, laws.fits n (cleared n s) st.world))) in
      rw (
        es,
        eu,
        ap (reserve p (pos n)) (sym (at_self p st live)) ∙ reserve-at p st live s n d h k,
        lt→ltb (n + 1) (2 ^ 63) k,
        clear-at p st live (with_buffer (new_array (n + 1)) s) (n + 1) _
            (memset_zero-whole (n + 1)),
        to_uint64-pos n (omega arith),
        fill-at p st live (cleared n s) (call n) (zeros_with (n + 1) r.bytes) stored,
        push_received-reported b p (n + 1) s' s r.ret r.bytes st' live
            (laws.counted n (cleared n s) st.world),
      )

  -- With a live socket whose buffer is not freed, a size above its `bufferSize` and below 2^63 - 1,
  -- and a call that keeps the receive laws, both functions return. They make one call, with the
  -- size, on the socket with a cleared buffer of one byte more. Lua gets all the bytes received and
  -- 0, for no byte an empty string and ECONNRESET, and for a failure an empty string and the error.
  -- The socket keeps the call's changes, and its buffer holds the bytes and zeros behind them.
  pub socket_receive_delivers :
      (self size_arg : V) (p n : ℕ) (s : Socket) (st : State W)
      → ReceiveLaws b.receive
      → ReceiveLaws b.receive_now
      → Live st p s
      → delete_array s.buffer ≡ some tt
      → s.buffer_size < n
      → n + 1 < 2 ^ 63
      → l.to_userdata self ≡ some p
      → l.check_integer size_arg ≡ some (pos n)
      → (socket_receive b l self size_arg st ≡ (
          let (r, s', w') = b.receive n (cleared n s) st.world in
          returns (reported b r w') (moved p (with_buffer (zeros_with (n + 1) r.bytes) s') w' st)))
        × (socket_receive_now b l self size_arg st ≡ (
            let (r, s', w') = b.receive_now n (cleared n s) st.world in
            returns
              (reported b r w')
              (moved p (with_buffer (zeros_with (n + 1) r.bytes) s') w' st)))
  unfolding socket_receive socket_receive_now
  socket_receive_delivers self size_arg p n s st laws laws_now live d h k eu es = (
    receive_with-delivers b.receive self size_arg p n s st laws live d h k eu es,
    receive_with-delivers b.receive_now self size_arg p n s st laws_now live d h k eu es,
  )
