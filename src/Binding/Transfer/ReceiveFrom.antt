-- ===== src/Binding/Transfer/ReceiveFrom.antt =====
-- What `SocketReceiveFrom` and `SocketReceiveFromNow` of light/socket/src/socket.cpp give to Lua.
use light_lua.Prelude.{
  ℕ, suc, ◌+◌, ◌^◌, ◌≡◌, ◌<◌, ◌∙◌, ap, sym, subst, ◌⊎◌, inl, inr, ℤ, pos, negsuc, eqb_ℤ, ltb,
  lt→ltb, le→ltb, lt→==, some, List, [], ◌∷◌, length, arith, to_uint64, to_uint64-pos,
  if◌then◌else◌,
}
use light_lua.Memory.{new_array, delete_array, load_c_string, store_bytes, c_prefix}
use light_lua.Memory.Laws.{
  memset_zero-but_last, cleared_but_last, last_open_with, store_bytes-but_last, load_c_string-short,
  load_c_string-full,
}
use light_lua.Socket.{Socket}
use light_lua.Machine.{State, Live, at, moved, returns, undefined}
use light_lua.Machine.Laws.{load-at, at_self}
use light_lua.Backend.{Method, Received, Lua, Backend, ReceiveLaws}
use light_lua.Binding.Values.{Pushed, string, integer}
use light_lua.Binding.Transfer.{
  reserve, push_received, receive_from_with, socket_receive_from, socket_receive_from_now,
}
use light_lua.Binding.Transfer.Buffered.{with_buffer, reserve-at, clear-at, fill-at}

module _ {W F V : Type 0} (b : Backend W F V) where
  -- What Lua gets for a datagram: its text up to the first zero, or an empty string with the reason.
  abbrev pub reported_text : Received → W → List Pushed
  reported_text r w =
      if ltb 0 (length r.bytes)
      then string (c_prefix r.bytes) ∷ integer (pos 0) ∷ []
      else if eqb_ℤ r.ret (pos 0)
      then string [] ∷ integer b.econnreset ∷ []
      else string [] ∷ integer (b.get_error w) ∷ []

  module _ (p n : ℕ) (s : Socket) {s0 : Socket} (st : State W) (live : Live st p s0) where
    push_received-text :
        (ret : ℤ) (bytes : List ℕ)
        → length bytes < n
        → (ret ≡ pos (length bytes)) ⊎ ((m : ℕ) × (ret ≡ negsuc m) × (bytes ≡ []))
        → push_received b p load_c_string ret (at p (with_buffer (last_open_with n bytes) s) st)
          ≡ returns
              (reported_text (record { ret = ret; bytes = bytes }) st.world)
              (at p (with_buffer (last_open_with n bytes) s) st)
    unfolding push_received
    push_received-text ret bytes h (inr (m, e, f)) =
        rw (e, f, le→ltb (0 + suc m) (0 + 0) (omega arith), lt→== (0 + 0) (0 + suc m) (omega arith))
    push_received-text ret [] h (inl e) = rw e
    push_received-text ret (x ∷ bytes) h (inl e) = rw (
      e,
      lt→ltb (0 + 0) (suc (length bytes) + 0) (omega arith),
      lt→ltb 0 (suc (length bytes)) (omega arith),
      load-at p st live (with_buffer (last_open_with n (x ∷ bytes)) s),
      load_c_string-short n (x ∷ bytes) h,
    )

    push_received-overread :
        (bytes : List ℕ)
        → 0 < n
        → length bytes ≡ n
        → c_prefix bytes ≡ bytes
        → push_received b p load_c_string (pos n) (at p (with_buffer (last_open_with n bytes) s) st)
          ≡ undefined
    unfolding push_received
    push_received-overread bytes h e c = rw (
      lt→ltb (0 + 0) (n + 0) (omega arith),
      load-at p st live (with_buffer (last_open_with n bytes) s),
      load_c_string-full n bytes e c,
    )

module _ {W F V : Type 0} (b : Backend W F V) (l : Lua V) where
  abbrev pub half_cleared : ℕ → Socket → Socket
  half_cleared n s = with_buffer (cleared_but_last n) s

  -- A socket, a size and an address that the call takes.
  pub record Ready (self size_arg address_arg port_arg : V) (p n : ℕ) (address : List ℕ) (port : ℤ)
      (s : Socket) (st : State W) : Type 0 where
    pub live : Live st p s
    pub deletable : delete_array s.buffer ≡ some tt
    pub above : s.buffer_size < n
    pub below : n + 1 < 2 ^ 63
    pub is_self : l.to_userdata self ≡ some p
    pub is_size : l.check_integer size_arg ≡ some (pos n)
    pub is_address : l.check_string address_arg ≡ some address
    pub is_port : l.check_integer port_arg ≡ some port

  module _ (self size_arg address_arg port_arg : V) (p n : ℕ) (address : List ℕ) (port : ℤ)
      (s : Socket) (st : State W)
      (ready : Ready self size_arg address_arg port_arg p n address port s st) where
    -- The run up to the last step, in which the result is pushed.
    receive_from_with-filled :
        (call : List ℕ → ℕ → ℕ → Method W Received)
        → ReceiveLaws (call address (to_uint64 port))
        → receive_from_with b l call self size_arg address_arg port_arg st ≡ (
            let (r, s', w') = call address (to_uint64 port) n (half_cleared n s) st.world in
            push_received b p load_c_string r.ret
              (moved p (with_buffer (last_open_with n r.bytes) s') w' st))
    receive_from_with-filled call laws =
        let (r, s', w') = call address (to_uint64 port) n (half_cleared n s) st.world in
        let stored =
          subst (λ buffer. store_bytes r.bytes buffer ≡ some (last_open_with n r.bytes))
            (sym (laws.kept n (half_cleared n s) st.world))
            (store_bytes-but_last n r.bytes (laws.fits n (half_cleared n s) st.world)) in
        rw (
          ready.is_size,
          ready.is_address,
          ready.is_port,
          ready.is_self,
          ap (reserve p (pos n)) (sym (at_self p st ready.live))
              ∙ reserve-at p st ready.live s n ready.deletable ready.above ready.below,
          to_uint64-pos n (omega (arith, ready.below)),
          clear-at p st ready.live (with_buffer (new_array (n + 1)) s) n _ (memset_zero-but_last n),
          fill-at p st ready.live (half_cleared n s) (call address (to_uint64 port) n)
              (last_open_with n r.bytes) stored,
        )

    pub receive_from_with-text :
        (call : List ℕ → ℕ → ℕ → Method W Received)
        → ReceiveLaws (call address (to_uint64 port))
        → length (call address (to_uint64 port) n (half_cleared n s) st.world).0.bytes < n
        → receive_from_with b l call self size_arg address_arg port_arg st ≡ (
            let (r, s', w') = call address (to_uint64 port) n (half_cleared n s) st.world in
            returns
              (reported_text b r w')
              (moved p (with_buffer (last_open_with n r.bytes) s') w' st))
    receive_from_with-text call laws h =
        let (r, s', w') = call address (to_uint64 port) n (half_cleared n s) st.world in
        receive_from_with-filled call laws
        ∙ push_received-text b p n s' (record st { world = w' }) ready.live r.ret r.bytes h
            (laws.counted n (half_cleared n s) st.world)

    receive_from_with-overread :
        (call : List ℕ → ℕ → ℕ → Method W Received) (bytes : List ℕ)
        → (call address (to_uint64 port) n (half_cleared n s) st.world).0
          ≡ record { ret = pos n; bytes = bytes }
        → ReceiveLaws (call address (to_uint64 port))
        → length bytes ≡ n
        → c_prefix bytes ≡ bytes
        → receive_from_with b l call self size_arg address_arg port_arg st ≡ undefined
    receive_from_with-overread call bytes e laws h c =
        let (r, s', w') = call address (to_uint64 port) n (half_cleared n s) st.world in
        receive_from_with-filled call laws
        ∙ rw e (
            push_received-overread b p n s' (record st { world = w' }) ready.live bytes
              (omega (arith, ready.above)) h c)

    -- On a live socket whose buffer is not freed, with a size above its `bufferSize` and below
    -- 2^63 - 1, and where the call keeps the receive laws and stores fewer bytes than the size, both
    -- functions return. Lua gets the bytes in front of the first zero byte and 0, for no byte an
    -- empty string and ECONNRESET, and for a failure an empty string and the error.
    pub socket_receive_from_text :
        ReceiveLaws (b.receive_from address (to_uint64 port))
        → ReceiveLaws (b.receive_from_now address (to_uint64 port))
        → length (b.receive_from address (to_uint64 port) n (half_cleared n s) st.world).0.bytes < n
        → length (b.receive_from_now address (to_uint64 port) n (half_cleared n s) st.world).0.bytes
          < n
        → (socket_receive_from b l self size_arg address_arg port_arg st ≡ (
            let (r, s', w') =
              b.receive_from address (to_uint64 port) n (half_cleared n s) st.world in
            returns
              (reported_text b r w')
              (moved p (with_buffer (last_open_with n r.bytes) s') w' st)))
          × (socket_receive_from_now b l self size_arg address_arg port_arg st ≡ (
              let (r, s', w') =
                b.receive_from_now address (to_uint64 port) n (half_cleared n s) st.world in
              returns
                (reported_text b r w')
                (moved p (with_buffer (last_open_with n r.bytes) s') w' st)))
    unfolding socket_receive_from socket_receive_from_now
    socket_receive_from_text laws laws_now h h_now = (
      receive_from_with-text b.receive_from laws h,
      receive_from_with-text b.receive_from_now laws_now h_now,
    )

    -- On such a socket, a datagram that fills the size and has no zero byte makes the function read
    -- the byte behind it, which was never written: its behaviour is undefined.
    pub socket_receive_from_overread :
        (bytes : List ℕ)
        → (b.receive_from address (to_uint64 port) n (half_cleared n s) st.world).0
          ≡ record { ret = pos n; bytes = bytes }
        → ReceiveLaws (b.receive_from address (to_uint64 port))
        → length bytes ≡ n
        → c_prefix bytes ≡ bytes
        → socket_receive_from b l self size_arg address_arg port_arg st ≡ undefined
    unfolding socket_receive_from
    socket_receive_from_overread = receive_from_with-overread b.receive_from
