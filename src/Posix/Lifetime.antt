-- ===== src/Posix/Lifetime.antt =====
-- Addresses, closing and the blocking mode on POSIX: socket.cpp over socket_posix.cpp.
use light_lua.Prelude.{
  ℕ, ◌%◌, ◌^◌, ◌<◌, ◌≡◌, refl, pos, leb_ℤ, eqb_ℤ, if◌then◌else◌, to_uint16, true, inl, inr, ◌==◌,
  to_uint16_lem, Bool-cases, set-get_elem?, some, List, [], ◌∷◌, arith,
}
use light_lua.Socket.{Socket, SockAddr}
use light_lua.Machine.{State, Live, ◌>>=◌, returns, load, method}
use light_lua.Backend.{Lua}
use light_lua.Binding.Values.{boolean, integer}
use light_lua.Binding.Finish.{socket_close, socket_is_closed}
use light_lua.Posix.{posix}
use light_lua.Posix.Kernel.{Os, FdSets}
use light_lua.Posix.Calls.{
  get_address, endpoint, connect, connect_now, bind, close, is_closed, set_non_block, set_block,
}

module _ {W F : Type 0} (os : Os W F) where
  connect_now-addr :
      (host : List ℕ) (port : ℕ) (s : Socket) (w : W)
      → (connect_now os host port s w).1.impl.addr ≡ endpoint os host port
  unfolding connect_now set_non_block set_block
  connect_now-addr host port s w = elim (Bool-cases (s.is_nonblock == 0)) [
    | inl e ↦ rw e
    | inr e ↦ rw e
  ]

module _ {W F : Type 0} (os : Os W F)
    (twice : (n : ℕ) → n < 2 ^ 16 → os.htons (os.htons n) ≡ n) where
  -- Where `htons` undoes itself on 16-bit numbers, the port that a socket reports after `Connect`,
  -- `ConnectNow` or `Bind` is the port that was given, modulo 2^16, whatever the call returned.
  pub get_address-port :
      (host : List ℕ) (port len : ℕ) (s : Socket) (w : W)
      → ((get_address os (connect os host port s w).1 len).1 ≡ port % 2 ^ 16)
        × ((get_address os (connect_now os host port s w).1 len).1 ≡ port % 2 ^ 16)
        × ((get_address os (bind os host port s w).1 len).1 ≡ port % 2 ^ 16)
  unfolding get_address connect bind endpoint
  get_address-port host port len s w =
      let given : os.htons (os.htons (to_uint16 port)) ≡ port % 2 ^ 16 =
        rw (to_uint16_lem port) (twice (port % 2 ^ 16) (omega arith)) in
      (given, rw (connect_now-addr os host port s w) given, given)

module _ {W F : Type 0} (os : Os W F) where
  -- Where the first bytes of a `sockaddr_in` hold its family and port only, the address that a
  -- socket reports after `Connect` does not depend on the host that it was connected to.
  pub get_address-ignores_host :
      ((a c : SockAddr)
        → a.sin_family ≡ c.sin_family
        → a.sin_port ≡ c.sin_port
        → os.head_of a ≡ os.head_of c)
      → (host other : List ℕ) (port len : ℕ) (s : Socket) (w : W)
      → get_address os (connect os host port s w).1 len
        ≡ get_address os (connect os other port s w).1 len
  unfolding get_address connect endpoint
  get_address-ignores_host head host other port len s w =
      rw (head (endpoint os host port) (endpoint os other port) refl refl)

  -- The mode flag of a socket is the same after `ConnectNow` as before, if it is 0 or 1.
  connect_now-is_nonblock :
      (host : List ℕ) (port : ℕ) (s : Socket) (w : W)
      → s.is_nonblock < 2
      → (connect_now os host port s w).1.is_nonblock ≡ s.is_nonblock
  unfolding connect_now set_non_block set_block
  connect_now-is_nonblock host port s w h = ground arith

module _ {W F V : Type 0} (os : Os W F) (fs : FdSets F) (l : Lua V) where
  -- `isClosed` on POSIX answers true for exactly the sockets that have a descriptor.
  pub socket_is_closed_inverted :
      (self : V) (p : ℕ) (s : Socket) (st : State W)
      → l.to_userdata self ≡ some p
      → Live st p s
      → socket_is_closed (posix os fs l) l self st
        ≡ returns (boolean (leb_ℤ (pos 0) s.impl.fd) ∷ []) st
  unfolding socket_is_closed posix is_closed load
  socket_is_closed_inverted self p s st e live =
      rw (e, live, load)
        (elim (Bool-cases (leb_ℤ (pos 0) s.impl.fd)) [
          | inl x ↦ rw (x, is_closed)
          | inr x ↦ rw (x, is_closed)
        ])

  socket_close-open :
      (self : V) (p : ℕ) (s : Socket) (st : State W)
      → l.to_userdata self ≡ some p
      → Live st p s
      → leb_ℤ (pos 0) s.impl.fd ≡ true
      → (let (ret, w) = os.close s.impl.fd st.world in
          socket_close (posix os fs l) l self st
          ≡ returns
              (integer (if eqb_ℤ ret (pos 0) then ret else os.errno w) ∷ [])
              (record st { world = w }))
  unfolding socket_close posix close method
  socket_close-open self p s st e live h =
      rw (e, method, live, h, set-get_elem? st.sockets p s live)
        (elim (Bool-cases (eqb_ℤ (os.close s.impl.fd st.world).0 (pos 0))) [
          | inl x ↦ rw x
          | inr x ↦ rw x
        ])

  -- Closing a socket that has a descriptor closes it in the system, and leaves the socket as it
  -- was: a second `close` closes the same descriptor again. Lua gets 0 or the error each time.
  pub socket_close_again :
      (self : V) (p : ℕ) (s : Socket) (st : State W)
      → l.to_userdata self ≡ some p
      → Live st p s
      → leb_ℤ (pos 0) s.impl.fd ≡ true
      → (let (ret, w) = os.close s.impl.fd st.world in
          let (ret', w') = os.close s.impl.fd w in
          (socket_close (posix os fs l) l self >>= λ _. socket_close (posix os fs l) l self) st
          ≡ returns
              (integer (if eqb_ℤ ret' (pos 0) then ret' else os.errno w') ∷ [])
              (record st { world = w' }))
  socket_close_again self p s st e live h =
      let w = (os.close s.impl.fd st.world).1 in
      rw (socket_close-open self p s st e live h)
        (socket_close-open self p s (record st { world = w }) e live h)
