-- ===== src/Mswin/Lifetime.antt =====
-- Starting, closing and the addresses on Windows: socket.cpp over socket_mswin.cpp.
use light_lua.Prelude.{
  sym, ℕ, ◌≡◌, refl, ℤ, pos, minus_one, true, false, inl, inr, ◌==◌, eqb_ℤ, if◌then◌else◌, to_int32,
  to_int8, Bool-cases, ==_iff, ap, set-get_elem?, get_elem?-set-some, some, [], ◌∷◌, arith,
}
use light_lua.Socket.{Socket}
use light_lua.Machine.{State, Live, moved, ◌>>=◌, returns, load, method}
use light_lua.Backend.{Lua}
use light_lua.Binding.Values.{boolean, integer}
use light_lua.Binding.Finish.{socket_close, socket_shutdown, socket_is_closed}
use light_lua.Posix.Kernel.{FdSets}
use light_lua.Binding.Lifecycle.{clamped, socket_shutdown_lem}
use light_lua.Mswin.{mswin}
use light_lua.Mswin.Winsock.{Winsock, Process}
use light_lua.Mswin.Calls.{invalid_socket, fd_of, check_start, is_closed, set_fd}
use light_lua.Mswin.Ending.{close, shutdown, get_error}

module _ {W F : Type 0} (sys : Winsock W F) where
  -- Where `checkStart` answers true, Winsock counts as started, and a second `checkStart` answers
  -- true again and does nothing.
  check_start_once :
      (g : Process W)
      → (check_start sys g).0 ≡ true
      → ((check_start sys g).1.wsa_start_up ≡ true)
        × (check_start sys (check_start sys g).1 ≡ check_start sys g)
  unfolding check_start
  check_start_once g h = ground (arith, h)

  pub shutdown-fd :
      (how : ℤ) (s : Socket) (g : Process W) → fd_of (shutdown sys how s g).1 ≡ invalid_socket
  unfolding shutdown close
  shutdown-fd how s g = elim (Bool-cases (fd_of s == invalid_socket)) [
    | inl x ↦ rw x ((==_iff (fd_of s) invalid_socket).0 x)
    | inr x ↦ rw x refl
  ]

  shutdown-refused :
      ((how : ℤ) (w : W) → (sys.shutdown invalid_socket how w).0 ≡ minus_one)
      → (how : ℤ) (s : Socket) (g : Process W) → (shutdown sys how s g).0 ≡ minus_one
  unfolding shutdown
  shutdown-refused refused how s g = rw (shutdown-fd how s g) (refused how _)

module _ {W F V : Type 0} (sys : Winsock W F) (fs : FdSets F) (l : Lua V) where
  -- `isClosed` on Windows answers true for exactly the sockets that hold `INVALID_SOCKET`.
  pub socket_is_closed_invalid :
      (self : V) (p : ℕ) (s : Socket) (st : State (Process W))
      → l.to_userdata self ≡ some p
      → Live st p s
      → socket_is_closed (mswin sys fs l) l self st
        ≡ returns (boolean (fd_of s == invalid_socket) ∷ []) st
  unfolding socket_is_closed mswin is_closed load
  socket_is_closed_invalid self p s st e live =
      rw (e, live, load)
        (elim (Bool-cases (fd_of s == invalid_socket)) [
          | inl x ↦ rw (x, is_closed)
          | inr x ↦ rw (x, is_closed)
        ])

  socket_close-invalid :
      (self : V) (p : ℕ) (s : Socket) (st : State (Process W))
      → l.to_userdata self ≡ some p
      → Live st p s
      → (fd_of s == invalid_socket) ≡ true
      → socket_close (mswin sys fs l) l self st ≡ returns (integer (pos 0) ∷ []) st
  unfolding socket_close mswin close method
  socket_close-invalid self p s st e live h =
      rw (e, method, live, h, set-get_elem? st.sockets p s live) refl

  socket_close-open :
      (self : V) (p : ℕ) (s : Socket) (st : State (Process W))
      → l.to_userdata self ≡ some p
      → Live st p s
      → (fd_of s == invalid_socket) ≡ false
      → (let (ret, w) = sys.closesocket (fd_of s) st.world.world in
          let g = record st.world { world = w } in
          socket_close (mswin sys fs l) l self st
          ≡ returns
              (integer (if eqb_ℤ ret (pos 0) then ret else get_error sys g) ∷ [])
              (moved p (set_fd invalid_socket s) g st))
  unfolding socket_close mswin close method
  socket_close-open self p s st e live h =
      rw (e, method, live, h)
        (elim (Bool-cases (eqb_ℤ (sys.closesocket (fd_of s) st.world.world).0 (pos 0))) [
          | inl x ↦ rw x
          | inr x ↦ rw x
        ])

  -- After a `close` on Windows, a second one makes no call and returns 0.
  pub socket_close_once :
      (self : V) (p : ℕ) (s : Socket) (st : State (Process W))
      → l.to_userdata self ≡ some p
      → Live st p s
      → (socket_close (mswin sys fs l) l self >>= λ _. socket_close (mswin sys fs l) l self) st
        ≡ (socket_close (mswin sys fs l) l self >>= λ _ st'. returns (integer (pos 0) ∷ []) st') st
  socket_close_once self p s st e live = elim (Bool-cases (fd_of s == invalid_socket)) [
    | inl x ↦
        rw (socket_close-invalid self p s st e live x) (socket_close-invalid self p s st e live x)
    | inr x ↦
        let g = record st.world { world = (sys.closesocket (fd_of s) st.world.world).1 } in
        rw (socket_close-open self p s st e live x) (
          socket_close-invalid self p (set_fd invalid_socket s)
            (moved p (set_fd invalid_socket s) g st) e
            (get_elem?-set-some st.sockets p s (set_fd invalid_socket s) live) refl)
  ]

  -- The world after `closesocket`, unless the socket holds `INVALID_SOCKET`, and then a `shutdown` of
  -- `INVALID_SOCKET`.
  abbrev pub closed_world : ℤ → Socket → Process W → Process W
  closed_world how s g =
      let w =
        if fd_of s == invalid_socket then g.world else (sys.closesocket (fd_of s) g.world).1 in
      record g { world = (sys.shutdown invalid_socket how w).1 }

  shutdown-closed_world :
      (how : ℤ) (s : Socket) (g : Process W) → (shutdown sys how s g).2 ≡ closed_world how s g
  unfolding shutdown close
  shutdown-closed_world how s g = elim (Bool-cases (fd_of s == invalid_socket)) [
    | inl x ↦ rw x (rw ((==_iff (fd_of s) invalid_socket).0 x) refl)
    | inr x ↦ rw x refl
  ]

  -- Where the system refuses to shut down `INVALID_SOCKET`, `shutdown` on Windows answers with the
  -- last error, whatever state the socket was in. Its calls are `closesocket` of the socket's handle,
  -- unless that is `INVALID_SOCKET`, and then `shutdown` of `INVALID_SOCKET` with the given mode,
  -- which is at most 2. The socket then holds `INVALID_SOCKET` and that mode as a signed byte.
  pub socket_shutdown_fails :
      ((how : ℤ) (w : W) → (sys.shutdown invalid_socket how w).0 ≡ minus_one)
      → (self how_arg : V) (p : ℕ) (how : ℤ) (s : Socket) (st : State (Process W))
      → l.to_userdata self ≡ some p
      → l.check_integer how_arg ≡ some how
      → Live st p s
      → (s' : Socket) × (socket_shutdown (mswin sys fs l) l self how_arg st ≡ (
          let g = closed_world (to_int32 (clamped how)) s st.world in
          returns (integer (get_error sys g) ∷ []) (moved p s' g st)))
        × (fd_of s' ≡ invalid_socket)
        × (s'.is_shutdown ≡ to_int8 (clamped how))
  unfolding mswin
  socket_shutdown_fails refused self how_arg p how s st e k live =
      let (ret, s', g) = shutdown sys (to_int32 (clamped how)) s st.world in
      let answers : (integer (if eqb_ℤ ret (pos 0) then ret else get_error sys g))
          ≡ integer (get_error sys g) =
        rw (shutdown-refused sys refused (to_int32 (clamped how)) s st.world) refl in
      (
        record s' { is_shutdown = to_int8 (clamped how) },
        rw (sym (shutdown-closed_world (to_int32 (clamped how)) s st.world)) (
            rw (socket_shutdown_lem (mswin sys fs l) l self p s st e live how_arg how k) (
              ap
                (λ v.
                  returns (v ∷ [])
                    (moved p (record s' { is_shutdown = to_int8 (clamped how) }) g st))
                answers)),
        shutdown-fd sys (to_int32 (clamped how)) s st.world,
        refl,
      )
