-- ===== src/Binding/Lifecycle.antt =====
-- light/socket/src/socket.cpp over any socket class: what `SocketShutdown` and `SocketAccept` leave.
use light_lua.Prelude.{
  ℕ, ◌≡◌, refl, ℤ, pos, minus_one, leb_ℤ, eqb_ℤ, ltb_ℤ, if◌then◌else◌, to_int32, to_int8,
  Bool-cases, inl, inr, some, List, [], ◌∷◌, ◌++◌, length, set, get_elem?-set-some, set-set,
  get_elem?-append_new, set-append_new, length-set,
}
use light_lua.Socket.{Socket, zero_socket}
use light_lua.Machine.{State, Live, returns, moved, method, load, store, new_userdata, Outcome}
use light_lua.Backend.{Lua, Backend, Method}
use light_lua.Binding.Values.{Pushed, integer, userdata, nil}
use light_lua.Binding.Create.{socket_new, accept_with, socket_accept, socket_accept_now}
use light_lua.Binding.Finish.{socket_shutdown}

-- The mode that `SocketShutdown` passes on.
abbrev pub clamped : ℤ → ℤ
clamped how = if ltb_ℤ (pos 2) how then pos 2 else how

module _ {W F V : Type 0} (b : Backend W F V) (l : Lua V) (self : V) (p : ℕ) (s : Socket)
    (st : State W) (is_self : l.to_userdata self ≡ some p) (live : Live st p s) where
  -- `shutdown` on a live socket makes one call, with the mode or 2 where that is less, keeps the
  -- mode as a signed byte whatever the call returned, and gives Lua 0 or the error.
  pub socket_shutdown_lem :
      (how_arg : V) (how : ℤ)
      → l.check_integer how_arg ≡ some how
      → (let (ret, s', w) = b.shutdown (to_int32 (clamped how)) s st.world in
          socket_shutdown b l self how_arg st
          ≡ returns
              (integer (if eqb_ℤ ret (pos 0) then ret else b.get_error w) ∷ [])
              (moved p (record s' { is_shutdown = to_int8 (clamped how) }) w st))
  unfolding socket_shutdown method load store
  socket_shutdown_lem how_arg how k =
      let (ret, s', w) = b.shutdown (to_int32 (clamped how)) s st.world in
      let s'' = record s' { is_shutdown = to_int8 (clamped how) } in
      let there = get_elem?-set-some st.sockets p s s' live in
      rw (k, is_self, method, live, load, there, store, there, set-set st.sockets p s' s'')
        (elim (Bool-cases (eqb_ℤ ret (pos 0))) [ inl x ↦ rw x | inr x ↦ rw x ])

-- What `SocketAccept` leaves when the call on the socket at `p` ends with `r`.
abbrev pub accepted :
    {W F V : Type 0}
    → Backend W F V
    → ℕ
    → State W
    → (ℤ × Socket) × Socket × W
    → Outcome W (List Pushed)
accepted b p st (r, s', w) =
    if leb_ℤ (pos 0) r.0
    then returns (userdata (length st.sockets) ∷ integer (pos 0) ∷ [])
        (record { world = w; sockets = set st.sockets p s' ++ (r.1 ∷ []) })
    else returns (nil ∷ integer (b.get_error w) ∷ []) (moved p s' w st)

module _ {W F V : Type 0} (b : Backend W F V) (l : Lua V) (self : V) (p : ℕ) (s : Socket)
    (st : State W) (is_self : l.to_userdata self ≡ some p) (live : Live st p s) where
  accept_with-accepted :
      (call : Method W (ℤ × Socket))
      → accept_with b l call self st ≡ accepted b p st (call s st.world)
  unfolding socket_new method new_userdata store
  accept_with-accepted call =
      let (r, s', w) = call s st.world in
      let xs = set st.sockets p s' in
      let fresh = record (b.init zero_socket) { is_shutdown = minus_one } in
      elim (Bool-cases (leb_ℤ (pos 0) r.0)) [
        | inl h ↦
            rw
              (
                is_self,
                method,
                live,
                h,
                socket_new,
                new_userdata,
                store,
                get_elem?-append_new xs fresh,
                set-append_new xs fresh r.1,
                length-set st.sockets p s',
              )
              refl
        | inr h ↦ rw (is_self, method, live, h) refl
      ]

  -- `accept` and `acceptNow` on a live socket make one call, on a zeroed client. Where the call
  -- gives no negative number, Lua gets fresh userdata, which holds the client as the call left it,
  -- and 0; else it gets nil and the error, and no userdata is made.
  pub socket_accept_lem :
      (socket_accept b l self st ≡ accepted b p st (b.accept zero_socket s st.world))
      × (socket_accept_now b l self st ≡ accepted b p st (b.accept_now zero_socket s st.world))
  unfolding socket_accept socket_accept_now
  socket_accept_lem =
      (accept_with-accepted (b.accept zero_socket), accept_with-accepted (b.accept_now zero_socket))
