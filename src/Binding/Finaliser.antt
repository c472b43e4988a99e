-- ===== src/Binding/Finaliser.antt =====
-- light/socket/src/socket.cpp over any socket class: what `__gc` leaves behind.
use light_lua.Prelude.{
  ℕ, ◌≡◌, refl, ℤ, pos, ltb_ℤ, Bool-cases, inl, inr, Option-cases, some, [], get_elem?-set-some,
  set-set,
}
use light_lua.Memory.{Cells, block, freed}
use light_lua.Memory.Laws.{memset_zero-freed}
use light_lua.Machine.{State, Live, moved, returns, undefined, load, store, method}
use light_lua.Socket.{Socket}
use light_lua.Backend.{Lua, Backend, Method, Received}
use light_lua.Binding.Transfer.{
  plus_one, reserve, clear, receive_with, socket_receive, socket_receive_now,
}
use light_lua.Binding.Finish.{socket_gc}

module _ {W F V : Type 0} (b : Backend W F V) (l : Lua V) (self : V) (p : ℕ)
    (is_self : l.to_userdata self ≡ some p) where
  -- A socket whose buffer was freed is of no use to a receive or to another `__gc`.
  receive_with-freed :
      (call : ℕ → Method W Received) (size_arg : V) (size : ℤ) (s : Socket) (st : State W)
      → Live st p s
      → s.buffer ≡ freed
      → l.check_integer size_arg ≡ some size
      → receive_with b l call self size_arg st ≡ undefined
  unfolding reserve clear load
  receive_with-freed call size_arg size s st live gone is_size =
      elim (Bool-cases (ltb_ℤ (pos s.buffer_size) size)) [
        | inl h ↦ rw (is_size, is_self, reserve, load, live, h, gone) refl
        | inr h ↦ elim (Option-cases (plus_one size)) [
          | inr (n, e) ↦
              rw
                (
                  is_size,
                  is_self,
                  reserve,
                  load,
                  live,
                  h,
                  e,
                  clear,
                  load,
                  live,
                  gone,
                  memset_zero-freed n,
                )
                refl
          | inl e ↦ rw (is_size, is_self, reserve, load, live, h, e) refl
        ]
      ]

  socket_gc-freed :
      (s : Socket) (st : State W)
      → Live st p s
      → s.buffer ≡ freed
      → socket_gc b l self st ≡ undefined
  unfolding socket_gc load
  socket_gc-freed s st live gone = rw (is_self, load, live, gone) refl

  -- What `__gc` leaves: the socket with a freed buffer, as `Close` leaves it.
  abbrev pub finalised : Socket → State W → State W
  finalised s st =
      let (ret, s', w) = b.close (record s { buffer = freed }) st.world in moved p s' w st

  -- Where `Close` leaves the buffer alone, `__gc` on a live socket with an allocated buffer frees it,
  -- makes one call of `Close`, and returns nothing; the pointer stays in the socket, so a second
  -- `__gc`, and a `receive` or `receiveNow` of whatever size, are undefined after it.
  pub socket_gc-use_after_free :
      (size_arg : V) (size : ℤ) (cells : Cells) (s : Socket) (st : State W)
      → ((t : Socket) (w : W) → (b.close t w).1.buffer ≡ t.buffer)
      → Live st p s
      → s.buffer ≡ block cells
      → l.check_integer size_arg ≡ some size
      → (socket_gc b l self st ≡ returns [] (finalised s st))
        × (socket_gc b l self (finalised s st) ≡ undefined)
        × (socket_receive b l self size_arg (finalised s st) ≡ undefined)
        × (socket_receive_now b l self size_arg (finalised s st) ≡ undefined)
  unfolding socket_gc socket_receive socket_receive_now load store method
  socket_gc-use_after_free size_arg size cells s st keeps live allocated is_size =
      let gone = record s { buffer = freed } in
      let after = finalised s st in
      let s' = (b.close gone st.world).1 in
      let there = get_elem?-set-some st.sockets p s gone live in
      let live' : Live after p s' = get_elem?-set-some st.sockets p s s' live in
      let freed' : s'.buffer ≡ freed = keeps gone st.world in
      (
        rw
            (
              is_self,
              load,
              live,
              allocated,
              store,
              live,
              allocated,
              method,
              there,
              allocated,
              set-set st.sockets p gone s',
            )
            refl,
        socket_gc-freed s' after live' freed',
        receive_with-freed b.receive size_arg size s' after live' freed' is_size,
        receive_with-freed b.receive_now size_arg size s' after live' freed' is_size,
      )
