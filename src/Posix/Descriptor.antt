-- ===== src/Posix/Descriptor.antt =====
-- The descriptor of a socket in a running program: socket.cpp over socket_posix.cpp.
use light_lua.Prelude.{
  ℕ, ◌≡◌, ◌∙◌, refl, pos, leb_ℤ, ◌==◌, Bool-cases, inl, inr, some, List, [], ◌∷◌,
}
use light_lua.Socket.{Socket}
use light_lua.Machine.{State, Live, returns}
use light_lua.Backend.{Lua}
use light_lua.Binding.Values.{boolean}
use light_lua.Binding.Finish.{socket_is_closed}
use light_lua.Session.Lasting.{Later}
use light_lua.Session.Evolving.Calls.{Follows, Assigns}
use light_lua.Session.Evolving.Runs.{Changes, Later-Live}
use light_lua.Posix.{posix}
use light_lua.Posix.Kernel.{Os, FdSets}
use light_lua.Posix.Calls.{
  connect, connect_now, bind, listen, accept, accept_now, receive, receive_now, receive_from,
  receive_from_now, send, send_now, send_to, send_to_now, shutdown, close, set_non_block, set_block,
}
use light_lua.Posix.Frames.{posix-Frames}
use light_lua.Posix.Lifetime.{socket_is_closed_inverted}

abbrev SameFd : Socket → Socket → Type 0
SameFd s t = t.impl.fd ≡ s.impl.fd

SameFd-Assigns : Assigns SameFd
SameFd-Assigns = record {
  order = record { same = λ s. refl; chain = λ s t u e f. f ∙ e };
  buffers = λ s buffer. refl;
  modes = λ s how. refl;
}

module _ {W F V : Type 0} (os : Os W F) (fs : FdSets F) (l : Lua V) where
  connect_now-SameFd : (host : List ℕ) (port : ℕ) → Follows SameFd (connect_now os host port)
  unfolding connect_now set_non_block set_block
  connect_now-SameFd host port s w = elim (Bool-cases (s.is_nonblock == 0)) [
    | inl e ↦ rw (connect_now, e) refl
    | inr e ↦ rw (connect_now, e) refl
  ]

  accept_now-SameFd : (c : Socket) → Follows SameFd (accept_now os c)
  unfolding accept_now set_non_block set_block
  accept_now-SameFd c s w = elim (Bool-cases (s.is_nonblock == 0)) [
    | inl e ↦ rw (accept_now, e) refl
    | inr e ↦ rw (accept_now, e) refl
  ]

  close-SameFd : Follows SameFd (close os)
  unfolding close
  close-SameFd s w = elim (Bool-cases (leb_ℤ (pos 0) s.impl.fd)) [
    | inl e ↦ rw (close, e) refl
    | inr e ↦ rw (close, e) refl
  ]

  posix-Changes : Changes (posix os fs l) SameFd
  unfolding posix connect bind listen accept receive receive_now receive_from receive_from_now send
      send_now send_to send_to_now shutdown
  posix-Changes = record {
    assigns = SameFd-Assigns;
    connects = λ host port s w. refl;
    connects_now = connect_now-SameFd;
    binds = λ host port s w. refl;
    listens = λ k s w. refl;
    accepts = λ c s w. refl;
    accepts_now = accept_now-SameFd;
    receives = λ k s w. refl;
    receives_now = λ k s w. refl;
    receives_from = λ host port k s w. refl;
    receives_from_now = λ host port k s w. refl;
    sends = λ bytes s w. refl;
    sends_now = λ bytes s w. refl;
    sends_to = λ host port bytes s w. refl;
    sends_to_now = λ host port bytes s w. refl;
    shuts = λ how s w. refl;
    closes = close-SameFd;
  }

  -- In every later state of a program on POSIX a socket has the descriptor that it had, whatever
  -- calls were made, its `close` among them; `isClosed` answers true if and only if it has one, so
  -- it never changes its answer.
  pub socket_is_closed_constant :
      (self : V) (p : ℕ) (s : Socket) (st st' : State W)
      → l.to_userdata self ≡ some p
      → Live st p s
      → Later (posix os fs l) l st st'
      → (t : Socket) × Live st' p t
        × (t.impl.fd ≡ s.impl.fd)
        × (socket_is_closed (posix os fs l) l self st
            ≡ returns (boolean (leb_ℤ (pos 0) s.impl.fd) ∷ []) st)
        × (socket_is_closed (posix os fs l) l self st'
            ≡ returns (boolean (leb_ℤ (pos 0) s.impl.fd) ∷ []) st')
  socket_is_closed_constant self p s st st' is_self live path =
      let (t, live', same) =
        Later-Live (posix os fs l) l (posix-Frames os fs l) posix-Changes st st' p s path live in
      (
        t,
        live',
        same,
        socket_is_closed_inverted os fs l self p s st is_self live,
        rw (socket_is_closed_inverted os fs l self p t st' is_self live', same) refl,
      )
