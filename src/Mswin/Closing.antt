-- ===== src/Mswin/Closing.antt =====
-- The handle of a socket in a running program: socket.cpp over socket_mswin.cpp.
use light_lua.Prelude.{
  ℕ, ◌≡◌, ◌∙◌, refl, ◌⊎◌, inl, inr, true, ◌==◌, ==_iff, Bool-cases, some, List, [], ◌∷◌,
}
use light_lua.Socket.{Socket}
use light_lua.Machine.{State, Live, returns}
use light_lua.Backend.{Lua}
use light_lua.Binding.Values.{boolean}
use light_lua.Binding.Finish.{socket_is_closed}
use light_lua.Session.Lasting.{Later}
use light_lua.Session.Evolving.Calls.{Follows, Assigns}
use light_lua.Session.Evolving.Runs.{Changes, Later-Live}
use light_lua.Posix.Kernel.{FdSets}
use light_lua.Mswin.{mswin}
use light_lua.Mswin.Winsock.{Winsock, Process}
use light_lua.Mswin.Calls.{
  invalid_socket, fd_of, connect, connect_now, bind, listen, accept, accept_now, receive,
  receive_now, receive_from, receive_from_now, send, send_now, send_to, send_to_now, set_non_block,
  set_block,
}
use light_lua.Mswin.Ending.{close}
use light_lua.Mswin.Frames.{mswin-Frames}
use light_lua.Mswin.Lifetime.{socket_is_closed_invalid, shutdown-fd}

-- The handle is the same, or INVALID_SOCKET now.
abbrev OnlyCloses : Socket → Socket → Type 0
OnlyCloses s t = (fd_of t ≡ fd_of s) ⊎ (fd_of t ≡ invalid_socket)

OnlyCloses-chain : (s t u : Socket) → OnlyCloses s t → OnlyCloses t u → OnlyCloses s u
OnlyCloses-chain s t u r (inr f) = inr f
OnlyCloses-chain s t u (inl e) (inl f) = inl (f ∙ e)
OnlyCloses-chain s t u (inr e) (inl f) = inr (f ∙ e)

OnlyCloses-Assigns : Assigns OnlyCloses
OnlyCloses-Assigns = record {
  order = record { same = λ s. inl refl; chain = OnlyCloses-chain };
  buffers = λ s buffer. inl refl;
  modes = λ s how. inl refl;
}

module _ {W F V : Type 0} (sys : Winsock W F) (fs : FdSets F) (l : Lua V) where
  connect_now-OnlyCloses :
      (host : List ℕ) (port : ℕ) → Follows OnlyCloses (connect_now sys host port)
  unfolding connect_now set_non_block set_block
  connect_now-OnlyCloses host port s w = elim (Bool-cases (s.is_nonblock == 0)) [
    | inl e ↦ rw (connect_now, e) (inl refl)
    | inr e ↦ rw (connect_now, e) (inl refl)
  ]

  accept_now-OnlyCloses : (c : Socket) → Follows OnlyCloses (accept_now sys c)
  unfolding accept_now set_non_block set_block
  accept_now-OnlyCloses c s w = elim (Bool-cases (s.is_nonblock == 0)) [
    | inl e ↦ rw (accept_now, e) (inl refl)
    | inr e ↦ rw (accept_now, e) (inl refl)
  ]

  close-OnlyCloses : Follows OnlyCloses (close sys)
  unfolding close
  close-OnlyCloses s w = elim (Bool-cases (fd_of s == invalid_socket)) [
    | inl e ↦ rw (close, e) (inl refl)
    | inr e ↦ rw (close, e) (inr refl)
  ]

  mswin-Changes : Changes (mswin sys fs l) OnlyCloses
  unfolding mswin connect bind listen accept receive receive_now receive_from receive_from_now send
      send_now send_to send_to_now
  mswin-Changes = record {
    assigns = OnlyCloses-Assigns;
    connects = λ host port s w. inl refl;
    connects_now = connect_now-OnlyCloses;
    binds = λ host port s w. inl refl;
    listens = λ k s w. inl refl;
    accepts = λ c s w. inl refl;
    accepts_now = accept_now-OnlyCloses;
    receives = λ k s w. inl refl;
    receives_now = λ k s w. inl refl;
    receives_from = λ host port k s w. inl refl;
    receives_from_now = λ host port k s w. inl refl;
    sends = λ bytes s w. inl refl;
    sends_now = λ bytes s w. inl refl;
    sends_to = λ host port bytes s w. inl refl;
    sends_to_now = λ host port bytes s w. inl refl;
    shuts = λ how s w. inr (shutdown-fd sys how s w);
    closes = close-OnlyCloses;
  }

  -- Once a Windows socket holds INVALID_SOCKET, where `isClosed` answers true, it holds it in every
  -- later state, whatever calls are made in between, and `isClosed` answers true there.
  pub socket_is_closed_forever :
      (self : V) (p : ℕ) (s : Socket) (st st' : State (Process W))
      → l.to_userdata self ≡ some p
      → Live st p s
      → fd_of s ≡ invalid_socket
      → Later (mswin sys fs l) l st st'
      → (t : Socket) × Live st' p t
        × (fd_of t ≡ invalid_socket)
        × (socket_is_closed (mswin sys fs l) l self st ≡ returns (boolean true ∷ []) st)
        × (socket_is_closed (mswin sys fs l) l self st' ≡ returns (boolean true ∷ []) st')
  socket_is_closed_forever self p s st st' is_self live closed path =
      let (t, live', r) =
        Later-Live (mswin sys fs l) l (mswin-Frames sys fs l) mswin-Changes st st' p s path live in
      let still : fd_of t ≡ invalid_socket = elim r [ inl e ↦ e ∙ closed | inr e ↦ e ] in
      (
        t,
        live',
        still,
        socket_is_closed_invalid sys fs l self p s st is_self live
            ∙ rw ((==_iff (fd_of s) invalid_socket).1 closed) refl,
        socket_is_closed_invalid sys fs l self p t st' is_self live'
            ∙ rw ((==_iff (fd_of t) invalid_socket).1 still) refl,
      )
