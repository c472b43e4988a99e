-- ===== src/Mswin/Frames.antt =====
-- The methods of light/socket/src/socket_mswin.cpp leave a socket's buffer to the binding.
use light_lua.Prelude.{
  ℕ, zero, suc, ◌+◌, pos, some, none, to_uint64, refl, ℤ, ◌==◌, List, [], ◌∷◌, Bool-cases,
  Option-cases, inl, inr, arith,
}
use light_lua.Socket.{Socket}
use light_lua.Machine.{State}
use light_lua.Backend.{Lua}
use light_lua.Session.Sound.{Any, socket_count}
use light_lua.Session.Frames.{SameBuffer, Keeps, Stays, Below, Frames}
use light_lua.Session.Reads.{Reads, bind-Reads, pure-Reads, if-Reads, load-Reads}
use light_lua.Posix.Kernel.{FdSets, SocketKind, stream, dgram}
use light_lua.Posix.Frames.{OneBelow, found-Reads}
use light_lua.Posix.Sets.{rounds_to}
use light_lua.Mswin.Listing.{push_socket_for_fd, list_fds, fd_set_to_table}
use light_lua.Mswin.{mswin}
use light_lua.Mswin.Winsock.{Winsock, Process}
use light_lua.Mswin.Calls.{
  invalid_socket, fd_of, check_start, create, init, tcp, udp, connect, connect_now, bind, listen,
  accept, accept_now, receive, receive_now, receive_from, receive_from_now, send, send_now, send_to,
  send_to_now, set_non_block, set_block,
}
use light_lua.Mswin.Ending.{close, shutdown, add_fd, add_entries, table_to_fd_set}

module _ {W F V : Type 0} (l : Lua V) (fs : FdSets F) {st : State W} where
  add_entries-Reads : (vs : List V) (acc : ℕ × F) → Reads st Any (add_entries l fs vs acc)
  unfolding add_entries
  add_entries-Reads [] acc = pure-Reads acc tt
  add_entries-Reads (v ∷ vs) acc = elim (Option-cases (l.to_userdata v)) [
    | inl e ↦ rw (add_entries, e) (add_entries-Reads vs acc)
    | inr (p, e) ↦
        rw (add_entries, e)
          (bind-Reads (load-Reads p) (λ s q. add_entries-Reads vs (add_fd fs (fd_of s) acc)))
  ]

  push_socket_for_fd-Reads :
      (vs : List V) (fd : ℤ) → Reads st (OneBelow (socket_count st)) (push_socket_for_fd l vs fd)
  unfolding push_socket_for_fd
  push_socket_for_fd-Reads [] fd = pure-Reads none tt
  push_socket_for_fd-Reads (v ∷ vs) fd = elim (Option-cases (l.to_userdata v)) [
    | inl e ↦ rw (push_socket_for_fd, e) (push_socket_for_fd-Reads vs fd)
    | inr (p, e) ↦
        rw (push_socket_for_fd, e)
          (bind-Reads (load-Reads p) (λ s q.
            if-Reads (fd_of s == to_uint64 fd) (pure-Reads (some p) q)
              (push_socket_for_fd-Reads vs fd)))
  ]

  list_fds-Reads :
      (vs : List V) (s : F) (rounds i : ℕ)
      → Reads st (Below (socket_count st)) (list_fds l fs vs s rounds i)
  unfolding list_fds
  list_fds-Reads vs s zero i = pure-Reads [] tt
  list_fds-Reads vs s (suc rounds) i =
      if-Reads (fs.fd_isset i s)
        (bind-Reads (push_socket_for_fd-Reads vs (pos i)) (λ o q.
          found-Reads l fs o (list_fds l fs vs s rounds (i + 1)) q
            (list_fds-Reads vs s rounds (i + 1))))
        (list_fds-Reads vs s rounds (i + 1))

module _ {W F V : Type 0} (l : Lua V) (fs : FdSets F) (st : State W) where
  table_to_fd_set-Stays : (vs : List V) (s : F) → Stays st Any (table_to_fd_set l fs vs s st)
  unfolding table_to_fd_set
  table_to_fd_set-Stays vs s =
      (bind-Reads (add_entries-Reads l fs vs (0, s)) (λ r q. pure-Reads _ tt)).stays

  fd_set_to_table-Stays :
      (vs : List V) (s : F) (maxfd : ℤ)
      → Stays st (Below (socket_count st)) (fd_set_to_table l fs vs s maxfd st)
  unfolding fd_set_to_table
  fd_set_to_table-Stays vs s maxfd = (list_fds-Reads l fs vs s (rounds_to maxfd) 0).stays

module _ {W F V : Type 0} (sys : Winsock W F) (fs : FdSets F) (l : Lua V) where
  connect_now-Keeps : (host : List ℕ) (port : ℕ) → Keeps (connect_now sys host port)
  unfolding connect_now set_non_block set_block
  connect_now-Keeps host port s w = elim (Bool-cases (s.is_nonblock == 0)) [
    | inl e ↦ rw (connect_now, e) (refl, refl)
    | inr e ↦ rw (connect_now, e) (refl, refl)
  ]

  accept_now-Keeps :
      (c s : Socket) (w : Process W)
      → SameBuffer (accept_now sys c s w).1 s × SameBuffer (accept_now sys c s w).0.1 c
  unfolding accept_now set_non_block set_block
  accept_now-Keeps c s w = elim (Bool-cases (s.is_nonblock == 0)) [
    | inl e ↦ rw (accept_now, e) ((refl, refl), (refl, refl))
    | inr e ↦ rw (accept_now, e) ((refl, refl), (refl, refl))
  ]

  close-Keeps : Keeps (close sys)
  unfolding close
  close-Keeps s w = elim (Bool-cases (fd_of s == invalid_socket)) [
    | inl e ↦ rw (close, e) (refl, refl)
    | inr e ↦ rw (close, e) (refl, refl)
  ]

  create-Keeps : (kind : SocketKind) → Keeps (create sys kind)
  unfolding check_start
  create-Keeps kind s g = ground (arith)

  shutdown-Keeps : (how : ℤ) → Keeps (shutdown sys how)
  unfolding shutdown
  shutdown-Keeps how s g = close-Keeps s g

  -- The Windows methods never change a socket's buffer or its `bufferSize`, and the two table
  -- functions change no socket at all; the second one lists sockets that are there.
  pub mswin-Frames : Frames (mswin sys fs l)
  unfolding mswin init tcp udp connect bind listen accept receive receive_now receive_from
      receive_from_now send send_now send_to send_to_now
  mswin-Frames = record {
    init_clears = (refl, refl);
    keeps_tcp = create-Keeps stream;
    keeps_udp = create-Keeps dgram;
    keeps_connect = λ host port s w. (refl, refl);
    keeps_connect_now = connect_now-Keeps;
    keeps_bind = λ host port s w. (refl, refl);
    keeps_listen = λ n s w. (refl, refl);
    keeps_accept = λ c s w. (refl, refl);
    keeps_accept_now = λ c s w. (accept_now-Keeps c s w).0;
    accept_client = λ c s w. ((refl, refl), (accept_now-Keeps c s w).1);
    keeps_receive = λ n s w. (refl, refl);
    keeps_receive_now = λ n s w. (refl, refl);
    keeps_receive_from = λ host port n s w. (refl, refl);
    keeps_receive_from_now = λ host port n s w. (refl, refl);
    keeps_send = λ bytes s w. (refl, refl);
    keeps_send_now = λ bytes s w. (refl, refl);
    keeps_send_to = λ host port bytes s w. (refl, refl);
    keeps_send_to_now = λ host port bytes s w. (refl, refl);
    keeps_shutdown = shutdown-Keeps;
    keeps_close = close-Keeps;
    fills_stay = λ vs s st. table_to_fd_set-Stays l fs st vs s;
    lists_stay = λ vs s maxfd st. fd_set_to_table-Stays l fs st vs s maxfd;
  }
