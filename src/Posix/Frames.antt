-- ===== src/Posix/Frames.antt =====
-- The methods of light/socket/src/socket_posix.cpp leave a socket's buffer to the binding.
use light_lua.Prelude.{
  ◌<◌, ℕ, zero, suc, ◌+◌, refl, ℤ, pos, negsuc, eqb_ℤ, ltb_ℤ, leb_ℤ, ltb, ◌==◌, Option, none, some,
  List, [], ◌∷◌, Bool-cases, Option-cases, inl, inr, if◌then◌else◌,
}
use light_lua.Socket.{Socket}
use light_lua.Machine.{M, State, raises, unexpected_descriptor, pure, ◌>>=◌}
use light_lua.Backend.{Lua}
use light_lua.Session.Sound.{Any, socket_count}
use light_lua.Session.Frames.{SameBuffer, Keeps, Stays, Below, Frames}
use light_lua.Session.Reads.{Reads, bind-Reads, pure-Reads, if-Reads, load-Reads}
use light_lua.Posix.{posix}
use light_lua.Posix.Kernel.{Os, FdSets}
use light_lua.Posix.Calls.{
  init, tcp, udp, connect, connect_now, bind, listen, accept, accept_now, receive, receive_now,
  receive_from, receive_from_now, send, send_now, send_to, send_to_now, shutdown, close,
  set_non_block, set_block,
}
use light_lua.Posix.Sets.{
  add_fd, add_entry, add_entries, table_to_fd_set, push_socket_for_fd, list_fds, rounds_to,
  fd_set_to_table,
}

module _ {W F V : Type 0} (l : Lua V) (fs : FdSets F) {st : State W} where
  add_fd-Reads : (fd : ℤ) (acc : ℤ × F) → Reads st Any (add_fd l fs fd acc)
  unfolding add_fd
  add_fd-Reads (negsuc n) acc = pure-Reads acc tt
  add_fd-Reads (pos n) (maxfd, s) =
      if-Reads (ltb n fs.fd_setsize)
        (pure-Reads (if ltb_ℤ maxfd (pos n) then pos n else maxfd, fs.fd_set n s) tt)
        (record { stays = tt })

  add_entry-Reads : (v : V) (acc : ℤ × F) → Reads st Any (add_entry l fs v acc)
  unfolding add_entry
  add_entry-Reads v acc = elim (Option-cases (l.to_userdata v)) [
    | inl e ↦ rw (add_entry, e) (pure-Reads acc tt)
    | inr (p, e) ↦ rw (add_entry, e) (bind-Reads (load-Reads p) (λ s q. add_fd-Reads s.impl.fd acc))
  ]

  add_entries-Reads : (vs : List V) (acc : ℤ × F) → Reads st Any (add_entries l fs vs acc)
  unfolding add_entries
  add_entries-Reads [] acc = pure-Reads acc tt
  add_entries-Reads (v ∷ vs) acc =
      bind-Reads (add_entry-Reads v acc) (λ acc q. add_entries-Reads vs acc)

-- A pointer, if there is one, is of one of the first `n` sockets.
abbrev pub OneBelow : ℕ → Option ℕ → Type 0
OneBelow n none = Unit {0}
OneBelow n (some p) = p < n

module _ {W V : Type 0} (l : Lua V) {st : State W} where
  push_socket_for_fd-Reads :
      (vs : List V) (fd : ℤ) → Reads st (OneBelow (socket_count st)) (push_socket_for_fd l vs fd)
  unfolding push_socket_for_fd
  push_socket_for_fd-Reads [] fd = pure-Reads none tt
  push_socket_for_fd-Reads (v ∷ vs) fd = elim (Option-cases (l.to_userdata v)) [
    | inl e ↦ rw (push_socket_for_fd, e) (push_socket_for_fd-Reads vs fd)
    | inr (p, e) ↦
        rw (push_socket_for_fd, e)
          (bind-Reads (load-Reads p) (λ s q.
            if-Reads (eqb_ℤ s.impl.fd fd) (pure-Reads (some p) q) (push_socket_for_fd-Reads vs fd)))
  ]

module _ {W F V : Type 0} (l : Lua V) (fs : FdSets F) {st : State W} where
  pub found-Reads :
      (o : Option ℕ) (rest : M W (List ℕ))
      → OneBelow (socket_count st) o
      → Reads st (Below (socket_count st)) rest
      → Reads st (Below (socket_count st)) (elim o [
        | none ↦ (λ st. raises unexpected_descriptor st)
        | some p ↦ (do ps ← rest; pure (p ∷ ps))
      ])
  found-Reads none rest q h = record { stays = refl }
  found-Reads (some p) rest q h = bind-Reads h (λ ps below. pure-Reads (p ∷ ps) (q, below))

  list_fds-Reads :
      (vs : List V) (s : F) (rounds i : ℕ)
      → Reads st (Below (socket_count st)) (list_fds l fs vs s rounds i)
  unfolding list_fds
  list_fds-Reads vs s zero i = pure-Reads [] tt
  list_fds-Reads vs s (suc rounds) i =
      if-Reads (fs.fd_isset i s)
        (bind-Reads (push_socket_for_fd-Reads l vs (pos i)) (λ o q.
          found-Reads o (list_fds l fs vs s rounds (i + 1)) q (list_fds-Reads vs s rounds (i + 1))))
        (list_fds-Reads vs s rounds (i + 1))

module _ {W F V : Type 0} (l : Lua V) (fs : FdSets F) (st : State W) where
  table_to_fd_set-Stays : (vs : List V) (s : F) → Stays st Any (table_to_fd_set l fs vs s st)
  unfolding table_to_fd_set
  table_to_fd_set-Stays vs s = (add_entries-Reads l fs vs (negsuc 0, s)).stays

  pub fd_set_to_table-Stays :
      (vs : List V) (s : F) (maxfd : ℤ)
      → Stays st (Below (socket_count st)) (fd_set_to_table l fs vs s maxfd st)
  unfolding fd_set_to_table
  fd_set_to_table-Stays vs s maxfd = (list_fds-Reads l fs vs s (rounds_to maxfd) 0).stays

module _ {W F V : Type 0} (os : Os W F) (fs : FdSets F) (l : Lua V) where
  connect_now-Keeps : (host : List ℕ) (port : ℕ) → Keeps (connect_now os host port)
  unfolding connect_now set_non_block set_block
  connect_now-Keeps host port s w = elim (Bool-cases (s.is_nonblock == 0)) [
    | inl e ↦ rw (connect_now, e) (refl, refl)
    | inr e ↦ rw (connect_now, e) (refl, refl)
  ]

  accept_now-Keeps :
      (c s : Socket) (w : W)
      → SameBuffer (accept_now os c s w).1 s × SameBuffer (accept_now os c s w).0.1 c
  unfolding accept_now set_non_block set_block
  accept_now-Keeps c s w = elim (Bool-cases (s.is_nonblock == 0)) [
    | inl e ↦ rw (accept_now, e) ((refl, refl), (refl, refl))
    | inr e ↦ rw (accept_now, e) ((refl, refl), (refl, refl))
  ]

  close-Keeps : Keeps (close os)
  unfolding close
  close-Keeps s w = elim (Bool-cases (leb_ℤ (pos 0) s.impl.fd)) [
    | inl e ↦ rw (close, e) (refl, refl)
    | inr e ↦ rw (close, e) (refl, refl)
  ]

  -- The POSIX methods never change a socket's buffer or its `bufferSize`, and the two table
  -- functions change no socket at all; the second one lists sockets that are there.
  pub posix-Frames : Frames (posix os fs l)
  unfolding posix init tcp udp connect bind listen accept receive receive_now receive_from
      receive_from_now send send_now send_to send_to_now shutdown
  posix-Frames = record {
    init_clears = (refl, refl);
    keeps_tcp = λ s w. (refl, refl);
    keeps_udp = λ s w. (refl, refl);
    keeps_connect = λ host port s w. (refl, refl);
    keeps_connect_now = connect_now-Keeps;
    keeps_bind = λ host port s w. (refl, refl);
    keeps_listen = λ n s w. (refl, refl);
    keeps_accept = λ c s w. (refl, refl);
    keeps_accept_now = λ c s w. (accept_now-Keeps c s w).0;
    accept_client = λ c s w. ((refl, refl), (accept_now-Keeps c s w).1);
    keeps_receive = λ n s w. (refl, refl);
    keeps_receive_now = λ n s w. (refl, refl);
    keeps_receive_from = λ host port n s w. (refl, refl);
    keeps_receive_from_now = λ host port n s w. (refl, refl);
    keeps_send = λ bytes s w. (refl, refl);
    keeps_send_now = λ bytes s w. (refl, refl);
    keeps_send_to = λ host port bytes s w. (refl, refl);
    keeps_send_to_now = λ host port bytes s w. (refl, refl);
    keeps_shutdown = λ how s w. (refl, refl);
    keeps_close = close-Keeps;
    fills_stay = λ vs s st. table_to_fd_set-Stays l fs st vs s;
    lists_stay = λ vs s maxfd st. fd_set_to_table-Stays l fs st vs s maxfd;
  }
