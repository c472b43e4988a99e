-- ===== src/Session/Evolving/Runs.antt =====
-- How one socket goes on through the runs of a program over light/socket/src/socket.cpp.
use light_lua.Prelude.{ℕ, ◌≤◌, subst, ℤ, List, arith}
use light_lua.Socket.{Socket, zero_socket}
use light_lua.Machine.{State, Live}
use light_lua.Backend.{Backend, Lua}
use light_lua.Binding.Create.{
  socket_tcp, socket_udp, socket_connect, socket_connect_now, socket_bind, socket_accept,
  socket_accept_now,
}
use light_lua.Binding.Transfer.{
  socket_receive, socket_receive_now, socket_receive_from, socket_receive_from_now, socket_send,
  socket_send_now, socket_send_to, socket_send_to_now,
}
use light_lua.Session.{
  Call, run, tcp, udp, get_address, accept, accept_now, close, is_closed, is_shutdown, listen,
  receive, receive_now, shutdown, connect, connect_now, bind, send, send_now, select, receive_from,
  receive_from_now, send_to, send_to_now, Step, returned, raised, elapsed,
}
use light_lua.Session.Sound.{socket_count}
use light_lua.Session.Frames.{Frames}
use light_lua.Session.Reads.{get_elem?-lt}
use light_lua.Session.Lasting.{Later, now, later}
use light_lua.Session.Evolving.{Evolved, Evolution, Evolves, Evolved-same, Evolved-chain}
use light_lua.Session.Evolving.Calls.{
  Follows, Assigns, open_with-Evolves, with_endpoint-Evolves, get_address-Evolves, listen-Evolves,
  accept_with-Evolves,
}
use light_lua.Session.Evolving.Transfers.{
  receive_with-Evolves, receive_from_with-Evolves, send_with-Evolves, send_to_with-Evolves,
  is_closed-Evolves, is_shutdown-Evolves, close-Evolves, shutdown-Evolves, select-Evolves,
}

-- The methods of the class on a socket that was there before, and the assignments of the binding.
pub record Changes {W F V : Type 0} (b : Backend W F V) (R : Socket → Socket → Type 0)
    : Type 0 where
  pub assigns : Assigns R
  pub connects : (host : List ℕ) (port : ℕ) → Follows R (b.connect host port)
  pub connects_now : (host : List ℕ) (port : ℕ) → Follows R (b.connect_now host port)
  pub binds : (host : List ℕ) (port : ℕ) → Follows R (b.bind host port)
  pub listens : (k : ℤ) → Follows R (b.listen k)
  pub accepts : (c : Socket) → Follows R (b.accept c)
  pub accepts_now : (c : Socket) → Follows R (b.accept_now c)
  pub receives : (k : ℕ) → Follows R (b.receive k)
  pub receives_now : (k : ℕ) → Follows R (b.receive_now k)
  pub receives_from : (host : List ℕ) (port k : ℕ) → Follows R (b.receive_from host port k)
  pub receives_from_now : (host : List ℕ) (port k : ℕ) → Follows R (b.receive_from_now host port k)
  pub sends : (bytes : List ℕ) → Follows R (b.send bytes)
  pub sends_now : (bytes : List ℕ) → Follows R (b.send_now bytes)
  pub sends_to : (host : List ℕ) (port : ℕ) (bytes : List ℕ) → Follows R (b.send_to host port bytes)
  pub sends_to_now :
      (host : List ℕ) (port : ℕ) (bytes : List ℕ) → Follows R (b.send_to_now host port bytes)
  pub shuts : (how : ℤ) → Follows R (b.shutdown how)
  pub closes : Follows R b.close

module _ {W F V : Type 0} (b : Backend W F V) (l : Lua V) (frames : Frames b)
    {R : Socket → Socket → Type 0} (changes : Changes b R) where
  run-Evolves : (n : ℕ) (c : Call V) → Evolves R n (run b l c)
  unfolding run socket_tcp socket_udp socket_connect socket_connect_now socket_bind socket_accept
      socket_accept_now socket_receive socket_receive_now socket_receive_from
      socket_receive_from_now socket_send socket_send_now socket_send_to socket_send_to_now
  run-Evolves n tcp = open_with-Evolves b changes.assigns b.tcp
  run-Evolves n udp = open_with-Evolves b changes.assigns b.udp
  run-Evolves n (get_address self) = get_address-Evolves b l changes.assigns self
  run-Evolves n (accept self) =
      accept_with-Evolves b l changes.assigns (b.accept zero_socket) self
        (changes.accepts zero_socket)
  run-Evolves n (accept_now self) =
      accept_with-Evolves b l changes.assigns (b.accept_now zero_socket) self
        (changes.accepts_now zero_socket)
  run-Evolves n (close self) = close-Evolves b l changes.assigns self changes.closes
  run-Evolves n (is_closed self) = is_closed-Evolves b l changes.assigns self
  run-Evolves n (is_shutdown self) = is_shutdown-Evolves b l changes.assigns self
  run-Evolves n (listen self k) = listen-Evolves b l changes.assigns self k changes.listens
  run-Evolves n (receive self k) =
      receive_with-Evolves b l changes.assigns b.receive self k changes.receives
  run-Evolves n (receive_now self k) =
      receive_with-Evolves b l changes.assigns b.receive_now self k changes.receives_now
  run-Evolves n (shutdown self how) = shutdown-Evolves b l changes.assigns self how changes.shuts
  run-Evolves n (connect self host port) =
      with_endpoint-Evolves b l changes.assigns b.connect self host port changes.connects
  run-Evolves n (connect_now self host port) =
      with_endpoint-Evolves b l changes.assigns b.connect_now self host port changes.connects_now
  run-Evolves n (bind self host port) =
      with_endpoint-Evolves b l changes.assigns b.bind self host port changes.binds
  run-Evolves n (send self text k) =
      send_with-Evolves b l changes.assigns b.send self text k changes.sends
  run-Evolves n (send_now self text k) =
      send_with-Evolves b l changes.assigns b.send_now self text k changes.sends_now
  run-Evolves n (select r w timeout) = select-Evolves b frames changes.assigns l r w timeout
  run-Evolves n (receive_from self k host port) =
      receive_from_with-Evolves b l changes.assigns b.receive_from self k host port
        changes.receives_from
  run-Evolves n (receive_from_now self k host port) =
      receive_from_with-Evolves b l changes.assigns b.receive_from_now self k host port
        changes.receives_from_now
  run-Evolves n (send_to self text k host port) =
      send_to_with-Evolves b l changes.assigns b.send_to self text k host port changes.sends_to
  run-Evolves n (send_to_now self text k host port) =
      send_to_with-Evolves b l changes.assigns b.send_to_now self text k host port
        changes.sends_to_now

  Step-Evolved :
      (n : ℕ) (st st' : State W) → n ≤ socket_count st → Step b l st st' → Evolved R n st st'
  Step-Evolved n st st' h (returned c vs _ _ e) =
      subst (Evolution R n st) e ((run-Evolves n c).evolves st h)
  Step-Evolved n st st' h (raised c error _ _ e) =
      subst (Evolution R n st) e ((run-Evolves n c).evolves st h)
  Step-Evolved n st st' h (elapsed w _) = Evolved-same changes.assigns.order st w h

  Later-Evolved :
      (n : ℕ) (st st' : State W) → n ≤ socket_count st → Later b l st st' → Evolved R n st st'
  Later-Evolved n st _ h (now x) = Evolved-same changes.assigns.order st st.world h
  Later-Evolved n st st' h (later _ before _ path step) =
      let first = Later-Evolved n st before h path in
      Evolved-chain changes.assigns.order st before st' first
        (Step-Evolved n before st' first.0 step)

  -- In every later state a socket is still there, and is related to what it was.
  pub Later-Live :
      (st st' : State W) (p : ℕ) (s : Socket)
      → Later b l st st'
      → Live st p s
      → (t : Socket) × Live st' p t × R s t
  Later-Live st st' p s path live =
      (Later-Evolved (socket_count st) st st' (omega arith) path).1 p s
        (get_elem?-lt st.sockets p s live) live
