-- ===== src/Session/Progress/Runs.antt =====
-- A program over light/socket/src/socket.cpp whose calls are ready goes on.
use light_lua.Prelude.{ℕ, ◌≡◌, List}
use light_lua.Machine.{State, returns}
use light_lua.Backend.{Backend, Lua, ReceiveLaws}
use light_lua.Binding.Values.{Pushed}
use light_lua.Binding.Create.{
  socket_tcp, socket_udp, socket_connect, socket_connect_now, socket_bind,
}
use light_lua.Binding.Transfer.{
  socket_receive, socket_receive_now, socket_receive_from, socket_receive_from_now, socket_send,
  socket_send_now, socket_send_to, socket_send_to_now,
}
use light_lua.Binding.Select.{socket_select}
use light_lua.Session.{
  Call, run, tcp, udp, get_address, accept, accept_now, close, is_closed, is_shutdown, listen,
  receive, receive_now, shutdown, connect, connect_now, bind, send, send_now, select, receive_from,
  receive_from_now, send_to, send_to_now, Reachable, stepped, returned,
}
use light_lua.Session.Frames.{Frames}
use light_lua.Session.Sound.{Sound}
use light_lua.Session.Invariant.{Reachable-Sound}
use light_lua.Session.Progress.{Returns, IsReady}
use light_lua.Session.Progress.Simple.{
  open_with-Returns, with_endpoint-Returns, get_address-Returns, listen-Returns, is_closed-Returns,
  is_shutdown-Returns, close-Returns, shutdown-Returns, accept-Returns,
}
use light_lua.Session.Progress.Transfers.{
  receive_with-Returns, receive_from_with-Returns, send_with-Returns, send_to_with-Returns,
}

-- The receive laws of the four receives.
pub record Receiving {W F V : Type 0} (b : Backend W F V) : Type 0 where
  pub receives : ReceiveLaws b.receive
  pub receives_now : ReceiveLaws b.receive_now
  pub receives_from : (host : List ℕ) (port : ℕ) → ReceiveLaws (b.receive_from host port)
  pub receives_from_now : (host : List ℕ) (port : ℕ) → ReceiveLaws (b.receive_from_now host port)

module _ {W F V : Type 0} (b : Backend W F V) (l : Lua V) (frames : Frames b) (laws : Receiving b)
    (Selects : State W → V → V → V → Type 0)
    (serves : (st : State W) (r w t : V)
      → Selects st r w t
      → Returns (socket_select b l r w t st)) where
  run-Returns :
      (c : Call V) (st : State W) → Sound st → IsReady b l Selects st c → Returns (run b l c st)
  unfolding run socket_tcp socket_udp socket_connect socket_connect_now socket_bind socket_receive
      socket_receive_now socket_receive_from socket_receive_from_now socket_send socket_send_now
      socket_send_to socket_send_to_now
  run-Returns tcp st sound h = open_with-Returns b b.tcp st
  run-Returns udp st sound h = open_with-Returns b b.udp st
  run-Returns (get_address self) st sound h = get_address-Returns b l self st h
  run-Returns (accept self) st sound h = (accept-Returns b l self st h).0
  run-Returns (accept_now self) st sound h = (accept-Returns b l self st h).1
  run-Returns (close self) st sound h = close-Returns b l self st h
  run-Returns (is_closed self) st sound h = is_closed-Returns b l self st h
  run-Returns (is_shutdown self) st sound h = is_shutdown-Returns b l self st h
  run-Returns (listen self n) st sound h = listen-Returns b l self n st h.0 h.1
  run-Returns (receive self n) st sound h =
      receive_with-Returns b l b.receive self n st laws.receives sound h.0 h.1
  run-Returns (receive_now self n) st sound h =
      receive_with-Returns b l b.receive_now self n st laws.receives_now sound h.0 h.1
  run-Returns (shutdown self how) st sound h = shutdown-Returns b l self how st h.0 h.1
  run-Returns (connect self host port) st sound h =
      with_endpoint-Returns b l b.connect self host port st h.0 h.1 h.2
  run-Returns (connect_now self host port) st sound h =
      with_endpoint-Returns b l b.connect_now self host port st h.0 h.1 h.2
  run-Returns (bind self host port) st sound h =
      with_endpoint-Returns b l b.bind self host port st h.0 h.1 h.2
  run-Returns (send self text n) st sound h = send_with-Returns b l b.send self text n st h.0 h.1
  run-Returns (send_now self text n) st sound h =
      send_with-Returns b l b.send_now self text n st h.0 h.1
  run-Returns (select r w timeout) st sound h = serves st r w timeout h
  run-Returns (receive_from self n host port) st sound h =
      receive_from_with-Returns b l b.receive_from self n host port st laws.receives_from sound h
  run-Returns (receive_from_now self n host port) st sound h =
      receive_from_with-Returns b l b.receive_from_now self n host port st laws.receives_from_now
        sound h
  run-Returns (send_to self text n host port) st sound h =
      send_to_with-Returns b l b.send_to self text n host port st h.0 h.1 h.2 h.3
  run-Returns (send_to_now self text n host port) st sound h =
      send_to_with-Returns b l b.send_to_now self text n host port st h.0 h.1 h.2 h.3

  -- In a state that a program can reach, a ready call returns, and the state that it leaves can be
  -- reached too.
  pub Reachable-Returns :
      (st : State W) (c : Call V)
      → Reachable b l st
      → IsReady b l Selects st c
      → (vs : List Pushed) × (st' : State W) × (run b l c st ≡ returns vs st') × Reachable b l st'
  Reachable-Returns st c reachable ready =
      let (vs, st', e) = run-Returns c st (Reachable-Sound b l frames st reachable) ready in
      (vs, st', e, stepped st st' reachable (returned c vs st st' e))
