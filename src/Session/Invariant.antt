-- ===== src/Session/Invariant.antt =====
-- What holds in every state of a program over light/socket/src/socket.cpp.
use light_lua.Prelude.{List, arith, ◌≤◌, ℕ, ◌≡◌, subst, none, some}
use light_lua.Memory.{delete_array}
use light_lua.Socket.{Socket, zero_socket}
use light_lua.Machine.{M, State, Live}
use light_lua.Backend.{Backend, Lua}
use light_lua.Binding.Create.{
  socket_tcp, socket_udp, socket_connect, socket_connect_now, socket_bind, socket_accept,
  socket_accept_now,
}
use light_lua.Binding.Transfer.{
  socket_receive, socket_receive_now, socket_receive_from, socket_receive_from_now, socket_send,
  socket_send_now, socket_send_to, socket_send_to_now,
}
use light_lua.Session.{
  Call, run, tcp, udp, get_address, accept, accept_now, close, is_closed, is_shutdown, listen,
  receive, receive_now, shutdown, connect, connect_now, bind, send, send_now, select, receive_from,
  receive_from_now, send_to, send_to_now, Step, returned, raised, elapsed, Reachable, loaded,
  stepped,
}
use light_lua.Session.Owning.{Owned, Owns, Safe-Owns}
use light_lua.Binding.Values.{Pushed}
use light_lua.Session.Sound.{Safe-Any, socket_count, Sound, Ends, Safe, Any}
use light_lua.Session.Frames.{Frames}
use light_lua.Session.Creating.{
  open_with-Owns, accept_with-Owns, open_with-Safe, with_endpoint-Safe, get_address-Safe,
  listen-Safe, accept_with-Safe,
}
use light_lua.Session.Transferring.{
  receive_with-Safe, receive_from_with-Safe, send_with-Safe, send_to_with-Safe,
}
use light_lua.Session.Finishing.{
  select-Owns, is_closed-Safe, is_shutdown-Safe, close-Safe, shutdown-Safe, select-Safe,
}

module _ {W : Type 0} (m : M W (List Pushed)) where
  -- A call that keeps the sockets sound and takes none away, and whose values name sockets that are
  -- there when it ends.
  pub record Tame : Type 0 where
    pub safe : Safe Any m
    pub owning : Owns 0 m

  both : Safe Any m → Owns 0 m → Tame
  both safe owning = record { safe = safe; owning = owning }

  plain : Safe (Owned 0) m → Tame
  plain safe = both (Safe-Any safe) (Safe-Owns 0 safe)

module _ {W F V : Type 0} (b : Backend W F V) (l : Lua V) (frames : Frames b) where
  pub run-Tame : (c : Call V) → Tame (run b l c)
  unfolding run socket_tcp socket_udp socket_connect socket_connect_now socket_bind socket_accept
      socket_accept_now socket_receive socket_receive_now socket_receive_from
      socket_receive_from_now socket_send socket_send_now socket_send_to socket_send_to_now
  run-Tame tcp =
      both _ (open_with-Safe b frames b.tcp frames.keeps_tcp)
        (open_with-Owns b frames b.tcp frames.keeps_tcp)
  run-Tame udp =
      both _ (open_with-Safe b frames b.udp frames.keeps_udp)
        (open_with-Owns b frames b.udp frames.keeps_udp)
  run-Tame (get_address self) = plain _ (get_address-Safe b l self)
  run-Tame (accept self) =
      both _
        (accept_with-Safe b l frames (b.accept zero_socket) self (frames.keeps_accept zero_socket)
          (λ s w. (frames.accept_client zero_socket s w).0))
        (accept_with-Owns b l frames (b.accept zero_socket) self (frames.keeps_accept zero_socket)
          (λ s w. (frames.accept_client zero_socket s w).0))
  run-Tame (accept_now self) =
      both _
        (accept_with-Safe b l frames (b.accept_now zero_socket) self
          (frames.keeps_accept_now zero_socket) (λ s w. (frames.accept_client zero_socket s w).1))
        (accept_with-Owns b l frames (b.accept_now zero_socket) self
          (frames.keeps_accept_now zero_socket) (λ s w. (frames.accept_client zero_socket s w).1))
  run-Tame (close self) = plain _ (close-Safe b l frames self)
  run-Tame (is_closed self) = plain _ (is_closed-Safe b l self)
  run-Tame (is_shutdown self) = plain _ (is_shutdown-Safe b l self)
  run-Tame (listen self n) = plain _ (listen-Safe b l frames self n)
  run-Tame (receive self n) = plain _ (receive_with-Safe b l b.receive self n frames.keeps_receive)
  run-Tame (receive_now self n) =
      plain _ (receive_with-Safe b l b.receive_now self n frames.keeps_receive_now)
  run-Tame (shutdown self how) = plain _ (shutdown-Safe b l frames self how)
  run-Tame (connect self host port) =
      plain _ (with_endpoint-Safe b l b.connect self host port frames.keeps_connect)
  run-Tame (connect_now self host port) =
      plain _ (with_endpoint-Safe b l b.connect_now self host port frames.keeps_connect_now)
  run-Tame (bind self host port) =
      plain _ (with_endpoint-Safe b l b.bind self host port frames.keeps_bind)
  run-Tame (send self text n) = plain _ (send_with-Safe b l b.send self text n frames.keeps_send)
  run-Tame (send_now self text n) =
      plain _ (send_with-Safe b l b.send_now self text n frames.keeps_send_now)
  run-Tame (select r w timeout) =
      both _ (select-Safe b frames l r w timeout) (select-Owns b frames l r w timeout)
  run-Tame (receive_from self n host port) =
      plain _ (receive_from_with-Safe b l b.receive_from self n host port frames.keeps_receive_from)
  run-Tame (receive_from_now self n host port) =
      plain _ (
        receive_from_with-Safe b l b.receive_from_now self n host port
          frames.keeps_receive_from_now)
  run-Tame (send_to self text n host port) =
      plain _ (send_to_with-Safe b l b.send_to self text n host port frames.keeps_send_to)
  run-Tame (send_to_now self text n host port) =
      plain _ (send_to_with-Safe b l b.send_to_now self text n host port frames.keeps_send_to_now)

  -- A step keeps the sockets sound, and takes none away.
  pub Step-Sound :
      (st st' : State W)
      → Sound st
      → Step b l st st'
      → Sound st' × (socket_count st ≤ socket_count st')
  Step-Sound st st' sound (returned c vs _ _ e) =
      let ended = subst (Ends (socket_count st) Any) e ((run-Tame c).safe.ends st sound) in
      (ended.1, ended.2)
  Step-Sound st st' sound (raised c error _ _ e) =
      subst (Ends (socket_count st) Any) e ((run-Tame c).safe.ends st sound)
  Step-Sound st st' sound (elapsed w _) = (sound, omega arith)

  -- Over a class whose methods leave the buffers alone, after any calls of the socket functions of the
  -- module other than `__gc`, which may return or raise, no socket has a freed buffer or a
  -- `bufferSize` other than 0.
  pub Reachable-Sound :
      (st : State W)
      → Reachable b l st
      → (p : ℕ) (s : Socket) → Live st p s
      → (s.buffer_size ≡ 0) × (delete_array s.buffer ≡ some tt)
  Reachable-Sound st (loaded w) p s live = absurd (none≢some live)
    where
      none≢some : none ≡ some s → ⊥
      none≢some e = cc
  Reachable-Sound st (stepped before _ reachable step) p s live =
      (Step-Sound before st (Reachable-Sound before reachable) step).0 p s live
