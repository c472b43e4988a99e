-- ===== src/Session/Receiving.antt =====
-- A receive in a running program: light/socket/src/socket.cpp over any class.
use light_lua.Prelude.{ℕ, ◌^◌, ◌+◌, ◌≡◌, ◌<◌, pos, some, arith}
use light_lua.Socket.{Socket}
use light_lua.Machine.{State, Live, moved, returns}
use light_lua.Memory.Laws.{zeros_with}
use light_lua.Backend.{Backend, Lua, ReceiveLaws}
use light_lua.Binding.Transfer.{socket_receive, socket_receive_now}
use light_lua.Binding.Transfer.Buffered.{with_buffer}
use light_lua.Binding.Transfer.Receive.{reported, cleared, socket_receive_delivers}
use light_lua.Session.{Reachable}
use light_lua.Session.Frames.{Frames}
use light_lua.Session.Invariant.{Reachable-Sound}

module _ {W F V : Type 0} (b : Backend W F V) (l : Lua V) (frames : Frames b)
    (laws : ReceiveLaws b.receive) (laws_now : ReceiveLaws b.receive_now) where
  -- Over a class that keeps the frame and receive laws, in every state that a program can reach, a
  -- receive of a positive size below 2^63 - 1 on any of the sockets returns: it makes one call, with
  -- the size, and Lua gets all the bytes received and 0, ECONNRESET for no byte, or the error.
  pub socket_receive_always :
      (self size_arg : V) (p n : ℕ) (s : Socket) (st : State W)
      → Reachable b l st
      → Live st p s
      → 0 < n
      → n + 1 < 2 ^ 63
      → l.to_userdata self ≡ some p
      → l.check_integer size_arg ≡ some (pos n)
      → (socket_receive b l self size_arg st ≡ (
          let (r, s', w') = b.receive n (cleared b l n s) st.world in
          returns (reported b r w') (moved p (with_buffer (zeros_with (n + 1) r.bytes) s') w' st)))
        × (socket_receive_now b l self size_arg st ≡ (
            let (r, s', w') = b.receive_now n (cleared b l n s) st.world in
            returns
              (reported b r w')
              (moved p (with_buffer (zeros_with (n + 1) r.bytes) s') w' st)))
  socket_receive_always self size_arg p n s st reachable live positive bound is_self is_size =
      let (size, deletable) = Reachable-Sound b l frames st reachable p s live in
      socket_receive_delivers b l self size_arg p n s st laws laws_now live deletable
        (omega (arith, size, positive)) bound is_self is_size
