-- ===== src/Session.antt =====
-- A run of a program over light/socket/src/socket.cpp: any socket functions of `lib`, one after
-- another, in a world that may change in between. `__gc` is Lua's to call, on userdata that the
-- program has no more; a program that calls it by itself is left out.
pub mod Sound
pub mod Frames
pub mod Reads
pub mod Owning
pub mod Lasting
pub mod Evolving
pub mod Creating
pub mod Transferring
pub mod Finishing
pub mod Invariant
pub mod Receiving
pub mod Collecting
pub mod Progress
use light_lua.Prelude.{◌≡◌, List, []}
use light_lua.Machine.{M, State, LuaError, returns, raises}
use light_lua.Backend.{Lua, Backend}
use light_lua.Binding.Values.{Pushed}
use light_lua.Binding.Create.{
  socket_tcp, socket_udp, socket_get_address, socket_connect, socket_connect_now, socket_bind,
  socket_listen, socket_accept, socket_accept_now,
}
use light_lua.Binding.Transfer.{
  socket_receive, socket_receive_now, socket_receive_from, socket_receive_from_now, socket_send,
  socket_send_now, socket_send_to, socket_send_to_now,
}
use light_lua.Binding.Finish.{socket_close, socket_shutdown, socket_is_closed, socket_is_shutdown}
use light_lua.Binding.Select.{socket_select}

-- A function of the module with its Lua arguments.
pub data Call (V : Type 0) : Type 0 where
  tcp udp : Call V
  get_address accept accept_now close is_closed is_shutdown : V → Call V
  listen receive receive_now shutdown : V → V → Call V
  connect connect_now bind send send_now select : V → V → V → Call V
  receive_from receive_from_now : V → V → V → V → Call V
  send_to send_to_now : V → V → V → V → V → Call V

module _ {W F V : Type 0} (b : Backend W F V) (l : Lua V) where
  unfoldable pub run : Call V → M W (List Pushed)
  run tcp = socket_tcp b
  run udp = socket_udp b
  run (get_address self) = socket_get_address b l self
  run (accept self) = socket_accept b l self
  run (accept_now self) = socket_accept_now b l self
  run (close self) = socket_close b l self
  run (is_closed self) = socket_is_closed b l self
  run (is_shutdown self) = socket_is_shutdown b l self
  run (listen self n) = socket_listen b l self n
  run (receive self n) = socket_receive b l self n
  run (receive_now self n) = socket_receive_now b l self n
  run (shutdown self how) = socket_shutdown b l self how
  run (connect self host port) = socket_connect b l self host port
  run (connect_now self host port) = socket_connect_now b l self host port
  run (bind self host port) = socket_bind b l self host port
  run (send self text n) = socket_send b l self text n
  run (send_now self text n) = socket_send_now b l self text n
  run (select r w timeout) = socket_select b l r w timeout
  run (receive_from self n host port) = socket_receive_from b l self n host port
  run (receive_from_now self n host port) = socket_receive_from_now b l self n host port
  run (send_to self text n host port) = socket_send_to b l self text n host port
  run (send_to_now self text n host port) = socket_send_to_now b l self text n host port

  -- One step of the program: a call that returns or raises, or a change of the world.
  pub data Step : State W → State W → Type 0 where
    returned :
        (c : Call V) (vs : List Pushed) (st st' : State W) → run c st ≡ returns vs st' → Step st st'
    raised : (c : Call V) (e : LuaError) (st st' : State W) → run c st ≡ raises e st' → Step st st'
    elapsed : (w : W) (st : State W) → Step st (record st { world = w })

  -- The states that a program can be in, from the loading of the module on.
  pub data Reachable : State W → Type 0 where
    loaded : (w : W) → Reachable (record { world = w; sockets = [] })
    stepped : (st st' : State W) → Reachable st → Step st st' → Reachable st'
