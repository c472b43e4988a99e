-- ===== src/Posix.antt =====
-- light/socket/src/socket_posix.cpp: the class interface over POSIX system calls.
pub mod Kernel
pub mod Calls
pub mod Sets
pub mod Select
pub mod Transfers
pub mod Lifetime
pub mod Blocking
pub mod Progress
pub mod Descriptor
pub mod Frames
use light_lua.Prelude.{ℤ, pos, minus_one, Bool, false}
use light_lua.Machine.{M}
use light_lua.Backend.{Backend, Lua}
use Kernel.{Os, FdSets}
use Calls.{
  init, tcp, udp, get_address, connect, connect_now, bind, listen, accept, accept_now, receive,
  receive_now, receive_from, receive_from_now, send, send_now, send_to, send_to_now, shutdown,
  close, select, is_closed,
}
use Sets.{table_to_fd_set, fd_set_to_table}

-- The methods as the class interface that the binding calls.
unfoldable pub posix : {W F V : Type 0} → Os W F → FdSets F → Lua V → Backend W F V
posix os fs l = record {
  init = init;
  tcp = tcp os;
  udp = udp os;
  get_address = get_address os;
  connect = connect os;
  connect_now = connect_now os;
  bind = bind os;
  listen = listen os;
  accept = accept os;
  accept_now = accept_now os;
  receive = receive os;
  receive_now = receive_now os;
  receive_from = receive_from os;
  receive_from_now = receive_from_now os;
  send = send os;
  send_now = send_now os;
  send_to = send_to os;
  send_to_now = send_to_now os;
  shutdown = shutdown os;
  close = close os;
  select = select os;
  get_error = os.errno;
  is_closed = is_closed;
  fd_zero = fs.fd_zero;
  table_to_fd_set = table_to_fd_set l fs;
  fd_set_to_table = fd_set_to_table l fs;
  is_win32 = false;
  econnreset = os.econnreset;
}
