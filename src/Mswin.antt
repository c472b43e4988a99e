-- ===== src/Mswin.antt =====
-- light/socket/src/socket_mswin.cpp: the class interface over Winsock.
pub mod Winsock
pub mod Calls
pub mod Ending
pub mod Lifetime
pub mod Frames
pub mod Addresses
pub mod Waiting
pub mod Tables
pub mod Listing
pub mod Select
pub mod Progress
pub mod Closing
use light_lua.Prelude.{true}
use light_lua.Backend.{Backend, Lua}
use light_lua.Posix.Kernel.{FdSets}
use Calls.{
  init, tcp, udp, get_address, connect, connect_now, bind, listen, accept, accept_now, receive,
  receive_now, receive_from, receive_from_now, send, send_now, send_to, send_to_now, is_closed,
}
use Listing.{fd_set_to_table}
use Ending.{close, shutdown, get_error, select, table_to_fd_set}

-- The methods as the class interface that the binding calls.
unfoldable pub mswin :
    {W F V : Type 0} → Winsock.Winsock W F → FdSets F → Lua V → Backend (Winsock.Process W) F V
mswin sys fs l = record {
  init = init;
  tcp = tcp sys;
  udp = udp sys;
  get_address = get_address sys;
  connect = connect sys;
  connect_now = connect_now sys;
  bind = bind sys;
  listen = listen sys;
  accept = accept sys;
  accept_now = accept_now sys;
  receive = receive sys;
  receive_now = receive_now sys;
  receive_from = receive_from sys;
  receive_from_now = receive_from_now sys;
  send = send sys;
  send_now = send_now sys;
  send_to = send_to sys;
  send_to_now = send_to_now sys;
  shutdown = shutdown sys;
  close = close sys;
  select = select sys fs;
  get_error = get_error sys;
  is_closed = is_closed;
  fd_zero = fs.fd_zero;
  table_to_fd_set = table_to_fd_set l fs;
  fd_set_to_table = fd_set_to_table l fs;
  is_win32 = true;
  econnreset = sys.econnreset;
}
