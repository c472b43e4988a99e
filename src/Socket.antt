-- ===== src/Socket.antt =====
-- The data of light/socket/include/socket.h and of the two `SocketImpl` headers. A `Socket` is the
-- memory of one userdata; its `impl` bytes are read as a `SocketImpl`.
use light_lua.Prelude.{ℕ, ℤ}
use light_lua.Memory.{Buffer}

-- `sockaddr_in`: the port in network order, the address as `inet_addr` gives it.
pub record SockAddr : Type 0 where
  pub sin_family : ℕ
  pub sin_port : ℕ
  pub s_addr : ℕ

pub record SocketImpl : Type 0 where
  pub fd : ℤ
  pub addr : SockAddr

pub record Socket : Type 0 where
  pub is_nonblock : ℕ
  pub is_shutdown : ℤ
  pub buffer : Buffer
  pub buffer_size : ℕ
  pub impl : SocketImpl

-- What `memset(socket, 0, sizeof(Socket))` leaves.
abbrev pub zero_socket : Socket
zero_socket = record {
  is_nonblock = 0;
  is_shutdown = ℤ.pos 0;
  buffer = Buffer.null;
  buffer_size = 0;
  impl = record { fd = ℤ.pos 0; addr = record { sin_family = 0; sin_port = 0; s_addr = 0 } };
}

abbrev pub with_fd : ℤ → Socket → Socket
with_fd fd s = record s { impl = record { fd = fd; addr = s.impl.addr } }

abbrev pub with_addr : SockAddr → Socket → Socket
with_addr addr s = record s { impl = record { fd = s.impl.fd; addr = addr } }
