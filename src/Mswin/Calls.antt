-- ===== src/Mswin/Calls.antt =====
-- The methods of light/socket/src/socket_mswin.cpp.
use light_lua.Prelude.{
  ℕ, ◌-◌, ◌^◌, ℤ, pos, minus_one, eqb_ℤ, pos_part, to_uint16, to_int32, length, Bool, true, false,
  none, some, List, [], ◌==◌, if◌then◌else◌,
}
use light_lua.Memory.{c_prefix}
use light_lua.Socket.{Socket, SockAddr, zero_socket, with_fd, with_addr}
use light_lua.Backend.{Method, Received}
use light_lua.Posix.Kernel.{stream, dgram, SocketKind}
use light_lua.Mswin.Winsock.{Winsock, Process, PartFlags, whole, partial}

-- `INVALID_SOCKET`, which is `~0` as a `SOCKET`.
abbrev pub invalid_socket : ℕ
invalid_socket = 2 ^ 64 - 1

-- The `SOCKET` in the socket's memory.
abbrev pub fd_of : Socket → ℕ
fd_of s = pos_part s.impl.fd

abbrev pub set_fd : ℕ → Socket → Socket
set_fd n s = with_fd (pos n) s

unfoldable pub init : Socket → Socket
init socket = set_fd invalid_socket zero_socket

unfoldable pub is_closed : Socket → ℤ
is_closed s = if fd_of s == invalid_socket then pos 0 else pos 1

module _ {W F : Type 0} (sys : Winsock W F) where
  -- `checkStart`
  unfoldable pub check_start : Process W → Bool × Process W
  check_start g =
      let (err, w) = sys.wsa_startup g.world in
      let (fd, w') = sys.socket stream (sys.at_exit w) in
      if g.wsa_start_up
      then (true, g)
      else (if eqb_ℤ err (pos 0)
          then (true, record { world = w'; wsa_start_up = true; default_socket = fd })
          else (false, record g { world = w }))

  abbrev pub create : SocketKind → Method (Process W) ℤ
  create kind s g =
      let (started, g') = check_start g in
      let (fd, w) = sys.socket kind g'.world in
      if started
      then (if fd == invalid_socket
          then (minus_one, set_fd fd s, record g' { world = w })
          else (to_int32 (pos fd), set_fd fd s, record g' { world = w }))
      else (minus_one, s, g')

  unfoldable pub tcp : Method (Process W) ℤ
  unfolding check_start
  tcp = create stream

  unfoldable pub udp : Method (Process W) ℤ
  unfolding check_start
  udp = create dgram

  unfoldable pub get_address : Socket → ℕ → List ℕ × ℕ
  get_address s len = (
    elim (sys.inet_ntop s.impl.addr.sin_family s.impl.addr.s_addr len) [
      | none ↦ []
      | some text ↦ c_prefix text
    ],
    sys.htons s.impl.addr.sin_port,
  )

  unfoldable pub endpoint : List ℕ → ℕ → SockAddr
  endpoint host port = record {
    sin_family = sys.af_inet;
    sin_port = sys.htons (to_uint16 port);
    s_addr = sys.inet_addr (c_prefix host);
  }

  -- A call on the world alone.
  abbrev on_world : {A : Type 0} → Process W → A × W → A × Process W
  on_world g (a, w) = (a, record g { world = w })

  unfoldable pub connect : List ℕ → ℕ → Method (Process W) ℤ
  connect host port s g =
      let (ret, g') = on_world g (sys.connect (fd_of s) (endpoint host port) g.world) in
      (ret, with_addr (endpoint host port) s, g')

  unfoldable pub set_non_block : Socket → Process W → Socket × Process W
  set_non_block s g =
      (record s { is_nonblock = 1 }, record g { world = sys.set_fionbio (fd_of s) 1 g.world })

  unfoldable pub set_block : Socket → Process W → Socket × Process W
  set_block s g =
      (record s { is_nonblock = 0 }, record g { world = sys.set_fionbio (fd_of s) 0 g.world })

  unfoldable pub connect_now : List ℕ → ℕ → Method (Process W) ℤ
  connect_now host port s g =
      let addr = endpoint host port in
      let s1 = with_addr addr s in
      let blocking : ℤ × Socket × Process W =
        (let (s2, g2) = set_non_block s1 g in
          let (ret, g3) = on_world g2 (sys.connect (fd_of s) addr g2.world) in
          let (s4, g4) = set_block s2 g3 in (ret, s4, g4)) in
      let at_once : ℤ × Socket × Process W =
        (let (ret, g') = on_world g (sys.connect (fd_of s) addr g.world) in (ret, s1, g')) in
      if s.is_nonblock == 0 then blocking else at_once

  unfoldable pub bind : List ℕ → ℕ → Method (Process W) ℤ
  bind host port s g =
      let (ret, g') = on_world g (sys.bind (fd_of s) (endpoint host port) g.world) in
      (ret, with_addr (endpoint host port) s, g')

  unfoldable pub listen : ℤ → Method (Process W) ℤ
  listen queue s g = let (ret, g') = on_world g (sys.listen (fd_of s) queue g.world) in (ret, s, g')

  -- `accept` into the client's memory; the `SOCKET` is returned as an `int`.
  abbrev accept_into : ℕ → Socket → Process W → (ℤ × Socket) × Process W
  accept_into fd client g =
      let (new, addr, w) = sys.accept fd client.impl.addr g.world in
      ((to_int32 (pos new), set_fd new (with_addr addr client)), record g { world = w })

  unfoldable pub accept : Socket → Method (Process W) (ℤ × Socket)
  accept client s g = let (r, g') = accept_into (fd_of s) client g in (r, s, g')

  unfoldable pub accept_now : Socket → Method (Process W) (ℤ × Socket)
  accept_now client s g =
      let blocking : (ℤ × Socket) × Socket × Process W =
        (let (s2, g2) = set_non_block s g in
          let (r, g3) = accept_into (fd_of s) client g2 in
          let (s4, g4) = set_block s2 g3 in (r, s4, g4)) in
      let at_once : (ℤ × Socket) × Socket × Process W =
        (let (r, g') = accept_into (fd_of s) client g in (r, s, g')) in
      if s.is_nonblock == 0 then blocking else at_once

  abbrev receive_by : PartFlags → ℕ → Method (Process W) Received
  receive_by flags size s g =
      let (r, g') = on_world g (sys.recv (fd_of s) (to_int32 (pos size)) flags g.world) in
      (r, s, g')

  unfoldable pub receive : ℕ → Method (Process W) Received
  receive = receive_by whole

  unfoldable pub receive_now : ℕ → Method (Process W) Received
  receive_now = receive_by partial

  -- `return 0;`
  unfoldable pub receive_from : List ℕ → ℕ → ℕ → Method (Process W) Received
  receive_from address port size s g = (record { ret = pos 0; bytes = [] }, s, g)

  unfoldable pub receive_from_now : List ℕ → ℕ → ℕ → Method (Process W) Received
  receive_from_now address port size s g = (record { ret = pos 0; bytes = [] }, s, g)

  abbrev send_by : PartFlags → List ℕ → Method (Process W) ℤ
  send_by flags bytes s g =
      let (ret, g') =
        on_world g (sys.send (fd_of s) bytes (to_int32 (pos (length bytes))) flags g.world) in
      (ret, s, g')

  unfoldable pub send : List ℕ → Method (Process W) ℤ
  send = send_by whole

  unfoldable pub send_now : List ℕ → Method (Process W) ℤ
  send_now = send_by partial

  unfoldable pub send_to : List ℕ → ℕ → List ℕ → Method (Process W) ℤ
  send_to address port bytes s g = (pos 0, s, g)

  unfoldable pub send_to_now : List ℕ → ℕ → List ℕ → Method (Process W) ℤ
  send_to_now address port bytes s g = (pos 0, s, g)
