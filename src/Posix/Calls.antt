-- ===== src/Posix/Calls.antt =====
-- The methods of light/socket/src/socket_posix.cpp.
use mathlib.Core.Option as Opt
use light_lua.Prelude.{
  ℕ, ◌-◌, ◌^◌, ℤ, pos, minus_one, leb_ℤ, to_uint16, bit_and, bit_or, Option, none, some, List, [],
  ◌==◌, if◌then◌else◌,
}
use light_lua.Memory.{c_prefix}
use light_lua.Socket.{Socket, SockAddr, zero_socket, with_fd, with_addr}
use light_lua.Backend.{Double, Doubles, Method, Received, Selected}
use light_lua.Posix.Kernel.{Os, stream, dgram, SocketKind, wait, dontwait, MsgFlags, Timeval}

unfoldable pub init : Socket → Socket
init socket = with_fd minus_one zero_socket

unfoldable pub is_closed : Socket → ℤ
is_closed s = if leb_ℤ (pos 0) s.impl.fd then pos 0 else pos 1

-- The double 1000000.
abbrev million : Double
million = 0x412e848000000000

-- A `timeval` from a number of seconds; `none` where a conversion to an integer is undefined.
unfoldable pub to_timeval : Doubles → Double → Option Timeval
to_timeval d timeout = elim (d.to_long (d.floor timeout)) [
  | none ↦ none
  | some sec ↦
      Opt.map (λ usec. record { tv_sec = sec; tv_usec = usec })
        (d.to_long (d.times (d.minus timeout (d.floor timeout)) million))
]

module _ {W F : Type 0} (os : Os W F) where
  abbrev create : SocketKind → Method W ℤ
  create kind s w = let (fd, w') = os.socket kind w in (fd, with_fd fd s, w')

  unfoldable pub tcp : Method W ℤ
  tcp = create stream

  unfoldable pub udp : Method W ℤ
  udp = create dgram

  -- `inet_ntop` is given the whole `sockaddr_in`, so it formats its first bytes. Where it fails the
  -- text stays empty.
  unfoldable pub get_address : Socket → ℕ → List ℕ × ℕ
  get_address s len = (
    elim (os.inet_ntop s.impl.addr.sin_family (os.head_of s.impl.addr) len) [
      | none ↦ []
      | some text ↦ c_prefix text
    ],
    os.htons s.impl.addr.sin_port,
  )

  -- The three assignments in front of `connect`, `bind` and the addressed transfers.
  unfoldable pub endpoint : List ℕ → ℕ → SockAddr
  endpoint host port = record {
    sin_family = os.af_inet;
    sin_port = os.htons (to_uint16 port);
    s_addr = os.inet_addr (c_prefix host);
  }

  unfoldable pub connect : List ℕ → ℕ → Method W ℤ
  connect host port s w =
      let (ret, w') = os.connect s.impl.fd (endpoint host port) w in
      (ret, with_addr (endpoint host port) s, w')

  unfoldable pub set_non_block : Socket → W → Socket × W
  set_non_block s w =
      let (flags, w') = os.get_flags s.impl.fd w in
      (record s { is_nonblock = 1 }, os.set_flags s.impl.fd (bit_or flags os.o_nonblock) w')

  unfoldable pub set_block : Socket → W → Socket × W
  set_block s w =
      let (flags, w') = os.get_flags s.impl.fd w in
      (
        record s { is_nonblock = 0 },
        os.set_flags s.impl.fd (bit_and flags (2 ^ 32 - 1 - os.o_nonblock)) w',
      )

  unfoldable pub connect_now : List ℕ → ℕ → Method W ℤ
  connect_now host port s w =
      let addr = endpoint host port in
      let s1 = with_addr addr s in
      let blocking : ℤ × Socket × W =
        (let (s2, w2) = set_non_block s1 w in
          let (ret, w3) = os.connect s.impl.fd addr w2 in
          let (s4, w4) = set_block s2 w3 in (ret, s4, w4)) in
      let at_once : ℤ × Socket × W =
        (let (ret, w') = os.connect s.impl.fd addr w in (ret, s1, w')) in
      if s.is_nonblock == 0 then blocking else at_once

  unfoldable pub bind : List ℕ → ℕ → Method W ℤ
  bind host port s w =
      let (ret, w') = os.bind s.impl.fd (endpoint host port) w in
      (ret, with_addr (endpoint host port) s, w')

  unfoldable pub listen : ℤ → Method W ℤ
  listen queue s w = let (ret, w') = os.listen s.impl.fd queue w in (ret, s, w')

  -- `accept` on `fd` into the client's memory.
  abbrev accept_into : ℤ → Socket → W → (ℤ × Socket) × W
  accept_into fd client w =
      let (ret, addr, w') = os.accept fd client.impl.addr w in
      ((ret, with_fd ret (with_addr addr client)), w')

  unfoldable pub accept : Socket → Method W (ℤ × Socket)
  accept client s w = let (r, w') = accept_into s.impl.fd client w in (r, s, w')

  unfoldable pub accept_now : Socket → Method W (ℤ × Socket)
  accept_now client s w =
      let blocking : (ℤ × Socket) × Socket × W =
        (let (s2, w2) = set_non_block s w in
          let (r, w3) = accept_into s.impl.fd client w2 in
          let (s4, w4) = set_block s2 w3 in (r, s4, w4)) in
      let at_once : (ℤ × Socket) × Socket × W =
        (let (r, w') = accept_into s.impl.fd client w in (r, s, w')) in
      if s.is_nonblock == 0 then blocking else at_once

  abbrev receive_by : MsgFlags → ℕ → Method W Received
  receive_by flags size s w = let (r, w') = os.recv s.impl.fd size flags w in (r, s, w')

  unfoldable pub receive : ℕ → Method W Received
  receive = receive_by wait

  unfoldable pub receive_now : ℕ → Method W Received
  receive_now = receive_by dontwait

  -- The sender's address goes to a local that is dropped; the socket keeps the argument's.
  abbrev receive_from_by : MsgFlags → List ℕ → ℕ → ℕ → Method W Received
  receive_from_by flags address port size s w =
      let (r, w') = os.recvfrom s.impl.fd size flags w in
      (r, with_addr (endpoint address port) s, w')

  unfoldable pub receive_from : List ℕ → ℕ → ℕ → Method W Received
  receive_from = receive_from_by wait

  unfoldable pub receive_from_now : List ℕ → ℕ → ℕ → Method W Received
  receive_from_now = receive_from_by dontwait

  abbrev send_by : MsgFlags → List ℕ → Method W ℤ
  send_by flags bytes s w = let (ret, w') = os.send s.impl.fd bytes flags w in (ret, s, w')

  unfoldable pub send : List ℕ → Method W ℤ
  send = send_by wait

  unfoldable pub send_now : List ℕ → Method W ℤ
  send_now = send_by dontwait

  -- `sockaddr_in addr{}`, which is what the addressed sends pass on.
  abbrev pub zero_addr : SockAddr
  zero_addr = record { sin_family = 0; sin_port = 0; s_addr = 0 }

  abbrev send_to_by : MsgFlags → List ℕ → ℕ → List ℕ → Method W ℤ
  send_to_by flags address port bytes s w =
      let (ret, w') = os.sendto s.impl.fd bytes flags zero_addr w in
      (ret, with_addr (endpoint address port) s, w')

  unfoldable pub send_to : List ℕ → ℕ → List ℕ → Method W ℤ
  send_to = send_to_by wait

  unfoldable pub send_to_now : List ℕ → ℕ → List ℕ → Method W ℤ
  send_to_now = send_to_by dontwait

  unfoldable pub shutdown : ℤ → Method W ℤ
  shutdown how s w = let (ret, w') = os.shutdown s.impl.fd how w in (ret, s, w')

  -- The descriptor stays in the socket.
  unfoldable pub close : Method W ℤ
  close s w =
      if leb_ℤ (pos 0) s.impl.fd
      then (let (ret, w') = os.close s.impl.fd w in (ret, s, w'))
      else (pos 0, s, w)

  unfoldable pub select : ℤ → Option F → Option F → Double → W → Option (Selected F × W)
  unfolding to_timeval
  select max r_set w_set timeout w = elim (to_timeval os.doubles timeout) [
    | none ↦ none
    | some tv ↦ some (os.select max r_set w_set tv w)
  ]
