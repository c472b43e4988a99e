-- ===== src/Mswin/Addresses.antt =====
-- Addresses and the blocking mode on Windows: light/socket/src/socket_mswin.cpp.
use light_lua.Prelude.{
  ℕ, ◌%◌, ◌^◌, ◌<◌, ◌≡◌, refl, inl, inr, ◌==◌, to_uint16, to_uint16_lem, Bool-cases, some, List,
  arith,
}
use light_lua.Socket.{Socket}
use light_lua.Memory.{c_prefix}
use light_lua.Mswin.Winsock.{Winsock, Process}
use light_lua.Mswin.Calls.{
  get_address, endpoint, connect, connect_now, bind, set_non_block, set_block,
}

module _ {W F : Type 0} (sys : Winsock W F) where
  connect_now-addr :
      (host : List ℕ) (port : ℕ) (s : Socket) (g : Process W)
      → (connect_now sys host port s g).1.impl.addr ≡ endpoint sys host port
  unfolding connect_now set_non_block set_block
  connect_now-addr host port s g = elim (Bool-cases (s.is_nonblock == 0)) [
    | inl e ↦ rw e
    | inr e ↦ rw e
  ]

  -- The mode flag of a Windows socket is the same after `ConnectNow` as before, if it is 0 or 1.
  connect_now-keeps_mode :
      (host : List ℕ) (port : ℕ) (s : Socket) (g : Process W)
      → s.is_nonblock < 2
      → (connect_now sys host port s g).1.is_nonblock ≡ s.is_nonblock
  unfolding connect_now set_non_block set_block
  connect_now-keeps_mode host port s g h = ground arith

module _ {W F : Type 0} (sys : Winsock W F)
    (twice : (n : ℕ) → n < 2 ^ 16 → sys.htons (sys.htons n) ≡ n) (host : List ℕ) (len : ℕ)
    (whole : c_prefix host ≡ host)
    (prints : sys.inet_ntop sys.af_inet (sys.inet_addr host) len ≡ some host) where
  -- Where `htons` undoes itself on 16-bit numbers and `inet_ntop` prints the host again that
  -- `inet_addr` has read, a Windows socket reports after `Connect`, `ConnectNow` or `Bind` the host
  -- that was given and the port modulo 2^16, whatever the call returned.
  pub get_address-given :
      (port : ℕ) (s : Socket) (g : Process W)
      → (get_address sys (connect sys host port s g).1 len ≡ (host, port % 2 ^ 16))
        × (get_address sys (connect_now sys host port s g).1 len ≡ (host, port % 2 ^ 16))
        × (get_address sys (bind sys host port s g).1 len ≡ (host, port % 2 ^ 16))
  unfolding get_address connect bind endpoint
  get_address-given port s g =
      let port_back : sys.htons (sys.htons (to_uint16 port)) ≡ port % 2 ^ 16 =
        rw (to_uint16_lem port) (twice (port % 2 ^ 16) (omega arith)) in
      let given : get_address sys (connect sys host port s g).1 len ≡ (host, port % 2 ^ 16) =
        rw (whole, prints, whole, port_back) refl in
      (given, rw (get_address, connect_now-addr sys host port s g) given, given)
