-- ===== src/Binding/Create.antt =====
-- light/socket/src/socket.cpp: creating, connecting and accepting.
use light_lua.Prelude.{
  ℕ, ℤ, pos, minus_one, eqb_ℤ, leb_ℤ, to_uint64, to_int32, List, [], ◌∷◌, if◌then◌else◌,
}
use light_lua.Socket.{Socket, zero_socket}
use light_lua.Machine.{M, pure, or_undefined, method, store, new_userdata, ◌>>=◌, ◌>>◌}
use light_lua.Backend.{Lua, Backend, Method}
use light_lua.Binding.Values.{
  Pushed, nil, integer, string, userdata, integer_arg, string_arg, push_status, push_failure,
}

module _ {W F V : Type 0} (b : Backend W F V) where
  -- `SocketNew`: fresh userdata, initialised. What the memory held before does not matter to `Init`.
  unfoldable pub socket_new : M W ℕ
  socket_new = new_userdata (record (b.init zero_socket) { is_shutdown = minus_one })

  abbrev pub open_with : Method W ℤ → M W (List Pushed)
  open_with create = do
    p ← socket_new
    ret ← method p create
    if eqb_ℤ ret minus_one then push_failure b (userdata p) else pure (userdata p ∷ [])

  unfoldable pub socket_tcp : M W (List Pushed)
  unfolding socket_new
  socket_tcp = open_with b.tcp

  unfoldable pub socket_udp : M W (List Pushed)
  unfolding socket_new
  socket_udp = open_with b.udp

module _ {W F V : Type 0} (b : Backend W F V) (l : Lua V) where
  unfoldable pub socket_get_address : V → M W (List Pushed)
  socket_get_address self = do
    p ← or_undefined (l.to_userdata self)
    a ← method p (λ s w. (b.get_address s 1023, s, w))
    pure (string a.0 ∷ integer (pos a.1) ∷ [])

  -- The shape that `connect`, `connectNow` and `bind` share.
  abbrev pub with_endpoint : (List ℕ → ℕ → Method W ℤ) → V → V → V → M W (List Pushed)
  with_endpoint call self host_arg port_arg = do
    host ← string_arg l host_arg
    port ← integer_arg l port_arg
    p ← or_undefined (l.to_userdata self)
    ret ← method p (call host (to_uint64 port))
    push_status b ret

  unfoldable pub socket_connect : V → V → V → M W (List Pushed)
  socket_connect = with_endpoint b.connect

  unfoldable pub socket_connect_now : V → V → V → M W (List Pushed)
  socket_connect_now = with_endpoint b.connect_now

  unfoldable pub socket_bind : V → V → V → M W (List Pushed)
  socket_bind = with_endpoint b.bind

  unfoldable pub socket_listen : V → V → M W (List Pushed)
  socket_listen self count_arg = do
    count ← integer_arg l count_arg
    p ← or_undefined (l.to_userdata self)
    ret ← method p (b.listen (to_int32 count))
    push_status b ret

  -- `Socket client{0,{0}}` is accepted into, then copied whole into fresh userdata.
  abbrev pub accept_with : Method W (ℤ × Socket) → V → M W (List Pushed)
  accept_with call self = do
    p ← or_undefined (l.to_userdata self)
    r ← method p call
    if leb_ℤ (pos 0) r.0
        then (do q ← socket_new b; store q r.1; pure (userdata q ∷ integer (pos 0) ∷ []))
        else push_failure b nil

  unfoldable pub socket_accept : V → M W (List Pushed)
  unfolding socket_new
  socket_accept = accept_with (b.accept zero_socket)

  unfoldable pub socket_accept_now : V → M W (List Pushed)
  unfolding socket_new
  socket_accept_now = accept_with (b.accept_now zero_socket)
