-- ===== src/Binding/Library.antt =====
-- light/socket/src/socket.cpp: the table `lib`, what `luaopen_light_socket` leaves for Lua, and the
-- metatable that `SocketNew` gives to each socket.
pub mod Fields
pub mod Runs
use Prim.Native.String.{String}
use light_lua.Prelude.{ℕ, ℤ, pos, Bool, Option, List, [], ◌∷◌, map}
use light_lua.Machine.{M}
use light_lua.Backend.{Lua, Backend}
use light_lua.ErrorNumber.{error_number}
use light_lua.Binding.Values.{Pushed}
use light_lua.Binding.Create.{
  socket_tcp, socket_udp, socket_get_address, socket_connect, socket_connect_now, socket_bind,
  socket_listen, socket_accept, socket_accept_now,
}
use light_lua.Binding.Transfer.{
  socket_receive, socket_receive_now, socket_receive_from, socket_receive_from_now, socket_send,
  socket_send_now, socket_send_to, socket_send_to_now,
}
use light_lua.Binding.Finish.{
  socket_close, socket_shutdown, socket_is_closed, socket_is_shutdown, socket_gc, socket_to_string,
}
use light_lua.Binding.Select.{socket_select}
use light_lua.Binding.Encoding.{Codec, socket_base64_encode, socket_base64_decode}
use light_lua.Binding.Digest.{socket_sha1, socket_sha1_hex}

-- A C function of the file.
pub data CFunction : Type 0 where
  tcp udp get_address connect connect_now bind listen accept accept_now : CFunction
  receive receive_now receive_from receive_from_now send send_now send_to send_to_now : CFunction
  close shutdown select is_closed is_shutdown : CFunction
  base64_encode base64_decode sha1_hex sha1 to_string gc : CFunction

abbrev pub lib : List (String × CFunction)
lib =
    ("TCP", tcp)
    ∷ ("UDP", udp)
    ∷ ("getAddress", get_address)
    ∷ ("connect", connect)
    ∷ ("connectNow", connect_now)
    ∷ ("bind", bind)
    ∷ ("listen", listen)
    ∷ ("accept", accept)
    ∷ ("acceptNow", accept_now)
    ∷ ("receive", receive)
    ∷ ("receiveNow", receive_now)
    ∷ ("receiveFrom", receive_from)
    ∷ ("receiveFromNow", receive_from_now)
    ∷ ("send", send)
    ∷ ("sendNow", send_now)
    ∷ ("sendTo", send_to)
    ∷ ("sendToNow", send_to_now)
    ∷ ("close", close)
    ∷ ("shutdown", shutdown)
    ∷ ("Select", select)
    ∷ ("isClosed", is_closed)
    ∷ ("isShutdown", is_shutdown)
    ∷ ("base64encode", base64_encode)
    ∷ ("base64decode", base64_decode)
    ∷ ("sha1hex", sha1_hex)
    ∷ ("sha1", sha1)
    ∷ ("__tostring", to_string)
    ∷ ("__gc", gc)
    ∷ []

module _ {W F V : Type 0} (b : Backend W F V) (l : Lua V) (c : Codec)
    (pointer_text : Option ℕ → List ℕ) where
  -- The function on the Lua stack, whose values are `arg 1`, `arg 2` and so on.
  unfoldable pub call_function : CFunction → (ℕ → V) → M W (List Pushed)
  call_function tcp arg = socket_tcp b
  call_function udp arg = socket_udp b
  call_function get_address arg = socket_get_address b l (arg 1)
  call_function connect arg = socket_connect b l (arg 1) (arg 2) (arg 3)
  call_function connect_now arg = socket_connect_now b l (arg 1) (arg 2) (arg 3)
  call_function bind arg = socket_bind b l (arg 1) (arg 2) (arg 3)
  call_function listen arg = socket_listen b l (arg 1) (arg 2)
  call_function accept arg = socket_accept b l (arg 1)
  call_function accept_now arg = socket_accept_now b l (arg 1)
  call_function receive arg = socket_receive b l (arg 1) (arg 2)
  call_function receive_now arg = socket_receive_now b l (arg 1) (arg 2)
  call_function receive_from arg = socket_receive_from b l (arg 1) (arg 2) (arg 3) (arg 4)
  call_function receive_from_now arg = socket_receive_from_now b l (arg 1) (arg 2) (arg 3) (arg 4)
  call_function send arg = socket_send b l (arg 1) (arg 2) (arg 3)
  call_function send_now arg = socket_send_now b l (arg 1) (arg 2) (arg 3)
  call_function send_to arg = socket_send_to b l (arg 1) (arg 2) (arg 3) (arg 4) (arg 5)
  call_function send_to_now arg = socket_send_to_now b l (arg 1) (arg 2) (arg 3) (arg 4) (arg 5)
  call_function close arg = socket_close b l (arg 1)
  call_function shutdown arg = socket_shutdown b l (arg 1) (arg 2)
  call_function select arg = socket_select b l (arg 1) (arg 2) (arg 3)
  call_function is_closed arg = socket_is_closed b l (arg 1)
  call_function is_shutdown arg = socket_is_shutdown b l (arg 1)
  call_function base64_encode arg = socket_base64_encode l c (arg 1)
  call_function base64_decode arg = socket_base64_decode l c (arg 1)
  call_function sha1_hex arg = socket_sha1_hex l (arg 1)
  call_function sha1 arg = socket_sha1 l (arg 1)
  call_function to_string arg = socket_to_string l pointer_text (arg 1)
  call_function gc arg = socket_gc b l (arg 1)

-- What the file stores in a Lua table. A table is known by a number.
pub data Entry : Type 0 where
  function : CFunction → Entry
  number : ℤ → Entry
  table : ℕ → Entry

-- The part of the Lua API that builds tables, where `H` is what Lua has allocated. `set_field` is
-- `lua_setfield` and `lua_rawset`, which are the same on a table without a metatable.
pub record LuaTables (H : Type 0) : Type 0 where
  pub new_table : H → ℕ × H
  pub set_field : ℕ → String → Entry → H → H
  pub get_field : ℕ → String → H → Option Entry
  pub set_metatable : ℕ → ℕ → H → H
  pub get_metatable : ℕ → H → Option ℕ

module _ {H : Type 0} (api : LuaTables H) where
  -- `lua_setfield` for each entry in turn.
  unfoldable pub set_entries : ℕ → List (String × Entry) → H → H
  set_entries t [] h = h
  set_entries t ((n, e) ∷ es) h = set_entries t es (api.set_field t n e h)

  -- `luaL_setfuncs(L, lib, 0)`
  abbrev pub set_funcs : ℕ → List (String × CFunction) → H → H
  set_funcs t fs h = set_entries t (map (λ p. (p.0, function p.1)) fs) h

  -- `SocketInitError`, which leaves its table on the stack.
  unfoldable pub init_error : Bool → (String → Option ℤ) → H → ℕ × H
  unfolding set_entries error_number
  init_error is_win32 defined h =
      let (e, h') = api.new_table h in
      (e, set_entries e (map (λ p. (p.0, number p.1)) (error_number is_win32 defined)) h')

  unfoldable pub luaopen_light_socket : Bool → (String → Option ℤ) → H → ℕ × H
  unfolding init_error set_entries
  luaopen_light_socket is_win32 defined h =
      let (t, h1) = api.new_table h in
      let (e, h2) = init_error is_win32 defined (set_funcs t lib h1) in
      (t, api.set_field t "OK" (number (pos 0)) (api.set_field t "Errno" (table e) h2))

  -- `SocketNew` behind its `isShutdown = -1`, for the userdata `p`. The `lua_rawset` takes the table
  -- that lies on top as its value too.
  unfoldable pub set_methods : ℕ → H → H
  unfolding set_entries
  set_methods p h =
      let (t, h') = api.new_table h in
      api.set_metatable p t (api.set_field t "__index" (table t) (set_funcs t lib h'))
