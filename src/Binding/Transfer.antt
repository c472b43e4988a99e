-- ===== src/Binding/Transfer.antt =====
-- light/socket/src/socket.cpp: receiving and sending.
pub mod Buffered
pub mod Receive
pub mod ReceiveFrom
pub mod Sends
use light_lua.Prelude.{
  ℕ, ◌+◌, ◌^◌, ℤ, pos, negsuc, ltb_ℤ, eqb_ℤ, leb_ℤ, suc_ℤ, pos_part, to_uint64, Option, none, some,
  List, [], ◌∷◌, ◌++◌, length, take, leb, ltb, if◌then◌else◌,
}
use light_lua.Memory.{
  Buffer, new_array, delete_array, memset_zero, store_bytes, load_bytes, load_c_string,
}
use light_lua.Machine.{M, pure, or_undefined, method, load, store, ◌>>=◌, ◌>>◌}
use light_lua.Backend.{Lua, Backend, Method, Received}
use light_lua.Binding.Values.{Pushed, integer, string, integer_arg, string_arg, push_failure}

-- `size + 1` of a `lua_Integer`, read as a `size_t`; signed overflow is undefined.
abbrev pub plus_one : ℤ → Option ℕ
plus_one (pos n) = if ltb (n + 1) (2 ^ 63) then some (n + 1) else none
plus_one (negsuc n) = some (to_uint64 (suc_ℤ (negsuc n)))

module _ {W : Type 0} where
  abbrev pub set_buffer : ℕ → Option Buffer → M W (Unit {0})
  set_buffer p o = do buffer ← or_undefined o; s ← load p; store p (record s { buffer = buffer })

  -- `if (size > socket->bufferSize) { delete [] socket->buffer; socket->buffer = new Byte[size + 1]; }`
  unfoldable pub reserve : ℕ → ℤ → M W (Unit {0})
  reserve p size = do
    s ← load p
    if ltb_ℤ (pos s.buffer_size) size
        then (do
          or_undefined (delete_array s.buffer)
          n ← or_undefined (plus_one size)
          set_buffer p (some (new_array n)))
        else pure tt

  -- `memset(socket->buffer, 0, n)`
  unfoldable pub clear : ℕ → ℕ → M W (Unit {0})
  clear p n = do s ← load p; set_buffer p (memset_zero n s.buffer)

  -- A receive into `socket->buffer`.
  unfoldable pub fill : ℕ → Method W Received → M W ℤ
  fill p call = do
    r ← method p call
    s ← load p
    set_buffer p (store_bytes r.bytes s.buffer)
    pure r.ret

module _ {W F V : Type 0} (b : Backend W F V) where
  -- The end of `SocketReceive`, which pushes by `lua_pushlstring` what `read` takes for it.
  unfoldable pub push_received : ℕ → (Buffer → Option (List ℕ)) → ℤ → M W (List Pushed)
  push_received p read ret =
      if ltb_ℤ (pos 0) ret
      then (do
        s ← load p
        bytes ← or_undefined (read s.buffer)
        pure (string bytes ∷ integer (pos 0) ∷ []))
      else if eqb_ℤ ret (pos 0)
      then pure (string [] ∷ integer b.econnreset ∷ [])
      else push_failure b (string [])

  unfoldable pub push_sent : ℤ → M W (List Pushed)
  push_sent ret =
      if leb_ℤ (pos 0) ret
      then pure (integer ret ∷ integer (pos 0) ∷ [])
      else push_failure b (integer (pos 0))

-- `size` bytes of a Lua string, whose zero terminator may be read and nothing behind it.
unfoldable pub send_region : List ℕ → ℤ → Option (List ℕ)
send_region bytes size =
    if leb (to_uint64 size) (length bytes + 1)
    then some (take (to_uint64 size) (bytes ++ (0 ∷ [])))
    else none

module _ {W F V : Type 0} (b : Backend W F V) (l : Lua V) where
  -- `SocketReceive` and `SocketReceiveNow`, which differ in the call.
  abbrev pub receive_with : (ℕ → Method W Received) → V → V → M W (List Pushed)
  receive_with call self size_arg = do
    size ← integer_arg l size_arg
    p ← or_undefined (l.to_userdata self)
    reserve p size
    n ← or_undefined (plus_one size)
    clear p n
    ret ← fill p (call (to_uint64 size))
    push_received b p (load_bytes (pos_part ret)) ret

  unfoldable pub socket_receive : V → V → M W (List Pushed)
  socket_receive = receive_with b.receive

  unfoldable pub socket_receive_now : V → V → M W (List Pushed)
  socket_receive_now = receive_with b.receive_now

  -- `SocketReceiveFrom` and `SocketReceiveFromNow`: they clear one byte less, and push a C string.
  abbrev pub receive_from_with :
      (List ℕ → ℕ → ℕ → Method W Received) → V → V → V → V → M W (List Pushed)
  receive_from_with call self size_arg address_arg port_arg = do
    size ← integer_arg l size_arg
    address ← string_arg l address_arg
    port ← integer_arg l port_arg
    p ← or_undefined (l.to_userdata self)
    reserve p size
    clear p (to_uint64 size)
    ret ← fill p (call address (to_uint64 port) (to_uint64 size))
    push_received b p load_c_string ret

  unfoldable pub socket_receive_from : V → V → V → V → M W (List Pushed)
  socket_receive_from = receive_from_with b.receive_from

  unfoldable pub socket_receive_from_now : V → V → V → V → M W (List Pushed)
  socket_receive_from_now = receive_from_with b.receive_from_now

  abbrev pub send_with : (List ℕ → Method W ℤ) → V → V → V → M W (List Pushed)
  send_with call self buffer_arg size_arg = do
    buffer ← string_arg l buffer_arg
    size ← integer_arg l size_arg
    p ← or_undefined (l.to_userdata self)
    bytes ← or_undefined (send_region buffer size)
    ret ← method p (call bytes)
    push_sent b ret

  unfoldable pub socket_send : V → V → V → M W (List Pushed)
  socket_send = send_with b.send

  unfoldable pub socket_send_now : V → V → V → M W (List Pushed)
  socket_send_now = send_with b.send_now

  abbrev pub send_to_with :
      (List ℕ → ℕ → List ℕ → Method W ℤ) → V → V → V → V → V → M W (List Pushed)
  send_to_with call self buffer_arg size_arg address_arg port_arg = do
    buffer ← string_arg l buffer_arg
    size ← integer_arg l size_arg
    address ← string_arg l address_arg
    port ← integer_arg l port_arg
    p ← or_undefined (l.to_userdata self)
    bytes ← or_undefined (send_region buffer size)
    ret ← method p (call address (to_uint64 port) bytes)
    push_sent b ret

  unfoldable pub socket_send_to : V → V → V → V → V → M W (List Pushed)
  socket_send_to = send_to_with b.send_to

  unfoldable pub socket_send_to_now : V → V → V → V → V → M W (List Pushed)
  socket_send_to_now = send_to_with b.send_to_now
