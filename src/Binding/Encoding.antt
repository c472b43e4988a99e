-- ===== src/Binding/Encoding.antt =====
-- light/socket/src/socket.cpp: `SocketBase64Encode` and `SocketBase64Decode`, over a codec that is a
-- parameter.
pub mod Bounds
use light_lua.Prelude.{
  ℕ, zero, suc, ◌+◌, ◌^◌, ◌≡◌, ltb, ℤ, pos, negsuc, to_int32, Option, none, some, List, [], ◌∷◌,
  length, if◌then◌else◌,
}
use light_lua.Memory.{Buffer, new_array, memset_zero, store_bytes, load_c_string, c_prefix}
use light_lua.Machine.{M, pure, or_undefined, ◌>>=◌, ◌>>◌}
use light_lua.Backend.{Lua}
use light_lua.Binding.Values.{Pushed, nil, string, string_arg}

-- `base64encode_len`, `base64encode`, `base64decode_len` and `base64decode`. The coders take the
-- input, its length and the size of the buffer; `none` is the result `false`, and bytes are what
-- they store at the start of the buffer.
pub record Codec : Type 0 where
  pub encode_len : ℤ → ℤ
  pub encode : List ℕ → ℤ → ℤ → Option (List ℕ)
  pub decode_len : List ℕ → ℤ → ℤ
  pub decode : List ℕ → ℤ → ℤ → Option (List ℕ)

-- `new char[size + 1]{0}`; an `int` that overflows, or a negative size, is no array.
unfoldable pub zeroed_array : ℤ → Option Buffer
zeroed_array (pos n) =
    if ltb (n + 1) (2 ^ 31) then memset_zero (n + 1) (new_array (n + 1)) else none
zeroed_array (negsuc zero) = some (new_array 0)
zeroed_array (negsuc (suc n)) = none

-- The array that the coder fills, and what is pushed of it.
unfoldable pub push_coded : {W : Type 0} → ℤ → Option (List ℕ) → M W (List Pushed)
unfolding zeroed_array
push_coded size none = do start ← or_undefined (zeroed_array size); pure (nil ∷ [])
push_coded size (some bytes) = do
  start ← or_undefined (zeroed_array size)
  filled ← or_undefined (store_bytes bytes start)
  out ← or_undefined (load_c_string filled)
  pure (string out ∷ [])

module _ {W V : Type 0} (l : Lua V) (c : Codec) where
  unfoldable pub socket_base64_encode : V → M W (List Pushed)
  unfolding push_coded
  socket_base64_encode arg = do
    str ← string_arg l arg
    let origin = c_prefix str
    let size_origin = to_int32 (pos (length origin))
    let size_encoded = c.encode_len size_origin
    push_coded size_encoded (c.encode origin size_origin size_encoded)

  unfoldable pub socket_base64_decode : V → M W (List Pushed)
  unfolding push_coded
  socket_base64_decode arg = do
    str ← string_arg l arg
    let encoded = c_prefix str
    let size_encoded = to_int32 (pos (length encoded))
    let size_decoded = c.decode_len encoded size_encoded
    push_coded size_decoded (c.decode encoded size_encoded size_decoded)
