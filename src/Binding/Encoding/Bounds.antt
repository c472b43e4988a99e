-- ===== src/Binding/Encoding/Bounds.antt =====
-- What `SocketBase64Encode` and `SocketBase64Decode` push of the bytes that the coder stores.
use light_lua.Prelude.{
  lt→ltb, ℕ, ◌+◌, ◌^◌, ◌≤◌, ◌<◌, ◌≡◌, refl, ℤ, pos, negsuc, to_int32, Option, none, some, List, [],
  ◌∷◌, length, arith,
}
use light_lua.Memory.{c_prefix}
use light_lua.Memory.Laws.{memset_zero-whole, store_bytes-zeros, load_c_string-zeros}
use light_lua.Machine.{State, returns}
use light_lua.Backend.{Lua}
use light_lua.Binding.Values.{Pushed, nil, string}
use light_lua.Binding.Encoding.{
  Codec, zeroed_array, push_coded, socket_base64_encode, socket_base64_decode,
}

-- A size whose array an `int` counts, and a coder that stores no more bytes than it.
abbrev pub Fits : ℤ → Option (List ℕ) → Type 0
Fits (pos n) none = n + 1 < 2 ^ 31
Fits (pos n) (some bytes) = (n + 1 < 2 ^ 31) × (length bytes ≤ n)
Fits (negsuc n) coded = ⊥

-- What Lua gets for the bytes.
abbrev pub as_text : Option (List ℕ) → Pushed
as_text none = nil
as_text (some bytes) = string (c_prefix bytes)

push_coded-Fits :
    {W : Type 0} (size : ℤ) (coded : Option (List ℕ)) (st : State W)
    → Fits size coded
    → push_coded size coded st ≡ returns (as_text coded ∷ []) st
unfolding push_coded zeroed_array
push_coded-Fits (pos n) none st h = rw (lt→ltb (n + 1) (2 ^ 31) h, memset_zero-whole (n + 1)) refl
push_coded-Fits (pos n) (some bytes) st (small, h) =
    rw
      (
        lt→ltb (n + 1) (2 ^ 31) small,
        memset_zero-whole (n + 1),
        store_bytes-zeros (n + 1) bytes (omega (arith, h)),
        load_c_string-zeros (n + 1) bytes (omega (arith, h)),
      )
      refl
push_coded-Fits (negsuc n) coded st h = absurd h

module _ {W V : Type 0} (l : Lua V) (c : Codec) where
  -- Whatever codec it is: let the sizes that it announces for the text up to its first zero byte be
  -- from 0 to 2^31 - 2, and let it store no more bytes than it announces, with or without a
  -- terminator. Then base64encode and base64decode each read and write inside their array; Lua gets
  -- the bytes that the coder stores for that text up to their first zero byte, or nil if it fails.
  pub socket_base64_bounds :
      (arg : V) (str : List ℕ) (st : State W)
      → l.check_string arg ≡ some str
      → (let text = c_prefix str in
          let n = to_int32 (pos (length text)) in
          Fits (c.encode_len n) (c.encode text n (c.encode_len n))
          × Fits (c.decode_len text n) (c.decode text n (c.decode_len text n)))
      → (let text = c_prefix str in
          let n = to_int32 (pos (length text)) in
          (socket_base64_encode l c arg st
            ≡ returns (as_text (c.encode text n (c.encode_len n)) ∷ []) st)
          × (socket_base64_decode l c arg st
              ≡ returns (as_text (c.decode text n (c.decode_len text n)) ∷ []) st))
  unfolding socket_base64_encode socket_base64_decode
  socket_base64_bounds arg str st is_text (fits_e, fits_d) =
      (rw is_text (push_coded-Fits _ _ st fits_e), rw is_text (push_coded-Fits _ _ st fits_d))
