-- ===== src/Binding/Digest.antt =====
-- light/socket/src/socket.cpp: `SocketSHA1` and `SocketSHA1Hex`.
use light_lua.Prelude.{ℕ, ◌+◌, ◌-◌, ◌*◌, ◌/◌, ◌%◌, leb, if◌then◌else◌, List, [], ◌∷◌}
use light_lua.Prelude.Bytes.{Bytes}
use light_lua.Memory.{c_prefix}
use light_lua.Machine.{M, pure, ◌>>=◌}
use light_lua.Backend.{Lua}
use light_lua.Sha1.Context.{digest_of}
use light_lua.Binding.Values.{Pushed, string, string_arg}

-- `nr2char`
abbrev pub nr2char : ℕ → ℕ
nr2char n = if leb n 9 then 48 + n else 97 + n - 10

-- The loop that writes two digits for each byte, the high one first.
pub to_hex : List ℕ → List ℕ
to_hex [] = []
to_hex (d ∷ digest) = nr2char (d / 16 % 16) ∷ nr2char (d % 16) ∷ to_hex digest

module _ {W V : Type 0} (l : Lua V) where
  -- The digest is pushed as a C string.
  unfoldable pub socket_sha1 : V → M W (List Pushed)
  socket_sha1 arg = do
    str ← string_arg l arg
    pure (string (c_prefix (digest_of (c_prefix str))) ∷ [])

  unfoldable pub socket_sha1_hex : V → M W (List Pushed)
  unfolding to_hex
  socket_sha1_hex arg = do
    str ← string_arg l arg
    pure (string (c_prefix (to_hex (digest_of (c_prefix str)))) ∷ [])

-- Reading hexadecimal digits, two for a byte.
abbrev pub digit_value : ℕ → ℕ
digit_value c = if leb c 57 then c - 48 else c - 87

abbrev pub from_hex : List ℕ → List ℕ
from_hex [] = []
from_hex (a ∷ []) = []
from_hex (a ∷ c ∷ digits) = (digit_value a * 16 + digit_value c) ∷ from_hex digits
