-- ===== src/Binding/Finish.antt =====
-- light/socket/src/socket.cpp: closing, shutting down, asking, and the finaliser.
use light_lua.Prelude.{
  ℕ, Option, pos, ltb_ℤ, eqb_ℤ, to_int32, to_int8, true, false, List, [], ◌∷◌, if◌then◌else◌,
}
use light_lua.Memory.{Buffer, freed, delete_array}
use light_lua.Machine.{M, pure, or_undefined, method, load, store, ◌>>=◌, ◌>>◌}
use light_lua.Backend.{Lua, Backend}
use light_lua.Binding.Values.{Pushed, string, boolean, integer, integer_arg, push_result}

-- What a freed pointer is; `delete []` of a null pointer leaves it null.
abbrev pub deleted : Buffer → Buffer
deleted Buffer.null = Buffer.null
deleted Buffer.freed = freed
deleted (Buffer.block cells) = freed

module _ {W F V : Type 0} (b : Backend W F V) (l : Lua V) where
  unfoldable pub socket_close : V → M W (List Pushed)
  socket_close self = do
    p ← or_undefined (l.to_userdata self)
    ret ← method p b.close
    push_result b ret

  unfoldable pub socket_shutdown : V → V → M W (List Pushed)
  socket_shutdown self how_arg = do
    how ← integer_arg l how_arg
    p ← or_undefined (l.to_userdata self)
    let clamped = if ltb_ℤ (pos 2) how then pos 2 else how
    ret ← method p (b.shutdown (to_int32 clamped))
    s ← load p
    store p (record s { is_shutdown = to_int8 clamped })
    push_result b ret

  unfoldable pub socket_is_closed : V → M W (List Pushed)
  socket_is_closed self = do
    p ← or_undefined (l.to_userdata self)
    s ← load p
    pure (boolean (if eqb_ℤ (b.is_closed s) (pos 0) then true else false) ∷ [])

  unfoldable pub socket_is_shutdown : V → M W (List Pushed)
  socket_is_shutdown self = do
    p ← or_undefined (l.to_userdata self)
    s ← load p
    pure (integer s.is_shutdown ∷ [])

  unfoldable pub socket_gc : V → M W (List Pushed)
  socket_gc self = do
    p ← or_undefined (l.to_userdata self)
    s ← load p
    or_undefined (delete_array s.buffer)
    store p (record s { buffer = deleted s.buffer })
    ret ← method p b.close
    pure []

module _ {W V : Type 0} (l : Lua V) (pointer_text : Option ℕ → List ℕ) where
  -- `lua_pushfstring(L, "Socket: %p", socket)`, where `pointer_text` is what `%p` prints.
  unfoldable pub socket_to_string : V → M W (List Pushed)
  socket_to_string self =
      pure (
        string (83 ∷ 111 ∷ 99 ∷ 107 ∷ 101 ∷ 116 ∷ 58 ∷ 32 ∷ pointer_text (l.to_userdata self)) ∷ [])
