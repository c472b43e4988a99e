-- ===== src/Binding/Values.antt =====
-- What the functions of light/socket/src/socket.cpp push, and how they read their arguments.
use light_lua.Prelude.{ℕ, ℤ, pos, minus_one, eqb_ℤ, Bool, List, [], ◌∷◌, if◌then◌else◌}
use light_lua.Machine.{M, pure, or_raise, bad_argument, gets, ◌>>=◌}
use light_lua.Backend.{Lua, Backend}

-- A pushed value. A `sequence` is a new table of userdata, at 1, 2 and so on.
pub data Pushed : Type 0 where
  nil : Pushed
  boolean : Bool → Pushed
  integer : ℤ → Pushed
  string : List ℕ → Pushed
  userdata : ℕ → Pushed
  sequence : List ℕ → Pushed

module _ {W V : Type 0} (l : Lua V) where
  -- `luaL_checkinteger`
  abbrev pub integer_arg : V → M W ℤ
  integer_arg v = or_raise bad_argument (l.check_integer v)

  -- `luaL_checkstring`
  abbrev pub string_arg : V → M W (List ℕ)
  string_arg v = or_raise bad_argument (l.check_string v)

module _ {W F V : Type 0} (b : Backend W F V) where
  -- The common end `if (ret == -1) err = GetError(); lua_pushinteger(L, err); return 1;`.
  abbrev pub push_status : ℤ → M W (List Pushed)
  push_status ret =
      if eqb_ℤ ret minus_one
      then (do e ← gets b.get_error; pure (integer e ∷ []))
      else pure (integer (pos 0) ∷ [])

  -- A value and the error of the last call.
  abbrev pub push_failure : Pushed → M W (List Pushed)
  push_failure v = do e ← gets b.get_error; pure (v ∷ integer e ∷ [])

  -- The common end of `close` and `shutdown`.
  abbrev pub push_result : ℤ → M W (List Pushed)
  push_result ret =
      if eqb_ℤ ret (pos 0)
      then pure (integer ret ∷ [])
      else (do e ← gets b.get_error; pure (integer e ∷ []))
