-- ===== src/Binding/Select.antt =====
-- light/socket/src/socket.cpp: `SocketSelect`.
use light_lua.Prelude.{
  ℤ, minus_one, suc_ℤ, ltb_ℤ, eqb_ℤ, Bool, true, false, ◌||◌, Option, none, some, List, [], ◌∷◌,
  if◌then◌else◌,
}
use light_lua.Machine.{M, returns, undefined, pure, or_raise, bad_argument, gets, ◌>>=◌}
use light_lua.Backend.{Double, Lua, Backend, Selected}
use light_lua.Binding.Values.{Pushed, integer, sequence}

-- A set that was filled from a table: the highest descriptor, the set, and whether the table had
-- an entry.
pub record Wanted (F : Type 0) : Type 0 where
  pub maxfd : ℤ
  pub fds : F
  pub given : Bool

-- `max > maxfd ? max : maxfd`
abbrev pub max_ℤ : ℤ → ℤ → ℤ
max_ℤ max maxfd = if ltb_ℤ maxfd max then max else maxfd

-- The default timeout -1, as a double.
abbrev pub no_timeout : Double
no_timeout = 0xbff0000000000000

abbrev pub entries_of : {V : Type 0} → Option (List V) → List V
entries_of none = []
entries_of (some vs) = vs

-- The set as the call leaves it: untouched where a null pointer was passed.
abbrev pub left_in : {F : Type 0} → F → Option F → F
left_in fds none = fds
left_in fds (some after) = after

abbrev pub passed : {F : Type 0} → Bool → F → Option F
passed true fds = some fds
passed false fds = none

module _ {W F V : Type 0} (b : Backend W F V) where
  -- `if (lua_istable(L, i)) if (lua_objlen(L, i) > 0) { ... }`
  unfoldable pub gather : Option (List V) → M W (Wanted F)
  gather none = pure (record { maxfd = minus_one; fds = b.fd_zero; given = false })
  gather (some []) = pure (record { maxfd = minus_one; fds = b.fd_zero; given = false })
  gather (some (v ∷ vs)) = do
    r ← b.table_to_fd_set (v ∷ vs) b.fd_zero
    pure (record { maxfd = max_ℤ r.0 minus_one; fds = r.1; given = true })

  unfoldable pub select_call : ℤ → Option F → Option F → Double → M W (Selected F)
  select_call n r w timeout st = elim (b.select n r w timeout st.world) [
    | none ↦ undefined
    | some (sel, world) ↦ returns sel (record st { world = world })
  ]

module _ {W F V : Type 0} (b : Backend W F V) (l : Lua V) where
  unfoldable pub socket_select : V → V → V → M W (List Pushed)
  unfolding select_call
  socket_select r_arg w_arg timeout_arg = do
    r ← gather b (l.table_entries r_arg)
    w ← gather b (l.table_entries w_arg)
    timeout ← or_raise bad_argument (l.opt_number timeout_arg no_timeout)
    let maxfd = max_ℤ w.maxfd r.maxfd
    sel ←
        select_call b (suc_ℤ maxfd) (passed (b.is_win32 || r.given) r.fds) (passed w.given w.fds)
          timeout
    rs ← b.fd_set_to_table (entries_of (l.table_entries r_arg)) (left_in r.fds sel.r_set) maxfd
    ws ← b.fd_set_to_table (entries_of (l.table_entries w_arg)) (left_in w.fds sel.w_set) maxfd
    e ← gets b.get_error
    let ret = if eqb_ℤ sel.ret minus_one then e else sel.ret
    pure (sequence rs ∷ sequence ws ∷ integer ret ∷ [])
