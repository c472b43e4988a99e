-- ===== src/Mswin/Ending.antt =====
-- The methods of light/socket/src/socket_mswin.cpp that end a connection or wait, and the tables.
use light_lua.Prelude.{
  ℕ, ℤ, pos, to_int32, Option, none, some, List, [], ◌∷◌, ltb, ◌==◌, if◌then◌else◌,
}
use light_lua.Machine.{M, pure, load, ◌>>=◌}
use light_lua.Backend.{Method, Selected, Lua, Double}
use light_lua.ErrorNumber.{error_convert}
use light_lua.Posix.Kernel.{FdSets}
use light_lua.Posix.Calls.{to_timeval}
use light_lua.Mswin.Winsock.{Winsock, Process}
use light_lua.Mswin.Calls.{invalid_socket, fd_of, set_fd, check_start}

module _ {W F : Type 0} (sys : Winsock W F) where
  -- `if (impl->fd != INVALID_SOCKET) { ret = closesocket(impl->fd); impl->fd = INVALID_SOCKET; }`
  unfoldable pub close : Method (Process W) ℤ
  close s g =
      if fd_of s == invalid_socket
      then (pos 0, s, g)
      else (let (ret, w) = sys.closesocket (fd_of s) g.world in
          (ret, set_fd invalid_socket s, record g { world = w }))

  -- It closes the socket first, and shuts down what is then in `impl->fd`.
  unfoldable pub shutdown : ℤ → Method (Process W) ℤ
  unfolding close
  shutdown how s g =
      let (_, s', g') = close s g in
      let (ret, w) = sys.shutdown (fd_of s') how g'.world in (ret, s', record g' { world = w })

  -- `Socket::GetError`
  unfoldable pub get_error : Process W → ℤ
  get_error g = error_convert sys.wsa_code sys.errno_code (sys.wsa_get_last_error g.world)

  module _ (fs : FdSets F) where
    unfoldable pub clear_default : ℕ → Option F → Option F
    clear_default fd none = none
    clear_default fd (some s) = some (sys.fd_clr fd s)

    -- The default socket is in the read set during the call.
    unfoldable pub select :
        ℤ → Option F → Option F → Double → Process W → Option (Selected F × Process W)
    unfolding clear_default
    select max none w_set timeout g = none
    select max (some r_set) w_set timeout g =
        let (_, g') = check_start sys g in
        elim (to_timeval sys.doubles timeout) [
          | none ↦ none
          | some time ↦
              (let (sel, w) =
                  sys.select max (some (fs.fd_set g'.default_socket r_set)) w_set time g'.world in
                some (
                  record sel { r_set = clear_default g'.default_socket sel.r_set },
                  record g' { world = w },
                ))
        ]

module _ {F : Type 0} (fs : FdSets F) where
  unfoldable pub add_fd : ℕ → ℕ × F → ℕ × F
  add_fd fd (maxfd, s) =
      if fd == invalid_socket
      then (maxfd, s)
      else (if ltb maxfd fd then fd else maxfd, fs.fd_set fd s)

module _ {W F V : Type 0} (l : Lua V) (fs : FdSets F) where
  -- The loop of `TableToFDSet`.
  unfoldable pub add_entries : List V → ℕ × F → M W (ℕ × F)
  unfolding add_fd
  add_entries [] acc = pure acc
  add_entries (v ∷ vs) acc = elim (l.to_userdata v) [
    | none ↦ add_entries vs acc
    | some p ↦ (do s ← load p; add_entries vs (add_fd fs (fd_of s) acc))
  ]

  -- `TableToFDSet`: its bound starts at 0 and is returned as an `int`.
  unfoldable pub table_to_fd_set : List V → F → M W (ℤ × F)
  unfolding add_entries
  table_to_fd_set vs s = do r ← add_entries vs (0, s); pure (to_int32 (pos r.0), r.1)
