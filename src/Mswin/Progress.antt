-- ===== src/Mswin/Progress.antt =====
-- A program over light/socket/src/socket.cpp and socket_mswin.cpp goes on.
use light_lua.Prelude.{◌≤◌, length, ℕ, ◌≡◌, ℤ, pos_part, some}
use light_lua.Machine.{State}
use light_lua.Backend.{Lua, Double}
use light_lua.Binding.Select.{entries_of, no_timeout}
use light_lua.Posix.Kernel.{FdSets, Receives, Timeval}
use light_lua.Posix.Calls.{to_timeval}
use light_lua.Mswin.Winsock.{Winsock, Process, PartFlags}
use light_lua.Mswin.Listing.Lists.{TableHandles}

-- The documented behaviour of `recv`: it stores no more bytes than its length, and none for a
-- negative one, and returns their number, or a negative number and stores nothing.
abbrev pub RecvLaw : {W F : Type 0} → Winsock W F → Type 0
RecvLaw {W} {F} sys =
    (fd : ℕ) (n : ℤ) (flags : PartFlags) (w : W) → Receives (sys.recv fd n flags w).0 (pos_part n)

module _ {W F V : Type 0} (sys : Winsock W F) (fs : FdSets F) (l : Lua V) where
  -- Tables of at most FD_SETSIZE live sockets with handles that are INVALID_SOCKET or below
  -- 2^31 - 1, and a timeout that converts to a `timeval`.
  abbrev pub Selects : State (Process W) → V → V → V → Type 0
  Selects st r w timeout =
      TableHandles l st.sockets (entries_of (l.table_entries r))
      × TableHandles l st.sockets (entries_of (l.table_entries w))
      × (length (entries_of (l.table_entries r)) ≤ fs.fd_setsize)
      × (length (entries_of (l.table_entries w)) ≤ fs.fd_setsize)
      × ((t : Double) × (tv : Timeval) × (l.opt_number timeout no_timeout ≡ some t)
          × (to_timeval sys.doubles t ≡ some tv))
