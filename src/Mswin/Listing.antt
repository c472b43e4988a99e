-- ===== src/Mswin/Listing.antt =====
-- light/socket/src/socket_mswin.cpp: `PushSocketForFD` and `FDSetToTable`. The text is the one of
-- socket_posix.cpp, but a `SOCKET` is unsigned, so an `int` is converted before it is compared.
pub mod Lists
use light_lua.Prelude.{
  ℕ, zero, suc, ◌+◌, ℤ, pos, to_uint64, Option, none, some, List, [], ◌∷◌, ◌==◌, if◌then◌else◌,
}
use light_lua.Machine.{M, raises, unexpected_descriptor, pure, load, ◌>>=◌}
use light_lua.Backend.{Lua}
use light_lua.Posix.Kernel.{FdSets}
use light_lua.Posix.Sets.{rounds_to}
use light_lua.Mswin.Calls.{fd_of}

module _ {W V : Type 0} (l : Lua V) where
  unfoldable pub push_socket_for_fd : List V → ℤ → M W (Option ℕ)
  push_socket_for_fd [] fd = pure none
  push_socket_for_fd (v ∷ vs) fd =
      let rest = push_socket_for_fd vs fd in
      elim (l.to_userdata v) [
        | none ↦ rest
        | some p ↦ (do s ← load p; if fd_of s == to_uint64 fd then pure (some p) else rest)
      ]

module _ {W F V : Type 0} (l : Lua V) (fs : FdSets F) where
  -- The loop from descriptor `i` on, for the `rounds` descriptors that are left.
  unfoldable pub list_fds : List V → F → ℕ → ℕ → M W (List ℕ)
  list_fds vs s zero i = pure []
  list_fds vs s (suc rounds) i =
      let rest = list_fds vs s rounds (i + 1) in
      if fs.fd_isset i s
      then (do
        o ← push_socket_for_fd l vs (pos i)
        elim o [ none ↦ raises unexpected_descriptor | some p ↦ (do ps ← rest; pure (p ∷ ps)) ])
      else rest

  unfoldable pub fd_set_to_table : List V → F → ℤ → M W (List ℕ)
  unfolding list_fds push_socket_for_fd
  fd_set_to_table vs s maxfd = list_fds vs s (rounds_to maxfd) 0
