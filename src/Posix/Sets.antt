-- ===== src/Posix/Sets.antt =====
-- light/socket/src/socket_posix.cpp: between tables of sockets and descriptor sets.
pub mod Entries
pub mod Fill
pub mod Listing
use light_lua.Prelude.{
  ℕ, zero, suc, ◌+◌, ℤ, pos, negsuc, ltb_ℤ, eqb_ℤ, Option, none, some, List, [], ◌∷◌, ltb,
  if◌then◌else◌,
}
use light_lua.Machine.{M, raises, undefined, unexpected_descriptor, pure, load, ◌>>=◌}
use light_lua.Backend.{Lua}
use light_lua.Posix.Kernel.{FdSets}

module _ {W F V : Type 0} (l : Lua V) (fs : FdSets F) where
  -- `if (impl->fd >= 0) { FD_SET(impl->fd, s); ... }`; a descriptor from `FD_SETSIZE` on is
  -- undefined behaviour.
  unfoldable pub add_fd : ℤ → ℤ × F → M W (ℤ × F)
  add_fd (negsuc n) acc = pure acc
  add_fd (pos n) (maxfd, s) =
      if ltb n fs.fd_setsize
      then pure (if ltb_ℤ maxfd (pos n) then pos n else maxfd, fs.fd_set n s)
      else (λ _. undefined)

  -- The body of the loop of `TableToFDSet` for one entry.
  unfoldable pub add_entry : V → ℤ × F → M W (ℤ × F)
  unfolding add_fd
  add_entry v acc = elim (l.to_userdata v) [
    | none ↦ pure acc
    | some p ↦ (do s ← load p; add_fd s.impl.fd acc)
  ]

  unfoldable pub add_entries : List V → ℤ × F → M W (ℤ × F)
  add_entries [] acc = pure acc
  add_entries (v ∷ vs) acc = do acc' ← add_entry v acc; add_entries vs acc'

  unfoldable pub table_to_fd_set : List V → F → M W (ℤ × F)
  unfolding add_entries
  table_to_fd_set vs s = add_entries vs (negsuc 0, s)

-- The rounds of `for (int i = 0; i <= maxfd; ++i)`.
abbrev pub rounds_to : ℤ → ℕ
rounds_to (pos maxfd) = suc maxfd
rounds_to (negsuc n) = 0

module _ {W V : Type 0} (l : Lua V) where
  -- `PushSocketForFD`: the first entry whose socket has the descriptor.
  unfoldable pub push_socket_for_fd : List V → ℤ → M W (Option ℕ)
  push_socket_for_fd [] fd = pure none
  push_socket_for_fd (v ∷ vs) fd =
      let rest = push_socket_for_fd vs fd in
      elim (l.to_userdata v) [
        | none ↦ rest
        | some p ↦ (do s ← load p; if eqb_ℤ s.impl.fd fd then pure (some p) else rest)
      ]

module _ {W F V : Type 0} (l : Lua V) (fs : FdSets F) where
  -- The loop of `FDSetToTable` from descriptor `i` on, for the `rounds` descriptors that are left.
  unfoldable pub list_fds : List V → F → ℕ → ℕ → M W (List ℕ)
  list_fds vs s zero i = pure []
  list_fds vs s (suc rounds) i =
      let rest = list_fds vs s rounds (i + 1) in
      if fs.fd_isset i s
      then (do
        o ← push_socket_for_fd l vs (pos i)
        elim o [ none ↦ raises unexpected_descriptor | some p ↦ (do ps ← rest; pure (p ∷ ps)) ])
      else rest

  unfoldable pub fd_set_to_table : List V → F → ℤ → M W (List ℕ)
  unfolding list_fds push_socket_for_fd
  fd_set_to_table vs s maxfd = list_fds vs s (rounds_to maxfd) 0
