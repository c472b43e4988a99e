-- ===== src/Posix/Sets/Entries.antt =====
-- A table of sockets, seen without a run: the descriptor that each entry stands for, as the loops
-- of light/socket/src/socket_posix.cpp read it.
use light_lua.Prelude.{
  ℕ, ◌<◌, ◌≡◌, ◌⊎◌, ℤ, pos, negsuc, Bool, false, ◌||◌, Option, none, some, List, [], ◌∷◌, ◌==◌,
  get_elem?,
}
use light_lua.Socket.{Socket}
use light_lua.Backend.{Lua}

abbrev pub fd_of : Option Socket → Option ℤ
fd_of none = none
fd_of (some s) = some s.impl.fd

-- The descriptor of the socket at `p`.
abbrev pub fd_at : List Socket → ℕ → Option ℤ
fd_at socks p = fd_of (get_elem? socks p)

abbrev pub fd_behind : List Socket → Option ℕ → Option ℤ
fd_behind socks none = none
fd_behind socks (some p) = fd_at socks p

abbrev pub is_fd : ℕ → Option ℤ → Bool
is_fd i none = false
is_fd i (some (pos n)) = i == n
is_fd i (some (negsuc n)) = false

-- A descriptor that `FD_SET` takes, or none.
abbrev pub FdFits : ℕ → ℤ → Type 0
FdFits limit (pos n) = n < limit
FdFits limit (negsuc n) = Unit

abbrev pub SocketFits : ℕ → Option Socket → Type 0
SocketFits limit none = ⊥
SocketFits limit (some s) = FdFits limit s.impl.fd

abbrev pub PointerFits : ℕ → List Socket → Option ℕ → Type 0
PointerFits limit socks none = Unit
PointerFits limit socks (some p) = SocketFits limit (get_elem? socks p)

module _ {V : Type 0} (l : Lua V) where
  -- `p` is the userdata of an entry.
  abbrev pub Entry : ℕ → List V → Type 0
  Entry p [] = ⊥
  Entry p (v ∷ vs) = (l.to_userdata v ≡ some p) ⊎ Entry p vs

module _ {V : Type 0} (l : Lua V) (socks : List Socket) where
  -- An entry is a socket with the descriptor `i`.
  unfoldable pub holds : ℕ → List V → Bool
  holds i [] = false
  holds i (v ∷ vs) = is_fd i (fd_behind socks (l.to_userdata v)) || holds i vs

  -- Every userdata entry is a live socket, and its descriptor is below `limit`.
  abbrev pub TableFits : ℕ → List V → Type 0
  TableFits limit [] = Unit
  TableFits limit (v ∷ vs) = PointerFits limit socks (l.to_userdata v) × TableFits limit vs

  -- The sockets `ps` are entries, and their descriptors are `ns`, in order.
  abbrev pub Picks : List V → List ℕ → List ℕ → Type 0
  Picks vs [] [] = Unit
  Picks vs [] (n ∷ ns) = ⊥
  Picks vs (p ∷ ps) [] = ⊥
  Picks vs (p ∷ ps) (n ∷ ns) = Entry l p vs × (fd_at socks p ≡ some (pos n)) × Picks vs ps ns
