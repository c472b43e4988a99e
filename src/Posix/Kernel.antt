-- ===== src/Posix/Kernel.antt =====
-- What light/socket/src/socket_posix.cpp takes from the operating system: system calls on a world
-- `W`, with the value that each returns and what it stores for its caller, and the sets `F`.
use light_lua.Prelude.{
  ℕ, ◌≡◌, ◌≤◌, ◌⊎◌, pos, negsuc, [], length, ℤ, Bool, true, false, ◌||◌, none, some, Option, List,
  ◌==◌,
}
use light_lua.Socket.{SockAddr}
use light_lua.Backend.{Doubles, Received, Selected}

-- `SOCK_STREAM` with `IPPROTO_TCP`, and `SOCK_DGRAM` with `IPPROTO_UDP`.
pub data SocketKind : Type 0 where
  stream dgram : SocketKind

-- The flags argument of a transfer: 0 or `MSG_DONTWAIT`.
pub data MsgFlags : Type 0 where
  wait dontwait : MsgFlags

pub record Timeval : Type 0 where
  pub tv_sec : ℤ
  pub tv_usec : ℤ

pub record Os (W F : Type 0) : Type 0 where
  pub doubles : Doubles
  pub af_inet : ℕ
  pub o_nonblock : ℕ
  pub econnreset : ℤ
  pub errno : W → ℤ
  pub inet_addr : List ℕ → ℕ
  pub inet_ntop : ℕ → ℕ → ℕ → Option (List ℕ)
  pub htons : ℕ → ℕ
  -- The four bytes at the start of a `sockaddr_in`, read as an `in_addr`.
  pub head_of : SockAddr → ℕ
  pub socket : SocketKind → W → ℤ × W
  pub connect : ℤ → SockAddr → W → ℤ × W
  pub bind : ℤ → SockAddr → W → ℤ × W
  pub listen : ℤ → ℤ → W → ℤ × W
  -- The address argument and result are what stands in the caller's `sockaddr_in`.
  pub accept : ℤ → SockAddr → W → ℤ × SockAddr × W
  pub recv : ℤ → ℕ → MsgFlags → W → Received × W
  pub recvfrom : ℤ → ℕ → MsgFlags → W → Received × W
  pub send : ℤ → List ℕ → MsgFlags → W → ℤ × W
  pub sendto : ℤ → List ℕ → MsgFlags → SockAddr → W → ℤ × W
  pub shutdown : ℤ → ℤ → W → ℤ × W
  pub close : ℤ → W → ℤ × W
  pub select : ℤ → Option F → Option F → Timeval → W → Selected F × W
  -- `fcntl` with `F_GETFL` and with `F_SETFL`; flags are 32-bit patterns.
  pub get_flags : ℤ → W → ℕ × W
  pub set_flags : ℤ → ℕ → W → W

-- `fd_set`: `FD_ZERO`, `FD_SET`, `FD_ISSET` and `FD_SETSIZE`.
pub record FdSets (F : Type 0) : Type 0 where
  pub fd_setsize : ℕ
  pub fd_zero : F
  pub fd_set : ℕ → F → F
  pub fd_isset : ℕ → F → Bool

-- Their documented behaviour: a set holds what was put into it.
pub record FdSetLaws {F : Type 0} (fs : FdSets F) : Type 0 where
  pub isset_zero : (i : ℕ) → fs.fd_isset i fs.fd_zero ≡ false
  pub isset_set : (i j : ℕ) (s : F) → fs.fd_isset i (fs.fd_set j s) ≡ ((i == j) || fs.fd_isset i s)

-- The set behind a pointer: `select` leaves a null pointer alone, and no descriptor is in a set
-- afterwards that was not in it before.
abbrev pub Narrows : {F : Type 0} → FdSets F → Option F → Option F → Type 0
Narrows fs none none = Unit
Narrows fs none (some t) = ⊥
Narrows fs (some s) none = ⊥
Narrows fs (some s) (some t) = (j : ℕ) → fs.fd_isset j t ≡ true → fs.fd_isset j s ≡ true

-- The documented behaviour of `select` on its sets.
pub record SelectLaws {W F : Type 0} (os : Os W F) (fs : FdSets F) : Type 0 where
  pub narrows_r :
      (n : ℤ) (r w : Option F) (t : Timeval) (world : W)
      → Narrows fs r (os.select n r w t world).0.r_set
  pub narrows_w :
      (n : ℤ) (r w : Option F) (t : Timeval) (world : W)
      → Narrows fs w (os.select n r w t world).0.w_set

-- What a receiving system call promises: it stores no more than it was asked for, and returns the
-- number of the bytes stored, or a negative number and stores nothing.
abbrev pub Receives : Received → ℕ → Type 0
Receives r n =
    (length r.bytes ≤ n)
    × ((r.ret ≡ pos (length r.bytes)) ⊎ ((m : ℕ) × (r.ret ≡ negsuc m) × (r.bytes ≡ [])))

-- The documented behaviour of `recv` and `recvfrom`.
pub record RecvLaws {W F : Type 0} (os : Os W F) : Type 0 where
  pub recv_law : (fd : ℤ) (n : ℕ) (flags : MsgFlags) (w : W) → Receives (os.recv fd n flags w).0 n
  pub recvfrom_law :
      (fd : ℤ) (n : ℕ) (flags : MsgFlags) (w : W) → Receives (os.recvfrom fd n flags w).0 n
