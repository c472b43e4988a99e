-- ===== src/Mswin/Winsock.antt =====
-- What light/socket/src/socket_mswin.cpp takes from Winsock: calls on a world `W`, and sets `F`.
use light_lua.Prelude.{ℕ, suc, ◌<◌, ◌≤◌, ◌≡◌, ◌==◌, ◌||◌, ℤ, Bool, false, Option, List}
use light_lua.Socket.{SockAddr}
use light_lua.Backend.{Doubles, Received, Selected}
use light_lua.Posix.Kernel.{SocketKind, Timeval, FdSets}
use Prim.Native.String.{String}

-- The flags argument of a transfer: 0 or `MSG_PARTIAL`.
pub data PartFlags : Type 0 where
  whole partial : PartFlags

pub record Winsock (W F : Type 0) : Type 0 where
  pub doubles : Doubles
  pub af_inet : ℕ
  pub econnreset : ℤ
  pub inet_addr : List ℕ → ℕ
  pub inet_ntop : ℕ → ℕ → ℕ → Option (List ℕ)
  pub htons : ℕ → ℕ
  -- `WSAStartup(MAKEWORD(2, 2), &wsaData)` and `atexit(onExit)`.
  pub wsa_startup : W → ℤ × W
  pub at_exit : W → W
  pub wsa_get_last_error : W → ℤ
  -- The values of the macros of winsock.h and errno.h.
  pub wsa_code : String → ℤ
  pub errno_code : String → ℤ
  -- A `SOCKET` is an unsigned number of 64 bits.
  pub socket : SocketKind → W → ℕ × W
  pub connect : ℕ → SockAddr → W → ℤ × W
  pub bind : ℕ → SockAddr → W → ℤ × W
  pub listen : ℕ → ℤ → W → ℤ × W
  pub accept : ℕ → SockAddr → W → ℕ × SockAddr × W
  -- The length of a transfer is an `int`. A send has the bytes from its pointer on, too.
  pub recv : ℕ → ℤ → PartFlags → W → Received × W
  pub send : ℕ → List ℕ → ℤ → PartFlags → W → ℤ × W
  pub shutdown : ℕ → ℤ → W → ℤ × W
  pub closesocket : ℕ → W → ℤ × W
  pub select : ℤ → Option F → Option F → Timeval → W → Selected F × W
  -- `ioctlsocket` with `FIONBIO`.
  pub set_fionbio : ℕ → ℕ → W → W
  pub fd_clr : ℕ → F → F

-- The statics of the file, beside the world.
pub record Process (W : Type 0) : Type 0 where
  pub world : W
  pub wsa_start_up : Bool
  pub default_socket : ℕ

-- What winsock2.h documents of FD_ZERO, FD_SET and FD_ISSET: a set has an array of FD_SETSIZE
-- sockets with their count, and FD_SET leaves a full set as it is.
pub record WinsockSetLaws {F : Type 0} (fs : FdSets F) : Type 0 where
  pub count : F → ℕ
  pub count_zero : count fs.fd_zero ≡ 0
  pub count_set : (j : ℕ) (s : F) → count (fs.fd_set j s) ≤ suc (count s)
  pub isset_zero : (i : ℕ) → fs.fd_isset i fs.fd_zero ≡ false
  pub isset_room :
      (i j : ℕ) (s : F)
      → count s < fs.fd_setsize
      → fs.fd_isset i (fs.fd_set j s) ≡ ((i == j) || fs.fd_isset i s)
  pub isset_full :
      (i j : ℕ) (s : F) → fs.fd_setsize ≤ count s → fs.fd_isset i (fs.fd_set j s) ≡ fs.fd_isset i s
