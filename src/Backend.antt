-- ===== src/Backend.antt =====
-- The class interface of light/socket/include/socket.h, with the two table functions: what
-- socket.cpp calls, and what socket_posix.cpp and socket_mswin.cpp implement.
use light_lua.Prelude.{ℕ, ◌≤◌, ◌≡◌, ◌⊎◌, ℤ, pos, negsuc, [], length, Bool, Option, List}
use light_lua.Socket.{Socket}
use light_lua.Machine.{M}

-- A receive: its result, and the bytes stored in the caller's buffer.
pub record Received : Type 0 where
  pub ret : ℤ
  pub bytes : List ℕ

-- The result of `Select` with the sets as it leaves them.
pub record Selected (F : Type 0) : Type 0 where
  pub ret : ℤ
  pub r_set : Option F
  pub w_set : Option F

-- A `double`, by its 64-bit pattern. Its arithmetic is a parameter.
abbrev pub Double : Type 0
Double = ℕ

-- `floor`, `-` and `*` on doubles, and the conversion to a `long`, which is undefined (`none`) where
-- the truncated value is not one.
pub record Doubles : Type 0 where
  pub floor : Double → Double
  pub minus : Double → Double → Double
  pub times : Double → Double → Double
  pub to_long : Double → Option ℤ

-- A Lua value, as far as the module looks at it. `none` is a null pointer from `lua_touserdata`, a
-- Lua error from a check, and what is no table.
pub record Lua (V : Type 0) : Type 0 where
  pub to_userdata : V → Option ℕ
  pub check_integer : V → Option ℤ
  pub check_string : V → Option (List ℕ)
  pub table_entries : V → Option (List V)
  pub opt_number : V → Double → Option Double

abbrev pub Method : Type 0 → Type 0 → Type 0
Method W A = Socket → W → A × Socket × W

-- `W` is the world of the operating system, `F` its `fd_set`, `V` a Lua value. `is_win32` is the
-- `#ifdef` of socket.cpp, and `econnreset` the constant of the platform's errno.h.
pub record Backend (W F V : Type 0) : Type 0 where
  pub init : Socket → Socket
  pub tcp : Method W ℤ
  pub udp : Method W ℤ
  pub get_address : Socket → ℕ → List ℕ × ℕ
  pub connect : List ℕ → ℕ → Method W ℤ
  pub connect_now : List ℕ → ℕ → Method W ℤ
  pub bind : List ℕ → ℕ → Method W ℤ
  pub listen : ℤ → Method W ℤ
  pub accept : Socket → Method W (ℤ × Socket)
  pub accept_now : Socket → Method W (ℤ × Socket)
  pub receive : ℕ → Method W Received
  pub receive_now : ℕ → Method W Received
  pub receive_from : List ℕ → ℕ → ℕ → Method W Received
  pub receive_from_now : List ℕ → ℕ → ℕ → Method W Received
  pub send : List ℕ → Method W ℤ
  pub send_now : List ℕ → Method W ℤ
  pub send_to : List ℕ → ℕ → List ℕ → Method W ℤ
  pub send_to_now : List ℕ → ℕ → List ℕ → Method W ℤ
  pub shutdown : ℤ → Method W ℤ
  pub close : Method W ℤ
  -- `none` is undefined behaviour, as of a null pointer where a set is needed.
  pub select : ℤ → Option F → Option F → Double → W → Option (Selected F × W)
  pub get_error : W → ℤ
  pub is_closed : Socket → ℤ
  pub fd_zero : F
  pub table_to_fd_set : List V → F → M W (ℤ × F)
  pub fd_set_to_table : List V → F → ℤ → M W (List ℕ)
  pub is_win32 : Bool
  pub econnreset : ℤ

-- What a receive promises: it leaves the socket's buffer to its caller, stores no more than it was
-- asked for, and returns the number of the bytes stored, or a negative number and stores nothing.
pub record ReceiveLaws {W : Type 0} (call : ℕ → Method W Received) : Type 0 where
  pub kept : (n : ℕ) (s : Socket) (w : W) → (call n s w).1.buffer ≡ s.buffer
  pub fits : (n : ℕ) (s : Socket) (w : W) → length (call n s w).0.bytes ≤ n
  pub counted :
      (n : ℕ) (s : Socket) (w : W)
      → ((call n s w).0.ret ≡ pos (length (call n s w).0.bytes))
        ⊎ ((m : ℕ) × ((call n s w).0.ret ≡ negsuc m) × ((call n s w).0.bytes ≡ []))
