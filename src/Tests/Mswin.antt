-- ===== src/Tests/Mswin.antt =====
-- A small Winsock, and each theorem over the Windows methods applied on it.
use light_lua.Prelude.{
  ==_iff, inl, inr, none, Bool-cases, ltb, ◌||◌, arith, Bool, List, ◌<◌, ◌≤◌, Option, if◌then◌else◌,
  pos_part, ℕ, suc, ◌≡◌, refl, ℤ, pos, minus_one, false, ◌&&◌, not, ◌==◌, some, [], ◌∷◌, length,
}
use light_lua.Socket.{Socket, zero_socket, with_fd}
use light_lua.Machine.{moved, State, ◌>>=◌, returns}
use light_lua.Backend.{Backend}
use light_lua.Binding.Values.{integer}
use light_lua.Binding.Finish.{socket_close, socket_shutdown}
use light_lua.Memory.{c_prefix}
use light_lua.Posix.Kernel.{FdSets, Narrows}
use light_lua.Mswin.{mswin}
use light_lua.Mswin.Winsock.{Winsock, Process, WinsockSetLaws}
use light_lua.Mswin.Calls.{get_address, connect}
use light_lua.Mswin.Lifetime.{socket_close_once, socket_shutdown_fails}
use light_lua.Mswin.Addresses.{get_address-given}
use light_lua.Mswin.Waiting.{SelectLaws}
use light_lua.Tests.Toy.{
  Value, sock, num, toy_lua, toy_doubles, received, swap_bytes, swap_bytes-swap_bytes,
}

-- A set of at most 64 sockets, in which a socket stands once.
abbrev pub Handles : Type 0
Handles = List ℕ

unfoldable pub is_in : ℕ → Handles → Bool
is_in i [] = false
is_in i (x ∷ xs) = (i == x) || is_in i xs

unfoldable pub without : ℕ → Handles → Handles
without j [] = []
without j (x ∷ xs) = let rest = without j xs in if j == x then rest else x ∷ rest

unfoldable pub join : ℕ → Handles → Handles
join j s = if is_in j s then s else (if ltb (length s) 64 then j ∷ s else s)

abbrev pub toy_handles : FdSets Handles
toy_handles = record { fd_setsize = 64; fd_zero = []; fd_set = join; fd_isset = is_in }

length-join : (j : ℕ) (s : Handles) → length (join j s) ≤ suc (length s)
unfolding join
length-join j s = ground arith

is_in-join : (i j : ℕ) (s : Handles) → length s < 64 → is_in i (join j s) ≡ ((i == j) || is_in i s)
unfolding join is_in
is_in-join i j s h = elim (Bool-cases (is_in j s)) [
  | inl e ↦ elim (Bool-cases (i == j)) [
    | inl d ↦ rw ((==_iff i j).0 d) (ground (arith, e))
    | inr d ↦ ground (arith, e, d)
  ]
  | inr e ↦ ground (arith, e)
]

join-full : (i j : ℕ) (s : Handles) → 64 ≤ length s → is_in i (join j s) ≡ is_in i s
unfolding join
join-full i j s h = ground arith

is_in-without : (i j : ℕ) (s : Handles) → is_in i (without j s) ≡ (not (i == j) && is_in i s)
unfolding is_in without
is_in-without i j [] = ground arith
is_in-without i j (x ∷ xs) = ground (arith, is_in-without i j xs)

pub toy_handles-WinsockSetLaws : WinsockSetLaws toy_handles
unfolding is_in
toy_handles-WinsockSetLaws = record {
  count = λ s. length s;
  count_zero = refl;
  count_set = length-join;
  isset_zero = λ i. refl;
  isset_room = is_in-join;
  isset_full = join-full;
}

Narrows-same : (s : Option Handles) → Narrows toy_handles s s
Narrows-same none = tt
Narrows-same (some s) = λ j h. h

abbrev pub toy_winsock : Winsock ℕ Handles
toy_winsock = record {
  doubles = toy_doubles;
  af_inet = 2;
  econnreset = pos 10054;
  inet_addr = λ t. length t;
  inet_ntop = λ family address len. some (49 ∷ 50 ∷ []);
  htons = swap_bytes;
  wsa_startup = λ w. (pos 0, suc w);
  at_exit = λ w. w;
  wsa_get_last_error = λ w. pos 7;
  wsa_code = λ name. pos 10054;
  errno_code = λ name. pos 104;
  socket = λ kind w. (3, suc w);
  connect = λ fd a w. (pos 0, suc w);
  bind = λ fd a w. (pos 0, suc w);
  listen = λ fd n w. (pos 0, suc w);
  accept = λ fd a w. (4, a, suc w);
  recv = λ fd n flags w. (received (pos_part n), suc w);
  send = λ fd bytes n flags w. (n, suc w);
  shutdown = λ fd how w. (minus_one, suc w);
  closesocket = λ fd w. (pos 0, suc w);
  select = λ n r w t world. (record { ret = pos 1; r_set = r; w_set = w }, suc world);
  set_fionbio = λ fd mode w. w;
  fd_clr = without;
}

abbrev pub not_started : Process ℕ
not_started = record { world = 0; wsa_start_up = false; default_socket = 0 }

abbrev pub open_socket : Socket
open_socket = with_fd (pos 5) zero_socket

abbrev pub one_socket : State (Process ℕ)
one_socket = record { world = not_started; sockets = open_socket ∷ [] }

abbrev pub toy_mswin : Backend (Process ℕ) Handles Value
toy_mswin = mswin toy_winsock toy_handles toy_lua

socket_close_once_example :
    (socket_close toy_mswin toy_lua (sock 0) >>= λ _. socket_close toy_mswin toy_lua (sock 0))
      one_socket
    ≡ (socket_close toy_mswin toy_lua (sock 0) >>= λ _ st. returns (integer (pos 0) ∷ []) st)
        one_socket
socket_close_once_example =
    socket_close_once toy_winsock toy_handles toy_lua (sock 0) 0 open_socket one_socket refl refl

socket_shutdown_fails_example :
    (s : Socket) × (e : ℤ) × (socket_shutdown toy_mswin toy_lua (sock 0) (num 1) one_socket
      ≡ returns (integer e ∷ []) (moved 0 s (record not_started { world = 2 }) one_socket))
socket_shutdown_fails_example =
    let t =
      socket_shutdown_fails toy_winsock toy_handles toy_lua (λ how w. refl) (sock 0) (num 1) 0
        (pos 1) open_socket one_socket refl refl refl in
    (t.0, _, t.1)

get_address-given_example :
    get_address toy_winsock
      (connect toy_winsock (49 ∷ 50 ∷ []) 70000 open_socket not_started).1
      1023
    ≡ (49 ∷ 50 ∷ [], 4464)
unfolding c_prefix
get_address-given_example =
    (get_address-given toy_winsock swap_bytes-swap_bytes (49 ∷ 50 ∷ []) 1023 refl refl 70000
      open_socket not_started).0

pub toy_winsock-SelectLaws : SelectLaws toy_winsock toy_handles
toy_winsock-SelectLaws = record {
  narrows_r = λ n r w t world. Narrows-same r;
  narrows_w = λ n r w t world. Narrows-same w;
  isset_clr = is_in-without;
}
