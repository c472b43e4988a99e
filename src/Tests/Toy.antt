-- ===== src/Tests/Toy.antt =====
-- A small operating system: its world counts the calls, and every descriptor sends "hi" and is
-- ready at once. A Lua value is one of four kinds.
use light_lua.Prelude.{
  ℕ, suc, ◌+◌, ◌-◌, ◌*◌, ◌/◌, ◌%◌, ◌^◌, ◌≤◌, ◌<◌, ◌≡◌, refl, inl, pos, Bool, false, ◌||◌, ◌==◌,
  Option, none, some, List, [], ◌∷◌, map, take, length, arith,
}
use light_lua.Socket.{Socket, zero_socket, with_fd}
use light_lua.Machine.{State}
use light_lua.Backend.{Doubles, Lua, Received}
use light_lua.Posix.Kernel.{Os, FdSets, FdSetLaws, SelectLaws, RecvLaws, Receives, Narrows}

pub data Value : Type 0 where
  sock num : ℕ → Value
  text : List ℕ → Value
  table : List ℕ → Value

abbrev pub toy_lua : Lua Value
toy_lua = record {
  to_userdata = λ v. elim v [ sock p ↦ some p | _ ↦ none ];
  check_integer = λ v. elim v [ num n ↦ some (pos n) | _ ↦ none ];
  check_string = λ v. elim v [ text t ↦ some t | _ ↦ none ];
  table_entries = λ v. elim v [ table ps ↦ some (map sock ps) | _ ↦ none ];
  opt_number = λ v d. elim v [ num n ↦ some n | _ ↦ some d ];
}

abbrev pub Set : Type 0
Set = ℕ → Bool

abbrev pub toy_sets : FdSets Set
toy_sets = record {
  fd_setsize = 1024;
  fd_zero = λ i. false;
  fd_set = λ j s i. (i == j) || s i;
  fd_isset = λ i s. s i;
}

pub toy_sets-FdSetLaws : FdSetLaws toy_sets
toy_sets-FdSetLaws = record { isset_zero = λ i. refl; isset_set = λ i j s. refl }

abbrev greeting : List ℕ
greeting = 104 ∷ 105 ∷ []

abbrev pub received : ℕ → Received
received n = record { ret = pos (length (take n greeting)); bytes = take n greeting }

-- The two bytes of a 16-bit number change places.
abbrev pub swap_bytes : ℕ → ℕ
swap_bytes n = n % 256 * 256 + n / 256 % 256

-- Doubles that are whole and not negative, as numbers.
abbrev pub toy_doubles : Doubles
toy_doubles = record {
  floor = λ d. d;
  minus = λ a b. a - b;
  times = λ a b. a * b;
  to_long = λ d. some (pos d);
}

abbrev pub toy_os : Os ℕ Set
toy_os = record {
  doubles = toy_doubles;
  af_inet = 2;
  o_nonblock = 2048;
  econnreset = pos 104;
  errno = λ w. pos 9;
  inet_addr = λ t. length t;
  inet_ntop = λ family address len. some (family ∷ address ∷ []);
  htons = swap_bytes;
  head_of = λ a. a.sin_family + 65536 * a.sin_port;
  socket = λ kind w. (pos 3, suc w);
  connect = λ fd a w. (pos 0, suc w);
  bind = λ fd a w. (pos 0, suc w);
  listen = λ fd n w. (pos 0, suc w);
  accept = λ fd a w. (pos 4, a, suc w);
  recv = λ fd n flags w. (received n, suc w);
  recvfrom = λ fd n flags w. (received n, suc w);
  send = λ fd bytes flags w. (pos (length bytes), suc w);
  sendto = λ fd bytes flags a w. (pos (length bytes), suc w);
  shutdown = λ fd how w. (pos 0, suc w);
  close = λ fd w. (pos 0, suc w);
  select = λ n r w t world. (record { ret = pos 1; r_set = r; w_set = w }, suc world);
  get_flags = λ fd w. (0, w);
  set_flags = λ fd flags w. w;
}

length-take_le : (n : ℕ) (xs : List ℕ) → length (take n xs) ≤ n
length-take_le ℕ.zero xs = omega arith
length-take_le (suc n) [] = omega arith
length-take_le (suc n) (x ∷ xs) = omega (arith, length-take_le n xs)

pub received-Receives : (n : ℕ) → Receives (received n) n
received-Receives n = (length-take_le n greeting, inl refl)

pub toy_os-RecvLaws : RecvLaws toy_os
toy_os-RecvLaws = record {
  recv_law = λ fd n flags w. received-Receives n;
  recvfrom_law = λ fd n flags w. received-Receives n;
}

pub Narrows-self : (s : Option Set) → Narrows toy_sets s s
Narrows-self none = tt
Narrows-self (some s) = λ j h. h

pub toy_os-SelectLaws : SelectLaws toy_os toy_sets
toy_os-SelectLaws = record {
  narrows_r = λ n r w t world. Narrows-self r;
  narrows_w = λ n r w t world. Narrows-self w;
}

pub swap_bytes-swap_bytes : (n : ℕ) → n < 2 ^ 16 → swap_bytes (swap_bytes n) ≡ n
swap_bytes-swap_bytes n h = omega arith

abbrev pub with_descriptor : ℕ → Socket
with_descriptor n = with_fd (pos n) zero_socket

-- Two open sockets, with the descriptors 5 and 3.
abbrev pub two_sockets : State ℕ
two_sockets = record { world = 0; sockets = with_descriptor 5 ∷ with_descriptor 3 ∷ [] }
