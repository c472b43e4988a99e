-- ===== src/Tests/Progress.antt =====
-- The theorems on calls that return, applied on the small systems.
use light_lua.Prelude.{some, ℤ, true, minus_one, ℕ, ◌≡◌, refl, pos, ◌∷◌, [], List, inr, arith}
use light_lua.Machine.{State, returns}
use light_lua.Socket.{zero_socket}
use light_lua.Binding.Select.{socket_select}
use light_lua.Binding.Values.{sequence, integer, Pushed}
use light_lua.Session.{run, receive, Reachable}
use light_lua.Posix.{posix}
use light_lua.Posix.Calls.{to_timeval}
use light_lua.Posix.Progress.{posix-Returns}
use light_lua.Mswin.Winsock.{Process}
use light_lua.Mswin.Select.{socket_select_handles}
use light_lua.Tests.Toy.{
  sock, num, table, toy_lua, toy_doubles, toy_sets, toy_sets-FdSetLaws, toy_os, toy_os-RecvLaws,
  toy_os-SelectLaws,
}
use light_lua.Tests.Session.{fresh_socket, opened, opened-Reachable}
use light_lua.Tests.Mswin.{
  toy_handles, toy_handles-WinsockSetLaws, one_socket, toy_mswin, toy_winsock,
  toy_winsock-SelectLaws,
}

posix-Returns_example :
    (vs : List Pushed) × (st : State ℕ) × (run
        (posix toy_os toy_sets toy_lua)
        toy_lua
        (receive (sock 0) (num 9))
        opened
      ≡ returns vs st)
    × Reachable (posix toy_os toy_sets toy_lua) toy_lua st
posix-Returns_example =
    posix-Returns toy_os toy_sets toy_lua toy_sets-FdSetLaws toy_os-SelectLaws toy_os-RecvLaws
      opened (receive (sock 0) (num 9)) opened-Reachable
      ((0, fresh_socket, refl, refl), (9, refl, omega arith, omega arith))

abbrev winsock_opened : State (Process ℕ)
winsock_opened = record {
  world = record { world = 3; wsa_start_up = true; default_socket = 3 };
  sockets =
      record zero_socket {
        impl = record (zero_socket.impl) { fd = pos 3 };
        is_shutdown = minus_one;
      }
      ∷ [];
}

five_seconds : to_timeval toy_doubles 5 ≡ some (record { tv_sec = pos 5; tv_usec = pos 0 })
unfolding to_timeval
five_seconds = refl

socket_select_handles_example :
    (rs : List ℕ) × (ws : List ℕ) × (n : ℤ) × (st : State (Process ℕ)) × (socket_select toy_mswin
        toy_lua
        (table (0 ∷ []))
        (num 0)
        (num 5)
        one_socket
      ≡ returns (sequence rs ∷ sequence ws ∷ integer n ∷ []) st)
socket_select_handles_example =
    let t =
      socket_select_handles toy_winsock toy_handles toy_lua toy_handles-WinsockSetLaws
        toy_winsock-SelectLaws (table (0 ∷ [])) (num 0) (num 5) 5
        (record { tv_sec = pos 5; tv_usec = pos 0 }) one_socket ((5, refl, inr (omega arith)), tt)
        tt (omega arith) (omega arith) refl five_seconds in
    (t.4, t.5, _, _, t.7)
