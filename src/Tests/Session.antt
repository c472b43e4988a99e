-- ===== src/Tests/Session.antt =====
-- The theorems over a program's run, applied on the small systems: a socket is opened and received
-- from.
use light_lua.Prelude.{inl, ℕ, ◌≡◌, refl, pos, minus_one, some, [], ◌∷◌, arith}
use light_lua.Memory.{delete_array}
use light_lua.Memory.Laws.{zeros_with}
use light_lua.Socket.{Socket}
use light_lua.Machine.{Live, State, returns}
use light_lua.Backend.{Backend, ReceiveLaws}
use light_lua.Binding.Values.{string, integer, userdata}
use light_lua.Binding.Create.{socket_new, socket_tcp}
use light_lua.Binding.Transfer.{socket_receive}
use light_lua.Session.{run, tcp, Reachable, loaded, stepped, returned, elapsed}
use light_lua.Session.Lasting.{run-Names, now, later}
use light_lua.Session.Frames.{Frames}
use light_lua.Session.Invariant.{Reachable-Sound}
use light_lua.Session.Receiving.{socket_receive_always}
use light_lua.Posix.{posix}
use light_lua.Posix.Calls.{init, receive, receive_now}
use light_lua.Posix.Frames.{posix-Frames}
use light_lua.Posix.Transfers.{receives-ReceiveLaws}
use light_lua.Mswin.{mswin}
use light_lua.Mswin.Frames.{mswin-Frames}
use light_lua.Tests.Toy.{
  Value, sock, num, toy_lua, Set, toy_sets, toy_os, toy_os-RecvLaws, with_descriptor,
}
use light_lua.Tests.Mswin.{toy_handles, toy_winsock}

abbrev pub toy_posix : Backend ℕ Set Value
toy_posix = posix toy_os toy_sets toy_lua

posix-Frames_example : Frames (posix toy_os toy_sets toy_lua)
posix-Frames_example = posix-Frames toy_os toy_sets toy_lua

mswin-Frames_example : Frames (mswin toy_winsock toy_handles toy_lua)
mswin-Frames_example = mswin-Frames toy_winsock toy_handles toy_lua

abbrev pub fresh_socket : Socket
fresh_socket = record (with_descriptor 3) { is_shutdown = minus_one }

abbrev pub opened : State ℕ
opened = record { world = 1; sockets = fresh_socket ∷ [] }

tcp_run :
    run toy_posix toy_lua tcp (record { world = 0; sockets = [] })
    ≡ returns (userdata 0 ∷ []) opened
unfolding run socket_tcp socket_new posix init light_lua.Posix.Calls.tcp light_lua.Machine.method
    light_lua.Machine.new_userdata
tcp_run = refl

pub opened-Reachable : Reachable toy_posix toy_lua opened
opened-Reachable = stepped _ _ (loaded 0) (returned tcp (userdata 0 ∷ []) _ _ tcp_run)

Reachable-Sound_example :
    (fresh_socket.buffer_size ≡ 0) × (delete_array fresh_socket.buffer ≡ some tt)
Reachable-Sound_example =
    Reachable-Sound toy_posix toy_lua (posix-Frames toy_os toy_sets toy_lua) opened opened-Reachable
      0 fresh_socket refl

pub receive_laws : ReceiveLaws toy_posix.receive
unfolding posix
receive_laws = (receives-ReceiveLaws toy_os toy_os-RecvLaws [] 80).0

pub receive_now_laws : ReceiveLaws toy_posix.receive_now
unfolding posix
receive_now_laws = (receives-ReceiveLaws toy_os toy_os-RecvLaws [] 80).1

socket_receive_always_example :
    socket_receive toy_posix toy_lua (sock 0) (num 9) opened
    ≡ returns (string (104 ∷ 105 ∷ []) ∷ integer (pos 0) ∷ []) (record {
      world = 2;
      sockets = record fresh_socket { buffer = zeros_with 10 (104 ∷ 105 ∷ []) } ∷ [];
    })
unfolding posix receive
socket_receive_always_example =
    (socket_receive_always toy_posix toy_lua (posix-Frames toy_os toy_sets toy_lua) receive_laws
      receive_now_laws (sock 0) (num 9) 0 9 fresh_socket opened opened-Reachable refl (omega arith)
      (omega arith) refl refl).0

run-Names_example : (s : Socket) × Live (record opened { world = 7 }) 0 s
run-Names_example =
    run-Names toy_posix toy_lua (posix-Frames toy_os toy_sets toy_lua) tcp (userdata 0 ∷ []) 0
      (record { world = 0; sockets = [] }) opened (record opened { world = 7 }) (loaded 0) tcp_run
      (inl refl) (later _ _ _ (now opened) (elapsed 7 opened))
