-- ===== src/Tests/Lasting.antt =====
-- The theorems on what a socket is in later states, applied on the small systems.
use light_lua.Prelude.{◌⊎◌, arith, ℕ, ◌≡◌, refl, pos, to_uint64, true, [], ◌∷◌}
use light_lua.Socket.{Socket, zero_socket, with_fd}
use light_lua.Memory.{Buffer, freed}
use light_lua.Memory.Laws.{zeros_with}
use light_lua.Posix.Frames.{posix-Frames}
use light_lua.Session.Receiving.{socket_receive_always}
use light_lua.Session.Collecting.{socket_gc_always}
use light_lua.Machine.{State, Live, method, returns}
use light_lua.Binding.Values.{string, boolean, integer}
use light_lua.Binding.Create.{socket_connect}
use light_lua.Binding.Finish.{socket_gc, socket_close, socket_is_closed}
use light_lua.Session.{run, receive, Reachable, stepped, close, connect, returned}
use light_lua.Session.Lasting.{now, later}
use light_lua.Posix.{posix}
use light_lua.Posix.Descriptor.{socket_is_closed_constant}
use light_lua.Mswin.{mswin}
use light_lua.Mswin.Winsock.{Process}
use light_lua.Mswin.Calls.{invalid_socket, fd_of}
use light_lua.Mswin.Closing.{socket_is_closed_forever}
use light_lua.Tests.Toy.{sock, num, text, toy_lua, toy_sets, toy_os}
use light_lua.Tests.Mswin.{toy_handles, toy_winsock, toy_mswin, not_started}
use light_lua.Tests.Session.{
  toy_posix, fresh_socket, opened, opened-Reachable, receive_laws, receive_now_laws,
}

-- The socket with the descriptor 3 is closed.
close_run :
    run toy_posix toy_lua (close (sock 0)) opened
    ≡ returns (integer (pos 0) ∷ []) (record opened { world = 2 })
unfolding run socket_close posix light_lua.Posix.Calls.close method
close_run = refl

socket_is_closed_constant_example :
    (t : Socket) × Live (record opened { world = 2 }) 0 t
    × (t.impl.fd ≡ pos 3)
    × (socket_is_closed toy_posix toy_lua (sock 0) opened ≡ returns (boolean true ∷ []) opened)
    × (socket_is_closed toy_posix toy_lua (sock 0) (record opened { world = 2 })
        ≡ returns (boolean true ∷ []) (record opened { world = 2 }))
socket_is_closed_constant_example =
    socket_is_closed_constant toy_os toy_sets toy_lua (sock 0) 0 fresh_socket opened
      (record opened { world = 2 }) refl refl
      (later _ _ _ (now opened) (returned (close (sock 0)) (integer (pos 0) ∷ []) _ _ close_run))

abbrev closed_socket : Socket
closed_socket = with_fd (pos invalid_socket) zero_socket

abbrev closed : State (Process ℕ)
closed = record { world = not_started; sockets = closed_socket ∷ [] }

abbrev connected : State (Process ℕ)
connected = record {
  world = record not_started { world = 1 };
  sockets =
      (light_lua.Mswin.Calls.connect toy_winsock [] (to_uint64 (pos 80)) closed_socket
        not_started).1
      ∷ [];
}

-- An attempt to connect the closed socket again.
connect_run :
    run toy_mswin toy_lua (connect (sock 0) (text []) (num 80)) closed
    ≡ returns (integer (pos 0) ∷ []) connected
unfolding run socket_connect mswin light_lua.Mswin.Calls.connect method
connect_run = refl

socket_is_closed_forever_example :
    (t : Socket) × Live connected 0 t
    × (fd_of t ≡ invalid_socket)
    × (socket_is_closed toy_mswin toy_lua (sock 0) closed ≡ returns (boolean true ∷ []) closed)
    × (socket_is_closed toy_mswin toy_lua (sock 0) connected
        ≡ returns (boolean true ∷ []) connected)
socket_is_closed_forever_example =
    socket_is_closed_forever toy_winsock toy_handles toy_lua (sock 0) 0 closed_socket closed
      connected refl refl refl
      (later _ _ _ (now closed)
        (returned (connect (sock 0) (text []) (num 80)) (integer (pos 0) ∷ []) _ _ connect_run))

-- The socket after a receive of "hi", with its buffer.
abbrev filled_socket : Socket
filled_socket = record fresh_socket { buffer = zeros_with 10 (104 ∷ 105 ∷ []) }

abbrev filled : State ℕ
filled = record { world = 2; sockets = filled_socket ∷ [] }

receive_run :
    run toy_posix toy_lua (receive (sock 0) (num 9)) opened
    ≡ returns (string (104 ∷ 105 ∷ []) ∷ integer (pos 0) ∷ []) filled
unfolding run posix light_lua.Posix.Calls.receive
receive_run =
    (socket_receive_always toy_posix toy_lua (posix-Frames toy_os toy_sets toy_lua) receive_laws
      receive_now_laws (sock 0) (num 9) 0 9 fresh_socket opened opened-Reachable refl (omega arith)
      (omega arith) refl refl).0

filled-Reachable : Reachable toy_posix toy_lua filled
filled-Reachable =
    stepped _ _ opened-Reachable (returned (receive (sock 0) (num 9)) _ _ _ receive_run)

socket_gc_always_example :
    (socket_gc toy_posix toy_lua (sock 0) filled
      ≡ returns [] (record { world = 3; sockets = record fresh_socket { buffer = freed } ∷ [] }))
    × ((freed ≡ Buffer.null) ⊎ (freed ≡ freed))
unfolding posix light_lua.Posix.Calls.close
socket_gc_always_example =
    socket_gc_always toy_posix toy_lua (posix-Frames toy_os toy_sets toy_lua) (sock 0) 0
      filled_socket filled filled-Reachable refl refl
