-- ===== src/Tests/Binding.antt =====
-- The theorems over any socket class, applied on the small POSIX system.
use light_lua.Prelude.{arith, to_int8, ℕ, ◌≡◌, refl, pos, [], ◌∷◌}
use light_lua.Machine.{returns}
use light_lua.Backend.{Backend}
use light_lua.Binding.Values.{integer, userdata}
use light_lua.Binding.Create.{socket_accept}
use light_lua.Binding.Finish.{socket_shutdown}
use light_lua.Binding.Lifecycle.{socket_accept_lem, socket_shutdown_lem}
use light_lua.Binding.Transfer.{socket_send}
use light_lua.Binding.Transfer.Sends.{socket_send_prefix}
use light_lua.Posix.{posix}
use light_lua.Posix.Calls.{accept, send, shutdown}
use light_lua.Tests.Toy.{
  Value, sock, num, text, toy_lua, Set, toy_sets, toy_os, with_descriptor, two_sockets,
}

abbrev toy_posix : Backend ℕ Set Value
toy_posix = posix toy_os toy_sets toy_lua

socket_accept_lem_example :
    socket_accept toy_posix toy_lua (sock 0) two_sockets
    ≡ returns (userdata 2 ∷ integer (pos 0) ∷ []) (record {
      world = 1;
      sockets = with_descriptor 5 ∷ with_descriptor 3 ∷ with_descriptor 4 ∷ [];
    })
unfolding posix accept
socket_accept_lem_example =
    (socket_accept_lem toy_posix toy_lua (sock 0) 0 (with_descriptor 5) two_sockets refl refl).0

socket_shutdown_lem_example :
    socket_shutdown toy_posix toy_lua (sock 0) (num 1) two_sockets
    ≡ returns (integer (pos 0) ∷ []) (record {
      world = 1;
      sockets =
          record (with_descriptor 5) { is_shutdown = to_int8 (pos 1) } ∷ with_descriptor 3 ∷ [];
    })
unfolding posix shutdown
socket_shutdown_lem_example =
    socket_shutdown_lem toy_posix toy_lua (sock 0) 0 (with_descriptor 5) two_sockets refl refl
      (num 1) (pos 1) refl

socket_send_prefix_example :
    socket_send toy_posix toy_lua (sock 0) (text (104 ∷ 105 ∷ 106 ∷ [])) (num 2) two_sockets
    ≡ returns (integer (pos 2) ∷ integer (pos 0) ∷ []) (record two_sockets { world = 1 })
unfolding posix send
socket_send_prefix_example =
    (socket_send_prefix toy_posix toy_lua (sock 0) (text (104 ∷ 105 ∷ 106 ∷ [])) (num 2) 0 2
      (104 ∷ 105 ∷ 106 ∷ []) (with_descriptor 5) two_sockets refl refl refl refl (omega arith)
      (omega arith)).0
