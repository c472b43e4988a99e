-- ===== src/Tests/Posix.antt =====
-- Each theorem over the POSIX methods, applied on the small system.
use light_lua.Prelude.{ℕ, ◌<◌, ◌≡◌, refl, ℤ, pos, false, ◌==◌, to_uint64, List, [], ◌∷◌, arith}
use light_lua.Socket.{with_addr}
use light_lua.Machine.{◌>>=◌, returns, raises, undefined, unexpected_descriptor}
use light_lua.Backend.{Backend, ReceiveLaws}
use light_lua.Binding.Values.{string, integer}
use light_lua.Binding.Transfer.{socket_receive_from}
use light_lua.Binding.Transfer.ReceiveFrom.{
  Ready, socket_receive_from_text, socket_receive_from_overread,
}
use light_lua.Binding.Finish.{socket_close}
use light_lua.Memory.{c_prefix}
use light_lua.Memory.Laws.{last_open_with}
use light_lua.Posix.{posix}
use light_lua.Posix.Calls.{connect, receive_from, receive_from_now, get_address, endpoint}
use light_lua.Posix.Sets.{table_to_fd_set, fd_set_to_table}
use light_lua.Posix.Sets.Entries.{holds}
use light_lua.Posix.Sets.Fill.{table_to_fd_set-fills}
use light_lua.Posix.Sets.Listing.{fd_set_to_table-raises}
use light_lua.Posix.Transfers.{receives-ReceiveLaws}
use light_lua.Posix.Lifetime.{get_address-port, get_address-ignores_host, socket_close_again}
use light_lua.Tests.Toy.{
  Value, sock, num, text, toy_lua, Set, toy_sets, toy_sets-FdSetLaws, toy_os, toy_os-RecvLaws,
  swap_bytes-swap_bytes, with_descriptor, two_sockets,
}

abbrev entries : List Value
entries = sock 0 ∷ sock 1 ∷ []

table_to_fd_set-fills_example :
    (r : ℤ × Set) × (table_to_fd_set toy_lua toy_sets entries (λ i. false) two_sockets
      ≡ returns r two_sockets)
table_to_fd_set-fills_example =
    let t =
      table_to_fd_set-fills toy_lua toy_sets toy_sets-FdSetLaws entries (λ i. false) two_sockets
        (omega arith) in
    (t.0, t.1)

seven_missing : holds toy_lua two_sockets.sockets 7 entries ≡ false
unfolding holds
seven_missing = refl

fd_set_to_table-raises_example :
    fd_set_to_table toy_lua toy_sets entries (λ j. j == 7) (pos 9) two_sockets
    ≡ raises unexpected_descriptor two_sockets
fd_set_to_table-raises_example =
    fd_set_to_table-raises toy_lua toy_sets entries (λ j. j == 7) two_sockets 1024 9 7 (omega arith)
      refl seven_missing (omega arith)

abbrev toy_posix : Backend ℕ Set Value
toy_posix = posix toy_os toy_sets toy_lua

receive_from_laws : ReceiveLaws (toy_posix.receive_from [] (to_uint64 (pos 80)))
unfolding posix
receive_from_laws = (receives-ReceiveLaws toy_os toy_os-RecvLaws [] (to_uint64 (pos 80))).2

receive_from_now_laws : ReceiveLaws (toy_posix.receive_from_now [] (to_uint64 (pos 80)))
unfolding posix
receive_from_now_laws = (receives-ReceiveLaws toy_os toy_os-RecvLaws [] (to_uint64 (pos 80))).3

ready :
    (n : ℕ)
    → 0 < n
    → n < 100
    → Ready toy_posix toy_lua
        (sock 0)
        (num n)
        (text [])
        (num 80)
        0
        n
        []
        (pos 80)
        (with_descriptor 5)
        two_sockets
ready n h k = record {
  live = refl;
  deletable = refl;
  above = h;
  below = omega arith;
  is_self = refl;
  is_size = refl;
  is_address = refl;
  is_port = refl;
}

socket_receive_from_text_example :
    socket_receive_from toy_posix toy_lua (sock 0) (num 9) (text []) (num 80) two_sockets
    ≡ returns (string (104 ∷ 105 ∷ []) ∷ integer (pos 0) ∷ []) (record {
      world = 1;
      sockets =
          record (with_addr (endpoint toy_os [] (to_uint64 (pos 80))) (with_descriptor 5)) {
            buffer = last_open_with 9 (104 ∷ 105 ∷ []);
          }
          ∷ with_descriptor 3
          ∷ [];
    })
unfolding posix receive_from receive_from_now c_prefix
socket_receive_from_text_example =
    (socket_receive_from_text toy_posix toy_lua (sock 0) (num 9) (text []) (num 80) 0 9 [] (pos 80)
      (with_descriptor 5) two_sockets (ready 9 (omega arith) (omega arith)) receive_from_laws
      receive_from_now_laws (omega arith) (omega arith)).0

-- A datagram of two bytes, asked for with the size 2.
socket_receive_from_overread_example :
    socket_receive_from toy_posix toy_lua (sock 0) (num 2) (text []) (num 80) two_sockets
    ≡ undefined
unfolding posix receive_from c_prefix
socket_receive_from_overread_example =
    socket_receive_from_overread toy_posix toy_lua (sock 0) (num 2) (text []) (num 80) 0 2 []
      (pos 80) (with_descriptor 5) two_sockets (ready 2 (omega arith) (omega arith))
      (104 ∷ 105 ∷ []) refl receive_from_laws refl refl

get_address-port_example :
    (get_address toy_os (connect toy_os [] 70000 (with_descriptor 5) 0).1 1023).1 ≡ 4464
get_address-port_example =
    (get_address-port toy_os swap_bytes-swap_bytes [] 70000 1023 (with_descriptor 5) 0).0

get_address-ignores_host_example :
    get_address toy_os (connect toy_os (49 ∷ []) 80 (with_descriptor 5) 0).1 1023
    ≡ get_address toy_os (connect toy_os (49 ∷ 50 ∷ []) 80 (with_descriptor 5) 0).1 1023
get_address-ignores_host_example =
    get_address-ignores_host toy_os (λ a c e f. omega (arith, e, f)) (49 ∷ []) (49 ∷ 50 ∷ []) 80
      1023 (with_descriptor 5) 0

socket_close_again_example :
    (socket_close toy_posix toy_lua (sock 0) >>= λ _. socket_close toy_posix toy_lua (sock 0))
      two_sockets
    ≡ returns (integer (pos 0) ∷ []) (record two_sockets { world = 2 })
socket_close_again_example =
    socket_close_again toy_os toy_sets toy_lua (sock 0) 0 (with_descriptor 5) two_sockets refl refl
      refl
