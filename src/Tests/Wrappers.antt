-- ===== src/Tests/Wrappers.antt =====
-- The theorems on base64, `__gc` and the blocking mode, applied on the small system.
use light_lua.Prelude.{ℕ, suc, ◌-◌, ◌≡◌, ◌==◌, not, bit_and, refl, pos, some, [], ◌∷◌, map, arith}
use light_lua.Memory.{c_prefix, block}
use light_lua.Machine.{returns, undefined}
use light_lua.Binding.Values.{string}
use light_lua.Binding.Encoding.{Codec, socket_base64_encode, socket_base64_decode}
use light_lua.Binding.Encoding.Bounds.{socket_base64_bounds}
use light_lua.Machine.{State}
use light_lua.Backend.{Backend}
use light_lua.Socket.{Socket, zero_socket}
use light_lua.Binding.Transfer.Buffered.{with_buffer}
use light_lua.Binding.Finish.{socket_gc}
use light_lua.Binding.Finaliser.{finalised, socket_gc-use_after_free}
use light_lua.Posix.{posix}
use light_lua.Posix.Frames.{posix-Frames}
use light_lua.Posix.Kernel.{Os}
use light_lua.Posix.Calls.{endpoint, connect_now, accept_now}
use light_lua.Posix.Blocking.{FlagLaws, AtOnce, accepted_at, now_calls-AtOnce}
use light_lua.Tests.Toy.{
  Value, Set, sock, num, toy_os, toy_sets, toy_lua, text, two_sockets, with_descriptor,
}

-- A codec that adds one to each byte, stores no terminator and announces eight bytes.
abbrev pub step_codec : Codec
step_codec = record {
  encode_len = λ n. pos 8;
  encode = λ bs n size. some (map suc bs);
  decode_len = λ bs n. pos 8;
  decode = λ bs n size. some (map (λ b. b - 1) bs);
}

-- The text is [104, 0, 105], of which both functions see the first byte.
socket_base64_bounds_example :
    (socket_base64_encode toy_lua step_codec (text (104 ∷ 0 ∷ 105 ∷ [])) two_sockets
      ≡ returns (string (105 ∷ []) ∷ []) two_sockets)
    × (socket_base64_decode toy_lua step_codec (text (104 ∷ 0 ∷ 105 ∷ [])) two_sockets
        ≡ returns (string (103 ∷ []) ∷ []) two_sockets)
unfolding c_prefix
socket_base64_bounds_example =
    socket_base64_bounds toy_lua step_codec (text (104 ∷ 0 ∷ 105 ∷ [])) (104 ∷ 0 ∷ 105 ∷ [])
      two_sockets refl ((omega arith, omega arith), (omega arith, omega arith))

abbrev toy_posix : Backend ℕ Set Value
toy_posix = posix toy_os toy_sets toy_lua

-- One socket with a buffer of two bytes.
abbrev buffered : Socket
buffered = with_buffer (block (some 104 ∷ some 0 ∷ [])) (with_descriptor 5)

abbrev one_socket : State ℕ
one_socket = record { world = 0; sockets = buffered ∷ [] }

socket_gc-use_after_free_example :
    (socket_gc toy_posix toy_lua (sock 0) one_socket
      ≡ returns [] (finalised toy_posix toy_lua (sock 0) 0 refl buffered one_socket))
    × (socket_gc toy_posix toy_lua
          (sock 0)
          (finalised toy_posix toy_lua (sock 0) 0 refl buffered one_socket)
        ≡ undefined)
socket_gc-use_after_free_example =
    let t =
      socket_gc-use_after_free toy_posix toy_lua (sock 0) 0 refl (num 1) (pos 1)
        (some 104 ∷ some 0 ∷ []) buffered one_socket
        (λ s w. ((posix-Frames toy_os toy_sets toy_lua).keeps_close s w).0) refl refl refl in
    (t.0, t.1)

-- A system whose world is the flags of its one descriptor.
abbrev flag_os : Os ℕ Set
flag_os = record toy_os {
  connect = λ fd a w. (pos 0, w);
  accept = λ fd a w. (pos 4, a, w);
  get_flags = λ fd w. (w, w);
  set_flags = λ fd flags w. flags;
}

flag_os_laws : FlagLaws flag_os (pos 5)
flag_os_laws = record {
  nonblocking = λ w. not (bit_and w 2048 == 0);
  is_bit = omega arith;
  is_int = omega arith;
  get_keeps = λ w. refl;
  set_sets = λ flags w. refl;
  connect_keeps = λ a w. refl;
  accept_keeps = λ a w. refl;
}

now_calls-AtOnce_example :
    AtOnce flag_os
      (with_descriptor 5)
      flag_os_laws
      (λ now. (flag_os.connect (pos 5) (endpoint flag_os (49 ∷ []) 80) now).0)
      (connect_now flag_os (49 ∷ []) 80 (with_descriptor 5) 2)
    × AtOnce flag_os
        (with_descriptor 5)
        flag_os_laws
        (λ now. accepted_at flag_os (with_descriptor 5) flag_os_laws now zero_socket)
        (accept_now flag_os zero_socket (with_descriptor 5) 2)
unfolding flag_os_laws
now_calls-AtOnce_example =
    now_calls-AtOnce flag_os (with_descriptor 5) flag_os_laws (49 ∷ []) 80 zero_socket 2 refl
