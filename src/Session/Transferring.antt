-- ===== src/Session/Transferring.antt =====
-- Receiving and sending, of light/socket/src/socket.cpp: how they treat the sockets.
use light_lua.Prelude.{
  ℕ, ◌≡◌, ℤ, pos, to_uint64, leb_ℤ, eqb_ℤ, ltb_ℤ, pos_part, Option, some, List, [], ◌∷◌,
}
use light_lua.Memory.{
  Buffer, new_array, delete_array, memset_zero, store_bytes, load_bytes, load_c_string,
}
use light_lua.Memory.Laws.{memset_zero-deletable, store_bytes-deletable, new_array-deletable}
use light_lua.Machine.{bad_argument}
use light_lua.Backend.{Backend, Lua, Method, Received}
use light_lua.Binding.Values.{integer, string}
use light_lua.Binding.Transfer.{
  plus_one, set_buffer, reserve, clear, fill, push_received, push_sent, send_region, receive_with,
  receive_from_with, send_with, send_to_with,
}
use light_lua.Session.Sound.{
  Safe, Any, bind-Safe, pure-Safe, if-Safe, or_raise-Safe, or_undefined-Safe, load-Safe, store-Safe,
}
use light_lua.Session.Frames.{Keeps}
use light_lua.Session.Owning.{Owned}
use light_lua.Session.Creating.{Keeps-Safe, push_failure-Safe}

module _ {W : Type 0} where
  set_buffer-Safe :
      (p : ℕ) (o : Option Buffer)
      → ((buffer : Buffer) → o ≡ some buffer → delete_array buffer ≡ some tt)
      → Safe {W = W} Any (set_buffer p o)
  set_buffer-Safe p o deletable = bind-Safe (or_undefined-Safe o) (λ buffer e.
      bind-Safe (load-Safe p)
        (λ s good. store-Safe p (record s { buffer = buffer }) (good.0, deletable buffer e)))

  reserve-Safe : (p : ℕ) (size : ℤ) → Safe {W = W} Any (reserve p size)
  unfolding reserve
  reserve-Safe p size = bind-Safe (load-Safe p) (λ s good.
      if-Safe (ltb_ℤ (pos s.buffer_size) size)
        (bind-Safe (or_undefined-Safe (delete_array s.buffer)) (λ u q.
          bind-Safe (or_undefined-Safe (plus_one size))
            (λ n q. set_buffer-Safe p (some (new_array n)) (new_array-deletable n))))
        (pure-Safe tt tt))

  clear-Safe : (p n : ℕ) → Safe {W = W} Any (clear p n)
  unfolding clear
  clear-Safe p n =
      bind-Safe (load-Safe p)
        (λ s good. set_buffer-Safe p (memset_zero n s.buffer) (memset_zero-deletable n s.buffer))

  fill-Safe : (p : ℕ) (call : Method W Received) → Keeps call → Safe Any (fill p call)
  unfolding fill
  fill-Safe p call keeps = bind-Safe (Keeps-Safe p call keeps) (λ r q.
      bind-Safe (load-Safe p) (λ s good.
        bind-Safe
          (set_buffer-Safe p (store_bytes r.bytes s.buffer)
            (store_bytes-deletable r.bytes s.buffer))
          (λ u q. pure-Safe r.ret tt)))

module _ {W F V : Type 0} (b : Backend W F V) where
  push_received-Safe :
      (p : ℕ) (read : Buffer → Option (List ℕ)) (ret : ℤ)
      → Safe (Owned 0) (push_received b p read ret)
  unfolding push_received
  push_received-Safe p read ret =
      if-Safe (ltb_ℤ (pos 0) ret)
        (bind-Safe (load-Safe p) (λ s good.
          bind-Safe (or_undefined-Safe (read s.buffer))
            (λ bytes e. pure-Safe (string bytes ∷ integer (pos 0) ∷ []) tt)))
        (if-Safe (eqb_ℤ ret (pos 0)) (pure-Safe (string [] ∷ integer b.econnreset ∷ []) tt)
          (push_failure-Safe b (Owned 0) (string []) (λ e. tt)))

  push_sent-Safe : (ret : ℤ) → Safe (Owned 0) (push_sent b ret)
  unfolding push_sent
  push_sent-Safe ret =
      if-Safe (leb_ℤ (pos 0) ret) (pure-Safe (integer ret ∷ integer (pos 0) ∷ []) tt)
        (push_failure-Safe b (Owned 0) (integer (pos 0)) (λ e. tt))

module _ {W F V : Type 0} (b : Backend W F V) (l : Lua V) where
  pub receive_with-Safe :
      (call : ℕ → Method W Received) (self size_arg : V)
      → ((n : ℕ) → Keeps (call n))
      → Safe (Owned 0) (receive_with b l call self size_arg)
  receive_with-Safe call self size_arg keeps =
      bind-Safe (or_raise-Safe bad_argument (l.check_integer size_arg)) (λ size q.
        bind-Safe (or_undefined-Safe (l.to_userdata self)) (λ p q.
          bind-Safe (reserve-Safe p size) (λ u q.
            bind-Safe (or_undefined-Safe (plus_one size)) (λ n q. bind-Safe (clear-Safe p n) (λ u q.
              bind-Safe (fill-Safe p (call (to_uint64 size)) (keeps (to_uint64 size)))
                (λ ret q. push_received-Safe b p (load_bytes (pos_part ret)) ret))))))

  pub receive_from_with-Safe :
      (call : List ℕ → ℕ → ℕ → Method W Received) (self size_arg address_arg port_arg : V)
      → ((host : List ℕ) (port n : ℕ) → Keeps (call host port n))
      → Safe (Owned 0) (receive_from_with b l call self size_arg address_arg port_arg)
  receive_from_with-Safe call self size_arg address_arg port_arg keeps =
      bind-Safe (or_raise-Safe bad_argument (l.check_integer size_arg)) (λ size q.
        bind-Safe (or_raise-Safe bad_argument (l.check_string address_arg)) (λ address q.
          bind-Safe (or_raise-Safe bad_argument (l.check_integer port_arg)) (λ port q.
            bind-Safe (or_undefined-Safe (l.to_userdata self)) (λ p q.
              bind-Safe (reserve-Safe p size) (λ u q.
                bind-Safe (clear-Safe p (to_uint64 size)) (λ u q.
                  bind-Safe
                    (fill-Safe p (call address (to_uint64 port) (to_uint64 size))
                      (keeps address (to_uint64 port) (to_uint64 size)))
                    (λ ret q. push_received-Safe b p load_c_string ret)))))))

  pub send_with-Safe :
      (call : List ℕ → Method W ℤ) (self buffer_arg size_arg : V)
      → ((bytes : List ℕ) → Keeps (call bytes))
      → Safe (Owned 0) (send_with b l call self buffer_arg size_arg)
  send_with-Safe call self buffer_arg size_arg keeps =
      bind-Safe (or_raise-Safe bad_argument (l.check_string buffer_arg)) (λ buffer q.
        bind-Safe (or_raise-Safe bad_argument (l.check_integer size_arg)) (λ size q.
          bind-Safe (or_undefined-Safe (l.to_userdata self)) (λ p q.
            bind-Safe (or_undefined-Safe (send_region buffer size)) (λ bytes q.
              bind-Safe (Keeps-Safe p (call bytes) (keeps bytes))
                (λ ret q. push_sent-Safe b ret)))))

  pub send_to_with-Safe :
      (call : List ℕ → ℕ → List ℕ → Method W ℤ) (self buffer_arg size_arg address_arg port_arg : V)
      → ((host : List ℕ) (port : ℕ) (bytes : List ℕ) → Keeps (call host port bytes))
      → Safe (Owned 0) (send_to_with b l call self buffer_arg size_arg address_arg port_arg)
  send_to_with-Safe call self buffer_arg size_arg address_arg port_arg keeps =
      bind-Safe (or_raise-Safe bad_argument (l.check_string buffer_arg)) (λ buffer q.
        bind-Safe (or_raise-Safe bad_argument (l.check_integer size_arg)) (λ size q.
          bind-Safe (or_raise-Safe bad_argument (l.check_string address_arg)) (λ address q.
            bind-Safe (or_raise-Safe bad_argument (l.check_integer port_arg)) (λ port q.
              bind-Safe (or_undefined-Safe (l.to_userdata self)) (λ p q.
                bind-Safe (or_undefined-Safe (send_region buffer size)) (λ bytes q.
                  bind-Safe
                    (Keeps-Safe p (call address (to_uint64 port) bytes)
                      (keeps address (to_uint64 port) bytes))
                    (λ ret q. push_sent-Safe b ret)))))))
