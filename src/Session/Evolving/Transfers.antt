-- ===== src/Session/Evolving/Transfers.antt =====
-- How the transfers and the ends of light/socket/src/socket.cpp keep a relation of sockets.
use light_lua.Prelude.{
  ℕ, ℤ, pos, minus_one, suc_ℤ, to_uint64, to_int32, to_int8, eqb_ℤ, ltb_ℤ, pos_part, Option,
  Option-cases, inl, inr, none, some, List, [], ◌∷◌, ◌||◌, if◌then◌else◌, true, false,
}
use light_lua.Memory.{load_bytes, load_c_string}
use light_lua.Socket.{Socket}
use light_lua.Machine.{bad_argument}
use light_lua.Backend.{Double, Backend, Lua, Method, Received}
use light_lua.Binding.Values.{push_result, integer, boolean, sequence}
use light_lua.Binding.Transfer.{
  plus_one, send_region, receive_with, receive_from_with, send_with, send_to_with,
}
use light_lua.Binding.Finish.{socket_close, socket_shutdown, socket_is_closed, socket_is_shutdown}
use light_lua.Binding.Select.{
  max_ℤ, no_timeout, entries_of, left_in, passed, gather, select_call, socket_select,
}
use light_lua.Session.Sound.{Any, socket_count}
use light_lua.Session.Frames.{Frames, Below}
use light_lua.Session.Evolving.{
  Evolves, Evolved-same, bind-Evolves, pure-Evolves, or_raise-Evolves, or_undefined-Evolves,
  gets-Evolves, Stays-Evolution, load-Evolves,
}
use light_lua.Session.Evolving.Stores.{change-Evolves}
use light_lua.Session.Evolving.Calls.{
  Follows, Assigns, call-Evolves, reserve-Evolves, clear-Evolves, fill-Evolves,
  push_received-Evolves, push_sent-Evolves, push_result-Evolves,
}

module _ {W F V : Type 0} (b : Backend W F V) (l : Lua V) {R : Socket → Socket → Type 0}
    (by : Assigns R) {n : ℕ} where
  pub receive_with-Evolves :
      (call : ℕ → Method W Received) (self size_arg : V)
      → ((n : ℕ) → Follows R (call n))
      → Evolves R n (receive_with b l call self size_arg)
  receive_with-Evolves call self size_arg follows =
      bind-Evolves by.order (or_raise-Evolves by.order bad_argument (l.check_integer size_arg))
        (λ size. bind-Evolves by.order (or_undefined-Evolves by.order (l.to_userdata self)) (λ p.
          bind-Evolves by.order (reserve-Evolves by p size) (λ u.
            bind-Evolves by.order (or_undefined-Evolves by.order (plus_one size)) (λ k.
              bind-Evolves by.order (clear-Evolves by p k) (λ u.
                bind-Evolves by.order
                  (fill-Evolves by p (call (to_uint64 size)) (follows (to_uint64 size)))
                  (λ ret. push_received-Evolves b by p (load_bytes (pos_part ret)) ret))))))

  pub receive_from_with-Evolves :
      (call : List ℕ → ℕ → ℕ → Method W Received) (self size_arg address_arg port_arg : V)
      → ((host : List ℕ) (port n : ℕ) → Follows R (call host port n))
      → Evolves R n (receive_from_with b l call self size_arg address_arg port_arg)
  receive_from_with-Evolves call self size_arg address_arg port_arg follows =
      bind-Evolves by.order (or_raise-Evolves by.order bad_argument (l.check_integer size_arg))
        (λ size.
          bind-Evolves by.order
            (or_raise-Evolves by.order bad_argument (l.check_string address_arg))
            (λ address.
              bind-Evolves by.order
                (or_raise-Evolves by.order bad_argument (l.check_integer port_arg))
                (λ port.
                  bind-Evolves by.order (or_undefined-Evolves by.order (l.to_userdata self)) (λ p.
                    bind-Evolves by.order (reserve-Evolves by p size) (λ u.
                      bind-Evolves by.order (clear-Evolves by p (to_uint64 size)) (λ u.
                        bind-Evolves by.order
                          (fill-Evolves by p (call address (to_uint64 port) (to_uint64 size))
                            (follows address (to_uint64 port) (to_uint64 size)))
                          (λ ret. push_received-Evolves b by p load_c_string ret)))))))

  pub send_with-Evolves :
      (call : List ℕ → Method W ℤ) (self buffer_arg size_arg : V)
      → ((bytes : List ℕ) → Follows R (call bytes))
      → Evolves R n (send_with b l call self buffer_arg size_arg)
  send_with-Evolves call self buffer_arg size_arg follows =
      bind-Evolves by.order (or_raise-Evolves by.order bad_argument (l.check_string buffer_arg))
        (λ buffer.
          bind-Evolves by.order (or_raise-Evolves by.order bad_argument (l.check_integer size_arg))
            (λ size.
              bind-Evolves by.order (or_undefined-Evolves by.order (l.to_userdata self)) (λ p.
                bind-Evolves by.order (or_undefined-Evolves by.order (send_region buffer size))
                  (λ bytes.
                    bind-Evolves by.order (call-Evolves by p (call bytes) (follows bytes))
                      (λ ret. push_sent-Evolves b by ret)))))

  pub send_to_with-Evolves :
      (call : List ℕ → ℕ → List ℕ → Method W ℤ) (self buffer_arg size_arg address_arg port_arg : V)
      → ((host : List ℕ) (port : ℕ) (bytes : List ℕ) → Follows R (call host port bytes))
      → Evolves R n (send_to_with b l call self buffer_arg size_arg address_arg port_arg)
  send_to_with-Evolves call self buffer_arg size_arg address_arg port_arg follows =
      bind-Evolves by.order (or_raise-Evolves by.order bad_argument (l.check_string buffer_arg))
        (λ buffer.
          bind-Evolves by.order (or_raise-Evolves by.order bad_argument (l.check_integer size_arg))
            (λ size.
              bind-Evolves by.order
                (or_raise-Evolves by.order bad_argument (l.check_string address_arg))
                (λ address.
                  bind-Evolves by.order
                    (or_raise-Evolves by.order bad_argument (l.check_integer port_arg))
                    (λ port.
                      bind-Evolves by.order (or_undefined-Evolves by.order (l.to_userdata self))
                        (λ p.
                          bind-Evolves by.order
                            (or_undefined-Evolves by.order (send_region buffer size))
                            (λ bytes.
                              bind-Evolves by.order
                                (call-Evolves by p (call address (to_uint64 port) bytes)
                                  (follows address (to_uint64 port) bytes))
                                (λ ret. push_sent-Evolves b by ret)))))))

  pub is_closed-Evolves : (self : V) → Evolves R n (socket_is_closed b l self)
  unfolding socket_is_closed
  is_closed-Evolves self =
      bind-Evolves by.order (or_undefined-Evolves by.order (l.to_userdata self)) (λ p.
        bind-Evolves by.order (load-Evolves by.order p) (λ s.
          pure-Evolves by.order
            (boolean (if eqb_ℤ (b.is_closed s) (pos 0) then true else false) ∷ [])))

  pub is_shutdown-Evolves : (self : V) → Evolves R n (socket_is_shutdown b l self)
  unfolding socket_is_shutdown
  is_shutdown-Evolves self =
      bind-Evolves by.order (or_undefined-Evolves by.order (l.to_userdata self)) (λ p.
        bind-Evolves by.order (load-Evolves by.order p)
          (λ s. pure-Evolves by.order (integer s.is_shutdown ∷ [])))

  pub close-Evolves : (self : V) → Follows R b.close → Evolves R n (socket_close b l self)
  unfolding socket_close
  close-Evolves self follows =
      bind-Evolves by.order (or_undefined-Evolves by.order (l.to_userdata self)) (λ p.
        bind-Evolves by.order (call-Evolves by p b.close follows)
          (λ ret. push_result-Evolves b by ret))

  pub shutdown-Evolves :
      (self how : V)
      → ((k : ℤ) → Follows R (b.shutdown k))
      → Evolves R n (socket_shutdown b l self how)
  unfolding socket_shutdown
  shutdown-Evolves self how_arg follows =
      bind-Evolves by.order (or_raise-Evolves by.order bad_argument (l.check_integer how_arg))
        (λ how.
          let clamped = if ltb_ℤ (pos 2) how then pos 2 else how in
          bind-Evolves by.order (or_undefined-Evolves by.order (l.to_userdata self)) (λ p.
            bind-Evolves by.order
              (call-Evolves by p (b.shutdown (to_int32 clamped)) (follows (to_int32 clamped)))
              (λ ret.
                change-Evolves by.order p (λ s. record s { is_shutdown = to_int8 clamped })
                  (push_result b ret) (λ s. by.modes s (to_int8 clamped))
                  (push_result-Evolves b by ret))))

module _ {W F V : Type 0} (b : Backend W F V) (frames : Frames b) {R : Socket → Socket → Type 0}
    (by : Assigns R) {n : ℕ} where
  gather-Evolves : (o : Option (List V)) → Evolves R n (gather b o)
  unfolding gather
  gather-Evolves none = pure-Evolves by.order _
  gather-Evolves (some []) = pure-Evolves by.order _
  gather-Evolves (some (v ∷ vs)) =
      bind-Evolves by.order
        (record {
          evolves = λ st h.
              Stays-Evolution by.order Any st (b.table_to_fd_set (v ∷ vs) b.fd_zero st) h
                (frames.fills_stay (v ∷ vs) b.fd_zero st);
        })
        (λ r.
          pure-Evolves by.order (record { maxfd = max_ℤ r.0 minus_one; fds = r.1; given = true }))

  list-Evolves : (vs : List V) (s : F) (maxfd : ℤ) → Evolves R n (b.fd_set_to_table vs s maxfd)
  list-Evolves vs s maxfd = record {
    evolves = λ st h.
        Stays-Evolution by.order (Below (socket_count st)) st (b.fd_set_to_table vs s maxfd st) h
          (frames.lists_stay vs s maxfd st);
  }

  select_call-Evolves :
      (k : ℤ) (r w : Option F) (timeout : Double) → Evolves R n (select_call b k r w timeout)
  unfolding select_call
  select_call-Evolves k r w timeout = record {
    evolves = λ st h. elim (Option-cases (b.select k r w timeout st.world)) [
      | inl e ↦ rw (select_call, e) tt
      | inr (a, e) ↦ rw (select_call, e) (Evolved-same by.order st a.1 h)
    ];
  }

  pub select-Evolves : (l : Lua V) (r w timeout : V) → Evolves R n (socket_select b l r w timeout)
  unfolding socket_select
  select-Evolves l r_arg w_arg timeout_arg =
      bind-Evolves by.order (gather-Evolves (l.table_entries r_arg)) (λ r.
        bind-Evolves by.order (gather-Evolves (l.table_entries w_arg)) (λ w.
          bind-Evolves by.order
            (or_raise-Evolves by.order bad_argument (l.opt_number timeout_arg no_timeout))
            (λ timeout.
              let maxfd = max_ℤ w.maxfd r.maxfd in
              bind-Evolves by.order
                (select_call-Evolves (suc_ℤ maxfd) (passed (b.is_win32 || r.given) r.fds)
                  (passed w.given w.fds) timeout)
                (λ sel.
                  bind-Evolves by.order
                    (list-Evolves (entries_of (l.table_entries r_arg)) (left_in r.fds sel.r_set)
                      maxfd)
                    (λ rs.
                      bind-Evolves by.order
                        (list-Evolves (entries_of (l.table_entries w_arg)) (left_in w.fds sel.w_set)
                          maxfd)
                        (λ ws. bind-Evolves by.order (gets-Evolves by.order b.get_error) (λ e.
                          pure-Evolves by.order (
                            sequence rs
                            ∷ sequence ws
                            ∷ integer (if eqb_ℤ sel.ret minus_one then e else sel.ret)
                            ∷ []))))))))
