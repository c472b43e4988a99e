-- ===== src/Session/Evolving/Calls.antt =====
-- How each function of light/socket/src/socket.cpp keeps a relation of sockets.
use light_lua.Prelude.{
  ℕ, ◌≤◌, ℤ, pos, minus_one, to_uint64, to_int32, leb_ℤ, eqb_ℤ, ltb_ℤ, Option, some, List, [], ◌∷◌,
  arith,
}
use light_lua.Memory.{Buffer, new_array, delete_array, memset_zero, store_bytes}
use light_lua.Socket.{Socket, zero_socket}
use light_lua.Machine.{M, bad_argument, ◌>>=◌, pure, gets, method}
use light_lua.Backend.{Backend, Lua, Method, Received}
use light_lua.Binding.Values.{Pushed, push_status, push_result, integer, string, nil, userdata}
use light_lua.Binding.Create.{
  socket_new, open_with, socket_get_address, with_endpoint, socket_listen, accept_with,
}
use light_lua.Binding.Transfer.{
  plus_one, set_buffer, reserve, clear, fill, push_received, push_sent,
}
use light_lua.Session.Evolving.{
  Order, Evolves, bind-Evolves, pure-Evolves, if-Evolves, or_raise-Evolves, or_undefined-Evolves,
  gets-Evolves, load-Evolves,
}
use light_lua.Session.Evolving.Stores.{
  method-Evolves, change_last-Evolves, store-Evolves, new_userdata-Evolves,
}

module _ (R : Socket → Socket → Type 0) where
  -- A call of the class changes its socket by the relation.
  abbrev pub Follows : {W A : Type 0} → Method W A → Type 0
  Follows {W} call = (s : Socket) (w : W) → R s (call s w).1

  -- So do the assignments of the binding.
  pub record Assigns : Type 0 where
    pub order : Order R
    pub buffers : (s : Socket) (buffer : Buffer) → R s (record s { buffer = buffer })
    pub modes : (s : Socket) (how : ℤ) → R s (record s { is_shutdown = how })

module _ {W : Type 0} {R : Socket → Socket → Type 0} (by : Assigns R) {n : ℕ} where
  pub call-Evolves :
      {A : Type 0} (p : ℕ) (call : Method W A) → Follows R call → Evolves R n (method p call)
  call-Evolves p call follows = method-Evolves by.order p call (λ s w low. follows s w)

  set_buffer-Evolves : (p : ℕ) (o : Option Buffer) → Evolves {W = W} R n (set_buffer p o)
  set_buffer-Evolves p o = bind-Evolves by.order (or_undefined-Evolves by.order o) (λ buffer.
      change_last-Evolves by.order p (λ s. record s { buffer = buffer }) (λ s. by.buffers s buffer))

  pub reserve-Evolves : (p : ℕ) (size : ℤ) → Evolves {W = W} R n (reserve p size)
  unfolding reserve
  reserve-Evolves p size = bind-Evolves by.order (load-Evolves by.order p) (λ s.
      if-Evolves by.order (ltb_ℤ (pos s.buffer_size) size)
        (bind-Evolves by.order (or_undefined-Evolves by.order (delete_array s.buffer)) (λ u.
          bind-Evolves by.order (or_undefined-Evolves by.order (plus_one size))
            (λ n. set_buffer-Evolves p (some (new_array n)))))
        (pure-Evolves by.order tt))

  pub clear-Evolves : (p k : ℕ) → Evolves {W = W} R n (clear p k)
  unfolding clear
  clear-Evolves p k =
      bind-Evolves by.order (load-Evolves by.order p)
        (λ s. set_buffer-Evolves p (memset_zero k s.buffer))

  pub fill-Evolves : (p : ℕ) (call : Method W Received) → Follows R call → Evolves R n (fill p call)
  unfolding fill
  fill-Evolves p call follows = bind-Evolves by.order (call-Evolves p call follows) (λ r.
      bind-Evolves by.order (load-Evolves by.order p) (λ s.
        bind-Evolves by.order (set_buffer-Evolves p (store_bytes r.bytes s.buffer))
          (λ u. pure-Evolves by.order r.ret)))

module _ {W F V : Type 0} (b : Backend W F V) {R : Socket → Socket → Type 0} (by : Assigns R)
    {n : ℕ} where
  gets_error-Evolves : (f : ℤ → List Pushed) → Evolves R n (gets b.get_error >>= λ e. pure (f e))
  gets_error-Evolves f =
      bind-Evolves by.order (gets-Evolves by.order b.get_error) (λ e. pure-Evolves by.order (f e))

  push_status-Evolves : (ret : ℤ) → Evolves R n (push_status b ret)
  push_status-Evolves ret =
      if-Evolves by.order (eqb_ℤ ret minus_one) (gets_error-Evolves (λ e. integer e ∷ []))
        (pure-Evolves by.order (integer (pos 0) ∷ []))

  pub push_result-Evolves : (ret : ℤ) → Evolves R n (push_result b ret)
  push_result-Evolves ret =
      if-Evolves by.order (eqb_ℤ ret (pos 0)) (pure-Evolves by.order (integer ret ∷ []))
        (gets_error-Evolves (λ e. integer e ∷ []))

  pub push_received-Evolves :
      (p : ℕ) (read : Buffer → Option (List ℕ)) (ret : ℤ) → Evolves R n (push_received b p read ret)
  unfolding push_received
  push_received-Evolves p read ret =
      if-Evolves by.order (ltb_ℤ (pos 0) ret)
        (bind-Evolves by.order (load-Evolves by.order p) (λ s.
          bind-Evolves by.order (or_undefined-Evolves by.order (read s.buffer))
            (λ bytes. pure-Evolves by.order (string bytes ∷ integer (pos 0) ∷ []))))
        (if-Evolves by.order (eqb_ℤ ret (pos 0))
          (pure-Evolves by.order (string [] ∷ integer b.econnreset ∷ []))
          (gets_error-Evolves (λ e. string [] ∷ integer e ∷ [])))

  pub push_sent-Evolves : (ret : ℤ) → Evolves R n (push_sent b ret)
  unfolding push_sent
  push_sent-Evolves ret =
      if-Evolves by.order (leb_ℤ (pos 0) ret)
        (pure-Evolves by.order (integer ret ∷ integer (pos 0) ∷ []))
        (gets_error-Evolves (λ e. integer (pos 0) ∷ integer e ∷ []))

  socket_new-Evolves :
      {A : Type 0} (k : ℕ → M W A)
      → ((q : ℕ) → n ≤ q → Evolves R n (k q))
      → Evolves R n (socket_new b >>= k)
  unfolding socket_new
  socket_new-Evolves k hk =
      new_userdata-Evolves by.order (record (b.init zero_socket) { is_shutdown = minus_one }) k hk

  pub open_with-Evolves : (call : Method W ℤ) → Evolves R n (open_with b call)
  open_with-Evolves call = socket_new-Evolves _ (λ q far.
      bind-Evolves by.order
        (method-Evolves by.order q call (λ s w low. absurd (omega (arith, far, low))))
        (λ ret.
          if-Evolves by.order (eqb_ℤ ret minus_one)
            (gets_error-Evolves (λ e. userdata q ∷ integer e ∷ []))
            (pure-Evolves by.order (userdata q ∷ []))))

module _ {W F V : Type 0} (b : Backend W F V) (l : Lua V) {R : Socket → Socket → Type 0}
    (by : Assigns R) {n : ℕ} where
  pub with_endpoint-Evolves :
      (call : List ℕ → ℕ → Method W ℤ) (self host port : V)
      → ((host : List ℕ) (port : ℕ) → Follows R (call host port))
      → Evolves R n (with_endpoint b l call self host port)
  with_endpoint-Evolves call self host_arg port_arg follows =
      bind-Evolves by.order (or_raise-Evolves by.order bad_argument (l.check_string host_arg))
        (λ host.
          bind-Evolves by.order (or_raise-Evolves by.order bad_argument (l.check_integer port_arg))
            (λ port.
              bind-Evolves by.order (or_undefined-Evolves by.order (l.to_userdata self)) (λ p.
                bind-Evolves by.order
                  (call-Evolves by p (call host (to_uint64 port)) (follows host (to_uint64 port)))
                  (λ ret. push_status-Evolves b by ret))))

  pub get_address-Evolves : (self : V) → Evolves R n (socket_get_address b l self)
  unfolding socket_get_address
  get_address-Evolves self =
      bind-Evolves by.order (or_undefined-Evolves by.order (l.to_userdata self)) (λ p.
        bind-Evolves by.order
          (call-Evolves by p (λ s w. (b.get_address s 1023, s, w)) (λ s w. by.order.same s))
          (λ a. pure-Evolves by.order (string a.0 ∷ integer (pos a.1) ∷ [])))

  pub listen-Evolves :
      (self count : V)
      → ((k : ℤ) → Follows R (b.listen k))
      → Evolves R n (socket_listen b l self count)
  unfolding socket_listen
  listen-Evolves self count_arg follows =
      bind-Evolves by.order (or_raise-Evolves by.order bad_argument (l.check_integer count_arg))
        (λ count. bind-Evolves by.order (or_undefined-Evolves by.order (l.to_userdata self)) (λ p.
          bind-Evolves by.order
            (call-Evolves by p (b.listen (to_int32 count)) (follows (to_int32 count)))
            (λ ret. push_status-Evolves b by ret)))

  pub accept_with-Evolves :
      (call : Method W (ℤ × Socket)) (self : V)
      → Follows R call
      → Evolves R n (accept_with b l call self)
  accept_with-Evolves call self follows =
      bind-Evolves by.order (or_undefined-Evolves by.order (l.to_userdata self)) (λ p.
        bind-Evolves by.order (call-Evolves by p call follows) (λ r.
          if-Evolves by.order (leb_ℤ (pos 0) r.0)
            (socket_new-Evolves b by _ (λ q far.
              bind-Evolves by.order (store-Evolves by.order q r.1 far)
                (λ u. pure-Evolves by.order (userdata q ∷ integer (pos 0) ∷ []))))
            (gets_error-Evolves b by (λ e. nil ∷ integer e ∷ []))))
