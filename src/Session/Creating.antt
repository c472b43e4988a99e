-- ===== src/Session/Creating.antt =====
-- Creating, connecting and accepting, of light/socket/src/socket.cpp: how they treat the sockets.
use light_lua.Prelude.{
  ◌≤◌, ◌<◌, ℕ, refl, ap, ◌∙◌, ℤ, pos, minus_one, to_uint64, to_int32, leb_ℤ, eqb_ℤ, List, [], ◌∷◌,
}
use light_lua.Memory.{delete_array}
use light_lua.Socket.{Socket, zero_socket}
use light_lua.Machine.{M, method, gets, bad_argument, pure, ◌>>=◌}
use light_lua.Backend.{Backend, Lua, Method}
use light_lua.Binding.Values.{
  Pushed, push_status, push_failure, push_result, integer, string, nil, userdata,
}
use light_lua.Binding.Create.{
  socket_new, open_with, socket_get_address, with_endpoint, socket_listen, accept_with,
}
use light_lua.Session.Sound.{
  Good, Safe, Any, bind-Safe, pure-Safe, if-Safe, or_raise-Safe, or_undefined-Safe, gets-Safe,
  store-Safe, method-Safe, new_userdata-Safe,
}
use light_lua.Session.Frames.{SameBuffer, Keeps, Frames}
use light_lua.Session.Owning.{
  Owned, Owns, Safe-Owns, pure-Owns, if-Owns, bind-Owns, new_userdata-Owns,
}

pub SameBuffer-Good : (s t : Socket) → SameBuffer s t → Good t → Good s
SameBuffer-Good s t (e, f) (g, h) = (f ∙ g, ap delete_array e ∙ h)

zero_socket-Good : Good zero_socket
zero_socket-Good = (refl, refl)

pub Keeps-Safe : {W A : Type 0} (p : ℕ) (call : Method W A) → Keeps call → Safe Any (method p call)
Keeps-Safe p call keeps =
    method-Safe Any p call (λ s w good. (tt, SameBuffer-Good (call s w).1 s (keeps s w) good))

module _ {W F V : Type 0} (b : Backend W F V) where
  pub gets_error-Safe :
      (Q : List Pushed → Type 0) (f : ℤ → List Pushed)
      → ((e : ℤ) → Q (f e))
      → Safe {W = W} Q (gets b.get_error >>= λ e. pure (f e))
  gets_error-Safe Q f h = bind-Safe (gets-Safe b.get_error) (λ e q. pure-Safe (f e) (h e))

  pub push_status-Safe : (ret : ℤ) → Safe (Owned 0) (push_status b ret)
  push_status-Safe ret =
      if-Safe (eqb_ℤ ret minus_one) (gets_error-Safe (Owned 0) (λ e. integer e ∷ []) (λ e. tt))
        (pure-Safe (integer (pos 0) ∷ []) tt)

  pub push_failure-Safe :
      (Q : List Pushed → Type 0) (v : Pushed)
      → ((e : ℤ) → Q (v ∷ integer e ∷ []))
      → Safe Q (push_failure b v)
  push_failure-Safe Q v = gets_error-Safe Q (λ e. v ∷ integer e ∷ [])

  pub push_result-Safe : (ret : ℤ) → Safe (Owned 0) (push_result b ret)
  push_result-Safe ret =
      if-Safe (eqb_ℤ ret (pos 0)) (pure-Safe (integer ret ∷ []) tt)
        (gets_error-Safe (Owned 0) (λ e. integer e ∷ []) (λ e. tt))

module _ {W F V : Type 0} (b : Backend W F V) (frames : Frames b) where
  pub socket_new-Safe : Safe Any (socket_new b)
  unfolding socket_new
  socket_new-Safe =
      new_userdata-Safe (record (b.init zero_socket) { is_shutdown = minus_one })
        (SameBuffer-Good (b.init zero_socket) zero_socket frames.init_clears zero_socket-Good)

  pub open_with-Safe : (call : Method W ℤ) → Keeps call → Safe Any (open_with b call)
  open_with-Safe call keeps = bind-Safe socket_new-Safe (λ p q.
      bind-Safe (Keeps-Safe p call keeps) (λ ret q'.
        if-Safe (eqb_ℤ ret minus_one) (push_failure-Safe b Any (userdata p) (λ e. tt))
          (pure-Safe (userdata p ∷ []) tt)))

  socket_new-Owns :
      (n : ℕ) (k : ℕ → M W (List Pushed))
      → ((p m : ℕ) → n ≤ m → p < m → Owns m (k p))
      → Owns n (socket_new b >>= k)
  unfolding socket_new
  socket_new-Owns n k =
      new_userdata-Owns n (record (b.init zero_socket) { is_shutdown = minus_one }) k
        (SameBuffer-Good (b.init zero_socket) zero_socket frames.init_clears zero_socket-Good)

  pub open_with-Owns : (call : Method W ℤ) → Keeps call → Owns 0 (open_with b call)
  open_with-Owns call keeps = socket_new-Owns 0 _ (λ p m enough owned.
      bind-Owns m (Keeps-Safe p call keeps) (λ ret q.
        if-Owns m (eqb_ℤ ret minus_one)
          (bind-Owns m (gets-Safe b.get_error)
            (λ e q. pure-Owns m (userdata p ∷ integer e ∷ []) (owned, tt)))
          (pure-Owns m (userdata p ∷ []) (owned, tt))))

module _ {W F V : Type 0} (b : Backend W F V) (l : Lua V) where
  pub with_endpoint-Safe :
      (call : List ℕ → ℕ → Method W ℤ) (self host port : V)
      → ((host : List ℕ) (port : ℕ) → Keeps (call host port))
      → Safe (Owned 0) (with_endpoint b l call self host port)
  with_endpoint-Safe call self host_arg port_arg keeps =
      bind-Safe (or_raise-Safe bad_argument (l.check_string host_arg)) (λ host q.
        bind-Safe (or_raise-Safe bad_argument (l.check_integer port_arg)) (λ port q.
          bind-Safe (or_undefined-Safe (l.to_userdata self)) (λ p q.
            bind-Safe (Keeps-Safe p (call host (to_uint64 port)) (keeps host (to_uint64 port)))
              (λ ret q. push_status-Safe b ret))))

  pub get_address-Safe : (self : V) → Safe (Owned 0) (socket_get_address b l self)
  unfolding socket_get_address
  get_address-Safe self = bind-Safe (or_undefined-Safe (l.to_userdata self)) (λ p q.
      bind-Safe (Keeps-Safe p (λ s w. (b.get_address s 1023, s, w)) (λ s w. (refl, refl)))
        (λ a q. pure-Safe (string a.0 ∷ integer (pos a.1) ∷ []) tt))

  module _ (frames : Frames b) where
    pub listen-Safe : (self count : V) → Safe (Owned 0) (socket_listen b l self count)
    unfolding socket_listen
    listen-Safe self count_arg =
        bind-Safe (or_raise-Safe bad_argument (l.check_integer count_arg)) (λ count q.
          bind-Safe (or_undefined-Safe (l.to_userdata self)) (λ p q.
            bind-Safe
              (Keeps-Safe p (b.listen (to_int32 count)) (frames.keeps_listen (to_int32 count)))
              (λ ret q. push_status-Safe b ret)))

    -- The client that a call of the class fills.
    accepted-Safe :
        (call : Method W (ℤ × Socket)) (p : ℕ)
        → Keeps call
        → ((s : Socket) (w : W) → SameBuffer (call s w).0.1 zero_socket)
        → Safe (λ r. Good r.1) (method p call)
    accepted-Safe call p keeps client =
        method-Safe (λ r. Good r.1) p call
          (λ s w good. (
            SameBuffer-Good (call s w).0.1 zero_socket (client s w) zero_socket-Good,
            SameBuffer-Good (call s w).1 s (keeps s w) good,
          ))

    pub accept_with-Safe :
        (call : Method W (ℤ × Socket)) (self : V)
        → Keeps call
        → ((s : Socket) (w : W) → SameBuffer (call s w).0.1 zero_socket)
        → Safe Any (accept_with b l call self)
    accept_with-Safe call self keeps client =
        bind-Safe (or_undefined-Safe (l.to_userdata self)) (λ p q.
          bind-Safe (accepted-Safe call p keeps client) (λ r good.
            if-Safe (leb_ℤ (pos 0) r.0)
              (bind-Safe (socket_new-Safe b frames) (λ q u.
                bind-Safe (store-Safe q r.1 good)
                  (λ u v. pure-Safe (userdata q ∷ integer (pos 0) ∷ []) tt)))
              (push_failure-Safe b Any nil (λ e. tt))))

    pub accept_with-Owns :
        (call : Method W (ℤ × Socket)) (self : V)
        → Keeps call
        → ((s : Socket) (w : W) → SameBuffer (call s w).0.1 zero_socket)
        → Owns 0 (accept_with b l call self)
    accept_with-Owns call self keeps client =
        bind-Owns 0 (or_undefined-Safe (l.to_userdata self)) (λ p q.
          bind-Owns 0 (accepted-Safe call p keeps client) (λ r good.
            if-Owns 0 (leb_ℤ (pos 0) r.0)
              (socket_new-Owns b frames 0 _ (λ q m enough owned.
                bind-Owns m (store-Safe q r.1 good)
                  (λ u v. pure-Owns m (userdata q ∷ integer (pos 0) ∷ []) (owned, tt))))
              (Safe-Owns 0 (push_failure-Safe b (Owned 0) nil (λ e. tt)))))
