-- ===== src/Session/Progress/Simple.antt =====
-- The functions of light/socket/src/socket.cpp that create, connect, ask and close return.
use light_lua.Prelude.{
  ℕ, refl, ℤ, pos, minus_one, eqb_ℤ, leb_ℤ, to_uint64, to_int32, Bool, Bool-cases, inl, inr, List,
  get_elem?-append_new, if◌then◌else◌,
}
use light_lua.Socket.{zero_socket}
use light_lua.Machine.{State, Outcome, method, load, new_userdata, moved}
use light_lua.Backend.{Backend, Lua, Method}
use light_lua.Binding.Values.{push_status, push_result}
use light_lua.Binding.Create.{
  socket_new, open_with, with_endpoint, socket_get_address, socket_listen, socket_accept,
  socket_accept_now,
}
use light_lua.Binding.Finish.{socket_close, socket_shutdown, socket_is_closed, socket_is_shutdown}
use light_lua.Binding.Lifecycle.{socket_shutdown_lem, socket_accept_lem}
use light_lua.Session.Progress.{Returns, IsInteger, IsText, IsSelf}

-- Both branches return.
pub if-Returns :
    {W A : Type 0} (c : Bool) (m n : Outcome W A)
    → Returns m
    → Returns n
    → Returns (if c then m else n)
if-Returns c m n hm hn = elim (Bool-cases c) [ inl e ↦ rw e hm | inr e ↦ rw e hn ]

module _ {W F V : Type 0} (b : Backend W F V) where
  push_status-Returns : (ret : ℤ) (st : State W) → Returns (push_status b ret st)
  push_status-Returns ret st = elim (Bool-cases (eqb_ℤ ret minus_one)) [
    | inl e ↦ rw e (_, _, refl)
    | inr e ↦ rw e (_, _, refl)
  ]

  push_result-Returns : (ret : ℤ) (st : State W) → Returns (push_result b ret st)
  push_result-Returns ret st = elim (Bool-cases (eqb_ℤ ret (pos 0))) [
    | inl e ↦ rw e (_, _, refl)
    | inr e ↦ rw e (_, _, refl)
  ]

  pub open_with-Returns : (create : Method W ℤ) (st : State W) → Returns (open_with b create st)
  unfolding socket_new new_userdata method
  open_with-Returns create st =
      let fresh = record (b.init zero_socket) { is_shutdown = minus_one } in
      elim (Bool-cases (eqb_ℤ (create fresh st.world).0 minus_one)) [
        | inl e ↦
            rw (socket_new, new_userdata, method, get_elem?-append_new st.sockets fresh, e)
              (_, _, refl)
        | inr e ↦
            rw (socket_new, new_userdata, method, get_elem?-append_new st.sockets fresh, e)
              (_, _, refl)
      ]

module _ {W F V : Type 0} (b : Backend W F V) (l : Lua V) where
  pub with_endpoint-Returns :
      (call : List ℕ → ℕ → Method W ℤ) (self host port : V) (st : State W)
      → IsSelf l st self
      → IsText l host
      → IsInteger l port
      → Returns (with_endpoint b l call self host port st)
  unfolding method
  with_endpoint-Returns call self host port st (p, s, e, live) (t, is_text) (k, is_port) =
      let (ret, s', w) = call t (to_uint64 k) s st.world in
      rw (is_text, is_port, e, method, live) (push_status-Returns b ret (moved p s' w st))

  pub get_address-Returns :
      (self : V) (st : State W) → IsSelf l st self → Returns (socket_get_address b l self st)
  unfolding socket_get_address method
  get_address-Returns self st (p, s, e, live) = rw (e, method, live) (_, _, refl)

  pub listen-Returns :
      (self n : V) (st : State W)
      → IsSelf l st self
      → IsInteger l n
      → Returns (socket_listen b l self n st)
  unfolding socket_listen method
  listen-Returns self n st (p, s, e, live) (k, is_count) =
      let (ret, s', w) = b.listen (to_int32 k) s st.world in
      rw (is_count, e, method, live) (push_status-Returns b ret (moved p s' w st))

  pub is_closed-Returns :
      (self : V) (st : State W) → IsSelf l st self → Returns (socket_is_closed b l self st)
  unfolding socket_is_closed load
  is_closed-Returns self st (p, s, e, live) = rw (e, load, live) (_, _, refl)

  pub is_shutdown-Returns :
      (self : V) (st : State W) → IsSelf l st self → Returns (socket_is_shutdown b l self st)
  unfolding socket_is_shutdown load
  is_shutdown-Returns self st (p, s, e, live) = rw (e, load, live) (_, _, refl)

  pub close-Returns :
      (self : V) (st : State W) → IsSelf l st self → Returns (socket_close b l self st)
  unfolding socket_close method
  close-Returns self st (p, s, e, live) =
      let (ret, s', w) = b.close s st.world in
      rw (e, method, live) (push_result-Returns b ret (moved p s' w st))

  pub shutdown-Returns :
      (self how : V) (st : State W)
      → IsSelf l st self
      → IsInteger l how
      → Returns (socket_shutdown b l self how st)
  shutdown-Returns self how st (p, s, e, live) (k, is_mode) =
      (_, _, socket_shutdown_lem b l self p s st e live how k is_mode)

  -- `accept` and `acceptNow`.
  pub accept-Returns :
      (self : V) (st : State W)
      → IsSelf l st self
      → Returns (socket_accept b l self st) × Returns (socket_accept_now b l self st)
  accept-Returns self st (p, s, e, live) =
      let (run, run_now) = socket_accept_lem b l self p s st e live in
      (
        rw run (
            if-Returns (leb_ℤ (pos 0) (b.accept zero_socket s st.world).0.0) _ _ (_, _, refl)
              (_, _, refl)),
        rw run_now (
            if-Returns (leb_ℤ (pos 0) (b.accept_now zero_socket s st.world).0.0) _ _ (_, _, refl)
              (_, _, refl)),
      )
