-- ===== src/Session/Progress/Transfers.antt =====
-- The receives and sends of light/socket/src/socket.cpp return.
use light_lua.Prelude.{ℕ, refl, ℤ, pos, leb_ℤ, to_uint64, Bool-cases, inl, inr, List, take, arith}
use light_lua.Machine.{State, method}
use light_lua.Backend.{Backend, Lua, Method, Received, ReceiveLaws}
use light_lua.Binding.Transfer.{push_sent, receive_with, receive_from_with, send_with, send_to_with}
use light_lua.Binding.Transfer.Receive.{receive_with-delivers}
use light_lua.Binding.Transfer.ReceiveFrom.{receive_from_with-text}
use light_lua.Binding.Transfer.Sends.{send_with-sent, send_region-prefix}
use light_lua.Session.Sound.{Sound}
use light_lua.Session.Progress.Simple.{if-Returns}
use light_lua.Session.Progress.{Returns, IsInteger, IsText, IsSelf, IsSize, IsPart, HasRoom}

module _ {W F V : Type 0} (b : Backend W F V) (l : Lua V) where
  pub receive_with-Returns :
      (call : ℕ → Method W Received) (self size : V) (st : State W)
      → ReceiveLaws call
      → Sound st
      → IsSelf l st self
      → IsSize l size
      → Returns (receive_with b l call self size st)
  receive_with-Returns call self size st laws sound (p, s, e, live) (n, is_size, positive, bound) =
      let (no_size, deletable) = sound p s live in
      (
        _,
        _,
        receive_with-delivers b l call self size p n s st laws live deletable
            (omega (arith, no_size, positive)) bound e is_size,
      )

  pub receive_from_with-Returns :
      (call : List ℕ → ℕ → ℕ → Method W Received) (self size host port : V) (st : State W)
      → ((t : List ℕ) (k : ℕ) → ReceiveLaws (call t k))
      → Sound st
      → HasRoom b l call st self size host port
      → Returns (receive_from_with b l call self size host port st)
  receive_from_with-Returns call self size host port st laws sound
        (p, s, n, t, k, is_self, live, is_size, positive, bound, is_host, is_port, room) =
      let (no_size, deletable) = sound p s live in
      (
        _,
        _,
        receive_from_with-text b l self size host port p n t k s st
            (record {
              live = live;
              deletable = deletable;
              above = omega (arith, no_size, positive);
              below = bound;
              is_self = is_self;
              is_size = is_size;
              is_address = is_host;
              is_port = is_port;
            })
            call (laws t (to_uint64 k)) room,
      )

  pub send_with-Returns :
      (call : List ℕ → Method W ℤ) (self text size : V) (st : State W)
      → IsSelf l st self
      → IsPart l text size
      → Returns (send_with b l call self text size st)
  send_with-Returns call self text size st (p, s, e, live) (t, n, is_text, is_size, fits, bound) =
      rw (send_with-sent b l call self text size p n t s st live e is_text is_size fits bound)
        (if-Returns (leb_ℤ (pos 0) (call (take n t) s st.world).0) _ _ (_, _, refl) (_, _, refl))

  pub send_to_with-Returns :
      (call : List ℕ → ℕ → List ℕ → Method W ℤ) (self text size host port : V) (st : State W)
      → IsSelf l st self
      → IsPart l text size
      → IsText l host
      → IsInteger l port
      → Returns (send_to_with b l call self text size host port st)
  unfolding method push_sent
  send_to_with-Returns call self text size host port st (p, s, e, live)
        (t, n, is_text, is_size, fits, bound) (h, is_host) (k, is_port) =
      rw (is_text, is_size, is_host, is_port, e, send_region-prefix t n fits bound, method, live)
        (elim (Bool-cases (leb_ℤ (pos 0) (call h (to_uint64 k) (take n t) s st.world).0)) [
          | inl x ↦ rw (push_sent, x) (_, _, refl)
          | inr x ↦ rw (push_sent, x) (_, _, refl)
        ])
