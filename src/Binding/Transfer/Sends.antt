-- ===== src/Binding/Transfer/Sends.antt =====
-- What `SocketSend` and `SocketSendNow` of light/socket/src/socket.cpp hand to the system.
use light_lua.Prelude.{
  ℕ, ◌+◌, ◌^◌, ◌≤◌, ◌<◌, ◌≡◌, true, false, ℤ, pos, leb, leb_ℤ, Bool-cases, inl, inr, take, length,
  take-append_le, to_uint64-pos, some, List, [], ◌∷◌, arith, if◌then◌else◌,
}
use light_lua.Socket.{Socket}
use light_lua.Machine.{State, Live, Outcome, moved, returns, method}
use light_lua.Backend.{Backend, Lua, Method}
use light_lua.Binding.Values.{Pushed, integer}
use light_lua.Binding.Transfer.{push_sent, send_region, send_with, socket_send, socket_send_now}

le→leb : (a b : ℕ) → a ≤ b → leb a b ≡ true
le→leb a b h = ground (arith, h)

lt→leb : (a b : ℕ) → b < a → leb a b ≡ false
lt→leb a b h = ground (arith, h)

pub send_region-prefix :
    (bytes : List ℕ) (n : ℕ)
    → n ≤ length bytes
    → n < 2 ^ 64
    → send_region bytes (pos n) ≡ some (take n bytes)
unfolding send_region
send_region-prefix bytes n h k = rw (
  send_region,
  to_uint64-pos n k,
  le→leb n (length bytes + 1) (omega (arith, h)),
  take-append_le n bytes (0 ∷ []) h,
)

module _ {W F V : Type 0} (b : Backend W F V) (l : Lua V) where
  -- What is left when the call on the socket at `p` ends with `r`.
  abbrev pub sent : ℕ → State W → ℤ × Socket × W → Outcome W (List Pushed)
  sent p st (ret, s', w) =
      if leb_ℤ (pos 0) ret
      then returns (integer ret ∷ integer (pos 0) ∷ []) (moved p s' w st)
      else returns (integer (pos 0) ∷ integer (b.get_error w) ∷ []) (moved p s' w st)

  pub send_with-sent :
      (call : List ℕ → Method W ℤ) (self buffer_arg size_arg : V) (p n : ℕ) (bytes : List ℕ)
      (s : Socket) (st : State W)
      → Live st p s
      → l.to_userdata self ≡ some p
      → l.check_string buffer_arg ≡ some bytes
      → l.check_integer size_arg ≡ some (pos n)
      → n ≤ length bytes
      → n < 2 ^ 64
      → send_with b l call self buffer_arg size_arg st ≡ sent p st (call (take n bytes) s st.world)
  unfolding method push_sent
  send_with-sent call self buffer_arg size_arg p n bytes s st live is_self is_buffer is_size h k =
      rw (is_buffer, is_size, is_self, send_region-prefix bytes n h k, method, live)
        (elim (Bool-cases (leb_ℤ (pos 0) (call (take n bytes) s st.world).0)) [
          | inl e ↦ rw (push_sent, e)
          | inr e ↦ rw (push_sent, e)
        ])

  -- On a live socket, with a size from 0 to the length of the string, both functions make one call
  -- with exactly the first `n` bytes of the string, and give Lua the count and 0, or 0 and the error.
  pub socket_send_prefix :
      (self buffer_arg size_arg : V) (p n : ℕ) (bytes : List ℕ) (s : Socket) (st : State W)
      → Live st p s
      → l.to_userdata self ≡ some p
      → l.check_string buffer_arg ≡ some bytes
      → l.check_integer size_arg ≡ some (pos n)
      → n ≤ length bytes
      → n < 2 ^ 64
      → (socket_send b l self buffer_arg size_arg st ≡ sent p st (b.send (take n bytes) s st.world))
        × (socket_send_now b l self buffer_arg size_arg st
            ≡ sent p st (b.send_now (take n bytes) s st.world))
  unfolding socket_send socket_send_now
  socket_send_prefix self buffer_arg size_arg p n bytes s st live is_self is_buffer is_size h k = (
    send_with-sent b.send self buffer_arg size_arg p n bytes s st live is_self is_buffer is_size h
        k,
    send_with-sent b.send_now self buffer_arg size_arg p n bytes s st live is_self is_buffer is_size
        h k,
  )
