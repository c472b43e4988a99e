-- ===== src/Posix/Blocking.antt =====
-- The `O_NONBLOCK` flag of a descriptor, around light/socket/src/socket_posix.cpp: `ConnectNow` and
-- `AcceptNow` set it for one call.
use light_lua.Prelude.{
  ==_iff, sym, ℕ, ◌-◌, ◌<◌, ◌≡◌, refl, ◌∙◌, ◌^◌, ℤ, bit_and, bit_or, Bool, true, false, not,
  Bool-cases, inl, inr, ◌==◌, List, arith,
}
use light_lua.Prelude.Bits.Masks.{bit_and-bit_or, bit_and-bit_and_complement}
use light_lua.Socket.{Socket, SockAddr, with_addr, with_fd}
use light_lua.Posix.Kernel.{Os}
use light_lua.Posix.Calls.{endpoint, connect_now, accept_now, set_non_block, set_block}

-- The documented behaviour of `fcntl` on an open descriptor: `F_GETFL` tells whether it does not
-- block and changes nothing, `F_SETFL` sets that, and the other calls leave it.
pub record FlagLaws {W F : Type 0} (os : Os W F) (fd : ℤ) : Type 0 where
  pub nonblocking : W → Bool
  pub is_bit : 0 < os.o_nonblock
  pub is_int : os.o_nonblock < 2 ^ 32
  pub get_keeps : (w : W) → nonblocking (os.get_flags fd w).1 ≡ nonblocking w
  pub set_sets :
      (flags : ℕ) (w : W)
      → nonblocking (os.set_flags fd flags w) ≡ not (bit_and flags os.o_nonblock == 0)
  pub connect_keeps : (a : SockAddr) (w : W) → nonblocking (os.connect fd a w).1 ≡ nonblocking w
  pub accept_keeps : (a : SockAddr) (w : W) → nonblocking (os.accept fd a w).2 ≡ nonblocking w

module _ {W F : Type 0} (os : Os W F) (s : Socket) (laws : FlagLaws os s.impl.fd) where
  -- The mode flag of the socket is the one of its descriptor.
  abbrev pub Agrees : Socket → W → Type 0
  Agrees t w = laws.nonblocking w ≡ not (t.is_nonblock == 0)

  set_flags-set :
      (flags : ℕ) (w : W)
      → laws.nonblocking (os.set_flags s.impl.fd (bit_or flags os.o_nonblock) w) ≡ true
  set_flags-set flags w =
      laws.set_sets (bit_or flags os.o_nonblock) w
      ∙ rw (bit_and-bit_or flags os.o_nonblock) (ground (arith, laws.is_bit))

  set_flags-clear :
      (flags : ℕ) (w : W)
      → laws.nonblocking (os.set_flags s.impl.fd (bit_and flags (2 ^ 32 - 1 - os.o_nonblock)) w)
        ≡ false
  set_flags-clear flags w =
      laws.set_sets (bit_and flags (2 ^ 32 - 1 - os.o_nonblock)) w
      ∙ rw (bit_and-bit_and_complement flags os.o_nonblock laws.is_int) refl

  -- A result that `call` gives while the descriptor does not block, and afterwards a socket with the
  -- mode flag of `s`, which agrees with its descriptor.
  abbrev pub AtOnce : {A : Type 0} → (W → A) → A × Socket × W → Type 0
  AtOnce call (r, t, w') =
      (now : W) × (laws.nonblocking now ≡ true)
      × (r ≡ call now)
      × Agrees t w'
      × (t.is_nonblock ≡ s.is_nonblock)

  -- The client that `accept` fills, with the number it gives.
  abbrev pub accepted_at : W → Socket → ℤ × Socket
  accepted_at now client =
      let (ret, addr, w') = os.accept s.impl.fd client.impl.addr now in
      (ret, with_fd ret (with_addr addr client))

  connect_now-AtOnce :
      (host : List ℕ) (port : ℕ) (w : W)
      → Agrees s w
      → AtOnce
          (λ now. (os.connect s.impl.fd (endpoint os host port) now).0)
          (connect_now os host port s w)
  unfolding connect_now set_non_block set_block
  connect_now-AtOnce host port w agrees =
      let addr = endpoint os host port in
      elim (Bool-cases (s.is_nonblock == 0)) [
        | inl e ↦
            let flags = os.get_flags s.impl.fd w in
            let now = os.set_flags s.impl.fd (bit_or flags.0 os.o_nonblock) flags.1 in
            let later = (os.connect s.impl.fd addr now).1 in
            let flags' = os.get_flags s.impl.fd later in
            (
              now,
              set_flags-set flags.0 flags.1,
              rw e refl,
              rw e (set_flags-clear flags'.0 flags'.1),
              rw e (sym ((==_iff s.is_nonblock 0).0 e)),
            )
        | inr e ↦ (
          w,
          agrees ∙ rw e refl,
          rw e refl,
          rw e (laws.connect_keeps addr w ∙ agrees ∙ rw e refl),
          rw e refl,
        )
      ]

  accept_now-AtOnce :
      (client : Socket) (w : W)
      → Agrees s w
      → AtOnce (λ now. accepted_at now client) (accept_now os client s w)
  unfolding accept_now set_non_block set_block
  accept_now-AtOnce client w agrees =
      let addr = client.impl.addr in
      elim (Bool-cases (s.is_nonblock == 0)) [
        | inl e ↦
            let flags = os.get_flags s.impl.fd w in
            let now = os.set_flags s.impl.fd (bit_or flags.0 os.o_nonblock) flags.1 in
            let later = (os.accept s.impl.fd addr now).2 in
            let flags' = os.get_flags s.impl.fd later in
            (
              now,
              set_flags-set flags.0 flags.1,
              rw e refl,
              rw e (set_flags-clear flags'.0 flags'.1),
              rw e (sym ((==_iff s.is_nonblock 0).0 e)),
            )
        | inr e ↦ (
          w,
          agrees ∙ rw e refl,
          rw e refl,
          rw e (laws.accept_keeps addr w ∙ agrees ∙ rw e refl),
          rw e refl,
        )
      ]

  -- On an open descriptor, where the mode flag of a socket agrees with it, `ConnectNow` and
  -- `AcceptNow` make their call of connect or accept while the descriptor does not block.
  -- Afterwards the flag is what it was before, and the descriptor agrees with it again: a blocking
  -- socket blocks again.
  pub now_calls-AtOnce :
      (host : List ℕ) (port : ℕ) (client : Socket) (w : W)
      → Agrees s w
      → AtOnce
          (λ now. (os.connect s.impl.fd (endpoint os host port) now).0)
          (connect_now os host port s w)
        × AtOnce (λ now. accepted_at now client) (accept_now os client s w)
  now_calls-AtOnce host port client w agrees =
      (connect_now-AtOnce host port w agrees, accept_now-AtOnce client w agrees)
