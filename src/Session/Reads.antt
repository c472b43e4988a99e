-- ===== src/Session/Reads.antt =====
-- Calls that read the sockets and leave the state as it is, for the two table functions.
use light_lua.Prelude.{
  ℕ, zero, suc, ◌<◌, ◌≡◌, refl, sym, subst, Bool, true, false, Option-cases, none, some, List, [],
  ◌∷◌, get_elem?, length, inl, inr, if◌then◌else◌, arith,
}
use light_lua.Socket.{Socket}
use light_lua.Machine.{M, State, Outcome, returns, raises, undefined, and_then, pure, load, ◌>>=◌}
use light_lua.Session.Sound.{socket_count}
use light_lua.Session.Frames.{Stays}

-- A call that leaves the state `st` as it is, with a value of `Q`.
pub record Reads {W A : Type 0} (st : State W) (Q : A → Type 0) (m : M W A) : Type 0 where
  pub stays : Stays st Q (m st)

pub get_elem?-lt :
    (socks : List Socket) (p : ℕ) (s : Socket) → get_elem? socks p ≡ some s → p < length socks
get_elem?-lt [] p s e = absurd (none≢some e)
  where
    none≢some : none ≡ some s → ⊥
    none≢some e = cc
get_elem?-lt (x ∷ socks) zero s e = omega arith
get_elem?-lt (x ∷ socks) (suc p) s e = omega (arith, get_elem?-lt socks p s e)

module _ {W : Type 0} {st : State W} where
  and_then-Stays :
      {A B : Type 0} {Q : A → Type 0} (R : B → Type 0) (o : Outcome W A) (k : A → M W B)
      → Stays st Q o
      → ((a : A) → Q a → Reads st R (k a))
      → Stays st R (and_then o k)
  and_then-Stays R (returns a st') k (e, q) h =
      subst (λ x. Stays st R (k a x)) (sym e) ((h a q).stays)
  and_then-Stays R (raises e st') k h r = h
  and_then-Stays R undefined k h r = tt

  pub bind-Reads :
      {A B : Type 0} {Q : A → Type 0} {R : B → Type 0} {m : M W A} {k : A → M W B}
      → Reads st Q m
      → ((a : A) → Q a → Reads st R (k a))
      → Reads st R (m >>= k)
  bind-Reads {A} {B} {Q} {R} {m} {k} hm hk = record {
    stays = and_then-Stays {Q = Q} R (m st) k hm.stays hk;
  }

  module _ {A : Type 0} {Q : A → Type 0} where
    pub pure-Reads : (a : A) → Q a → Reads st Q (pure a)
    pure-Reads a q = record { stays = (refl, q) }

    pub if-Reads :
        (c : Bool) {m n : M W A} → Reads st Q m → Reads st Q n → Reads st Q (if c then m else n)
    if-Reads true hm hn = hm
    if-Reads false hm hn = hn

  -- A pointer that is read is one of a socket.
  pub load-Reads : (p : ℕ) → Reads st (λ s. p < socket_count st) (load p)
  unfolding load
  load-Reads p = record {
    stays = elim (Option-cases (get_elem? st.sockets p)) [
      | inl e ↦ rw (e, load) tt
      | inr (s, e) ↦ rw (e, load) (refl, get_elem?-lt st.sockets p s e)
    ];
  }
