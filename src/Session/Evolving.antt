-- ===== src/Session/Evolving.antt =====
-- How one socket goes on while a program calls the functions of light/socket/src/socket.cpp: a
-- relation of what it is to what it was, and how the parts of a call keep it.
pub mod Stores
pub mod Calls
pub mod Transfers
pub mod Runs
use light_lua.Prelude.{
  ℕ, ◌+◌, ◌≤◌, ◌<◌, ◌≡◌, subst, sym, ◌≢◌, refl, inl, inr, Bool, Bool-cases, true, false, ◌==◌,
  ==_iff, Option, Option-cases, none, some, List, [], ◌∷◌, ◌++◌, get_elem?, set, get_elem?-set_ne,
  get_elem?-set-some, get_elem?-append_left, if◌then◌else◌, length, length-set, length-append,
  arith,
}
use light_lua.Socket.{Socket}
use light_lua.Machine.{
  State, Live, LuaError, M, Outcome, returns, raises, undefined, and_then, pure, or_raise,
  or_undefined, gets, load, store, method, new_userdata, ◌>>=◌,
}
use light_lua.Backend.{Method}
use light_lua.Session.Sound.{socket_count}
use light_lua.Session.Frames.{Stays}

module _ (R : Socket → Socket → Type 0) where
  pub record Order : Type 0 where
    pub same : (s : Socket) → R s s
    pub chain : (s t u : Socket) → R s t → R t u → R s u

module _ {W : Type 0} (R : Socket → Socket → Type 0) where
  -- The first `n` sockets are there in the second state, and each is related to what it was.
  abbrev pub Evolved : ℕ → State W → State W → Type 0
  Evolved n st st' =
      (n ≤ socket_count st')
      × ((p : ℕ) (s : Socket) → p < n → Live st p s → (t : Socket) × Live st' p t × R s t)

  abbrev pub Evolution : {A : Type 0} → ℕ → State W → Outcome W A → Type 0
  Evolution n st (returns a st') = Evolved n st st'
  Evolution n st (raises e st') = Evolved n st st'
  Evolution n st undefined = Unit {0}

  -- What `m` does to the first `n` sockets is of that kind.
  pub record Evolves {A : Type 0} (n : ℕ) (m : M W A) : Type 0 where
    pub evolves : (st : State W) → n ≤ socket_count st → Evolution n st (m st)

module _ {W : Type 0} {R : Socket → Socket → Type 0} (order : Order R) {n : ℕ} where
  pub Evolved-same :
      (st : State W) (w : W) → n ≤ socket_count st → Evolved R n st (record st { world = w })
  Evolved-same st w h = (h, λ p s low live. (s, live, order.same s))

  pub Evolved-chain :
      (st st' st'' : State W) → Evolved R n st st' → Evolved R n st' st'' → Evolved R n st st''
  Evolved-chain st st' st'' (h, first) (h', second) = (
    h',
    λ p s low live.
        let (t, live', r) = first p s low live in
        let (u, live'', r') = second p t low live' in (u, live'', order.chain s t u r r'),
  )

  pub Evolution-after :
      {A : Type 0} (st st' : State W) (o : Outcome W A)
      → Evolved R n st st'
      → Evolution R n st' o
      → Evolution R n st o
  Evolution-after st st' (returns a st'') e f = Evolved-chain st st' st'' e f
  Evolution-after st st' (raises x st'') e f = Evolved-chain st st' st'' e f
  Evolution-after st st' undefined e f = tt

  and_then-Evolution :
      {A B : Type 0} (st : State W) (o : Outcome W A) (k : A → M W B)
      → Evolution R n st o
      → ((a : A) → Evolves R n (k a))
      → Evolution R n st (and_then o k)
  and_then-Evolution st (returns a st') k e h =
      Evolution-after st st' (k a st') e ((h a).evolves st' e.0)
  and_then-Evolution st (raises x st') k e h = e
  and_then-Evolution st undefined k e h = tt

  pub bind-Evolves :
      {A B : Type 0} {m : M W A} {k : A → M W B}
      → Evolves R n m
      → ((a : A) → Evolves R n (k a))
      → Evolves R n (m >>= k)
  bind-Evolves {A} {B} {m} {k} hm hk = record {
    evolves = λ st h. and_then-Evolution st (m st) k (hm.evolves st h) hk;
  }

  module _ {A : Type 0} where
    pub pure-Evolves : (a : A) → Evolves {W = W} R n (pure a)
    pure-Evolves a = record { evolves = λ st h. Evolved-same st st.world h }

    pub if-Evolves :
        (c : Bool) {m k : M W A} → Evolves R n m → Evolves R n k → Evolves R n (if c then m else k)
    if-Evolves true hm hk = hm
    if-Evolves false hm hk = hk

    pub or_raise-Evolves : (e : LuaError) (o : Option A) → Evolves {W = W} R n (or_raise e o)
    or_raise-Evolves e none = record { evolves = λ st h. Evolved-same st st.world h }
    or_raise-Evolves e (some a) = record { evolves = λ st h. Evolved-same st st.world h }

    pub or_undefined-Evolves : (o : Option A) → Evolves {W = W} R n (or_undefined o)
    or_undefined-Evolves none = record { evolves = λ st h. tt }
    or_undefined-Evolves (some a) = record { evolves = λ st h. Evolved-same st st.world h }

    pub gets-Evolves : (f : W → A) → Evolves R n (gets f)
    gets-Evolves f = record { evolves = λ st h. Evolved-same st st.world h }

    pub Stays-Evolution :
        (Q : A → Type 0) (st : State W) (o : Outcome W A)
        → n ≤ socket_count st
        → Stays st Q o
        → Evolution R n st o
    Stays-Evolution Q st (returns a st') h (e, q) =
        subst (Evolved R n st) (sym e) (Evolved-same st st.world h)
    Stays-Evolution Q st (raises x st') h e =
        subst (Evolved R n st) (sym e) (Evolved-same st st.world h)
    Stays-Evolution Q st undefined h e = tt

  pub load-Evolves : (p : ℕ) → Evolves {W = W} R n (load p)
  unfolding load
  load-Evolves p = record {
    evolves = λ st h. elim (Option-cases (get_elem? st.sockets p)) [
      | inl e ↦ rw (e, load) tt
      | inr (s, e) ↦ rw (e, load) (Evolved-same st st.world h)
    ];
  }
