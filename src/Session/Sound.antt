-- ===== src/Session/Sound.antt =====
-- What holds of every socket between two calls, and how the parts of a call keep it.
use light_lua.Prelude.{
  length, length-append, length-set, [], ◌∷◌, ◌≤◌, arith, ℕ, ◌≡◌, refl, subst, inl, inr, Bool, true,
  false, Option, none, some, get_elem?, set, if◌then◌else◌, Option-cases, get_elem?-of_set,
  get_elem?-of_append,
}
use light_lua.Memory.{delete_array}
use light_lua.Socket.{Socket}
use light_lua.Machine.{
  State, Live, M, Outcome, returns, raises, undefined, LuaError, pure, and_then, or_raise,
  or_undefined, gets, load, store, method, new_userdata, ◌>>=◌,
}
use light_lua.Backend.{Method}

-- A socket that a receive can use: no size is on record, and its buffer is not freed.
abbrev pub Good : Socket → Type 0
Good s = (s.buffer_size ≡ 0) × (delete_array s.buffer ≡ some tt)

abbrev pub Sound : {W : Type 0} → State W → Type 0
Sound st = (p : ℕ) (s : Socket) → Live st p s → Good s

abbrev pub Any : {A : Type 0} → A → Type 0
Any a = Unit {0}

-- How many sockets there are.
abbrev pub socket_count : {W : Type 0} → State W → ℕ
socket_count st = length st.sockets

module _ {W : Type 0} where
  -- How a call may end: with a value of `Q`, in a sound state that has `n` sockets or more.
  -- Undefined behaviour is any end.
  abbrev pub Ends : {A : Type 0} → ℕ → (A → Type 0) → Outcome W A → Type 0
  Ends n Q (returns a st) = Q a × Sound st × (n ≤ socket_count st)
  Ends n Q (raises e st) = Sound st × (n ≤ socket_count st)
  Ends n Q undefined = Unit {0}

  -- From a sound state, `m` ends so, and takes no socket away.
  pub record Safe {A : Type 0} (Q : A → Type 0) (m : M W A) : Type 0 where
    pub ends : (st : State W) → Sound st → Ends (socket_count st) Q (m st)

  Ends-fewer :
      {A : Type 0} (Q : A → Type 0) (n k : ℕ) (o : Outcome W A) → n ≤ k → Ends k Q o → Ends n Q o
  Ends-fewer Q n k (returns a st) h (q, sound, enough) = (q, sound, omega (arith, h, enough))
  Ends-fewer Q n k (raises e st) h (sound, enough) = (sound, omega (arith, h, enough))
  Ends-fewer Q n k undefined h u = tt

  and_then-Ends :
      {A B : Type 0} {Q : A → Type 0} (R : B → Type 0) (n : ℕ) (o : Outcome W A) (k : A → M W B)
      → Ends n Q o
      → ((a : A) → Q a → Safe R (k a))
      → Ends n R (and_then o k)
  and_then-Ends R n (returns a st) k (q, sound, enough) h =
      Ends-fewer R n (socket_count st) (k a st) enough ((h a q).ends st sound)
  and_then-Ends R n (raises e st) k ended h = ended
  and_then-Ends R n undefined k u h = tt

  pub bind-Safe :
      {A B : Type 0} {Q : A → Type 0} {R : B → Type 0} {m : M W A} {k : A → M W B}
      → Safe Q m
      → ((a : A) → Q a → Safe R (k a))
      → Safe R (m >>= k)
  bind-Safe {A} {B} {Q} {R} {m} {k} hm hk = record {
    ends = λ st sound. and_then-Ends {Q = Q} R (socket_count st) (m st) k (hm.ends st sound) hk;
  }

  pub Ends-Any : {A : Type 0} (Q : A → Type 0) (n : ℕ) (o : Outcome W A) → Ends n Q o → Ends n Any o
  Ends-Any Q n (returns a st) (q, sound, enough) = (tt, sound, enough)
  Ends-Any Q n (raises e st) ended = ended
  Ends-Any Q n undefined ended = tt

  -- Whatever is known of the values.
  pub Safe-Any : {A : Type 0} {Q : A → Type 0} {m : M W A} → Safe Q m → Safe Any m
  Safe-Any {A} {Q} {m} safe = record {
    ends = λ st sound. Ends-Any Q (socket_count st) (m st) (safe.ends st sound);
  }

  module _ {A : Type 0} {Q : A → Type 0} where
    pub pure-Safe : (a : A) → Q a → Safe Q (pure a)
    pure-Safe a q = record { ends = λ st sound. (q, sound, omega arith) }

    pub if-Safe : (c : Bool) {m n : M W A} → Safe Q m → Safe Q n → Safe Q (if c then m else n)
    if-Safe true hm hn = hm
    if-Safe false hm hn = hn

  module _ {A : Type 0} where
    pub or_raise-Safe : (e : LuaError) (o : Option A) → Safe Any (or_raise e o)
    or_raise-Safe e none = record { ends = λ st sound. (sound, omega arith) }
    or_raise-Safe e (some a) = record { ends = λ st sound. (tt, sound, omega arith) }

    pub or_undefined-Safe : (o : Option A) → Safe (λ a. o ≡ some a) (or_undefined o)
    or_undefined-Safe none = record { ends = λ st sound. tt }
    or_undefined-Safe (some a) = record { ends = λ st sound. (refl, sound, omega arith) }

    pub gets-Safe : (f : W → A) → Safe Any (gets f)
    gets-Safe f = record { ends = λ st sound. (tt, sound, omega arith) }

  pub load-Safe : (p : ℕ) → Safe Good (load p)
  unfolding load
  load-Safe p = record {
    ends = λ st sound. elim (Option-cases (get_elem? st.sockets p)) [
      | inl e ↦ rw (e, load) tt
      | inr (s, e) ↦ rw (e, load) (sound p s e, sound, omega arith)
    ];
  }

  set-Sound :
      (p : ℕ) (s : Socket) (st : State W) (w : W)
      → Sound st
      → Good s
      → Sound (record { world = w; sockets = set st.sockets p s })
  set-Sound p s st w sound good q t live = elim (get_elem?-of_set st.sockets p q s t live) [
    | inl e ↦ subst Good e good
    | inr e ↦ sound q t e
  ]

  set-kept : (p : ℕ) (s : Socket) (st : State W) → socket_count st ≤ length (set st.sockets p s)
  set-kept p s st = omega (arith, length-set st.sockets p s)

  pub store-Safe : (p : ℕ) (s : Socket) → Good s → Safe Any (store p s)
  unfolding store
  store-Safe p s good = record {
    ends = λ st sound. elim (Option-cases (get_elem? st.sockets p)) [
      | inl e ↦ rw (e, store) tt
      | inr (s0, e) ↦ rw (e, store) (tt, set-Sound p s st st.world sound good, set-kept p s st)
    ];
  }

  pub method-Safe :
      {A : Type 0} (Q : A → Type 0) (p : ℕ) (f : Method W A)
      → ((s : Socket) (w : W) → Good s → Q (f s w).0 × Good (f s w).1)
      → Safe Q (method p f)
  unfolding method
  method-Safe Q p f keeps = record {
    ends = λ st sound. elim (Option-cases (get_elem? st.sockets p)) [
      | inl e ↦ rw (e, method) tt
      | inr (s, e) ↦
          let (q, good) = keeps s st.world (sound p s e) in
          rw (e, method)
            (
              q,
              set-Sound p (f s st.world).1 st (f s st.world).2 sound good,
              set-kept p (f s st.world).1 st,
            )
    ];
  }

  pub new_userdata-Safe : (s : Socket) → Good s → Safe Any (new_userdata s)
  unfolding new_userdata
  new_userdata-Safe s good = record {
    ends = λ st sound. (
      tt,
      λ p t live. elim (get_elem?-of_append st.sockets s p t live) [
        | inl e ↦ subst Good e good
        | inr e ↦ sound p t e
      ],
      omega (arith, length-append st.sockets (s ∷ [])),
    );
  }
