-- ===== src/Session/Owning.antt =====
-- Which sockets the values name that a call of light/socket/src/socket.cpp pushes, and how the parts
-- of a call keep them among those that there are.
use light_lua.Prelude.{
  ℕ, ◌+◌, ◌≤◌, ◌<◌, subst, sym, ℤ, Bool, true, false, List, [], ◌∷◌, if◌then◌else◌, length,
  length-append, arith,
}
use light_lua.Socket.{Socket}
use light_lua.Machine.{
  State, M, Outcome, returns, raises, undefined, and_then, pure, new_userdata, ◌>>=◌,
}
use light_lua.Backend.{Backend}
use light_lua.Binding.Values.{Pushed, nil, boolean, integer, string, userdata, sequence}
use light_lua.Session.Sound.{Good, Sound, Safe, Ends, socket_count, new_userdata-Safe}
use light_lua.Session.Frames.{Frames, Stays, Below}

-- Every socket among the values is one of the first `n`.
abbrev pub Owned : ℕ → List Pushed → Type 0
Owned n [] = Unit {0}
Owned n (nil ∷ vs) = Owned n vs
Owned n (boolean c ∷ vs) = Owned n vs
Owned n (integer i ∷ vs) = Owned n vs
Owned n (string t ∷ vs) = Owned n vs
Owned n (userdata p ∷ vs) = (p < n) × Owned n vs
Owned n (sequence ps ∷ vs) = Below n ps × Owned n vs

pub Below-more : (n m : ℕ) (ps : List ℕ) → n ≤ m → Below n ps → Below m ps
Below-more n m [] h b = tt
Below-more n m (p ∷ ps) h b = (omega (arith, h, b.0), Below-more n m ps h b.1)

pub Owned-more : (n m : ℕ) (vs : List Pushed) → n ≤ m → Owned n vs → Owned m vs
Owned-more n m [] h o = tt
Owned-more n m (nil ∷ vs) h o = Owned-more n m vs h o
Owned-more n m (boolean c ∷ vs) h o = Owned-more n m vs h o
Owned-more n m (integer i ∷ vs) h o = Owned-more n m vs h o
Owned-more n m (string t ∷ vs) h o = Owned-more n m vs h o
Owned-more n m (userdata p ∷ vs) h o = (omega (arith, h, o.0), Owned-more n m vs h o.1)
Owned-more n m (sequence ps ∷ vs) h o = (Below-more n m ps h o.0, Owned-more n m vs h o.1)

module _ {W : Type 0} where
  -- A result whose sockets are there.
  abbrev pub Owning : Outcome W (List Pushed) → Type 0
  Owning (returns vs st) = Owned (socket_count st) vs
  Owning (raises e st) = Unit {0}
  Owning undefined = Unit {0}

  -- From a sound state with `n` sockets or more, `m` ends with such a result.
  pub record Owns (n : ℕ) (m : M W (List Pushed)) : Type 0 where
    pub owns : (st : State W) → n ≤ socket_count st → Sound st → Owning (m st)

  Ends-Owning : (n : ℕ) (o : Outcome W (List Pushed)) → Ends n (Owned 0) o → Owning o
  Ends-Owning n (returns vs st) (q, sound, enough) =
      Owned-more 0 (socket_count st) vs (omega arith) q
  Ends-Owning n (raises e st) ended = tt
  Ends-Owning n undefined ended = tt

  -- Values without sockets are no matter.
  pub Safe-Owns : (n : ℕ) {m : M W (List Pushed)} → Safe (Owned 0) m → Owns n m
  Safe-Owns n {m} safe = record {
    owns = λ st enough sound. Ends-Owning (socket_count st) (m st) (safe.ends st sound);
  }

  pub pure-Owns : (n : ℕ) (vs : List Pushed) → Owned n vs → Owns n (pure vs)
  pure-Owns n vs o = record { owns = λ st enough sound. Owned-more n (socket_count st) vs enough o }

  pub if-Owns :
      (n : ℕ) (c : Bool) {m k : M W (List Pushed)}
      → Owns n m
      → Owns n k
      → Owns n (if c then m else k)
  if-Owns n true hm hk = hm
  if-Owns n false hm hk = hk

  and_then-Owning :
      {A : Type 0} (Q : A → Type 0) (n j : ℕ) (o : Outcome W A) (k : A → M W (List Pushed))
      → n ≤ j
      → Ends j Q o
      → ((a : A) → Q a → Owns n (k a))
      → Owning (and_then o k)
  and_then-Owning Q n j (returns a st) k h (q, sound, enough) hk =
      (hk a q).owns st (omega (arith, h, enough)) sound
  and_then-Owning Q n j (raises e st) k h ended hk = tt
  and_then-Owning Q n j undefined k h u hk = tt

  pub bind-Owns :
      {A : Type 0} {Q : A → Type 0} (n : ℕ) {m : M W A} {k : A → M W (List Pushed)}
      → Safe Q m
      → ((a : A) → Q a → Owns n (k a))
      → Owns n (m >>= k)
  bind-Owns {A} {Q} n {m} {k} hm hk = record {
    owns = λ st enough sound.
        and_then-Owning Q n (socket_count st) (m st) k enough (hm.ends st sound) hk;
  }

  -- A new socket is there from then on.
  pub new_userdata-Owns :
      (n : ℕ) (s : Socket) (k : ℕ → M W (List Pushed))
      → Good s
      → ((p m : ℕ) → n ≤ m → p < m → Owns m (k p))
      → Owns n (new_userdata s >>= k)
  unfolding new_userdata
  new_userdata-Owns n s k good hk = record {
    owns = λ st enough sound.
        let longer = length-append st.sockets (s ∷ []) in
        (hk (length st.sockets) (socket_count st + 1) (omega (arith, enough)) (omega arith)).owns _
          (omega (arith, longer)) ((new_userdata-Safe s good).ends st sound).1;
  }

  listed-Owning :
      (n : ℕ) (st : State W) (o : Outcome W (List ℕ)) (k : List ℕ → M W (List Pushed))
      → n ≤ socket_count st
      → Sound st
      → Stays st (Below (socket_count st)) o
      → ((ps : List ℕ) (m : ℕ) → n ≤ m → Below m ps → Owns m (k ps))
      → Owning (and_then o k)
  listed-Owning n st (returns ps st') k enough sound (e, below) hk =
      subst (λ x. Owning (k ps x)) (sym e)
        ((hk ps (socket_count st) enough below).owns st (omega arith) sound)
  listed-Owning n st (raises e st') k enough sound stays hk = tt
  listed-Owning n st undefined k enough sound stays hk = tt

  -- And so is one that `FDSetToTable` lists.
  pub fd_set_to_table-Owns :
      {F V : Type 0} (b : Backend W F V)
      → Frames b
      → (n : ℕ) (vs : List V) (s : F) (maxfd : ℤ) (k : List ℕ → M W (List Pushed))
      → ((ps : List ℕ) (m : ℕ) → n ≤ m → Below m ps → Owns m (k ps))
      → Owns n (b.fd_set_to_table vs s maxfd >>= k)
  fd_set_to_table-Owns b frames n vs s maxfd k hk = record {
    owns = λ st enough sound.
        listed-Owning n st (b.fd_set_to_table vs s maxfd st) k enough sound
          (frames.lists_stay vs s maxfd st) hk;
  }
