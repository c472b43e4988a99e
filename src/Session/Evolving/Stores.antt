-- ===== src/Session/Evolving/Stores.antt =====
-- How the writes to the sockets of light/socket/src/socket.cpp keep a relation of sockets.
use light_lua.Prelude.{
  ℕ, ◌≤◌, ◌<◌, ◌≡◌, subst, sym, ◌≢◌, inl, inr, Bool, Bool-cases, true, false, ◌==◌, ==_iff, Option,
  Option-cases, some, [], ◌∷◌, ◌++◌, get_elem?, set, get_elem?-set_ne, get_elem?-set-some,
  get_elem?-append_left, length, length-set, length-append, arith,
}
use light_lua.Socket.{Socket}
use light_lua.Machine.{State, Live, M, load, store, method, new_userdata, ◌>>=◌}
use light_lua.Backend.{Method}
use light_lua.Session.Sound.{socket_count}
use light_lua.Session.Evolving.{Order, Evolved, Evolves, Evolution-after}

module _ {W : Type 0} {R : Socket → Socket → Type 0} (order : Order R) {n : ℕ} where
  -- Another socket at `p`, which is related to the old one if that counts.
  set-Evolved :
      (p : ℕ) (s t : Socket) (st : State W) (w : W)
      → n ≤ socket_count st
      → Live st p s
      → (p < n → R s t)
      → Evolved R n st (record { world = w; sockets = set st.sockets p t })
  set-Evolved p s t st w h live r = (
    omega (arith, h, length-set st.sockets p t),
    λ q u low live_q. elim (Bool-cases (p == q)) [
      | inl e ↦
          let at_p : p ≡ q = (==_iff p q).0 e in
          let found : get_elem? st.sockets q ≡ some s =
            subst (λ x. get_elem? st.sockets x ≡ some s) at_p live in
          let old : s ≡ u = some_eq (sym found) live_q in
          (
            t,
            subst (λ x. get_elem? (set st.sockets p t) x ≡ some t) at_p
                (get_elem?-set-some st.sockets p s t live),
            subst (λ x. R x t) old (r (omega (arith, low, at_p))),
          )
      | inr e ↦
          let elsewhere : p ≢ q = λ x. absurd (differs (sym e) ((==_iff p q).1 x)) in
          (u, rw (get_elem?-set_ne st.sockets t elsewhere) live_q, order.same u)
    ],
  )
    where
      some_eq : {o : Option Socket} {a b : Socket} → some a ≡ o → o ≡ some b → a ≡ b
      some_eq e f = cc

      differs : {c : Bool} → false ≡ c → c ≡ true → ⊥
      differs e f = cc

  pub method-Evolves :
      {A : Type 0} (p : ℕ) (f : Method W A)
      → ((s : Socket) (w : W) → p < n → R s (f s w).1)
      → Evolves R n (method p f)
  unfolding method
  method-Evolves p f r = record {
    evolves = λ st h. elim (Option-cases (get_elem? st.sockets p)) [
      | inl e ↦ rw (e, method) tt
      | inr (s, e) ↦
          rw (e, method) (set-Evolved p s (f s st.world).1 st (f s st.world).2 h e (r s st.world))
    ];
  }

  -- A socket that is read and written back with a change.
  pub change-Evolves :
      {A : Type 0} (p : ℕ) (f : Socket → Socket) (k : M W A)
      → ((s : Socket) → R s (f s))
      → Evolves R n k
      → Evolves R n (load p >>= λ s. store p (f s) >>= λ u. k)
  unfolding load store
  change-Evolves p f k r hk = record {
    evolves = λ st h. elim (Option-cases (get_elem? st.sockets p)) [
      | inl e ↦ rw (e, load) tt
      | inr (s, e) ↦
          let first = set-Evolved p s (f s) st st.world h e (λ low. r s) in
          rw (load, e, store, e)
            (let st' : State W = record st { sockets = set st.sockets p (f s) } in
              Evolution-after order st st' (k st') first (hk.evolves st' first.0))
    ];
  }

  pub change_last-Evolves :
      (p : ℕ) (f : Socket → Socket)
      → ((s : Socket) → R s (f s))
      → Evolves {W = W} R n (load p >>= λ s. store p (f s))
  unfolding load store
  change_last-Evolves p f r = record {
    evolves = λ st h. elim (Option-cases (get_elem? st.sockets p)) [
      | inl e ↦ rw (e, load) tt
      | inr (s, e) ↦ rw (load, e, store, e) (set-Evolved p s (f s) st st.world h e (λ low. r s))
    ];
  }

  -- A new socket behind the first `n`, of which any may become.
  pub store-Evolves : (q : ℕ) (s : Socket) → n ≤ q → Evolves {W = W} R n (store q s)
  unfolding store
  store-Evolves q s far = record {
    evolves = λ st h. elim (Option-cases (get_elem? st.sockets q)) [
      | inl e ↦ rw (e, store) tt
      | inr (t, e) ↦
          rw (e, store)
            (set-Evolved q t s st st.world h e (λ low. absurd (omega (arith, far, low))))
    ];
  }

  pub new_userdata-Evolves :
      {A : Type 0} (s : Socket) (k : ℕ → M W A)
      → ((q : ℕ) → n ≤ q → Evolves R n (k q))
      → Evolves R n (new_userdata s >>= k)
  unfolding new_userdata
  new_userdata-Evolves s k hk = record {
    evolves = λ st h.
        let q = length st.sockets in
        let more : State W = record st { sockets = st.sockets ++ (s ∷ []) } in
        let first : Evolved R n st more = (
          omega (arith, h, length-append st.sockets (s ∷ [])),
          λ p t low live. (t, get_elem?-append_left st.sockets (s ∷ []) p t live, order.same t),
        ) in
        Evolution-after order st more (k q more) first ((hk q h).evolves more first.0);
  }
