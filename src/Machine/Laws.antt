-- ===== src/Machine/Laws.antt =====
-- How the accesses through one live socket pointer run, one after another.
use light_lua.Prelude.{ℕ, ◌≡◌, ap, get_elem?-set-some, set-set, set-get_elem?}
use light_lua.Socket.{Socket}
use light_lua.Machine.{State, Live, at, moved, returns, load, store, method}

module _ {W : Type 0} (p : ℕ) (st : State W) {s0 : Socket} (live : Live st p s0) where
  -- A live socket is already in place.
  pub at_self : at p s0 st ≡ st
  at_self = ap (λ ss. record st { sockets = ss }) (set-get_elem? st.sockets p s0 live)

  pub load-at : (s : Socket) → load p (at p s st) ≡ returns s (at p s st)
  unfolding load
  load-at s = rw (load, get_elem?-set-some st.sockets p s0 s live)

  pub store-at : (s s' : Socket) → store p s' (at p s st) ≡ returns tt (at p s' st)
  unfolding store
  store-at s s' = rw (store, get_elem?-set-some st.sockets p s0 s live, set-set st.sockets p s s')

  pub method-at :
      {A : Type 0} (s : Socket) (f : Socket → W → A × Socket × W)
      → method p f (at p s st) ≡ (let (a, s', w') = f s st.world in returns a (moved p s' w' st))
  unfolding method
  method-at s f =
      rw
        (method, get_elem?-set-some st.sockets p s0 s live, set-set st.sockets p s (f s st.world).1)
