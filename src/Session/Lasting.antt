-- ===== src/Session/Lasting.antt =====
-- The sockets that a program over light/socket/src/socket.cpp gets from the module.
use light_lua.Prelude.{
  ℕ, zero, suc, ◌≤◌, ◌<◌, ◌≡◌, refl, subst, ◌⊎◌, inl, inr, some, List, [], ◌∷◌, get_elem?, length,
  arith,
}
use light_lua.Socket.{Socket}
use light_lua.Machine.{State, Live, returns}
use light_lua.Backend.{Backend, Lua}
use light_lua.Binding.Values.{Pushed, nil, boolean, integer, string, userdata, sequence}
use light_lua.Session.{Call, run, Step, Reachable, stepped}
use light_lua.Session.Sound.{Sound, socket_count}
use light_lua.Session.Frames.{Frames, Below}
use light_lua.Session.Owning.{Owned, Owning}
use light_lua.Session.Invariant.{Step-Sound, Reachable-Sound, run-Tame}

-- The socket is in the list.
abbrev pub Listed : ℕ → List ℕ → Type 0
Listed p [] = ⊥
Listed p (q ∷ ps) = (p ≡ q) ⊎ Listed p ps

-- The socket is one of the values, or in a table that is one.
abbrev pub Names : ℕ → List Pushed → Type 0
Names p [] = ⊥
Names p (nil ∷ vs) = Names p vs
Names p (boolean c ∷ vs) = Names p vs
Names p (integer i ∷ vs) = Names p vs
Names p (string t ∷ vs) = Names p vs
Names p (userdata q ∷ vs) = (p ≡ q) ⊎ Names p vs
Names p (sequence ps ∷ vs) = Listed p ps ⊎ Names p vs

Listed-Below : (p n : ℕ) (ps : List ℕ) → Below n ps → Listed p ps → p < n
Listed-Below p n [] b h = absurd h
Listed-Below p n (q ∷ ps) b (inl e) = omega (arith, e, b.0)
Listed-Below p n (q ∷ ps) b (inr h) = Listed-Below p n ps b.1 h

Names-Owned : (p n : ℕ) (vs : List Pushed) → Owned n vs → Names p vs → p < n
Names-Owned p n [] o h = absurd h
Names-Owned p n (nil ∷ vs) o h = Names-Owned p n vs o h
Names-Owned p n (boolean c ∷ vs) o h = Names-Owned p n vs o h
Names-Owned p n (integer i ∷ vs) o h = Names-Owned p n vs o h
Names-Owned p n (string t ∷ vs) o h = Names-Owned p n vs o h
Names-Owned p n (userdata q ∷ vs) o (inl e) = omega (arith, e, o.0)
Names-Owned p n (userdata q ∷ vs) o (inr h) = Names-Owned p n vs o.1 h
Names-Owned p n (sequence ps ∷ vs) o (inl h) = Listed-Below p n ps o.0 h
Names-Owned p n (sequence ps ∷ vs) o (inr h) = Names-Owned p n vs o.1 h

get_elem?-below :
    (socks : List Socket) (p : ℕ) → p < length socks → (s : Socket) × (get_elem? socks p ≡ some s)
get_elem?-below [] p h = absurd (omega (arith, h))
get_elem?-below (x ∷ socks) zero h = (x, refl)
get_elem?-below (x ∷ socks) (suc p) h = get_elem?-below socks p (omega (arith, h))

module _ {W F V : Type 0} (b : Backend W F V) (l : Lua V) where
  -- The states that a program comes to from a state on.
  pub data Later : State W → State W → Type 0 where
    now : (st : State W) → Later st st
    later : (st st' st'' : State W) → Later st st' → Step b l st' st'' → Later st st''

  module _ (frames : Frames b) where
    Later-Sound :
        (st st' : State W)
        → Sound st
        → Later st st'
        → Sound st' × (socket_count st ≤ socket_count st')
    Later-Sound st _ sound (now x) = (sound, omega arith)
    Later-Sound st st' sound (later _ before _ path step) =
        let (sound', more) = Later-Sound st before sound path in
        let (sound'', more') = Step-Sound b l frames before st' sound' step in
        (sound'', omega (arith, more, more'))

    -- Over a class that keeps the frame laws, each socket that a call returns to a program, alone or
    -- in a table, is a socket of the module when the call returns and in every later state.
    pub run-Names :
        (c : Call V) (vs : List Pushed) (p : ℕ) (st st' st'' : State W)
        → Reachable b l st
        → run b l c st ≡ returns vs st'
        → Names p vs
        → Later st' st''
        → (s : Socket) × Live st'' p s
    run-Names c vs p st st' st'' reachable e named path =
        let sound = Reachable-Sound b l frames st reachable in
        let owned = subst Owning e ((run-Tame b l frames c).owning.owns st (omega arith) sound) in
        let sound' =
          Reachable-Sound b l frames st' (stepped st st' reachable (Step.returned c vs st st' e)) in
        let low = Names-Owned p (socket_count st') vs owned named in
        let more = (Later-Sound st' st'' sound' path).1 in
        get_elem?-below st''.sockets p (omega (arith, low, more))
