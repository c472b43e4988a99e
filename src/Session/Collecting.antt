-- ===== src/Session/Collecting.antt =====
-- The collector's call of `__gc` in a running program: light/socket/src/socket.cpp over any class.
use light_lua.Prelude.{ℕ, ◌≡◌, refl, ◌⊎◌, inl, inr, ◌∙◌, some, [], get_elem?-set-some, set-set}
use light_lua.Memory.{Buffer, freed}
use light_lua.Socket.{Socket}
use light_lua.Machine.{State, Live, moved, returns, load, store, method}
use light_lua.Backend.{Backend, Lua}
use light_lua.Binding.Finish.{deleted, socket_gc}
use light_lua.Session.{Reachable}
use light_lua.Session.Frames.{Frames}
use light_lua.Session.Invariant.{Reachable-Sound}

deleted-block : (buffer : Buffer) → (deleted buffer ≡ Buffer.null) ⊎ (deleted buffer ≡ freed)
deleted-block Buffer.null = inl refl
deleted-block Buffer.freed = inr refl
deleted-block (Buffer.block cells) = inr refl

module _ {W F V : Type 0} (b : Backend W F V) (l : Lua V) (frames : Frames b) where
  -- Over a class that keeps the frame laws, in every state that a program can reach, `__gc` on any of
  -- the sockets is defined: it deletes the buffer once, makes one call of `Close`, and returns
  -- nothing; the socket then holds a null pointer or a freed one, so no buffer is left over.
  pub socket_gc_always :
      (self : V) (p : ℕ) (s : Socket) (st : State W)
      → Reachable b l st
      → Live st p s
      → l.to_userdata self ≡ some p
      → (let (ret, s', w) = b.close (record s { buffer = deleted s.buffer }) st.world in
          (socket_gc b l self st ≡ returns [] (moved p s' w st))
          × ((s'.buffer ≡ Buffer.null) ⊎ (s'.buffer ≡ freed)))
  unfolding socket_gc load store method
  socket_gc_always self p s st reachable live is_self =
      let (size, deletable) = Reachable-Sound b l frames st reachable p s live in
      let gone = record s { buffer = deleted s.buffer } in
      let s' = (b.close gone st.world).1 in
      let there = get_elem?-set-some st.sockets p s gone live in
      let kept : s'.buffer ≡ deleted s.buffer = (frames.keeps_close gone st.world).0 in
      (
        rw
            (
              is_self,
              load,
              live,
              deletable,
              store,
              live,
              method,
              there,
              set-set st.sockets p gone s',
            )
            refl,
        elim (deleted-block s.buffer) [ inl e ↦ inl (kept ∙ e) | inr e ↦ inr (kept ∙ e) ],
      )
