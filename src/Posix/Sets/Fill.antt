-- ===== src/Posix/Sets/Fill.antt =====
-- `TableToFDSet` of light/socket/src/socket_posix.cpp: the set that it fills and the bound that it
-- returns.
use light_lua.Prelude.{
  ℕ, ◌≡◌, refl, ◌⊎◌, inl, inr, ℤ, pos, negsuc, minus_one, ltb_ℤ, ◌≤ℤ◌, true, false, ◌||◌, ◌&&◌,
  Option, none, some, List, [], ◌∷◌, if◌then◌else◌, get_elem?, arith, Bool-cases, Option-cases,
  lt→ltb,
}
use light_lua.Socket.{Socket}
use light_lua.Machine.{State, returns, load}
use light_lua.Backend.{Lua}
use light_lua.Posix.Kernel.{FdSets, FdSetLaws}
use light_lua.Posix.Sets.{add_fd, add_entry, add_entries, table_to_fd_set}
use light_lua.Posix.Sets.Entries.{fd_behind, is_fd, FdFits, PointerFits, holds, TableFits}

module _ {F : Type 0} (fs : FdSets F) where
  -- What one entry with this descriptor does to the bound and the set.
  put : Option ℤ → ℤ × F → ℤ × F
  put none acc = acc
  put (some (negsuc n)) acc = acc
  put (some (pos n)) (maxfd, s) = (if ltb_ℤ maxfd (pos n) then pos n else maxfd, fs.fd_set n s)

  module _ {V : Type 0} (l : Lua V) (socks : List Socket) where
    put_all : List V → ℤ × F → ℤ × F
    put_all [] acc = acc
    put_all (v ∷ vs) acc = put_all vs (put (fd_behind socks (l.to_userdata v)) acc)

module _ {W F V : Type 0} (l : Lua V) (fs : FdSets F) where
  add_fd-put :
      (fd : ℤ) (acc : ℤ × F) (st : State W)
      → FdFits fs.fd_setsize fd
      → add_fd l fs fd acc st ≡ returns (put fs (some fd) acc) st
  unfolding add_fd put
  add_fd-put (negsuc n) acc st h = refl
  add_fd-put (pos n) (maxfd, s) st h = rw (lt→ltb n fs.fd_setsize h)

  add_entry-put :
      (v : V) (acc : ℤ × F) (st : State W)
      → PointerFits fs.fd_setsize st.sockets (l.to_userdata v)
      → add_entry l fs v acc st ≡ returns (put fs (fd_behind st.sockets (l.to_userdata v)) acc) st
  unfolding add_entry load put
  add_entry-put v acc st h = elim (Option-cases (l.to_userdata v)) [
    | inl e ↦ rw (e, add_entry)
    | inr (p, e) ↦ elim (Option-cases (get_elem? st.sockets p)) [
      | inl d ↦ absurd (rw (e, d) at h)
      | inr (s, d) ↦ rw (e, add_entry, d, load) (add_fd-put s.impl.fd acc st (rw (e, d) at h))
    ]
  ]

  add_entries-put_all :
      (vs : List V) (acc : ℤ × F) (st : State W)
      → TableFits l st.sockets fs.fd_setsize vs
      → add_entries l fs vs acc st ≡ returns (put_all fs l st.sockets vs acc) st
  unfolding add_entries put_all
  add_entries-put_all [] acc st h = refl
  add_entries-put_all (v ∷ vs) acc st h =
      rw (add_entry-put v acc st h.0) (add_entries-put_all vs _ st h.1)

module _ {F : Type 0} (fs : FdSets F) (laws : FdSetLaws fs) where
  isset-put :
      (i : ℕ) (o : Option ℤ) (acc : ℤ × F)
      → fs.fd_isset i (put fs o acc).1 ≡ (is_fd i o || fs.fd_isset i acc.1)
  unfolding put
  isset-put i none acc = refl
  isset-put i (some (negsuc n)) acc = refl
  isset-put i (some (pos n)) (maxfd, s) = laws.isset_set i n s

  module _ {V : Type 0} (l : Lua V) (socks : List Socket) where
    isset-put_all :
        (i : ℕ) (vs : List V) (acc : ℤ × F)
        → fs.fd_isset i (put_all fs l socks vs acc).1 ≡ (holds l socks i vs || fs.fd_isset i acc.1)
    unfolding put_all holds
    isset-put_all i [] acc = refl
    isset-put_all i (v ∷ vs) acc = ground (
      arith,
      isset-put_all i vs (put fs (fd_behind socks (l.to_userdata v)) acc),
      isset-put i (fd_behind socks (l.to_userdata v)) acc,
    )

module _ {F : Type 0} (fs : FdSets F) where
  put-grows : (o : Option ℤ) (acc : ℤ × F) → acc.0 ≤ℤ (put fs o acc).0
  unfolding put
  put-grows none acc = omega arith
  put-grows (some (negsuc n)) acc = omega arith
  put-grows (some (pos n)) (maxfd, s) = ground arith

  put-covers : (i : ℕ) (o : Option ℤ) (acc : ℤ × F) → is_fd i o ≡ true → pos i ≤ℤ (put fs o acc).0
  unfolding put
  put-covers i none acc h = cc
  put-covers i (some (negsuc n)) acc h = cc
  put-covers i (some (pos n)) (maxfd, s) h = ground arith

  put-attains :
      (o : Option ℤ) (acc : ℤ × F)
      → ((put fs o acc).0 ≡ acc.0) ⊎ ((n : ℕ) × ((put fs o acc).0 ≡ pos n) × (is_fd n o ≡ true))
  unfolding put
  put-attains none acc = inl refl
  put-attains (some (negsuc n)) acc = inl refl
  put-attains (some (pos n)) (maxfd, s) = elim (Bool-cases (ltb_ℤ maxfd (pos n))) [
    | inl h ↦ inr (n, rw h, ground arith)
    | inr h ↦ inl (rw h)
  ]

  module _ {V : Type 0} (l : Lua V) (socks : List Socket) where
    put_all-grows : (vs : List V) (acc : ℤ × F) → acc.0 ≤ℤ (put_all fs l socks vs acc).0
    unfolding put_all
    put_all-grows [] acc = omega arith
    put_all-grows (v ∷ vs) acc =
        let o = fd_behind socks (l.to_userdata v) in
        omega (arith, put-grows o acc, put_all-grows vs (put fs o acc))

    put_all-covers :
        (i : ℕ) (vs : List V) (acc : ℤ × F)
        → holds l socks i vs ≡ true
        → pos i ≤ℤ (put_all fs l socks vs acc).0
    unfolding put_all holds
    put_all-covers i [] acc h = cc
    put_all-covers i (v ∷ vs) acc h =
        let o = fd_behind socks (l.to_userdata v) in
        elim (Bool-cases (is_fd i o)) [
          | inl e ↦ omega (arith, put-covers i o acc e, put_all-grows vs (put fs o acc))
          | inr e ↦ put_all-covers i vs (put fs o acc) (rw e at h)
        ]

    put_all-attains :
        (vs : List V) (acc : ℤ × F)
        → ((put_all fs l socks vs acc).0 ≡ acc.0)
          ⊎ ((n : ℕ) × ((put_all fs l socks vs acc).0 ≡ pos n) × (holds l socks n vs ≡ true))
    unfolding put_all holds
    put_all-attains [] acc = inl refl
    put_all-attains (v ∷ vs) acc =
        let o = fd_behind socks (l.to_userdata v) in
        ground (arith, put-attains o acc, put_all-attains vs (put fs o acc))

module _ {W F V : Type 0} (l : Lua V) (fs : FdSets F) (laws : FdSetLaws fs) where
  -- On a table whose userdata are live sockets with descriptors below `FD_SETSIZE`, the function
  -- returns and changes no socket. The set then holds a descriptor exactly if a socket of the table
  -- has it or the set held it before. The returned bound is not below the descriptor of any socket
  -- of the table, and it is -1 or the descriptor of one.
  pub table_to_fd_set-fills :
      (vs : List V) (s : F) (st : State W)
      → TableFits l st.sockets fs.fd_setsize vs
      → (r : ℤ × F) × (table_to_fd_set l fs vs s st ≡ returns r st)
        × ((i : ℕ)
            → (fs.fd_isset i r.1 ≡ (holds l st.sockets i vs || fs.fd_isset i s))
              × ((ltb_ℤ r.0 (pos i) && holds l st.sockets i vs) ≡ false))
        × ((r.0 ≡ minus_one) ⊎ ((n : ℕ) × (r.0 ≡ pos n) × (holds l st.sockets n vs ≡ true)))
  unfolding table_to_fd_set
  table_to_fd_set-fills vs s st h = (
    put_all fs l st.sockets vs (minus_one, s),
    add_entries-put_all l fs vs (minus_one, s) st h,
    λ i. (
      isset-put_all fs laws l st.sockets i vs (minus_one, s),
      elim (Bool-cases (holds l st.sockets i vs)) [
        | inl e ↦ ground (arith, put_all-covers fs l st.sockets i vs (minus_one, s) e)
        | inr e ↦ ground (arith, e)
      ],
    ),
    put_all-attains fs l st.sockets vs (minus_one, s),
  )
