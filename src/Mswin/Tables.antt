-- ===== src/Mswin/Tables.antt =====
-- `TableToFDSet` of light/socket/src/socket_mswin.cpp: the set that it fills and the bound that it
-- returns.
use light_lua.Prelude.{
  length, ◌<◌, suc, ◌+◌, ℕ, ◌≡◌, ◌≤◌, refl, ◌⊎◌, inl, inr, pos, ltb, Bool, true, false, ◌||◌, ◌&&◌,
  not, ◌==◌, to_int32, Option, none, some, List, [], ◌∷◌, get_elem?, arith, Bool-cases,
  Option-cases,
}
use light_lua.Socket.{Socket}
use light_lua.Machine.{State, returns, load}
use light_lua.Backend.{Lua}
use light_lua.Posix.Kernel.{FdSets}
use light_lua.Mswin.Winsock.{WinsockSetLaws}
use light_lua.Mswin.Calls.{invalid_socket, fd_of}
use light_lua.Mswin.Ending.{add_fd, add_entries, table_to_fd_set}

-- The handle of a socket, and of the socket behind a pointer.
abbrev pub handle_of : Option Socket → Option ℕ
handle_of none = none
handle_of (some s) = some (fd_of s)

abbrev pub handle_behind : List Socket → Option ℕ → Option ℕ
handle_behind socks none = none
handle_behind socks (some p) = handle_of (get_elem? socks p)

abbrev pub is_handle : ℕ → Option ℕ → Bool
is_handle i none = false
is_handle i (some fd) = (i == fd) && not (fd == invalid_socket)

abbrev pub IsSocket : Option Socket → Type 0
IsSocket none = ⊥
IsSocket (some s) = Unit

abbrev pub IsLive : List Socket → Option ℕ → Type 0
IsLive socks none = Unit
IsLive socks (some p) = IsSocket (get_elem? socks p)

module _ {V : Type 0} (l : Lua V) (socks : List Socket) where
  -- An entry is a socket with the handle `i`, which is not INVALID_SOCKET.
  unfoldable pub holds : ℕ → List V → Bool
  holds i [] = false
  holds i (v ∷ vs) = is_handle i (handle_behind socks (l.to_userdata v)) || holds i vs

  -- Every userdata entry is a live socket.
  abbrev pub TableLives : List V → Type 0
  TableLives [] = Unit
  TableLives (v ∷ vs) = IsLive socks (l.to_userdata v) × TableLives vs

module _ {F : Type 0} (fs : FdSets F) where
  put : Option ℕ → ℕ × F → ℕ × F
  put none acc = acc
  put (some fd) acc = add_fd fs fd acc

  module _ {V : Type 0} (l : Lua V) (socks : List Socket) where
    put_all : List V → ℕ × F → ℕ × F
    put_all [] acc = acc
    put_all (v ∷ vs) acc = put_all vs (put (handle_behind socks (l.to_userdata v)) acc)

module _ {W F V : Type 0} (l : Lua V) (fs : FdSets F) where
  add_entries-put_all :
      (vs : List V) (acc : ℕ × F) (st : State W)
      → TableLives l st.sockets vs
      → add_entries l fs vs acc st ≡ returns (put_all fs l st.sockets vs acc) st
  unfolding add_entries put_all put load
  add_entries-put_all [] acc st h = refl
  add_entries-put_all (v ∷ vs) acc st h = elim (Option-cases (l.to_userdata v)) [
    | inl e ↦ rw (e, add_entries) (add_entries-put_all vs acc st h.1)
    | inr (p, e) ↦ elim (Option-cases (get_elem? st.sockets p)) [
      | inl d ↦ absurd (rw (e, d) at h.0)
      | inr (s, d) ↦
          rw (e, add_entries, load, d) (add_entries-put_all vs (add_fd fs (fd_of s) acc) st h.1)
    ]
  ]

module _ {F : Type 0} (fs : FdSets F) (laws : WinsockSetLaws fs) where
  count-put : (o : Option ℕ) (acc : ℕ × F) → laws.count (put fs o acc).1 ≤ suc (laws.count acc.1)
  unfolding put add_fd
  count-put none acc = omega arith
  count-put (some fd) (maxfd, s) = ground (arith, laws.count_set fd s)

  isset-put :
      (i : ℕ) (o : Option ℕ) (acc : ℕ × F)
      → laws.count acc.1 < fs.fd_setsize
      → fs.fd_isset i (put fs o acc).1 ≡ (is_handle i o || fs.fd_isset i acc.1)
  unfolding put add_fd
  isset-put i none acc h = refl
  isset-put i (some fd) (maxfd, s) h = ground (arith, laws.isset_room i fd s h)

  module _ {V : Type 0} (l : Lua V) (socks : List Socket) where
    isset-put_all :
        (i : ℕ) (vs : List V) (acc : ℕ × F)
        → laws.count acc.1 + length vs ≤ fs.fd_setsize
        → fs.fd_isset i (put_all fs l socks vs acc).1 ≡ (holds l socks i vs || fs.fd_isset i acc.1)
    unfolding put_all holds
    isset-put_all i [] acc h = refl
    isset-put_all i (v ∷ vs) acc h =
        let o = handle_behind socks (l.to_userdata v) in
        ground (
          arith,
          isset-put_all i vs (put fs o acc) (omega (arith, h, count-put o acc)),
          isset-put i o acc (omega (arith, h)),
        )

module _ {F : Type 0} (fs : FdSets F) where
  put-grows : (o : Option ℕ) (acc : ℕ × F) → acc.0 ≤ (put fs o acc).0
  unfolding put add_fd
  put-grows none acc = omega arith
  put-grows (some fd) (maxfd, s) = ground arith

  put-covers : (i : ℕ) (o : Option ℕ) (acc : ℕ × F) → is_handle i o ≡ true → i ≤ (put fs o acc).0
  unfolding put add_fd
  put-covers i none acc h = cc
  put-covers i (some fd) (maxfd, s) h = ground arith

  put-attains :
      (o : Option ℕ) (acc : ℕ × F)
      → ((put fs o acc).0 ≡ acc.0) ⊎ (is_handle (put fs o acc).0 o ≡ true)
  unfolding put add_fd
  put-attains none acc = inl refl
  put-attains (some fd) (maxfd, s) = elim (Bool-cases (fd == invalid_socket)) [
    | inl e ↦ inl (rw e refl)
    | inr e ↦ elim (Bool-cases (ltb maxfd fd)) [
      | inl h ↦ inr (rw (e, h) (ground arith))
      | inr h ↦ inl (rw (e, h) refl)
    ]
  ]

  module _ {V : Type 0} (l : Lua V) (socks : List Socket) where
    put_all-grows : (vs : List V) (acc : ℕ × F) → acc.0 ≤ (put_all fs l socks vs acc).0
    unfolding put_all
    put_all-grows [] acc = omega arith
    put_all-grows (v ∷ vs) acc =
        let o = handle_behind socks (l.to_userdata v) in
        omega (arith, put-grows o acc, put_all-grows vs (put fs o acc))

    put_all-covers :
        (i : ℕ) (vs : List V) (acc : ℕ × F)
        → holds l socks i vs ≡ true
        → i ≤ (put_all fs l socks vs acc).0
    unfolding put_all holds
    put_all-covers i [] acc h = cc
    put_all-covers i (v ∷ vs) acc h =
        let o = handle_behind socks (l.to_userdata v) in
        elim (Bool-cases (is_handle i o)) [
          | inl e ↦ omega (arith, put-covers i o acc e, put_all-grows vs (put fs o acc))
          | inr e ↦ put_all-covers i vs (put fs o acc) (rw e at h)
        ]

    put_all-attains :
        (vs : List V) (acc : ℕ × F)
        → ((put_all fs l socks vs acc).0 ≡ acc.0)
          ⊎ (holds l socks (put_all fs l socks vs acc).0 vs ≡ true)
    unfolding put_all holds
    put_all-attains [] acc = inl refl
    put_all-attains (v ∷ vs) acc =
        let o = handle_behind socks (l.to_userdata v) in
        elim (put_all-attains vs (put fs o acc)) [
          | inr e ↦ inr (ground (arith, e))
          | inl e ↦ elim (put-attains o acc) [
            | inl d ↦ inl (ground (arith, e, d))
            | inr d ↦ inr (rw e (rw d refl))
          ]
        ]

module _ {W F V : Type 0} (l : Lua V) (fs : FdSets F) (laws : WinsockSetLaws fs) where
  -- On a table of at most FD_SETSIZE entries whose userdata are live sockets, `TableToFDSet` on Windows returns and changes no
  -- socket. The set then holds a handle exactly if a socket of the table has it, and it is not
  -- INVALID_SOCKET, or the set held it before. The returned bound is the highest of those handles,
  -- or 0 without one, converted to an `int`.
  pub table_to_fd_set-collects :
      (vs : List V) (s : F) (st : State W)
      → TableLives l st.sockets vs
      → laws.count s + length vs ≤ fs.fd_setsize
      → (maxfd : ℕ) × (after : F) × (table_to_fd_set l fs vs s st
          ≡ returns (to_int32 (pos maxfd), after) st)
        × ((i : ℕ)
            → (fs.fd_isset i after ≡ (holds l st.sockets i vs || fs.fd_isset i s))
              × ((ltb maxfd i && holds l st.sockets i vs) ≡ false))
        × ((maxfd ≡ 0) ⊎ (holds l st.sockets maxfd vs ≡ true))
  unfolding table_to_fd_set
  table_to_fd_set-collects vs s st h room =
      let r = put_all fs l st.sockets vs (0, s) in
      (
        r.0,
        r.1,
        rw (add_entries-put_all l fs vs (0, s) st h) refl,
        λ i. (
          isset-put_all fs laws l st.sockets i vs (0, s) room,
          elim (Bool-cases (holds l st.sockets i vs)) [
            | inl e ↦ ground (arith, put_all-covers fs l st.sockets i vs (0, s) e)
            | inr e ↦ ground (arith, e)
          ],
        ),
        put_all-attains fs l st.sockets vs (0, s),
      )
