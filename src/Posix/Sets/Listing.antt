-- ===== src/Posix/Sets/Listing.antt =====
-- `FDSetToTable` of light/socket/src/socket_posix.cpp: the table that it builds from a set.
use light_lua.Prelude.{
  ℕ, zero, suc, ◌+◌, ◌<◌, ◌≤◌, ◌≡◌, ◌≢◌, refl, inl, inr, ℤ, pos, negsuc, eqb_ℤ, true, false, none,
  some, List, [], ◌∷◌, if◌then◌else◌, get_elem?, arith, ap, eqb_ℤ-eq, Bool-cases, Option-cases,
}
use light_lua.Machine.{State, returns, raises, unexpected_descriptor, load}
use light_lua.Backend.{Lua}
use light_lua.Posix.Kernel.{FdSets}
use light_lua.Posix.Sets.{push_socket_for_fd, list_fds, rounds_to, fd_set_to_table}
use light_lua.Posix.Sets.Entries.{fd_at, is_fd, holds, TableFits, Entry, Picks}

-- The members of a set among the `rounds` descriptors from `i` on, in rising order.
unfoldable pub members : {F : Type 0} → FdSets F → F → ℕ → ℕ → List ℕ
members fs s zero i = []
members fs s (suc rounds) i =
    let rest = members fs s rounds (i + 1) in if fs.fd_isset i s then i ∷ rest else rest

is_fd-eqb_ℤ : (i : ℕ) (fd : ℤ) → is_fd i (some fd) ≡ eqb_ℤ fd (pos i)
is_fd-eqb_ℤ i (pos n) = ground arith
is_fd-eqb_ℤ i (negsuc n) = ground arith

module _ {W V : Type 0} (l : Lua V) where
  -- A descriptor that a socket of the table has is found, at an entry with that descriptor.
  pub push_socket_for_fd-found :
      (limit : ℕ) (vs : List V) (i : ℕ) (st : State W)
      → TableFits l st.sockets limit vs
      → holds l st.sockets i vs ≡ true
      → (p : ℕ) × (push_socket_for_fd l vs (pos i) st ≡ returns (some p) st)
        × Entry l p vs
        × (fd_at st.sockets p ≡ some (pos i))
  unfolding push_socket_for_fd load holds
  push_socket_for_fd-found limit [] i st t h = absurd (cc)
  push_socket_for_fd-found limit (v ∷ vs) i st t h = elim (Option-cases (l.to_userdata v)) [
    | inl e ↦
        let (p, run, entry, fd) = push_socket_for_fd-found limit vs i st t.1 (rw e at h) in
        (p, rw (e, push_socket_for_fd) run, inr entry, fd)
    | inr (q, e) ↦ elim (Option-cases (get_elem? st.sockets q)) [
      | inl d ↦ absurd (rw (e, d) at t.0)
      | inr (s, d) ↦ elim (Bool-cases (eqb_ℤ s.impl.fd (pos i))) [
        | inl m ↦ (
          q,
          rw (e, push_socket_for_fd, d, load, m),
          inl e,
          rw d (ap some (eqb_ℤ-eq s.impl.fd (pos i) m)),
        )
        | inr m ↦
            let (p, run, entry, fd) =
              push_socket_for_fd-found limit vs i st t.1
                (rw (e, d, is_fd-eqb_ℤ i s.impl.fd, m) at h) in
            (p, rw (e, push_socket_for_fd, d, load, m) run, inr entry, fd)
      ]
    ]
  ]

  -- A descriptor that no socket of the table has is not found.
  pub push_socket_for_fd-missing :
      (limit : ℕ) (vs : List V) (i : ℕ) (st : State W)
      → TableFits l st.sockets limit vs
      → holds l st.sockets i vs ≡ false
      → push_socket_for_fd l vs (pos i) st ≡ returns none st
  unfolding push_socket_for_fd load holds
  push_socket_for_fd-missing limit [] i st t h = refl
  push_socket_for_fd-missing limit (v ∷ vs) i st t h = elim (Option-cases (l.to_userdata v)) [
    | inl e ↦ rw (e, push_socket_for_fd) (push_socket_for_fd-missing limit vs i st t.1 (rw e at h))
    | inr (q, e) ↦ elim (Option-cases (get_elem? st.sockets q)) [
      | inl d ↦ absurd (rw (e, d) at t.0)
      | inr (s, d) ↦ elim (Bool-cases (eqb_ℤ s.impl.fd (pos i))) [
        | inl m ↦ absurd (cc (rw (e, d, is_fd-eqb_ℤ i s.impl.fd, m) at h))
        | inr m ↦
            rw (e, push_socket_for_fd, d, load, m)
              (push_socket_for_fd-missing limit vs i st t.1
                (rw (e, d, is_fd-eqb_ℤ i s.impl.fd, m) at h))
      ]
    ]
  ]

module _ {W F V : Type 0} (l : Lua V) (fs : FdSets F) (vs : List V) (s : F) (st : State W) where
  list_fds-members :
      (limit rounds i : ℕ)
      → TableFits l st.sockets limit vs
      → ((j : ℕ) → fs.fd_isset j s ≡ true → holds l st.sockets j vs ≡ true)
      → (ps : List ℕ) × (list_fds l fs vs s rounds i st ≡ returns ps st)
        × Picks l st.sockets vs ps (members fs s rounds i)
  unfolding list_fds members
  list_fds-members limit zero i t h = ([], refl, tt)
  list_fds-members limit (suc rounds) i t h = elim (Bool-cases (fs.fd_isset i s)) [
    | inl e ↦
        let (p, found, entry, fd) = push_socket_for_fd-found l limit vs i st t (h i e) in
        let (ps, run, picks) = list_fds-members limit rounds (i + 1) t h in
        (p ∷ ps, rw (e, found, run), rw e (entry, fd, picks))
    | inr e ↦
        let (ps, run, picks) = list_fds-members limit rounds (i + 1) t h in
        (ps, rw e run, rw e picks)
  ]

  list_fds-raises :
      (limit rounds i j : ℕ)
      → TableFits l st.sockets limit vs
      → fs.fd_isset j s ≡ true
      → holds l st.sockets j vs ≡ false
      → i ≤ j
      → j < i + rounds
      → list_fds l fs vs s rounds i st ≡ raises unexpected_descriptor st
  unfolding list_fds
  list_fds-raises limit zero i j t e m lo hi = absurd (omega arith)
  list_fds-raises limit (suc rounds) i j t e m lo hi = elim (Bool-cases (fs.fd_isset i s)) [
    | inl x ↦ elim (Bool-cases (holds l st.sockets i vs)) [
      | inl y ↦
          let (p, found, entry, fd) = push_socket_for_fd-found l limit vs i st t y in
          let ne : i ≢ j = λ q. cc q in
          let run = list_fds-raises limit rounds (i + 1) j t e m (omega arith) (omega arith) in
          rw (x, found, run)
      | inr y ↦ rw (x, push_socket_for_fd-missing l limit vs i st t y)
    ]
    | inr x ↦
        let ne : i ≢ j = λ q. cc q in
        rw x (list_fds-raises limit rounds (i + 1) j t e m (omega arith) (omega arith))
  ]

  -- Where every member of the set is the descriptor of a socket of the table, the function raises
  -- no error and changes nothing. Its new table lists, in rising order of their descriptors, one
  -- socket of the table for each member up to the bound.
  pub fd_set_to_table-lists :
      (limit : ℕ) (maxfd : ℤ)
      → TableFits l st.sockets limit vs
      → ((j : ℕ) → fs.fd_isset j s ≡ true → holds l st.sockets j vs ≡ true)
      → (ps : List ℕ) × (fd_set_to_table l fs vs s maxfd st ≡ returns ps st)
        × Picks l st.sockets vs ps (members fs s (rounds_to maxfd) 0)
  unfolding fd_set_to_table
  fd_set_to_table-lists limit maxfd t h = list_fds-members limit (rounds_to maxfd) 0 t h

  -- A member up to the bound that no socket of the table has makes it raise the Lua error.
  pub fd_set_to_table-raises :
      (limit maxfd j : ℕ)
      → TableFits l st.sockets limit vs
      → fs.fd_isset j s ≡ true
      → holds l st.sockets j vs ≡ false
      → j ≤ maxfd
      → fd_set_to_table l fs vs s (pos maxfd) st ≡ raises unexpected_descriptor st
  unfolding fd_set_to_table
  fd_set_to_table-raises limit maxfd j t e m h =
      list_fds-raises limit (suc maxfd) 0 j t e m (omega arith) (omega arith)
