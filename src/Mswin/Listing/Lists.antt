-- ===== src/Mswin/Listing/Lists.antt =====
-- Over tables whose handles are small, the two functions do what those of socket_posix.cpp do.
use light_lua.Prelude.{
  ℕ, zero, suc, ◌+◌, ◌-◌, ◌^◌, ◌≤◌, ◌<◌, ◌≡◌, ◌∙◌, refl, ◌⊎◌, inl, inr, ℤ, pos, eqb_ℤ, to_uint64,
  to_uint64-pos, true, Option, none, some, List, [], ◌∷◌, ◌==◌, get_elem?, arith, Bool-cases,
  Option-cases,
}
use light_lua.Socket.{Socket}
use light_lua.Machine.{State, returns, load}
use light_lua.Backend.{Lua}
use light_lua.Posix.Kernel.{FdSets}
use light_lua.Posix.Sets as Posix
use light_lua.Posix.Sets.{rounds_to}
use light_lua.Posix.Sets.Entries as Entries
use light_lua.Posix.Sets.Entries.{TableFits, Picks, is_fd}
use light_lua.Posix.Sets.Listing.{
  members, push_socket_for_fd-found, push_socket_for_fd-missing, fd_set_to_table-lists,
}
use light_lua.Mswin.Calls.{invalid_socket, fd_of}
use light_lua.Mswin.Tables.{holds, TableLives, IsSocket, is_handle, handle_of}
use light_lua.Mswin.Listing.{push_socket_for_fd, list_fds, fd_set_to_table}

-- A handle that the `int`s of the two table functions hold, or INVALID_SOCKET.
abbrev pub HandleFits : Socket → Type 0
HandleFits s = (n : ℕ) × (s.impl.fd ≡ pos n) × ((n ≡ invalid_socket) ⊎ (n < 2 ^ 31 - 1))

abbrev pub SocketFits : Option Socket → Type 0
SocketFits none = ⊥
SocketFits (some s) = HandleFits s

abbrev pub PointerFits : List Socket → Option ℕ → Type 0
PointerFits socks none = Unit
PointerFits socks (some p) = SocketFits (get_elem? socks p)

-- What such a socket, and a pointer to one, give to the other views of a table.
record Views (o : Option Socket) : Type 0 where
  is_socket : IsSocket o
  posix : Entries.SocketFits (2 ^ 64) o
  same : (i : ℕ) → is_handle i (handle_of o) ≡ true → is_fd i (Entries.fd_of o) ≡ true
  small : (i : ℕ) → is_handle i (handle_of o) ≡ true → i < 2 ^ 31 - 1

SocketFits-Views : (o : Option Socket) → SocketFits o → Views o
SocketFits-Views none h = absurd h
SocketFits-Views (some s) (n, e, bound) = record {
  is_socket = tt;
  posix = rw e (omega (arith, bound));
  same = λ i. rw e (ground arith);
  small = λ i. rw e (ground (arith, bound));
}

module _ {V : Type 0} (l : Lua V) (socks : List Socket) where
  -- Every userdata entry is a live socket with such a handle.
  abbrev pub TableHandles : List V → Type 0
  TableHandles [] = Unit
  TableHandles (v ∷ vs) = PointerFits socks (l.to_userdata v) × TableHandles vs

module _ {V : Type 0} (l : Lua V) (socks : List Socket) where
  pub TableHandles-TableLives : (vs : List V) → TableHandles l socks vs → TableLives l socks vs
  TableHandles-TableLives [] h = tt
  TableHandles-TableLives (v ∷ vs) h = (
    elim (Option-cases (l.to_userdata v)) [
      | inl e ↦ rw e tt
      | inr (p, e) ↦ rw e (SocketFits-Views (get_elem? socks p) (rw e at h.0)).is_socket
    ],
    TableHandles-TableLives vs h.1,
  )

  TableHandles-TableFits : (vs : List V) → TableHandles l socks vs → TableFits l socks (2 ^ 64) vs
  TableHandles-TableFits [] h = tt
  TableHandles-TableFits (v ∷ vs) h = (
    elim (Option-cases (l.to_userdata v)) [
      | inl e ↦ rw e tt
      | inr (p, e) ↦ rw e (SocketFits-Views (get_elem? socks p) (rw e at h.0)).posix
    ],
    TableHandles-TableFits vs h.1,
  )

  -- An entry with a handle is an entry with that descriptor, and the handle is small.
  pub holds-small :
      (i : ℕ) (vs : List V)
      → TableHandles l socks vs
      → holds l socks i vs ≡ true
      → (Entries.holds l socks i vs ≡ true) × (i < 2 ^ 31 - 1)
  unfolding holds Entries.holds
  holds-small i [] t h = absurd (cc)
  holds-small i (v ∷ vs) t h = elim (Option-cases (l.to_userdata v)) [
    | inl e ↦ rw e (holds-small i vs t.1 (rw e at h))
    | inr (p, e) ↦
        let views = SocketFits-Views (get_elem? socks p) (rw e at t.0) in
        elim (Bool-cases (is_handle i (handle_of (get_elem? socks p)))) [
          | inl x ↦ (rw (e, views.same i x) refl, views.small i x)
          | inr x ↦
              let (held, low) = holds-small i vs t.1 (rw (e, x) at h) in
              (rw (e, held) (ground arith), low)
        ]
  ]

module _ {W V : Type 0} (l : Lua V) where
  push_socket_for_fd-same :
      (vs : List V) (i : ℕ) (st : State W)
      → i < 2 ^ 64
      → TableHandles l st.sockets vs
      → push_socket_for_fd l vs (pos i) st ≡ Posix.push_socket_for_fd l vs (pos i) st
  unfolding push_socket_for_fd Posix.push_socket_for_fd load
  push_socket_for_fd-same [] i st low t = refl
  push_socket_for_fd-same (v ∷ vs) i st low t = elim (Option-cases (l.to_userdata v)) [
    | inl e ↦
        rw (push_socket_for_fd, Posix.push_socket_for_fd, e)
          (push_socket_for_fd-same vs i st low t.1)
    | inr (p, e) ↦ elim (Option-cases (get_elem? st.sockets p)) [
      | inl d ↦ absurd (rw (e, d) at t.0)
      | inr (s, d) ↦
          let handle : HandleFits s = (rw (e, d) at t.0) in
          let test : (fd_of s == to_uint64 (pos i)) ≡ eqb_ℤ s.impl.fd (pos i) =
            rw (handle.1, to_uint64-pos i low) (ground arith) in
          elim (Bool-cases (eqb_ℤ s.impl.fd (pos i))) [
            | inl m ↦ rw (push_socket_for_fd, Posix.push_socket_for_fd, e, load, d, test, m) refl
            | inr m ↦
                rw (push_socket_for_fd, Posix.push_socket_for_fd, e, load, d, test, m)
                  (push_socket_for_fd-same vs i st low t.1)
          ]
    ]
  ]

module _ {W F V : Type 0} (l : Lua V) (fs : FdSets F) (vs : List V) (s : F) (st : State W) where
  list_fds-same :
      (rounds i : ℕ)
      → i + rounds ≤ 2 ^ 64
      → TableHandles l st.sockets vs
      → list_fds l fs vs s rounds i st ≡ Posix.list_fds l fs vs s rounds i st
  unfolding list_fds Posix.list_fds
  list_fds-same zero i low t = refl
  list_fds-same (suc rounds) i low t =
      let later = list_fds-same rounds (i + 1) (omega arith) t in
      let fits = TableHandles-TableFits l st.sockets vs t in
      let pushed = push_socket_for_fd-same l vs i st (omega arith) t in
      elim (Bool-cases (fs.fd_isset i s)) [
        | inr e ↦ rw (list_fds, Posix.list_fds, e) later
        | inl e ↦ elim (Bool-cases (Entries.holds l st.sockets i vs)) [
          | inl h ↦
              let (p, found, _, _) = push_socket_for_fd-found l (2 ^ 64) vs i st fits h in
              rw (list_fds, Posix.list_fds, e, pushed, found, later) refl
          | inr h ↦
              rw
                (
                  list_fds,
                  Posix.list_fds,
                  e,
                  pushed,
                  push_socket_for_fd-missing l (2 ^ 64) vs i st fits h,
                )
                refl
        ]
      ]

  -- Where every member of the set is the handle of a socket of the table, the function raises no
  -- error and changes nothing. Its new table lists, in rising order, one socket of the table for
  -- each member up to the bound.
  pub fd_set_to_table-lists_handles :
      (maxfd : ℤ)
      → rounds_to maxfd ≤ 2 ^ 64
      → TableHandles l st.sockets vs
      → ((j : ℕ) → fs.fd_isset j s ≡ true → holds l st.sockets j vs ≡ true)
      → (ps : List ℕ) × (fd_set_to_table l fs vs s maxfd st ≡ returns ps st)
        × Picks l st.sockets vs ps (members fs s (rounds_to maxfd) 0)
  unfolding fd_set_to_table Posix.fd_set_to_table
  fd_set_to_table-lists_handles maxfd low t h =
      let (ps, run, picks) =
        fd_set_to_table-lists l fs vs s st (2 ^ 64) maxfd (TableHandles-TableFits l st.sockets vs t)
          (λ j e. (holds-small l st.sockets j vs t (h j e)).0) in
      (ps, list_fds-same (rounds_to maxfd) 0 (omega arith) t ∙ run, picks)
