-- ===== src/Mswin/Select.antt =====
-- `SocketSelect` of light/socket/src/socket.cpp over the methods of socket_mswin.cpp.
use light_lua.Prelude.{
  length, ℕ, ◌-◌, ◌^◌, ◌≤◌, ◌<◌, ◌≡◌, refl, sym, ◌∙◌, ◌⊎◌, inl, inr, ℤ, pos, minus_one, ltb_ℤ,
  eqb_ℤ, suc_ℤ, to_int32-small, true, false, ◌&&◌, Option, none, some, List, [], ◌∷◌, if◌then◌else◌,
  arith, Bool-cases,
}
use light_lua.Machine.{State, returns}
use light_lua.Backend.{Lua, Selected, Double}
use light_lua.Binding.Values.{integer, sequence}
use light_lua.Binding.Select.{
  Wanted, gather, select_call, entries_of, left_in, passed, max_ℤ, no_timeout, socket_select,
}
use light_lua.Posix.Kernel.{FdSets, Timeval}
use light_lua.Posix.Calls.{to_timeval}
use light_lua.Posix.Sets.{rounds_to}
use light_lua.Posix.Sets.Entries.{Picks}
use light_lua.Posix.Sets.Listing.{members}
use light_lua.Posix.Select.{has_entry, from_empty, left_in-Narrows}
use light_lua.Mswin.{mswin}
use light_lua.Mswin.Winsock.{Winsock, Process, WinsockSetLaws}
use light_lua.Mswin.Ending.{select, get_error}
use light_lua.Mswin.Tables.{holds, table_to_fd_set-collects}
use light_lua.Mswin.Waiting.{SelectLaws, select-Narrows}
use light_lua.Mswin.Listing.Lists.{
  TableHandles, TableHandles-TableLives, holds-small, fd_set_to_table-lists_handles,
}

-- A bound that an `int` holds, with one more.
abbrev IsBound : ℤ → Type 0
IsBound b = (b ≡ minus_one) ⊎ ((m : ℕ) × (b ≡ pos m) × (m < 2 ^ 31 - 1))

max_ℤ-IsBound : (a b : ℤ) → IsBound a → IsBound b → IsBound (max_ℤ a b)
max_ℤ-IsBound a b (inl e) (inl f) = inl (rw (e, f) refl)
max_ℤ-IsBound a b (inl e) (inr (m, f, h)) = inr (m, rw (e, f) (ground arith), h)
max_ℤ-IsBound a b (inr (m, e, h)) (inl f) = inr (m, rw (e, f) (ground arith), h)
max_ℤ-IsBound a b (inr (m, e, h)) (inr (n, f, k)) = elim (Bool-cases (ltb_ℤ (pos n) (pos m))) [
  | inl x ↦ inr (m, rw (e, f, x) refl, h)
  | inr x ↦ inr (n, rw (e, f, x) refl, k)
]

rounds_to-IsBound : (b : ℤ) → IsBound b → rounds_to b ≤ 2 ^ 64
rounds_to-IsBound b (inl e) = rw e (omega arith)
rounds_to-IsBound b (inr (m, e, h)) = rw e (omega arith)

module _ {W F V : Type 0} (sys : Winsock W F) (fs : FdSets F) (l : Lua V)
    (laws : WinsockSetLaws fs) where
  -- What the argument `o` asks for.
  abbrev Gathered : State (Process W) → Option (List V) → Wanted F → ℕ → Type 0
  Gathered st o r i =
      (fs.fd_isset i r.fds ≡ holds l st.sockets i (entries_of o))
      × ((ltb_ℤ r.maxfd (pos i) && fs.fd_isset i r.fds) ≡ false)

  gather-Gathered :
      (o : Option (List V)) (st : State (Process W))
      → TableHandles l st.sockets (entries_of o)
      → length (entries_of o) ≤ fs.fd_setsize
      → (r : Wanted F) × (gather (mswin sys fs l) o st ≡ returns r st)
        × ((i : ℕ) → Gathered st o r i)
        × IsBound r.maxfd
        × (r.given ≡ has_entry o)
  unfolding gather mswin holds
  gather-Gathered none st h n = (
    record { maxfd = minus_one; fds = fs.fd_zero; given = false },
    refl,
    λ i. (laws.isset_zero i, ground (arith, laws.isset_zero i)),
    inl refl,
    refl,
  )
  gather-Gathered (some []) st h n = (
    record { maxfd = minus_one; fds = fs.fd_zero; given = false },
    refl,
    λ i. (laws.isset_zero i, ground (arith, laws.isset_zero i)),
    inl refl,
    refl,
  )
  gather-Gathered (some (v ∷ vs)) st h n =
      let (m, after, run, facts, top) =
        table_to_fd_set-collects l fs laws (v ∷ vs) fs.fd_zero st
          (TableHandles-TableLives l st.sockets (v ∷ vs) h) (omega (arith, n, laws.count_zero)) in
      let low : m < 2 ^ 31 - 1 = elim top [
        | inl z ↦ omega (arith, z)
        | inr held ↦ (holds-small l st.sockets m (v ∷ vs) h held).1
      ] in
      (
        record { maxfd = max_ℤ (pos m) minus_one; fds = after; given = true },
        rw (run, to_int32-small m (omega arith)) refl,
        λ i.
            from_empty (pos m) i (fs.fd_isset i after) _ (fs.fd_isset i fs.fd_zero) (facts i).0
              (laws.isset_zero i) (ground (arith, (facts i).1)),
        inr (m, ground arith, low),
        refl,
      )

module _ {W F V : Type 0} (sys : Winsock W F) (fs : FdSets F) (l : Lua V) (laws : WinsockSetLaws fs)
    (select_laws : SelectLaws sys fs) where
  -- Over tables of at most FD_SETSIZE live sockets whose handles are INVALID_SOCKET or below
  -- 2^31 - 1, with a timeout that converts to a `timeval`, where the system's select adds no
  -- descriptors, `Select` on Windows makes one call of the class and raises no error. The call has
  -- the set of exactly the handles of the first table's sockets for reading, and for writing the set
  -- of exactly those of the second table's, or a null pointer if that table has no entry. It
  -- returns, for each set, one socket of its table for each handle that the call left in it, in
  -- rising order, and the count of the call or its error.
  pub socket_select_handles :
      (r_arg w_arg t_arg : V) (t : Double) (tv : Timeval) (st : State (Process W))
      → TableHandles l st.sockets (entries_of (l.table_entries r_arg))
      → TableHandles l st.sockets (entries_of (l.table_entries w_arg))
      → length (entries_of (l.table_entries r_arg)) ≤ fs.fd_setsize
      → length (entries_of (l.table_entries w_arg)) ≤ fs.fd_setsize
      → l.opt_number t_arg no_timeout ≡ some t
      → to_timeval sys.doubles t ≡ some tv
      → (r : Wanted F) × (w : Wanted F) × (sel : Selected F) × (g : Process W) × (rs : List ℕ)
        × (ws : List ℕ) × (select sys fs
              (suc_ℤ (max_ℤ w.maxfd r.maxfd))
              (some r.fds)
              (passed w.given w.fds)
              t
              st.world
            ≡ some (sel, g))
        × (socket_select (mswin sys fs l) l r_arg w_arg t_arg st
            ≡ returns
                (sequence rs
                  ∷ sequence ws
                  ∷ integer (if eqb_ℤ sel.ret minus_one then get_error sys g else sel.ret)
                  ∷ [])
                (record st { world = g }))
        × ((i : ℕ) → Gathered sys fs l laws st (l.table_entries r_arg) r i)
        × ((i : ℕ) → Gathered sys fs l laws st (l.table_entries w_arg) w i)
        × Picks l st.sockets
            (entries_of (l.table_entries r_arg))
            rs
            (members fs (left_in r.fds sel.r_set) (rounds_to (max_ℤ w.maxfd r.maxfd)) 0)
        × Picks l st.sockets
            (entries_of (l.table_entries w_arg))
            ws
            (members fs (left_in w.fds sel.w_set) (rounds_to (max_ℤ w.maxfd r.maxfd)) 0)
        × (r.given ≡ has_entry (l.table_entries r_arg))
        × (w.given ≡ has_entry (l.table_entries w_arg))
  unfolding socket_select select_call mswin
  socket_select_handles r_arg w_arg t_arg t tv st hr hw nr nw ht hv =
      let (r, run_r, facts_r, bound_r, given_r) =
        gather-Gathered sys fs l laws (l.table_entries r_arg) st hr nr in
      let (w, run_w, facts_w, bound_w, given_w) =
        gather-Gathered sys fs l laws (l.table_entries w_arg) st hw nw in
      let bound = max_ℤ w.maxfd r.maxfd in
      let low = rounds_to-IsBound bound (max_ℤ-IsBound w.maxfd r.maxfd bound_w bound_r) in
      let (sel, g, run, narrow_r, narrow_w, _) =
        select-Narrows sys fs laws select_laws (suc_ℤ bound) r.fds (passed w.given w.fds) t tv
          st.world hv in
      let st' : State (Process W) = record st { world = g } in
      let (rs, list_r, picks_r) =
        fd_set_to_table-lists_handles l fs (entries_of (l.table_entries r_arg))
          (left_in r.fds sel.r_set) st' bound low hr
          (λ j e. sym (facts_r j).0 ∙ left_in-Narrows fs r.fds true sel.r_set narrow_r j e) in
      let (ws, list_w, picks_w) =
        fd_set_to_table-lists_handles l fs (entries_of (l.table_entries w_arg))
          (left_in w.fds sel.w_set) st' bound low hw
          (λ j e. sym (facts_w j).0 ∙ left_in-Narrows fs w.fds w.given sel.w_set narrow_w j e) in
      (
        r,
        w,
        sel,
        g,
        rs,
        ws,
        run,
        rw (run_r, run_w, ht, select_call, run, list_r, list_w) refl,
        facts_r,
        facts_w,
        picks_r,
        picks_w,
        given_r,
        given_w,
      )
