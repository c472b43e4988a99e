-- ===== src/Posix/Select.antt =====
-- `SocketSelect` of light/socket/src/socket.cpp over the methods of socket_posix.cpp.
use light_lua.Prelude.{
  ℕ, ◌≡◌, refl, sym, ◌∙◌, ℤ, pos, minus_one, ltb_ℤ, eqb_ℤ, suc_ℤ, Bool, true, false, ◌&&◌, ◌||◌,
  Option, none, some, List, [], ◌∷◌, if◌then◌else◌, arith,
}
use light_lua.Machine.{State, returns}
use light_lua.Backend.{Double, Lua, Selected}
use light_lua.Binding.Values.{integer, sequence}
use light_lua.Binding.Select.{
  Wanted, gather, select_call, entries_of, left_in, passed, max_ℤ, no_timeout, socket_select,
}
use light_lua.Posix.{posix}
use light_lua.Posix.Kernel.{Os, FdSets, FdSetLaws, SelectLaws, Narrows, Timeval}
use light_lua.Posix.Calls.{to_timeval, select}
use light_lua.Posix.Sets.{rounds_to}
use light_lua.Posix.Sets.Entries.{holds, TableFits, Picks}
use light_lua.Posix.Sets.Fill.{table_to_fd_set-fills}
use light_lua.Posix.Sets.Listing.{members, fd_set_to_table-lists}

-- The argument is a table with an entry.
abbrev pub has_entry : {V : Type 0} → Option (List V) → Bool
has_entry none = false
has_entry (some []) = false
has_entry (some (v ∷ vs)) = true

-- The facts of a filled set, for one that started empty and a bound that is at least -1.
pub from_empty :
    (m : ℤ) (i : ℕ) (a h z : Bool)
    → a ≡ (h || z)
    → z ≡ false
    → (ltb_ℤ m (pos i) && h) ≡ false
    → (a ≡ h) × ((ltb_ℤ (max_ℤ m minus_one) (pos i) && a) ≡ false)
from_empty m i a h z e f g = ground arith

module _ {W F V : Type 0} (os : Os W F) (fs : FdSets F) (l : Lua V) (laws : FdSetLaws fs) where
  -- What the argument `o` asks for.
  abbrev Gathered : State W → Option (List V) → Wanted F → ℕ → Type 0
  Gathered st o r i =
      (fs.fd_isset i r.fds ≡ holds l st.sockets i (entries_of o))
      × ((ltb_ℤ r.maxfd (pos i) && fs.fd_isset i r.fds) ≡ false)

  gather-Gathered :
      (o : Option (List V)) (st : State W)
      → TableFits l st.sockets fs.fd_setsize (entries_of o)
      → (r : Wanted F) × (gather (posix os fs l) o st ≡ returns r st)
        × ((i : ℕ) → Gathered st o r i)
        × (r.given ≡ has_entry o)
  unfolding gather posix holds
  gather-Gathered none st h = (
    record { maxfd = minus_one; fds = fs.fd_zero; given = false },
    refl,
    λ i. (laws.isset_zero i, ground (arith, laws.isset_zero i)),
    refl,
  )
  gather-Gathered (some []) st h = (
    record { maxfd = minus_one; fds = fs.fd_zero; given = false },
    refl,
    λ i. (laws.isset_zero i, ground (arith, laws.isset_zero i)),
    refl,
  )
  gather-Gathered (some (v ∷ vs)) st h =
      let (m, run, facts, top) = table_to_fd_set-fills l fs laws (v ∷ vs) fs.fd_zero st h in
      (
        record { maxfd = max_ℤ m.0 minus_one; fds = m.1; given = true },
        rw run,
        λ i.
            from_empty m.0 i (fs.fd_isset i m.1) _ (fs.fd_isset i fs.fd_zero) (facts i).0
              (laws.isset_zero i) (facts i).1,
        refl,
      )

module _ {F : Type 0} (fs : FdSets F) where
  -- What the call leaves in a set was in it before.
  pub left_in-Narrows :
      (fds : F) (flag : Bool) (after : Option F)
      → Narrows fs (passed flag fds) after
      → (j : ℕ) → fs.fd_isset j (left_in fds after) ≡ true
      → fs.fd_isset j fds ≡ true
  left_in-Narrows fds true none n j e = absurd n
  left_in-Narrows fds true (some t) n j e = n j e
  left_in-Narrows fds false none n j e = e
  left_in-Narrows fds false (some t) n j e = absurd n

module _ {W F V : Type 0} (os : Os W F) (fs : FdSets F) (l : Lua V) where
  -- The bound of the two loops, and the system call, for what the arguments ask for.
  abbrev bound_of : Wanted F → Wanted F → ℤ
  bound_of r w = max_ℤ w.maxfd r.maxfd

  abbrev selected : Wanted F → Wanted F → Timeval → W → Selected F × W
  selected r w tv world =
      os.select (suc_ℤ (bound_of r w)) (passed r.given r.fds) (passed w.given w.fds) tv world

  module _ (laws : FdSetLaws fs) (select_laws : SelectLaws os fs) where
    pub socket_select_lem :
        (r_arg w_arg t_arg : V) (t : Double) (tv : Timeval) (st : State W)
        → TableFits l st.sockets fs.fd_setsize (entries_of (l.table_entries r_arg))
        → TableFits l st.sockets fs.fd_setsize (entries_of (l.table_entries w_arg))
        → l.opt_number t_arg no_timeout ≡ some t
        → to_timeval os.doubles t ≡ some tv
        → (r : Wanted F) × (w : Wanted F) × (rs : List ℕ) × (ws : List ℕ) × (let (sel, world) =
              selected r w tv st.world in
            socket_select (posix os fs l) l r_arg w_arg t_arg st
            ≡ returns
                (sequence rs
                  ∷ sequence ws
                  ∷ integer (if eqb_ℤ sel.ret minus_one then os.errno world else sel.ret)
                  ∷ [])
                (record st { world = world }))
          × ((i : ℕ) → Gathered os fs l laws st (l.table_entries r_arg) r i)
          × ((i : ℕ) → Gathered os fs l laws st (l.table_entries w_arg) w i)
          × Picks l st.sockets (entries_of (l.table_entries r_arg)) rs (
              members fs
                (left_in r.fds (selected r w tv st.world).0.r_set)
                (rounds_to (bound_of r w))
                0)
          × Picks l st.sockets (entries_of (l.table_entries w_arg)) ws (
              members fs
                (left_in w.fds (selected r w tv st.world).0.w_set)
                (rounds_to (bound_of r w))
                0)
          × (r.given ≡ has_entry (l.table_entries r_arg))
          × (w.given ≡ has_entry (l.table_entries w_arg))
    unfolding socket_select select_call posix select
    socket_select_lem r_arg w_arg t_arg t tv st hr hw ht hv =
        let (r, run_r, facts_r, given_r) =
          gather-Gathered os fs l laws (l.table_entries r_arg) st hr in
        let (w, run_w, facts_w, given_w) =
          gather-Gathered os fs l laws (l.table_entries w_arg) st hw in
        let out = selected r w tv st.world in
        let st' : State W = record st { world = out.1 } in
        let run : select os (suc_ℤ (bound_of r w)) (passed r.given r.fds) (passed w.given w.fds) t
              st.world
            ≡ some out =
          rw (select, hv) refl in
        let (rs, list_r, picks_r) =
          fd_set_to_table-lists l fs (entries_of (l.table_entries r_arg))
            (left_in r.fds out.0.r_set) st' fs.fd_setsize (bound_of r w) hr
            (λ j e.
              sym (facts_r j).0
              ∙ left_in-Narrows fs r.fds r.given out.0.r_set
                  (select_laws.narrows_r (suc_ℤ (bound_of r w)) (passed r.given r.fds)
                    (passed w.given w.fds) tv st.world)
                  j e) in
        let (ws, list_w, picks_w) =
          fd_set_to_table-lists l fs (entries_of (l.table_entries w_arg))
            (left_in w.fds out.0.w_set) st' fs.fd_setsize (bound_of r w) hw
            (λ j e.
              sym (facts_w j).0
              ∙ left_in-Narrows fs w.fds w.given out.0.w_set
                  (select_laws.narrows_w (suc_ℤ (bound_of r w)) (passed r.given r.fds)
                    (passed w.given w.fds) tv st.world)
                  j e) in
        (
          r,
          w,
          rs,
          ws,
          rw (run_r, run_w, ht, select_call, run, list_r, list_w) refl,
          facts_r,
          facts_w,
          picks_r,
          picks_w,
          given_r,
          given_w,
        )
