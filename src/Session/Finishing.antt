-- ===== src/Session/Finishing.antt =====
-- Closing, shutting down, asking and selecting, of light/socket/src/socket.cpp: how they treat the
-- sockets.
use light_lua.Prelude.{
  ◌≤◌, arith, subst, sym, ℤ, pos, minus_one, suc_ℤ, to_int8, to_int32, eqb_ℤ, ltb_ℤ, if◌then◌else◌,
  true, false, ◌||◌, Option, none, some, List, [], ◌∷◌, Option-cases, inl, inr,
}
use light_lua.Machine.{State, Outcome, returns, raises, undefined, bad_argument}
use light_lua.Backend.{Double, Backend, Lua}
use light_lua.Binding.Values.{boolean, integer, sequence}
use light_lua.Binding.Finish.{socket_close, socket_shutdown, socket_is_closed, socket_is_shutdown}
use light_lua.Binding.Select.{
  max_ℤ, no_timeout, entries_of, left_in, passed, gather, select_call, socket_select,
}
use light_lua.Session.Sound.{
  Ends-Any, socket_count, Sound, Ends, Safe, Any, bind-Safe, pure-Safe, or_raise-Safe,
  or_undefined-Safe, gets-Safe, load-Safe, store-Safe,
}
use light_lua.Session.Frames.{Stays, Below, Frames}
use light_lua.Session.Owning.{Owned, Owns, pure-Owns, bind-Owns, fd_set_to_table-Owns, Below-more}
use light_lua.Session.Creating.{Keeps-Safe, push_result-Safe}

module _ {W F V : Type 0} (b : Backend W F V) (l : Lua V) where
  pub is_closed-Safe : (self : V) → Safe (Owned 0) (socket_is_closed b l self)
  unfolding socket_is_closed
  is_closed-Safe self = bind-Safe (or_undefined-Safe (l.to_userdata self)) (λ p q.
      bind-Safe (load-Safe p) (λ s good.
        pure-Safe (boolean (if eqb_ℤ (b.is_closed s) (pos 0) then true else false) ∷ []) tt))

  pub is_shutdown-Safe : (self : V) → Safe (Owned 0) (socket_is_shutdown b l self)
  unfolding socket_is_shutdown
  is_shutdown-Safe self =
      bind-Safe (or_undefined-Safe (l.to_userdata self))
        (λ p q. bind-Safe (load-Safe p) (λ s good. pure-Safe (integer s.is_shutdown ∷ []) tt))

  module _ (frames : Frames b) where
    pub close-Safe : (self : V) → Safe (Owned 0) (socket_close b l self)
    unfolding socket_close
    close-Safe self = bind-Safe (or_undefined-Safe (l.to_userdata self)) (λ p q.
        bind-Safe (Keeps-Safe p b.close frames.keeps_close) (λ ret q. push_result-Safe b ret))

    pub shutdown-Safe : (self how : V) → Safe (Owned 0) (socket_shutdown b l self how)
    unfolding socket_shutdown
    shutdown-Safe self how_arg =
        bind-Safe (or_raise-Safe bad_argument (l.check_integer how_arg)) (λ how q.
          let clamped = if ltb_ℤ (pos 2) how then pos 2 else how in
          bind-Safe (or_undefined-Safe (l.to_userdata self)) (λ p q.
            bind-Safe
              (Keeps-Safe p (b.shutdown (to_int32 clamped))
                (frames.keeps_shutdown (to_int32 clamped)))
              (λ ret q. bind-Safe (load-Safe p) (λ s good.
                bind-Safe (store-Safe p (record s { is_shutdown = to_int8 clamped }) good)
                  (λ u q. push_result-Safe b ret)))))

-- A sound state with no fewer sockets.
abbrev Kept : {W : Type 0} → State W → State W → Type 0
Kept st st' = Sound st' × (socket_count st ≤ socket_count st')

module _ {W A : Type 0} (Q : A → Type 0) (st : State W) where
  Stays-Ends : (o : Outcome W A) → Sound st → Stays st Q o → Ends (socket_count st) Q o
  Stays-Ends (returns a st') sound (e, q) =
      let kept = subst (Kept st) (sym e) (sound, omega arith) in (q, kept.0, kept.1)
  Stays-Ends (raises e' st') sound e = subst (Kept st) (sym e) (sound, omega arith)
  Stays-Ends undefined sound e = tt

module _ {W F V : Type 0} (b : Backend W F V) (frames : Frames b) where
  gather-Safe : (o : Option (List V)) → Safe Any (gather b o)
  unfolding gather
  gather-Safe none = pure-Safe _ tt
  gather-Safe (some []) = pure-Safe _ tt
  gather-Safe (some (v ∷ vs)) =
      bind-Safe {Q = Any}
        (record {
          ends = λ st sound.
              Stays-Ends Any st (b.table_to_fd_set (v ∷ vs) b.fd_zero st) sound
                (frames.fills_stay (v ∷ vs) b.fd_zero st);
        })
        (λ r q. pure-Safe (record { maxfd = max_ℤ r.0 minus_one; fds = r.1; given = true }) tt)

  list-Safe : (vs : List V) (s : F) (maxfd : ℤ) → Safe Any (b.fd_set_to_table vs s maxfd)
  list-Safe vs s maxfd = record {
    ends = λ st sound.
        Ends-Any (Below (socket_count st)) (socket_count st) (b.fd_set_to_table vs s maxfd st) (
          Stays-Ends (Below (socket_count st)) st (b.fd_set_to_table vs s maxfd st) sound
            (frames.lists_stay vs s maxfd st));
  }

  select_call-Safe :
      (n : ℤ) (r w : Option F) (timeout : Double) → Safe Any (select_call b n r w timeout)
  unfolding select_call
  select_call-Safe n r w timeout = record {
    ends = λ st sound. elim (Option-cases (b.select n r w timeout st.world)) [
      | inl e ↦ rw (select_call, e) tt
      | inr (a, e) ↦ rw (select_call, e) (tt, sound, omega arith)
    ];
  }

  pub select-Safe : (l : Lua V) (r w timeout : V) → Safe Any (socket_select b l r w timeout)
  unfolding socket_select
  select-Safe l r_arg w_arg timeout_arg = bind-Safe (gather-Safe (l.table_entries r_arg)) (λ r q.
      bind-Safe (gather-Safe (l.table_entries w_arg)) (λ w q.
        bind-Safe (or_raise-Safe bad_argument (l.opt_number timeout_arg no_timeout)) (λ timeout q.
          let maxfd = max_ℤ w.maxfd r.maxfd in
          bind-Safe
            (select_call-Safe (suc_ℤ maxfd) (passed (b.is_win32 || r.given) r.fds)
              (passed w.given w.fds) timeout)
            (λ sel q.
              bind-Safe
                (list-Safe (entries_of (l.table_entries r_arg)) (left_in r.fds sel.r_set) maxfd)
                (λ rs q.
                  bind-Safe
                    (list-Safe (entries_of (l.table_entries w_arg)) (left_in w.fds sel.w_set) maxfd)
                    (λ ws q. bind-Safe (gets-Safe b.get_error) (λ e q.
                      pure-Safe
                        (sequence rs
                          ∷ sequence ws
                          ∷ integer (if eqb_ℤ sel.ret minus_one then e else sel.ret)
                          ∷ [])
                        tt)))))))

  pub select-Owns : (l : Lua V) (r w timeout : V) → Owns 0 (socket_select b l r w timeout)
  unfolding socket_select
  select-Owns l r_arg w_arg timeout_arg = bind-Owns 0 (gather-Safe (l.table_entries r_arg)) (λ r q.
      bind-Owns 0 (gather-Safe (l.table_entries w_arg)) (λ w q.
        bind-Owns 0 (or_raise-Safe bad_argument (l.opt_number timeout_arg no_timeout)) (λ timeout q.
          let maxfd = max_ℤ w.maxfd r.maxfd in
          bind-Owns 0
            (select_call-Safe (suc_ℤ maxfd) (passed (b.is_win32 || r.given) r.fds)
              (passed w.given w.fds) timeout)
            (λ sel q.
              fd_set_to_table-Owns b frames 0 (entries_of (l.table_entries r_arg))
                (left_in r.fds sel.r_set) maxfd _
                (λ rs n few below_r.
                  fd_set_to_table-Owns b frames n (entries_of (l.table_entries w_arg))
                    (left_in w.fds sel.w_set) maxfd _
                    (λ ws m more below_w. bind-Owns m (gets-Safe b.get_error) (λ e q.
                      pure-Owns m
                        (sequence rs
                          ∷ sequence ws
                          ∷ integer (if eqb_ℤ sel.ret minus_one then e else sel.ret)
                          ∷ [])
                        (Below-more n m rs more below_r, (below_w, tt)))))))))
