-- ===== src/Posix/Progress.antt =====
-- A program over light/socket/src/socket.cpp and socket_posix.cpp goes on.
use light_lua.Prelude.{◌≡◌, some, List, []}
use light_lua.Machine.{State, returns}
use light_lua.Backend.{Double, Lua}
use light_lua.Binding.Values.{Pushed}
use light_lua.Binding.Select.{entries_of, no_timeout, socket_select}
use light_lua.Session.{Call, run, Reachable}
use light_lua.Session.Progress.{Returns, IsReady}
use light_lua.Session.Progress.Runs.{Receiving, Reachable-Returns}
use light_lua.Posix.{posix}
use light_lua.Posix.Kernel.{Os, FdSets, FdSetLaws, SelectLaws, RecvLaws, Timeval}
use light_lua.Posix.Calls.{to_timeval}
use light_lua.Posix.Sets.Entries.{TableFits}
use light_lua.Posix.Select.{socket_select_lem}
use light_lua.Posix.Transfers.{receives-ReceiveLaws}
use light_lua.Posix.Frames.{posix-Frames}

module _ {W F V : Type 0} (os : Os W F) (fs : FdSets F) (l : Lua V) where
  -- Tables of live sockets with descriptors below `FD_SETSIZE`, and a timeout that is a timeval.
  abbrev pub Selects : State W → V → V → V → Type 0
  Selects st r w timeout =
      TableFits l st.sockets fs.fd_setsize (entries_of (l.table_entries r))
      × TableFits l st.sockets fs.fd_setsize (entries_of (l.table_entries w))
      × ((t : Double) × (tv : Timeval) × (l.opt_number timeout no_timeout ≡ some t)
          × (to_timeval os.doubles t ≡ some tv))

  module _ (set_laws : FdSetLaws fs) (select_laws : SelectLaws os fs)
      (recv_laws : RecvLaws os) where
    posix-Receiving : Receiving (posix os fs l)
    unfolding posix
    posix-Receiving = record {
      receives = (receives-ReceiveLaws os recv_laws [] 0).0;
      receives_now = (receives-ReceiveLaws os recv_laws [] 0).1;
      receives_from = λ host port. (receives-ReceiveLaws os recv_laws host port).2;
      receives_from_now = λ host port. (receives-ReceiveLaws os recv_laws host port).3;
    }

    select-Returns :
        (st : State W) (r w t : V)
        → Selects st r w t
        → Returns (socket_select (posix os fs l) l r w t st)
    select-Returns st r w t (hr, hw, (k, tv, ht, hv)) =
        let found = socket_select_lem os fs l set_laws select_laws r w t k tv st hr hw ht hv in
        (_, _, found.4)

    -- Over a system that behaves as documented, in every state that a program on POSIX can reach, a
    -- ready call returns, and the state that it leaves can be reached too. Ready is a call whose
    -- arguments are of their types and name sockets of the module, where the size of a receive is
    -- positive and below 2^63 - 1, a `receiveFrom` gets fewer bytes than its size, the size of a
    -- send is at most the length of its text, and a select is over descriptors below `FD_SETSIZE`
    -- with a timeout that is a timeval.
    pub posix-Returns :
        (st : State W) (c : Call V)
        → Reachable (posix os fs l) l st
        → IsReady (posix os fs l) l Selects st c
        → (vs : List Pushed) × (st' : State W) × (run (posix os fs l) l c st ≡ returns vs st')
          × Reachable (posix os fs l) l st'
    posix-Returns =
        Reachable-Returns (posix os fs l) l (posix-Frames os fs l) posix-Receiving Selects
          select-Returns
