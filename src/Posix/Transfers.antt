-- ===== src/Posix/Transfers.antt =====
-- The receives of light/socket/src/socket_posix.cpp keep what the binding relies on.
use light_lua.Prelude.{ℕ, refl, List}
use light_lua.Backend.{ReceiveLaws}
use light_lua.Posix.Kernel.{Os, RecvLaws}
use light_lua.Posix.Calls.{receive, receive_now, receive_from, receive_from_now}

module _ {W F : Type 0} (os : Os W F) (laws : RecvLaws os) where
  -- Where `recv` and `recvfrom` behave as documented, the four receives keep the socket's buffer,
  -- store no more bytes than they are asked for, and return the number of the bytes stored or a
  -- negative number with no bytes.
  pub receives-ReceiveLaws :
      (address : List ℕ) (port : ℕ)
      → ReceiveLaws (receive os)
        × ReceiveLaws (receive_now os)
        × ReceiveLaws (receive_from os address port)
        × ReceiveLaws (receive_from_now os address port)
  unfolding receive receive_now receive_from receive_from_now
  receives-ReceiveLaws address port = (
    record {
      kept = λ n s w. refl;
      fits = λ n s w. (laws.recv_law _ n _ w).0;
      counted = λ n s w. (laws.recv_law _ n _ w).1;
    },
    record {
      kept = λ n s w. refl;
      fits = λ n s w. (laws.recv_law _ n _ w).0;
      counted = λ n s w. (laws.recv_law _ n _ w).1;
    },
    record {
      kept = λ n s w. refl;
      fits = λ n s w. (laws.recvfrom_law _ n _ w).0;
      counted = λ n s w. (laws.recvfrom_law _ n _ w).1;
    },
    record {
      kept = λ n s w. refl;
      fits = λ n s w. (laws.recvfrom_law _ n _ w).0;
      counted = λ n s w. (laws.recvfrom_law _ n _ w).1;
    },
  )
