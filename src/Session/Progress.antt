-- ===== src/Session/Progress.antt =====
-- Which calls of a program over light/socket/src/socket.cpp return: what each asks of its arguments.
pub mod Simple
pub mod Transfers
pub mod Runs
use light_lua.Prelude.{ℕ, ◌+◌, ◌^◌, ◌≤◌, ◌<◌, ◌≡◌, ℤ, pos, to_uint64, some, List, length}
use light_lua.Socket.{Socket}
use light_lua.Machine.{State, Live, Outcome, returns}
use light_lua.Backend.{Backend, Lua, Method, Received}
use light_lua.Binding.Values.{Pushed}
use light_lua.Binding.Transfer.ReceiveFrom.{half_cleared}
use light_lua.Session.{
  Call, tcp, udp, get_address, accept, accept_now, close, is_closed, is_shutdown, listen, receive,
  receive_now, shutdown, connect, connect_now, bind, send, send_now, select, receive_from,
  receive_from_now, send_to, send_to_now,
}

-- It ends with values for Lua.
abbrev pub Returns : {W A : Type 0} → Outcome W A → Type 0
Returns {W} {A} o = (a : A) × (st : State W) × (o ≡ returns a st)

module _ {V : Type 0} (l : Lua V) where
  abbrev pub IsInteger : V → Type 0
  IsInteger v = (n : ℤ) × (l.check_integer v ≡ some n)

  abbrev pub IsText : V → Type 0
  IsText v = (t : List ℕ) × (l.check_string v ≡ some t)

  -- A size that a receive can use, and one that lies in the text.
  abbrev pub IsSize : V → Type 0
  IsSize v = (n : ℕ) × (l.check_integer v ≡ some (pos n)) × (0 < n) × (n + 1 < 2 ^ 63)

  abbrev pub IsPart : V → V → Type 0
  IsPart text size =
      (t : List ℕ) × (n : ℕ) × (l.check_string text ≡ some t)
      × (l.check_integer size ≡ some (pos n))
      × (n ≤ length t)
      × (n < 2 ^ 64)

  -- A socket of the module.
  abbrev pub IsSelf : {W : Type 0} → State W → V → Type 0
  IsSelf st v = (p : ℕ) × (s : Socket) × (l.to_userdata v ≡ some p) × Live st p s

module _ {W F V : Type 0} (b : Backend W F V) (l : Lua V) where
  -- A datagram call that has fewer bytes for the socket than the size.
  abbrev pub HasRoom : (List ℕ → ℕ → ℕ → Method W Received) → State W → V → V → V → V → Type 0
  HasRoom call st self size host port =
      (p : ℕ) × (s : Socket) × (n : ℕ) × (t : List ℕ) × (k : ℤ) × (l.to_userdata self ≡ some p)
      × Live st p s
      × (l.check_integer size ≡ some (pos n))
      × (0 < n)
      × (n + 1 < 2 ^ 63)
      × (l.check_string host ≡ some t)
      × (l.check_integer port ≡ some k)
      × (length (call t (to_uint64 k) n (half_cleared b l n s) st.world).0.bytes < n)

  module _ (Selects : State W → V → V → V → Type 0) where
    -- The arguments are of their types, sizes lie in their ranges, and `select` can be served.
    abbrev pub IsReady : State W → Call V → Type 0
    IsReady st tcp = Unit
    IsReady st udp = Unit
    IsReady st (get_address self) = IsSelf l st self
    IsReady st (accept self) = IsSelf l st self
    IsReady st (accept_now self) = IsSelf l st self
    IsReady st (close self) = IsSelf l st self
    IsReady st (is_closed self) = IsSelf l st self
    IsReady st (is_shutdown self) = IsSelf l st self
    IsReady st (listen self n) = IsSelf l st self × IsInteger l n
    IsReady st (receive self n) = IsSelf l st self × IsSize l n
    IsReady st (receive_now self n) = IsSelf l st self × IsSize l n
    IsReady st (shutdown self how) = IsSelf l st self × IsInteger l how
    IsReady st (connect self host port) = IsSelf l st self × IsText l host × IsInteger l port
    IsReady st (connect_now self host port) = IsSelf l st self × IsText l host × IsInteger l port
    IsReady st (bind self host port) = IsSelf l st self × IsText l host × IsInteger l port
    IsReady st (send self text n) = IsSelf l st self × IsPart l text n
    IsReady st (send_now self text n) = IsSelf l st self × IsPart l text n
    IsReady st (select r w timeout) = Selects st r w timeout
    IsReady st (receive_from self n host port) = HasRoom b.receive_from st self n host port
    IsReady st (receive_from_now self n host port) = HasRoom b.receive_from_now st self n host port
    IsReady st (send_to self text n host port) =
        IsSelf l st self × IsPart l text n × IsText l host × IsInteger l port
    IsReady st (send_to_now self text n host port) =
        IsSelf l st self × IsPart l text n × IsText l host × IsInteger l port
