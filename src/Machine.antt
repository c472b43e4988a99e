-- ===== src/Machine.antt =====
-- The state that a Lua call acts on, and how a call ends. Sockets are userdata in one store, at
-- their index; `W` is the world of the operating system.
pub mod Laws
use light_lua.Prelude.{ℕ, ◌≡◌, Option, none, some, List, [], ◌∷◌, ◌++◌, get_elem?, set, length}
use light_lua.Socket.{Socket}

pub record State (W : Type 0) : Type 0 where
  pub world : W
  pub sockets : List Socket

-- Lua errors: a bad argument, or `luaL_error` of `FDSetToTable`.
pub data LuaError : Type 0 where
  bad_argument unexpected_descriptor : LuaError

-- `undefined` is undefined behaviour of the C++ code.
pub data Outcome (W : Type 0) (A : Type 0) : Type 0 where
  returns : A → State W → Outcome W A
  raises : LuaError → State W → Outcome W A
  undefined : Outcome W A

abbrev pub M : Type 0 → Type 0 → Type 0
M W A = State W → Outcome W A

module _ {W : Type 0} where
  abbrev pub pure : {A : Type 0} → A → M W A
  pure a st = returns a st

  abbrev pub and_then : {A B : Type 0} → Outcome W A → (A → M W B) → Outcome W B
  and_then (returns a st) k = k a st
  and_then (raises e st) k = raises e st
  and_then undefined k = undefined

  infixl 5 ◌>>=◌ ◌>>◌
  abbrev pub ◌>>=◌ : {A B : Type 0} → M W A → (A → M W B) → M W B
  ◌>>=◌ m k st = and_then (m st) k

  abbrev pub ◌>>◌ : {B : Type 0} → M W (Unit {0}) → M W B → M W B
  m >> k = m >>= λ _. k

  abbrev pub or_raise : {A : Type 0} → LuaError → Option A → M W A
  or_raise e none st = raises e st
  or_raise e (some a) st = returns a st

  abbrev pub or_undefined : {A : Type 0} → Option A → M W A
  or_undefined none st = undefined
  or_undefined (some a) st = returns a st

  abbrev pub gets : {A : Type 0} → (W → A) → M W A
  gets f st = returns (f st.world) st

  -- A read through a socket pointer.
  unfoldable pub load : ℕ → M W Socket
  load p st = elim (get_elem? st.sockets p) [ none ↦ undefined | some s ↦ returns s st ]

  -- A write through a socket pointer.
  unfoldable pub store : ℕ → Socket → M W (Unit {0})
  store p s st = elim (get_elem? st.sockets p) [
    | none ↦ undefined
    | some _ ↦ returns tt (record st { sockets = set st.sockets p s })
  ]

  -- A call of the socket API on the socket at `p`, which it reads and writes.
  unfoldable pub method : {A : Type 0} → ℕ → (Socket → W → A × Socket × W) → M W A
  method p f st = elim (get_elem? st.sockets p) [
    | none ↦ undefined
    | some s ↦
        let (a, s', w') = f s st.world in
        returns a (record { world = w'; sockets = set st.sockets p s' })
  ]

  -- `lua_newuserdata`, with the memory set by the caller.
  unfoldable pub new_userdata : Socket → M W ℕ
  new_userdata s st = returns (length st.sockets) (record st { sockets = st.sockets ++ (s ∷ []) })

-- The state with another socket at `p`.
abbrev pub at : {W : Type 0} → ℕ → Socket → State W → State W
at p s st = record st { sockets = set st.sockets p s }

-- And with another world too.
abbrev pub moved : {W : Type 0} → ℕ → Socket → W → State W → State W
moved p s w st = record { world = w; sockets = set st.sockets p s }

-- There is a socket at `p`.
abbrev pub Live : {W : Type 0} → State W → ℕ → Socket → Type 0
Live st p s = get_elem? st.sockets p ≡ some s
