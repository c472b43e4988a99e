-- ===== src/Binding/Library/Runs.antt =====
-- light/socket/src/socket.cpp: which function Lua runs when a program calls one by its name on a
-- socket, or in the module.
use Prim.Native.String.{String}
use text.Mathlib.Text.{◌==◌ as str_eq}
use light_lua.Prelude.{
  ◌∙◌, ℤ, Bool, false, ℕ, ◌-◌, ◌≡◌, ◌==◌, refl, Option, none, some, List, [], ◌∷◌, if◌then◌else◌,
}
use light_lua.Backend.{Lua, Backend}
use light_lua.Binding.Encoding.{Codec}
use light_lua.Session.{Call, run}
use light_lua.ErrorNumber.Laws.{find_field}
use light_lua.Binding.Library.{
  luaopen_light_socket, table, CFunction, lib, call_function, Entry, function, LuaTables,
  set_methods,
}
use light_lua.Binding.Library.Fields.{luaopen_light_socket_lem, TableLaws, set_methods_fields}

-- The Lua stack in a call: what a program leaves out is `absent`.
abbrev pub stack : {V : Type 0} → V → List V → ℕ → V
stack absent [] n = absent
stack absent (x ∷ xs) n = if n == 1 then x else stack absent xs (n - 1)

-- The name in the program, and the arguments behind it.
abbrev pub name_of : {V : Type 0} → Call V → String
name_of Call.tcp = "TCP"
name_of Call.udp = "UDP"
name_of (Call.get_address self) = "getAddress"
name_of (Call.accept self) = "accept"
name_of (Call.accept_now self) = "acceptNow"
name_of (Call.close self) = "close"
name_of (Call.is_closed self) = "isClosed"
name_of (Call.is_shutdown self) = "isShutdown"
name_of (Call.listen self n) = "listen"
name_of (Call.receive self n) = "receive"
name_of (Call.receive_now self n) = "receiveNow"
name_of (Call.shutdown self how) = "shutdown"
name_of (Call.connect self host port) = "connect"
name_of (Call.connect_now self host port) = "connectNow"
name_of (Call.bind self host port) = "bind"
name_of (Call.send self text n) = "send"
name_of (Call.send_now self text n) = "sendNow"
name_of (Call.select r w timeout) = "Select"
name_of (Call.receive_from self n host port) = "receiveFrom"
name_of (Call.receive_from_now self n host port) = "receiveFromNow"
name_of (Call.send_to self text n host port) = "sendTo"
name_of (Call.send_to_now self text n host port) = "sendToNow"

abbrev pub arguments : {V : Type 0} → Call V → List V
arguments Call.tcp = []
arguments Call.udp = []
arguments (Call.get_address self) = self ∷ []
arguments (Call.accept self) = self ∷ []
arguments (Call.accept_now self) = self ∷ []
arguments (Call.close self) = self ∷ []
arguments (Call.is_closed self) = self ∷ []
arguments (Call.is_shutdown self) = self ∷ []
arguments (Call.listen self n) = self ∷ n ∷ []
arguments (Call.receive self n) = self ∷ n ∷ []
arguments (Call.receive_now self n) = self ∷ n ∷ []
arguments (Call.shutdown self how) = self ∷ how ∷ []
arguments (Call.connect self host port) = self ∷ host ∷ port ∷ []
arguments (Call.connect_now self host port) = self ∷ host ∷ port ∷ []
arguments (Call.bind self host port) = self ∷ host ∷ port ∷ []
arguments (Call.send self text n) = self ∷ text ∷ n ∷ []
arguments (Call.send_now self text n) = self ∷ text ∷ n ∷ []
arguments (Call.select r w timeout) = r ∷ w ∷ timeout ∷ []
arguments (Call.receive_from self n host port) = self ∷ n ∷ host ∷ port ∷ []
arguments (Call.receive_from_now self n host port) = self ∷ n ∷ host ∷ port ∷ []
arguments (Call.send_to self text n host port) = self ∷ text ∷ n ∷ host ∷ port ∷ []
arguments (Call.send_to_now self text n host port) = self ∷ text ∷ n ∷ host ∷ port ∷ []

-- What Lua finds for a name on a userdata: the field of the table at its metatable's `__index`.
abbrev pub table_of : Option Entry → Option ℕ
table_of none = none
table_of (some e) = elim e [ table u ↦ some u | _ ↦ none ]

abbrev pub index : {H : Type 0} → LuaTables H → ℕ → String → H → Option Entry
index api p name h = elim (api.get_metatable p h) [
  | none ↦ none
  | some t ↦ elim (table_of (api.get_field t "__index" h)) [
    | none ↦ none
    | some u ↦ api.get_field u name h
  ]
]

module _ {W F V : Type 0} (b : Backend W F V) (l : Lua V) (c : Codec)
    (pointer_text : Option ℕ → List ℕ) (absent : V) where
  -- `lib` has the call's name, which no other field has, and the function there does what a session
  -- does for the call.
  abbrev Runs : Call V → CFunction → Type 0
  Runs k f =
      (find_field (name_of k) lib ≡ some f)
      × (call_function b l c pointer_text f (stack absent (arguments k)) ≡ run b l k)
      × (str_eq "__index" (name_of k) ≡ false)
      × (str_eq "OK" (name_of k) ≡ false)
      × (str_eq "Errno" (name_of k) ≡ false)

  lib-Runs : (k : Call V) → (f : CFunction) × Runs k f
  unfolding find_field call_function run
  lib-Runs Call.tcp = (_, (refl, refl, refl, refl, refl))
  lib-Runs Call.udp = (_, (refl, refl, refl, refl, refl))
  lib-Runs (Call.get_address self) = (_, (refl, refl, refl, refl, refl))
  lib-Runs (Call.accept self) = (_, (refl, refl, refl, refl, refl))
  lib-Runs (Call.accept_now self) = (_, (refl, refl, refl, refl, refl))
  lib-Runs (Call.close self) = (_, (refl, refl, refl, refl, refl))
  lib-Runs (Call.is_closed self) = (_, (refl, refl, refl, refl, refl))
  lib-Runs (Call.is_shutdown self) = (_, (refl, refl, refl, refl, refl))
  lib-Runs (Call.listen self n) = (_, (refl, refl, refl, refl, refl))
  lib-Runs (Call.receive self n) = (_, (refl, refl, refl, refl, refl))
  lib-Runs (Call.receive_now self n) = (_, (refl, refl, refl, refl, refl))
  lib-Runs (Call.shutdown self how) = (_, (refl, refl, refl, refl, refl))
  lib-Runs (Call.connect self host port) = (_, (refl, refl, refl, refl, refl))
  lib-Runs (Call.connect_now self host port) = (_, (refl, refl, refl, refl, refl))
  lib-Runs (Call.bind self host port) = (_, (refl, refl, refl, refl, refl))
  lib-Runs (Call.send self text n) = (_, (refl, refl, refl, refl, refl))
  lib-Runs (Call.send_now self text n) = (_, (refl, refl, refl, refl, refl))
  lib-Runs (Call.select r w timeout) = (_, (refl, refl, refl, refl, refl))
  lib-Runs (Call.receive_from self n host port) = (_, (refl, refl, refl, refl, refl))
  lib-Runs (Call.receive_from_now self n host port) = (_, (refl, refl, refl, refl, refl))
  lib-Runs (Call.send_to self text n host port) = (_, (refl, refl, refl, refl, refl))
  lib-Runs (Call.send_to_now self text n host port) = (_, (refl, refl, refl, refl, refl))

  -- In the module, and on a socket that `SocketNew` has made, the name of each call of a session is
  -- one and the same function of the file, and that function on the arguments of the call does what
  -- the session does for it.
  pub set_methods-run :
      {H : Type 0} (api : LuaTables H)
      → TableLaws api
      → (is_win32 : Bool) (defined : String → Option ℤ) (p : ℕ) (h h' : H) (k : Call V)
      → (f : CFunction) × (api.get_field
            (luaopen_light_socket api is_win32 defined h).0
            (name_of k)
            (luaopen_light_socket api is_win32 defined h).1
          ≡ some (function f))
        × (index api p (name_of k) (set_methods api p h') ≡ some (function f))
        × (call_function b l c pointer_text f (stack absent (arguments k)) ≡ run b l k)
  set_methods-run api laws is_win32 defined p h h' k =
      let (f, (found, runs, no_index, no_ok, no_errno)) = lib-Runs k in
      let (e, fields) = luaopen_light_socket_lem api laws is_win32 defined h in
      let (t, meta, methods) = set_methods_fields api laws p h' in
      (
        f,
        (fields (name_of k)).0 ∙ rw (no_ok, no_errno, found) refl,
        rw (index, meta, methods "__index") (methods (name_of k) ∙ rw (no_index, found) refl),
        runs,
      )
