-- ===== src/Tests/Library.antt =====
-- A small Lua that logs the fields it is given, and the theorems on the module's tables applied on it.
use package.text.Mathlib.Text.{◌==◌ as str_eq}
use Prim.Native.String.{String}
use light_lua.Prelude.{
  ℕ, suc, max, ◌≤◌, ◌≡◌, refl, inl, inr, ℤ, pos, false, Option, none, some, List, [], ◌∷◌, ◌==◌,
  ◌&&◌, if◌then◌else◌, Bool-cases, arith,
}
use light_lua.ErrorNumber.{socket_init_error}
use light_lua.ErrorNumber.Laws.{find_field}
use light_lua.Session.{run, bind}
use light_lua.Binding.Library.{
  CFunction, call_function, Entry, function, number, LuaTables, luaopen_light_socket, set_methods,
}
use light_lua.Binding.Library.Fields.{TableLaws, luaopen_light_socket_lem}
use light_lua.Binding.Library.Runs.{stack, index, set_methods-run}
use light_lua.Tests.Toy.{sock, num, text, toy_lua}
use light_lua.Tests.Mswin.{toy_mswin}
use light_lua.Tests.Wrappers.{step_codec}

-- The fields that were set, the last one first, and the metatables.
record Heap : Type 0 where
  next : ℕ
  log : List (ℕ × String × Entry)
  metatables : ℕ → Option ℕ

abbrev find : ℕ → String → List (ℕ × String × Entry) → Option Entry
find u j [] = none
find u j ((t, k, e) ∷ log) = if (u == t) && str_eq k j then some e else find u j log

-- A number above every table of the log.
abbrev above : List (ℕ × String × Entry) → ℕ
above [] = 0
above ((t, k, e) ∷ log) = max (suc t) (above log)

abbrev fresh : Heap → ℕ
fresh h = max h.next (above h.log)

abbrev toy_tables : LuaTables Heap
toy_tables = record {
  new_table = λ h. (fresh h, record h { next = suc (fresh h) });
  set_field = λ t k e h. record h { log = (t, k, e) ∷ h.log };
  get_field = λ t k h. find t k h.log;
  set_metatable = λ p t h. record h { metatables = λ q. if q == p then some t else h.metatables q };
  get_metatable = λ p h. h.metatables p;
}

find-above :
    (u : ℕ) (j : String) (log : List (ℕ × String × Entry)) → above log ≤ u → find u j log ≡ none
find-above u j [] h = refl
find-above u j ((t, k, e) ∷ log) h =
    let differs : (u == t) ≡ false = ground (arith, h) in
    rw differs (find-above u j log (omega (arith, h)))

find-fresh :
    (h : Heap) (t : ℕ) (k : String) (e : Entry) → find t k h.log ≡ some e → (t == fresh h) ≡ false
find-fresh h t k e found = elim (Bool-cases (t == fresh h)) [
  | inr other ↦ other
  | inl same ↦
      let nothing : find t k h.log ≡ none = find-above t k h.log (ground (arith, same)) in
      absurd (cc)
]

toy_tables-TableLaws : TableLaws toy_tables
toy_tables-TableLaws = record {
  new_empty = λ h k. find-above (fresh h) k h.log (omega arith);
  new_other = find-fresh;
  new_keeps = λ h t k other. refl;
  get_set = λ t u k j e h. refl;
  get_set_metatable = λ p t u j h. refl;
  get_metatable_set = λ p t h. ground arith;
}

abbrev empty_heap : Heap
empty_heap = record { next = 0; log = []; metatables = λ p. none }

abbrev one_defined : String → Option ℤ
one_defined n = if str_eq n "EPERM" then some (pos 1) else none

luaopen_light_socket_lem_example :
    (e : ℕ) × (toy_tables.get_field
        (luaopen_light_socket toy_tables false one_defined empty_heap).0
        "bind"
        (luaopen_light_socket toy_tables false one_defined empty_heap).1
      ≡ some (function CFunction.bind))
    × (toy_tables.get_field e "EPERM"
          (luaopen_light_socket toy_tables false one_defined empty_heap).1
        ≡ some (number (pos 1)))
unfolding find_field socket_init_error
luaopen_light_socket_lem_example =
    let t = luaopen_light_socket_lem toy_tables toy_tables-TableLaws false one_defined empty_heap in
    (t.0, (t.1 "bind").0, (t.1 "EPERM").1)

set_methods-run_example :
    (f : CFunction) × (index toy_tables 0 "bind" (set_methods toy_tables 0 empty_heap)
      ≡ some (function f))
    × (call_function toy_mswin toy_lua step_codec
          (λ p. [])
          f
          (stack (num 0) (sock 0 ∷ text [] ∷ num 80 ∷ []))
        ≡ run toy_mswin toy_lua (bind (sock 0) (text []) (num 80)))
set_methods-run_example =
    let t =
      set_methods-run toy_mswin toy_lua step_codec (λ p. []) (num 0) toy_tables toy_tables-TableLaws
        false one_defined 0 empty_heap empty_heap (bind (sock 0) (text []) (num 80)) in
    (t.0, t.2, t.3)
