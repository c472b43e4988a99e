-- ===== src/Binding/Library/Fields.antt =====
-- light/socket/src/socket.cpp: the fields that Lua finds in the module and in a socket's metatable.
use text.Mathlib.Text.{◌==◌ as str_eq}
use Prim.Native.String.{String}
use mathlib.Core.Option as Opt
use light_lua.Prelude.{
  ℕ, ◌≡◌, ◌∙◌, refl, ap, inl, inr, ℤ, pos, Bool, true, false, Option, none, some, List, [], ◌∷◌,
  map, ◌==◌, ◌&&◌, if◌then◌else◌, Bool-cases, arith,
}
use light_lua.ErrorNumber.{error_number, set_fields, socket_init_error}
use light_lua.ErrorNumber.Laws.{find_field, or_else, distinct, set_fields-distinct}
use light_lua.Binding.Library.{
  tcp, lib, Entry, function, number, table, LuaTables, set_entries, set_funcs, init_error,
  luaopen_light_socket, set_methods,
}

-- The documented behaviour of the Lua API: a new table is empty and is none of those with a field,
-- the others stay, a field that is set has its value, and the rest stay.
pub record TableLaws {H : Type 0} (api : LuaTables H) : Type 0 where
  pub new_empty :
      (h : H) (k : String) → api.get_field (api.new_table h).0 k (api.new_table h).1 ≡ none
  pub new_other :
      (h : H) (t : ℕ) (k : String) (e : Entry)
      → api.get_field t k h ≡ some e
      → (t == (api.new_table h).0) ≡ false
  pub new_keeps :
      (h : H) (t : ℕ) (k : String)
      → (t == (api.new_table h).0) ≡ false
      → api.get_field t k (api.new_table h).1 ≡ api.get_field t k h
  pub get_set :
      (t u : ℕ) (k j : String) (e : Entry) (h : H)
      → api.get_field u j (api.set_field t k e h)
        ≡ (if (u == t) && str_eq k j then some e else api.get_field u j h)
  pub get_set_metatable :
      (p t u : ℕ) (j : String) (h : H)
      → api.get_field u j (api.set_metatable p t h) ≡ api.get_field u j h
  pub get_metatable_set : (p t : ℕ) (h : H) → api.get_metatable p (api.set_metatable p t h) ≡ some t

set_fields-map :
    {A : Type 0} (f : A → Entry) (es : List (String × A)) (j : String) (acc : Option A)
    → set_fields (map (λ p. (p.0, f p.1)) es) j (Opt.map f acc) ≡ Opt.map f (set_fields es j acc)
unfolding set_fields
set_fields-map f [] j acc = refl
set_fields-map f ((n, v) ∷ es) j acc = elim (Bool-cases (str_eq n j)) [
  | inl e ↦ rw (set_fields, e) (set_fields-map f es j (some v))
  | inr e ↦ rw (set_fields, e) (set_fields-map f es j acc)
]

distinct-lib : distinct lib ≡ true
unfolding distinct find_field
distinct-lib = refl

or_else-none : {A : Type 0} (o : Option A) → or_else o none ≡ o
or_else-none none = refl
or_else-none (some v) = refl

-- The fields of `lib`, in a table that is empty before.
lib_fields :
    (field : String)
    → set_fields (map (λ p. (p.0, function p.1)) lib) field none
      ≡ Opt.map function (find_field field lib)
lib_fields field =
    set_fields-map function lib field none
    ∙ ap (Opt.map function) (set_fields-distinct lib field none distinct-lib ∙ or_else-none _)

module _ {H : Type 0} (api : LuaTables H) (laws : TableLaws api) where
  set_entries_fields :
      (t : ℕ) (es : List (String × Entry)) (h : H) (u : ℕ) (j : String)
      → api.get_field u j (set_entries api t es h)
        ≡ (if u == t then set_fields es j (api.get_field u j h) else api.get_field u j h)
  unfolding set_entries set_fields
  set_entries_fields t [] h u j = ground arith
  set_entries_fields t ((n, e) ∷ es) h u j =
      set_entries_fields t es (api.set_field t n e h) u j ∙ elim (Bool-cases (u == t)) [
        | inl same ↦ rw (laws.get_set t u n j e h, same) refl
        | inr other ↦ rw (laws.get_set t u n j e h, other) refl
      ]

  -- A new table with the functions of `lib`.
  new_methods_fields :
      (h : H) (field : String)
      → api.get_field
          (api.new_table h).0
          field
          (set_funcs api (api.new_table h).0 lib (api.new_table h).1)
        ≡ Opt.map function (find_field field lib)
  new_methods_fields h field =
      let t = (api.new_table h).0 in
      let same : (t == t) ≡ true = ground arith in
      set_entries_fields t (map (λ p. (p.0, function p.1)) lib) (api.new_table h).1 t field
      ∙ rw (same, laws.new_empty h field) (lib_fields field)

  -- The table `Errno` as Lua has it, and a table that was there before.
  init_error_fields :
      (is_win32 : Bool) (defined : String → Option ℤ) (h : H) (field : String)
      → api.get_field
          (init_error api is_win32 defined h).0
          field
          (init_error api is_win32 defined h).1
        ≡ Opt.map number (socket_init_error is_win32 defined field)
  unfolding init_error socket_init_error
  init_error_fields is_win32 defined h field =
      let e = (api.new_table h).0 in
      let same : (e == e) ≡ true = ground arith in
      set_entries_fields e (map (λ p. (p.0, number p.1)) (error_number is_win32 defined))
        (api.new_table h).1 e field
      ∙ rw (same, laws.new_empty h field)
          (set_fields-map number (error_number is_win32 defined) field none)

  init_error_keeps :
      (is_win32 : Bool) (defined : String → Option ℤ) (h : H) (t : ℕ) (field : String)
      → (t == (api.new_table h).0) ≡ false
      → api.get_field t field (init_error api is_win32 defined h).1 ≡ api.get_field t field h
  unfolding init_error
  init_error_keeps is_win32 defined h t field other =
      set_entries_fields (api.new_table h).0
        (map (λ p. (p.0, number p.1)) (error_number is_win32 defined)) (api.new_table h).1 t field
      ∙ rw other (laws.new_keeps h t field other)

  -- What `luaopen_light_socket` returns: a table that has `OK` with 0, `Errno` with a table of its
  -- own, and each name of `lib` with its function, and nothing else. The fields of the table
  -- at `Errno` are those of the error table.
  pub luaopen_light_socket_lem :
      (is_win32 : Bool) (defined : String → Option ℤ) (h : H)
      → (e : ℕ) × ((field : String)
          → (api.get_field
                (luaopen_light_socket api is_win32 defined h).0
                field
                (luaopen_light_socket api is_win32 defined h).1
              ≡ (if str_eq "OK" field
                  then some (number (pos 0))
                  else (if str_eq "Errno" field
                      then some (table e)
                      else Opt.map function (find_field field lib))))
            × (api.get_field e field (luaopen_light_socket api is_win32 defined h).1
                ≡ Opt.map number (socket_init_error is_win32 defined field)))
  unfolding luaopen_light_socket init_error find_field
  luaopen_light_socket_lem is_win32 defined h =
      let t = (api.new_table h).0 in
      let with_lib = set_funcs api t lib (api.new_table h).1 in
      let e = (api.new_table with_lib).0 in
      let with_errors = (init_error api is_win32 defined with_lib).1 in
      let with_errno = api.set_field t "Errno" (table e) with_errors in
      let other : (t == e) ≡ false =
        laws.new_other with_lib t "TCP" (function tcp) (new_methods_fields h "TCP") in
      let other' : (e == t) ≡ false = ground (arith, other) in
      let same : (t == t) ≡ true = ground arith in
      (
        e,
        λ field. (
          laws.get_set t t "OK" field (number (pos 0)) with_errno
              ∙ rw
                  (
                    same,
                    laws.get_set t t "Errno" field (table e) with_errors,
                    same,
                    init_error_keeps is_win32 defined with_lib t field other,
                    new_methods_fields h field,
                  )
                  refl,
          laws.get_set t e "OK" field (number (pos 0)) with_errno
              ∙ rw (other', laws.get_set t e "Errno" field (table e) with_errors, other')
                  (init_error_fields is_win32 defined with_lib field),
        ),
      )

  -- The metatable of the socket `p`: its `__index` is itself, and it has the functions of `lib`.
  pub set_methods_fields :
      (p : ℕ) (h : H)
      → (t : ℕ) × (api.get_metatable p (set_methods api p h) ≡ some t)
        × ((field : String)
            → api.get_field t field (set_methods api p h) ≡ (
                if str_eq "__index" field
                then some (table t)
                else Opt.map function (find_field field lib)))
  unfolding set_methods
  set_methods_fields p h =
      let t = (api.new_table h).0 in
      let with_lib = set_funcs api t lib (api.new_table h).1 in
      let with_index = api.set_field t "__index" (table t) with_lib in
      let same : (t == t) ≡ true = ground arith in
      (
        t,
        laws.get_metatable_set p t with_index,
        λ field.
            laws.get_set_metatable p t t field with_index
            ∙ laws.get_set t t "__index" field (table t) with_lib
            ∙ rw (same, new_methods_fields h field) refl,
      )
