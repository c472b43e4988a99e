-- ===== src/ErrorNumber/Laws.antt =====
-- What Lua finds in the error table of light/socket/src/error_number.cpp.
use text.Mathlib.Text.{◌==◌ as str_eq}
use text.Mathlib.TextEquality.{eq_iff}
use Prim.Native.String.{String}
use light_lua.Prelude.{
  ℤ, ◌≡◌, refl, Bool, true, false, Option, none, some, List, [], ◌∷◌, ◌++◌, ◌||◌, if◌then◌else◌,
  arith, ap, ◌∙◌,
}
use light_lua.ErrorNumber.{error_names, win32_errors, kept, set_fields, socket_init_error}

unfoldable pub listed : String → List String → Bool
listed n [] = false
listed n (m ∷ ms) = str_eq m n || listed n ms

set_fields-kept_same :
    (defined : String → Option ℤ) (ns : List String) (field : String)
    → set_fields (kept defined ns) field (defined field) ≡ defined field
unfolding set_fields kept
set_fields-kept_same defined [] field = refl
set_fields-kept_same defined (n ∷ ns) field =
    ground (arith, eq_iff n field, set_fields-kept_same defined ns field)

-- A listed field ends with what is defined for it, another with no value.
set_fields-kept :
    (defined : String → Option ℤ) (ns : List String) (field : String)
    → set_fields (kept defined ns) field none ≡ (if listed field ns then defined field else none)
unfolding set_fields kept listed
set_fields-kept defined [] field = refl
set_fields-kept defined (n ∷ ns) field =
    ground (
      arith,
      eq_iff n field,
      set_fields-kept_same defined ns field,
      set_fields-kept defined ns field,
    )

set_fields-append :
    {A : Type 0} (es fs : List (String × A)) (field : String) (acc : Option A)
    → set_fields (es ++ fs) field acc ≡ set_fields fs field (set_fields es field acc)
unfolding set_fields
set_fields-append [] fs field acc = refl
set_fields-append ((n, v) ∷ es) fs field acc = set_fields-append es fs field _

unfoldable pub find_field : {A : Type 0} → String → List (String × A) → Option A
find_field field [] = none
find_field field ((n, v) ∷ es) = if str_eq n field then some v else find_field field es

abbrev pub or_else : {A : Type 0} → Option A → Option A → Option A
or_else none o = o
or_else (some v) o = some v

unfoldable pub distinct : {A : Type 0} → List (String × A) → Bool
unfolding find_field
distinct [] = true
distinct ((n, v) ∷ es) = elim (find_field n es) [ none ↦ distinct es | some _ ↦ false ]

set_fields-fresh :
    {A : Type 0} (es : List (String × A)) (field : String) (acc : Option A)
    → find_field field es ≡ none
    → set_fields es field acc ≡ acc
unfolding set_fields find_field
set_fields-fresh [] field acc h = refl
set_fields-fresh ((n, v) ∷ es) field acc h = ground (arith, set_fields-fresh es field acc)

pub set_fields-distinct :
    {A : Type 0} (es : List (String × A)) (field : String) (acc : Option A)
    → distinct es ≡ true
    → set_fields es field acc ≡ or_else (find_field field es) acc
unfolding set_fields find_field distinct
set_fields-distinct [] field acc h = refl
set_fields-distinct ((n, v) ∷ es) field acc h =
    ground
      (arith, eq_iff n field, set_fields-fresh es field (some v), set_fields-distinct es field acc)

-- What Lua finds in `Errno`: on Windows the literals of the last block come first; any other name
-- that the table lists has the value that errno.h defines for it, if it does, and no other name has
-- a value.
pub socket_init_error_lem :
    (is_win32 : Bool) (defined : String → Option ℤ) (field : String)
    → socket_init_error is_win32 defined field
      ≡ or_else
          (if is_win32 then find_field field win32_errors else none)
          (if listed field error_names then defined field else none)
unfolding socket_init_error distinct
socket_init_error_lem false defined field =
    set_fields-append (kept defined error_names) [] field none
    ∙ set_fields-kept defined error_names field
socket_init_error_lem true defined field =
    set_fields-append (kept defined error_names) win32_errors field none
    ∙ set_fields-distinct win32_errors field _ refl
    ∙ ap (or_else (find_field field win32_errors)) (set_fields-kept defined error_names field)
