-- ===== src/Tests/Errors.antt =====
-- The error table and the conversion on a small platform.
use text.Mathlib.Text.{◌==◌ as str_eq}
use Prim.Native.String.{String}
use light_lua.Prelude.{
  ℕ, suc, ◌+◌, ◌≡◌, refl, ℤ, pos, true, false, some, List, [], ◌∷◌, if◌then◌else◌,
}
use light_lua.ErrorNumber.{win_to_posix, socket_init_error, error_convert}
use light_lua.ErrorNumber.Laws.{listed, find_field}
use light_lua.ErrorNumber.Conversion.{
  shared_errors, has_code, separated, macro_value, error_convert_lem,
}

-- Codes by the place of the name in the map.
place : String → List (String × String) → ℕ
place n [] = 0
place n ((a, e) ∷ es) = if str_eq a n then 0 else suc (place n es)

abbrev place_code : String → ℤ
place_code n = pos (10000 + place n win_to_posix)

abbrev errno_code : String → ℤ
errno_code n = if str_eq n "ECONNRESET" then pos 104 else pos 0

place_code-separated : separated place_code shared_errors ≡ true
unfolding separated has_code place
place_code-separated = refl

seven_other : has_code place_code (pos 7) shared_errors ≡ false
unfolding has_code place
seven_other = refl

econnreset_shared : listed "ECONNRESET" shared_errors ≡ true
unfolding listed
econnreset_shared = refl

econnreset_value : macro_value (λ n. some (errno_code n)) "ECONNRESET" ≡ some (pos 104)
unfolding find_field
econnreset_value = refl

-- The 26th code of the map, by which WSAECONNRESET stands here.
error_convert_lem_example :
    (error_convert place_code errno_code (pos 10025) ≡ pos 104)
    × (error_convert place_code errno_code (pos 7) ≡ pos 7)
    × (socket_init_error true (λ n. some (errno_code n)) "ECONNRESET"
        ≡ some (error_convert place_code errno_code (pos 10025)))
unfolding place
error_convert_lem_example =
    error_convert_lem place_code errno_code (λ n. some (errno_code n)) "ECONNRESET" (pos 7)
      place_code-separated econnreset_shared econnreset_value seven_other
