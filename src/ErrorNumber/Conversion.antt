-- ===== src/ErrorNumber/Conversion.antt =====
-- `ErrorConvert` of light/socket/src/error_number.cpp by the names of the macros, and the error table.
use text.Mathlib.Text.{◌==◌ as str_eq}
use text.Mathlib.TextEquality.{eq_iff}
use Prim.Native.String.{String, ◌++◌}
use light_lua.Prelude.{
  ℤ, eqb_ℤ, ◌≡◌, refl, sym, inl, inr, Bool, true, false, Option, some, List, [], ◌∷◌, ◌||◌, ◌&&◌,
  not, arith, ap, ◌∙◌, eqb_ℤ-eq, eqb_ℤ-refl, Bool-cases,
}
use light_lua.ErrorNumber.{
  none, error_names, win32_errors, socket_init_error, win_to_posix, find_code, error_convert,
}
use light_lua.ErrorNumber.Laws.{listed, find_field, or_else, socket_init_error_lem}

-- The errors that winsock.h and errno.h share, in the order of their Winsock codes.
abbrev pub shared_errors : List String
shared_errors =
    "EINTR" ∷ "EBADF" ∷ "EACCES" ∷ "EFAULT" ∷ "EINVAL" ∷ "EMFILE" ∷ "EWOULDBLOCK" ∷ "EINPROGRESS"
    ∷ "EALREADY" ∷ "ENOTSOCK" ∷ "EDESTADDRREQ" ∷ "EMSGSIZE" ∷ "EPROTOTYPE" ∷ "ENOPROTOOPT"
    ∷ "EPROTONOSUPPORT" ∷ "ESOCKTNOSUPPORT" ∷ "EOPNOTSUPP" ∷ "EPFNOSUPPORT" ∷ "EAFNOSUPPORT"
    ∷ "EADDRINUSE" ∷ "EADDRNOTAVAIL" ∷ "ENETDOWN" ∷ "ENETUNREACH" ∷ "ENETRESET" ∷ "ECONNABORTED"
    ∷ "ECONNRESET" ∷ "ENOBUFS" ∷ "EISCONN" ∷ "ENOTCONN" ∷ "ESHUTDOWN" ∷ "ETOOMANYREFS" ∷ "ETIMEDOUT"
    ∷ "ECONNREFUSED" ∷ "ELOOP" ∷ "ENAMETOOLONG" ∷ "EHOSTDOWN" ∷ "EHOSTUNREACH" ∷ "ENOTEMPTY"
    ∷ "EUSERS" ∷ "EDQUOT" ∷ "ESTALE" ∷ "EREMOTE" ∷ []

-- The name of the Winsock code of an error.
abbrev pub wsa_name : String → String
wsa_name e = "WSA" ++ e

abbrev by_name : List String → List (String × String)
by_name [] = []
by_name (e ∷ es) = (wsa_name e, e) ∷ by_name es

win_to_posix-by_name : win_to_posix ≡ by_name shared_errors
win_to_posix-by_name = refl

module _ (wsa : String → ℤ) where
  -- One of the errors has the Winsock code.
  unfoldable pub has_code : ℤ → List String → Bool
  has_code n [] = false
  has_code n (e ∷ es) = eqb_ℤ (wsa (wsa_name e)) n || has_code n es

  -- The Winsock codes of the errors differ from one another.
  unfoldable pub separated : List String → Bool
  unfolding has_code
  separated [] = true
  separated (e ∷ es) = not (has_code (wsa (wsa_name e)) es) && separated es

  has_code-listed :
      (es : List String) (e : String) → listed e es ≡ true → has_code (wsa (wsa_name e)) es ≡ true
  unfolding has_code listed
  has_code-listed [] e h = h
  has_code-listed (d ∷ es) e h = elim (Bool-cases (str_eq d e)) [
    | inl x ↦ rw ((eq_iff d e).0 x) (rw (eqb_ℤ-refl (wsa (wsa_name e))) refl)
    | inr x ↦ ground (arith, has_code-listed es e (ground (arith, x, h)))
  ]

  module _ (errno : String → ℤ) where
    find_code-listed :
        (es : List String) (e : String)
        → separated es ≡ true
        → listed e es ≡ true
        → find_code wsa errno (by_name es) (wsa (wsa_name e)) ≡ some (errno e)
    unfolding find_code separated listed
    find_code-listed [] e s h = absurd (ground (arith, h))
    find_code-listed (d ∷ es) e s h = elim (Bool-cases (str_eq d e)) [
      | inl x ↦ rw ((eq_iff d e).0 x) (rw (eqb_ℤ-refl (wsa (wsa_name e))) refl)
      | inr x ↦
          let later : listed e es ≡ true = ground (arith, x, h) in
          elim (Bool-cases (eqb_ℤ (wsa (wsa_name d)) (wsa (wsa_name e)))) [
            | inl y ↦
                let same = eqb_ℤ-eq (wsa (wsa_name d)) (wsa (wsa_name e)) y in
                absurd (ground (arith, ap (λ n. has_code n es) same, has_code-listed es e later, s))
            | inr y ↦ rw y (find_code-listed es e (ground (arith, s)) later)
          ]
    ]

    find_code-has_code :
        (es : List String) (n : ℤ)
        → has_code n es ≡ false
        → find_code wsa errno (by_name es) n ≡ none
    unfolding find_code has_code
    find_code-has_code [] n h = refl
    find_code-has_code (e ∷ es) n h = ground (arith, find_code-has_code es n)

unfoldable pub all_listed : List String → List String → Bool
unfolding listed
all_listed [] ms = true
all_listed (n ∷ ns) ms = listed n ms && all_listed ns ms

listed-all_listed :
    (ns ms : List String) (e : String)
    → all_listed ns ms ≡ true
    → listed e ns ≡ true
    → listed e ms ≡ true
unfolding all_listed listed
listed-all_listed [] ms e a h = absurd (ground (arith, h))
listed-all_listed (n ∷ ns) ms e a h = elim (Bool-cases (str_eq n e)) [
  | inl x ↦ rw (sym ((eq_iff n e).0 x)) (ground (arith, a))
  | inr x ↦ listed-all_listed ns ms e (ground (arith, a)) (ground (arith, x, h))
]

shared_errors-listed : (e : String) → listed e shared_errors ≡ true → listed e error_names ≡ true
unfolding all_listed
shared_errors-listed e h = listed-all_listed shared_errors error_names e refl h

-- The value of a macro on Windows: that of the `#define` of the file, or else that of errno.h.
abbrev pub macro_value : (String → Option ℤ) → String → Option ℤ
macro_value defined e = or_else (find_field e win32_errors) (defined e)

-- Let the Winsock codes of the 42 shared errors differ from one another, let `e` be one of them
-- whose macro has a value, and let `n` be the code of none. Then `ErrorConvert` turns the code of
-- the macro `WSA` and `e` into the value of the macro `e`, and leaves `n` as it is; and Lua finds
-- what the code was turned into in the table `Errno` under the name `e`.
pub error_convert_lem :
    (wsa errno : String → ℤ) (defined : String → Option ℤ) (e : String) (n : ℤ)
    → separated wsa shared_errors ≡ true
    → listed e shared_errors ≡ true
    → macro_value defined e ≡ some (errno e)
    → has_code wsa n shared_errors ≡ false
    → (error_convert wsa errno (wsa (wsa_name e)) ≡ errno e)
      × (error_convert wsa errno n ≡ n)
      × (socket_init_error true defined e ≡ some (error_convert wsa errno (wsa (wsa_name e))))
unfolding error_convert
error_convert_lem wsa errno defined e n s h v other =
    let converts : error_convert wsa errno (wsa (wsa_name e)) ≡ errno e =
      rw (find_code-listed wsa errno shared_errors e s h, error_convert) refl in
    (
      converts,
      rw (find_code-has_code wsa errno shared_errors n other, error_convert) refl,
      rw converts (socket_init_error_lem true defined e ∙ rw (shared_errors-listed e h) v),
    )
