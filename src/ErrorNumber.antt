-- ===== src/ErrorNumber.antt =====
-- light/socket/src/error_number.cpp: the table of error names, and the conversion of Winsock codes.
-- The values of the macros are the platform's: `defined` says which names errno.h defines, and how.
pub mod Laws
pub mod Conversion
use mathlib.Core.Option as Opt
use text.Mathlib.Text.{◌==◌ as str_eq}
use Prim.Native.String.{String}
use light_lua.Prelude.{
  ℤ, pos, eqb_ℤ, Bool, Option, none, some, List, [], ◌∷◌, ◌++◌, map, if◌then◌else◌,
}

-- The names of `errorNumber`, each under an `#ifdef` of its own: up to ERANGE, up to EREMOTE, and
-- up to ELAST.
abbrev pub system_names : List String
system_names =
    "EPERM" ∷ "ENOENT" ∷ "ESRCH" ∷ "EINTR" ∷ "EIO" ∷ "ENXIO" ∷ "E2BIG" ∷ "ENOEXEC" ∷ "EBADF"
    ∷ "ECHILD" ∷ "EDEADLK" ∷ "ENOMEM" ∷ "EACCES" ∷ "EFAULT" ∷ "ENOTBLK" ∷ "EBUSY" ∷ "EEXIST"
    ∷ "EXDEV" ∷ "ENODEV" ∷ "ENOTDIR" ∷ "EISDIR" ∷ "EINVAL" ∷ "ENFILE" ∷ "EMFILE" ∷ "ENOTTY"
    ∷ "ETXTBSY" ∷ "EFBIG" ∷ "ENOSPC" ∷ "ESPIPE" ∷ "EROFS" ∷ "EMLINK" ∷ "EPIPE" ∷ "EDOM" ∷ "ERANGE"
    ∷ []

abbrev pub network_names : List String
network_names =
    "EAGAIN" ∷ "EWOULDBLOCK" ∷ "EINPROGRESS" ∷ "EALREADY" ∷ "ENOTSOCK" ∷ "EDESTADDRREQ" ∷ "EMSGSIZE"
    ∷ "EPROTOTYPE" ∷ "ENOPROTOOPT" ∷ "EPROTONOSUPPORT" ∷ "ESOCKTNOSUPPORT" ∷ "ENOTSUP"
    ∷ "EOPNOTSUPP" ∷ "EPFNOSUPPORT" ∷ "EAFNOSUPPORT" ∷ "EADDRINUSE" ∷ "EADDRNOTAVAIL" ∷ "ENETDOWN"
    ∷ "ENETUNREACH" ∷ "ENETRESET" ∷ "ECONNABORTED" ∷ "ECONNRESET" ∷ "ENOBUFS" ∷ "EISCONN"
    ∷ "ENOTCONN" ∷ "ESHUTDOWN" ∷ "ETOOMANYREFS" ∷ "ETIMEDOUT" ∷ "ECONNREFUSED" ∷ "ELOOP"
    ∷ "ENAMETOOLONG" ∷ "EHOSTDOWN" ∷ "EHOSTUNREACH" ∷ "ENOTEMPTY" ∷ "EPROCLIM" ∷ "EUSERS" ∷ "EDQUOT"
    ∷ "ESTALE" ∷ "EREMOTE" ∷ []

abbrev pub other_names : List String
other_names =
    "EBADRPC" ∷ "ERPCMISMATCH" ∷ "EPROGUNAVAIL" ∷ "EPROGMISMATCH" ∷ "EPROCUNAVAIL" ∷ "ENOLCK"
    ∷ "ENOSYS" ∷ "EFTYPE" ∷ "EAUTH" ∷ "ENEEDAUTH" ∷ "EPWROFF" ∷ "EDEVERR" ∷ "EOVERFLOW" ∷ "EBADEXEC"
    ∷ "EBADARCH" ∷ "ESHLIBVERS" ∷ "EBADMACHO" ∷ "ECANCELED" ∷ "EIDRM" ∷ "ENOMSG" ∷ "EILSEQ"
    ∷ "ENOATTR" ∷ "EBADMSG" ∷ "EMULTIHOP" ∷ "ENODATA" ∷ "ENOLINK" ∷ "ENOSR" ∷ "ENOSTR" ∷ "EPROTO"
    ∷ "ETIME" ∷ "EOPNOTSUPP" ∷ "ENOPOLICY" ∷ "ENOTRECOVERABLE" ∷ "EOWNERDEAD" ∷ "EQFULL" ∷ "ELAST"
    ∷ []

abbrev pub error_names : List String
error_names = system_names ++ (network_names ++ other_names)

-- The last block of `errorNumber`, under `#ifdef _WIN32`.
abbrev pub win32_errors : List (String × ℤ)
win32_errors =
    ("ESOCKTNOSUPPORT", pos 44)
    ∷ ("EPFNOSUPPORT", pos 46)
    ∷ ("ESHUTDOWN", pos 58)
    ∷ ("ETOOMANYREFS", pos 59)
    ∷ ("EHOSTDOWN", pos 64)
    ∷ ("EPROCLIM", pos 67)
    ∷ ("EUSERS", pos 68)
    ∷ ("EDQUOT", pos 69)
    ∷ ("ESTALE", pos 70)
    ∷ ("EREMOTE", pos 71)
    ∷ []

-- The entries that the preprocessor keeps.
unfoldable pub kept : (String → Option ℤ) → List String → List (String × ℤ)
kept defined [] = []
kept defined (n ∷ ns) = elim (defined n) [
  | none ↦ kept defined ns
  | some v ↦ (n, v) ∷ kept defined ns
]

unfoldable pub error_number : Bool → (String → Option ℤ) → List (String × ℤ)
unfolding kept
error_number is_win32 defined = kept defined error_names ++ (if is_win32 then win32_errors else [])

-- `lua_setfield` for each entry in turn: the value that a field ends with.
unfoldable pub set_fields : {A : Type 0} → List (String × A) → String → Option A → Option A
set_fields [] field acc = acc
set_fields ((n, v) ∷ es) field acc = set_fields es field (if str_eq n field then some v else acc)

-- `SocketInitError`: the field `name` of the table that it builds.
unfoldable pub socket_init_error : Bool → (String → Option ℤ) → String → Option ℤ
unfolding error_number set_fields
socket_init_error is_win32 defined field = set_fields (error_number is_win32 defined) field none

-- `winToPosix`, by the names of the macros.
abbrev pub win_to_posix : List (String × String)
win_to_posix =
    ("WSAEINTR", "EINTR")
    ∷ ("WSAEBADF", "EBADF")
    ∷ ("WSAEACCES", "EACCES")
    ∷ ("WSAEFAULT", "EFAULT")
    ∷ ("WSAEINVAL", "EINVAL")
    ∷ ("WSAEMFILE", "EMFILE")
    ∷ ("WSAEWOULDBLOCK", "EWOULDBLOCK")
    ∷ ("WSAEINPROGRESS", "EINPROGRESS")
    ∷ ("WSAEALREADY", "EALREADY")
    ∷ ("WSAENOTSOCK", "ENOTSOCK")
    ∷ ("WSAEDESTADDRREQ", "EDESTADDRREQ")
    ∷ ("WSAEMSGSIZE", "EMSGSIZE")
    ∷ ("WSAEPROTOTYPE", "EPROTOTYPE")
    ∷ ("WSAENOPROTOOPT", "ENOPROTOOPT")
    ∷ ("WSAEPROTONOSUPPORT", "EPROTONOSUPPORT")
    ∷ ("WSAESOCKTNOSUPPORT", "ESOCKTNOSUPPORT")
    ∷ ("WSAEOPNOTSUPP", "EOPNOTSUPP")
    ∷ ("WSAEPFNOSUPPORT", "EPFNOSUPPORT")
    ∷ ("WSAEAFNOSUPPORT", "EAFNOSUPPORT")
    ∷ ("WSAEADDRINUSE", "EADDRINUSE")
    ∷ ("WSAEADDRNOTAVAIL", "EADDRNOTAVAIL")
    ∷ ("WSAENETDOWN", "ENETDOWN")
    ∷ ("WSAENETUNREACH", "ENETUNREACH")
    ∷ ("WSAENETRESET", "ENETRESET")
    ∷ ("WSAECONNABORTED", "ECONNABORTED")
    ∷ ("WSAECONNRESET", "ECONNRESET")
    ∷ ("WSAENOBUFS", "ENOBUFS")
    ∷ ("WSAEISCONN", "EISCONN")
    ∷ ("WSAENOTCONN", "ENOTCONN")
    ∷ ("WSAESHUTDOWN", "ESHUTDOWN")
    ∷ ("WSAETOOMANYREFS", "ETOOMANYREFS")
    ∷ ("WSAETIMEDOUT", "ETIMEDOUT")
    ∷ ("WSAECONNREFUSED", "ECONNREFUSED")
    ∷ ("WSAELOOP", "ELOOP")
    ∷ ("WSAENAMETOOLONG", "ENAMETOOLONG")
    ∷ ("WSAEHOSTDOWN", "EHOSTDOWN")
    ∷ ("WSAEHOSTUNREACH", "EHOSTUNREACH")
    ∷ ("WSAENOTEMPTY", "ENOTEMPTY")
    ∷ ("WSAEUSERS", "EUSERS")
    ∷ ("WSAEDQUOT", "EDQUOT")
    ∷ ("WSAESTALE", "ESTALE")
    ∷ ("WSAEREMOTE", "EREMOTE")
    ∷ []

-- A look-up in the map: of equal keys `std::map` keeps the first.
unfoldable pub find_code : (String → ℤ) → (String → ℤ) → List (String × String) → ℤ → Option ℤ
find_code wsa errno [] n = none
find_code wsa errno ((a, e) ∷ es) n =
    if eqb_ℤ (wsa a) n then some (errno e) else find_code wsa errno es n

-- `ErrorConvert`
unfoldable pub error_convert : (String → ℤ) → (String → ℤ) → ℤ → ℤ
unfolding find_code
error_convert wsa errno n = elim (find_code wsa errno win_to_posix n) [ none ↦ n | some e ↦ e ]
