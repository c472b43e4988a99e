-- ===== src/Lib.antt =====
-- Verification of the native socket module of Light.lua (light/socket): the Lua binding, the socket
-- class on POSIX and on Windows, the SHA-1 digest, and the error table.
--
-- The program. light/socket/src/socket.cpp is what Lua calls: each function reads its arguments from
-- the Lua stack, calls a static method of `Socket` (light/socket/include/socket.h), and pushes the
-- result and an error number. light/socket/src/socket_posix.cpp and socket_mswin.cpp implement the
-- methods over system calls. light/socket/src/sha1.c computes the digests that socket.cpp passes to
-- Lua. light/socket/src/error_number.cpp builds the table `Errno` and turns Winsock codes into errno
-- values.
--
-- The files.
--   Prelude and its children: shared names, tests on numbers, lists, signed integers and the C integer
--     conversions, bit operations, and lists of bytes.
--   Memory, Memory/Laws: the receive buffer as a block of the C++ heap, with indeterminate bytes and
--     freed blocks; an access that C++ leaves undefined has the result `none`.
--   Socket: the structs `Socket`, `SocketImpl` and `sockaddr_in`.
--   Machine, Machine/Laws: the state (the world of the system and the socket userdata, each at its
--     index), and how a Lua call ends: it returns, raises a Lua error, or is undefined.
--   Backend: the class interface as a record of operations, which the binding takes as a parameter,
--     and what a receive promises to it. It also holds what is read of a Lua value.
--   Binding and its children: socket.cpp. Values has the pushed values and the common ends; Create
--     `SocketNew`, TCP, UDP, getAddress, connect, bind, listen and accept; Transfer the receives and
--     sends; Finish close, shutdown, isClosed, isShutdown, `__tostring` and `__gc`; Select
--     `SocketSelect`; Digest `SocketSHA1` and `SocketSHA1Hex`; Encoding the base64 wrappers, with Encoding/Bounds; Library
--     `lib`, `luaopen_light_socket` and the metatable; Lifecycle and Finaliser what shutting down,
--     accepting and `__gc` leave.
--   Posix and its children: socket_posix.cpp. Kernel has the system calls, as operations on a world,
--     and their documented behaviour as named laws; Calls the methods; Sets the two table functions.
--   Mswin and its children: socket_mswin.cpp. Winsock has the calls of the system and the statics of
--     the file, `Process`; Calls the methods up to the sends, with `checkStart`; Ending shutdown,
--     close, select, `GetError` and `TableToFDSet`; Listing `PushSocketForFD` and `FDSetToTable`.
--   ErrorNumber: error_number.cpp. Laws is about the table of a name, and Conversion about the codes of
--     Winsock.
--   Posix/Select, Transfers, Lifetime and Blocking: theorems on the POSIX methods.
--     Mswin/Lifetime, Addresses, Waiting, Tables, Listing/Lists and Select: on the Windows ones.
--   Session and its children: a program that calls the functions of `lib` one after another, as a
--     step relation on states. Sound has the invariant and how the parts of a call keep it; Frames
--     what the class leaves alone, which Posix/Frames and Mswin/Frames prove of the two classes;
--     Owning which sockets the results of a call name, and Lasting that they stay; Evolving and its
--     children how one socket goes on from state to state, with Posix/Descriptor and Mswin/Closing;
--     Receiving and Collecting what a receive and the collector find in any state;
--     Creating, Transferring and Finishing go through the functions. Progress and its children have
--     the calls that are ready and take each of them to its end; Posix/Progress and Mswin/Progress
--     put the two classes in.
--   Sha1 and its children: sha1.c. Words has the 32-bit arithmetic and the byte macros; Lines the
--     eighty lines of `sha1_process` as data, since each names its registers in another order;
--     Process the function; Context `sha1_starts`, `sha1_update` and `sha1_finish`, which pass the
--     context on, and the calls that socket.cpp makes of them. Fips is FIPS 180-1 as a reference;
--     Schedule, Rounds, Compression and Blocks relate one block to it, Loop is about the loop
--     of `sha1_update`, Copies, Absorbing and Message about the updates, and Digest about the whole.
--   Tests: small systems, and each theorem applied on it.
--
-- Parameters. The system calls, `fd_set` with its macros, `htons`, `inet_addr`, `inet_ntop`, the
-- values of platform macros, the base64 codec, the text of a pointer, and the readers and the tables
-- of the Lua API are arguments of the definitions. A theorem that needs their documented behaviour
-- takes it as a hypothesis.
-- Doubles are their 64-bit patterns, with floor, difference, product and the conversion to a long as
-- parameters: a timeout whose conversion C++ leaves undefined makes the call undefined. A set of
-- Winsock ignores a socket once FD_SETSIZE of them are in it. Memory allocation succeeds. `char` is
-- signed. A send reads all of its region: a size past the terminator of the Lua string counts as
-- undefined.
--
-- The loop of `sha1_update` runs on fuel, the number of bytes that are left: each of its rounds takes
-- 64 of them, so the fuel is enough. The other loops recur on the table's entries, on the bytes, or on
-- the descriptors up to the bound, and need none.
--
-- Not modelled: the driver of sha1.c under `#ifdef TEST`, and the Lua files.
-- light/socket/src/base64.c is a copy of the Apache Group's code, so its functions are a parameter of
-- the wrappers. A program that calls `__gc` itself is not among the runs of Session.
pub mod Prelude
pub mod Memory
pub mod Socket
pub mod Machine
pub mod Backend
pub mod ErrorNumber
pub mod Sha1
pub mod Binding
pub mod Session
pub mod Posix
pub mod Mswin
mod Tests
