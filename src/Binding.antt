-- ===== src/Binding.antt =====
-- light/socket/src/socket.cpp: the functions that Lua calls, over the class interface `Backend`.
-- A function takes its Lua arguments and returns the values that it leaves for Lua, in order.
pub mod Values
pub mod Create
pub mod Transfer
pub mod Finish
pub mod Select
pub mod Lifecycle
pub mod Digest
pub mod Finaliser
pub mod Encoding
pub mod Library
