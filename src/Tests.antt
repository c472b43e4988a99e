-- ===== src/Tests.antt =====
-- A small system and runs of the theorems on it.
mod Toy
mod Posix
mod Errors
mod Mswin
mod Binding
mod Session
mod Sha1
mod Progress
mod Library
mod Lasting
mod Wrappers
