-- ===== src/Sha1.antt =====
-- light/socket/src/sha1.c: the digest that `SocketSHA1` and `SocketSHA1Hex` call.
pub mod Words
pub mod Lines
pub mod Process
pub mod Fips
pub mod Schedule
pub mod Rounds
pub mod Compression
pub mod Blocks
pub mod Context
pub mod Loop
pub mod Copies
pub mod Absorbing
pub mod Message
pub mod Digest
