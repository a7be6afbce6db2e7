-- ===== src/Mpegts.antt =====
-- library/container/mpegts: the tables of a transport stream.
pub mod Crc32
pub mod Polynomial
pub mod Table
pub mod Linear
pub mod Checksum
pub mod Remainder
pub mod Receiver
pub mod Seal
pub mod Tables
pub mod Association
pub mod ProgramMap
pub mod Programs
pub mod Streams
mod Runs
