-- ===== src/Amf0.antt =====
-- library/container/flv/src/amf0: the values of AMF0, and their reader and writer.
pub mod Value
pub mod Reader
pub mod Writer
pub mod Layout
pub mod RoundTrip
pub mod All
mod Runs
