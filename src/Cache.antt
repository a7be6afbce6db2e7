-- ===== src/Cache.antt =====
-- protocol/rtmp/src/cache: what is kept of a stream for the clients that come later.
pub mod Gop
pub mod History
mod Runs
