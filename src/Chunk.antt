-- ===== src/Chunk.antt =====
-- protocol/rtmp/src/chunk: RTMP messages and the chunks that they are cut into.
pub mod Header
pub mod Unpack
pub mod Pack
pub mod Wire
mod Runs
