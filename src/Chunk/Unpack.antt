-- ===== src/Chunk/Unpack.antt =====
-- protocol/rtmp/src/chunk/unpacketizer.rs: `ChunkUnpacketizer`, which puts messages together
-- from chunks, on whatever bytes have come so far. Logging is left out.
pub mod State
pub mod Basic
pub mod Message
pub mod Payload
pub mod Chunks
pub mod Progress
pub mod Termination
pub mod Batch
