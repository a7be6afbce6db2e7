-- ===== src/Bytesio.antt =====
-- library/bytesio/src: byte and bit buffers. A `BytesMut` and a `Vec<u8>` are the list of their
-- bytes.
pub mod Reader
pub mod Writer
pub mod BitsReader
pub mod BitsWriter
pub mod Bits
mod Runs
