-- ===== src/Message/NetWriter.antt =====
-- What `NetConnection` and `NetStreamWriter` of protocol/rtmp/src/netconnection/writer.rs and
-- protocol/rtmp/src/netstream/writer.rs share: their two fields, and `write_chunk`.
use xiu.Prelude.{ℕ, [], Bool, length, Method, ◌>>=◌, ok, zoom}
use xiu.Prelude.Words.{Bytes}
use xiu.Prelude.Bits.{low_bits}
use xiu.Bytesio.Writer.{BytesWriter, WriteError}
use xiu.Amf0.Writer.{Amf0WriteError, Write}
use xiu.Chunk.Header.{new_chunk}
use xiu.Chunk.Pack as Pack
use xiu.Chunk.Pack.{ChunkPacketizer}
use xiu.Message.Define.MsgTypeId

pub record NetWriter : Type 0 where
  pub amf0_writer : BytesWriter
  pub packetizer : ChunkPacketizer

-- `NetConnectionError` and `NetStreamError`.
pub data NetError : Type 0 where
  amf0_write_error : Amf0WriteError → NetError
  pack_error : WriteError → NetError

abbrev pub Net : Type 0 → Type 0
Net A = Method NetWriter NetError A

-- `self.amf0_writer.write_…()?`
abbrev pub amf : Write → Net (Unit {0})
amf = zoom (λ (n : NetWriter). n.amf0_writer) (λ n w. record n { amf0_writer = w }) amf0_write_error

abbrev take_bytes : Net Bytes
take_bytes n = ok n.amf0_writer (record n { amf0_writer = [] })

-- On chunk stream 3, with time 0, in format 0.
unfoldable pub write_chunk : Bool → ℕ → Net (Unit {0})
write_chunk taken msg_stream_id = do
  bytes ← take_bytes
  _ ←
      zoom (λ (n : NetWriter). n.packetizer) (λ n p. record n { packetizer = p }) pack_error
        (Pack.write_chunk taken
          (new_chunk 3 0 0 (low_bits 32 (length bytes)) MsgTypeId.command_amf0 msg_stream_id bytes))
  ok tt
