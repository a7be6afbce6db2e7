-- ===== src/Message/Control.antt =====
-- protocol/rtmp/src/protocol_control_messages: the writer and the reader. The object around the
-- `AsyncBytesWriter` has no other field; `taken` says whether the network takes the packet.
use xiu.Prelude.{ℕ, Bool, Method, ok, ◌>>=◌, ◌>>◌, zoom}
use xiu.Prelude.Words.{big_endian}
use xiu.Prelude.Bits.{low_bits}
use xiu.Bytesio.Reader.{BytesReader, ReadError, read_u8, read_u32}
use xiu.Bytesio.Writer.{
  BytesWriter, WriteError, AsyncBytesWriter, write_u8, write_uint, write_u24, flush,
}
use xiu.Message.Define.{SetPeerBandwidthProperties}
use xiu.Message.Define.MsgTypeId

abbrev pub Send : Type 0
Send = Method AsyncBytesWriter WriteError (Unit {0})

-- `self.writer.write_…()?`
abbrev pub inner : Method BytesWriter WriteError (Unit {0}) → Send
inner =
    zoom (λ (w : AsyncBytesWriter). w.bytes_writer) (λ w b. record w { bytes_writer = b }) (λ e. e)

-- Format 0 on chunk stream 2: time 0, the length, the type and message stream 0.
unfoldable pub write_control_message_header : ℕ → ℕ → Send
write_control_message_header msg_type_id len = do
  inner (write_u8 2)
  inner (write_u24 big_endian 0)
  inner (write_u24 big_endian len)
  inner (write_u8 msg_type_id)
  inner (write_uint big_endian 4 0)

unfoldable pub write_set_chunk_size : Bool → ℕ → Send
unfolding write_control_message_header
write_set_chunk_size taken chunk_size = do
  write_control_message_header MsgTypeId.set_chunk_size 4
  inner (write_uint big_endian 4 (low_bits 31 chunk_size))
  flush taken

unfoldable pub write_abort_message : Bool → ℕ → Send
unfolding write_control_message_header
write_abort_message taken chunk_stream_id = do
  write_control_message_header MsgTypeId.abort 4
  inner (write_uint big_endian 4 chunk_stream_id)
  flush taken

unfoldable pub write_acknowledgement : Bool → ℕ → Send
unfolding write_control_message_header
write_acknowledgement taken sequence_number = do
  write_control_message_header MsgTypeId.acknowledgement 4
  inner (write_uint big_endian 4 sequence_number)
  flush taken

unfoldable pub write_window_acknowledgement_size : Bool → ℕ → Send
unfolding write_control_message_header
write_window_acknowledgement_size taken window_size = do
  write_control_message_header MsgTypeId.win_acknowledgement_size 4
  inner (write_uint big_endian 4 window_size)
  flush taken

unfoldable pub write_set_peer_bandwidth : Bool → ℕ → ℕ → Send
unfolding write_control_message_header
write_set_peer_bandwidth taken window_size limit_type = do
  write_control_message_header MsgTypeId.set_peer_bandwidth 5
  inner (write_uint big_endian 4 window_size)
  inner (write_u8 limit_type)
  flush taken

-- `read_set_chunk_size`, `read_abort_message`, `read_acknowledgement` and
-- `read_window_acknowledgement_size`.
abbrev pub read_number : Method BytesReader ReadError ℕ
read_number = read_u32 big_endian

unfoldable pub read_set_peer_bandwidth : Method BytesReader ReadError SetPeerBandwidthProperties
read_set_peer_bandwidth = do
  window_size ← read_u32 big_endian
  limit_type ← read_u8
  ok (record { window_size = window_size; limit_type = limit_type })
