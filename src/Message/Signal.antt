-- ===== src/Message/Signal.antt =====
-- The control messages and events of RTMP, from their writers over the chunk stream to the parser.
use xiu.Prelude.{
  ℕ, ◌^◌, ◌≤◌, ◌<◌, [], ◌∷◌, ◌++◌, Bool, length, Outcome, ok, err, Option, some, arith,
}
use xiu.Prelude.Words.{Bytes, encode, to_be, big_endian}
use xiu.Prelude.Bits.{low_bits}
use xiu.Bytesio.Reader.{BytesReader}
use xiu.Chunk.Header.{ChunkMessageHeader, new_message_header}
use xiu.Chunk.Wire.{message_bytes}
use xiu.Message.Define.{
  RtmpMessageData, set_chunk_size, abort_message, acknowledgement, window_acknowledgement_size,
  set_peer_bandwidth, set_buffer_length, stream_begin, stream_is_recorded,
}
use xiu.Message.Control.{
  Send, write_set_chunk_size, write_abort_message, write_acknowledgement,
  write_window_acknowledgement_size, write_set_peer_bandwidth,
}
use xiu.Message.Event.{
  unknow_event_message_type, write_event, write_stream_begin, write_stream_eof, write_stream_dry,
  write_stream_is_record, write_ping_request, write_ping_response, write_set_buffer_length,
  event_stream_begin, event_stream_eof, event_stream_dry, event_set_buffer_length,
  event_stream_is_recorded, event_ping, event_pong,
}
use xiu.Message.Parser.{MessageError, event_messages_error}

-- A call of one of the two writers.
pub data Signal : Type 0 where
  chunk_size_is aborting acknowledging window_is : ℕ → Signal
  bandwidth_is : ℕ → ℕ → Signal
  begin eof dry recorded ping pong : ℕ → Signal
  buffer_is : ℕ → ℕ → Signal

unfoldable pub send : Bool → Signal → Send
unfolding write_set_chunk_size write_abort_message write_acknowledgement
    write_window_acknowledgement_size write_set_peer_bandwidth write_event write_set_buffer_length
send taken (chunk_size_is n) = write_set_chunk_size taken n
send taken (aborting n) = write_abort_message taken n
send taken (acknowledging n) = write_acknowledgement taken n
send taken (window_is n) = write_window_acknowledgement_size taken n
send taken (bandwidth_is n t) = write_set_peer_bandwidth taken n t
send taken (begin n) = write_stream_begin taken n
send taken (eof n) = write_stream_eof taken n
send taken (dry n) = write_stream_dry taken n
send taken (recorded n) = write_stream_is_record taken n
send taken (ping n) = write_ping_request taken n
send taken (pong n) = write_ping_response taken n
send taken (buffer_is n ms) = write_set_buffer_length taken n ms

-- The numbers fit their fields.
abbrev pub Fit : Signal → Type 0
Fit (chunk_size_is n) = Unit
Fit (aborting n) = n < 256 ^ 4
Fit (acknowledging n) = n < 256 ^ 4
Fit (window_is n) = n < 256 ^ 4
Fit (bandwidth_is n t) = n < 256 ^ 4
Fit (begin n) = n < 256 ^ 4
Fit (eof n) = n < 256 ^ 4
Fit (dry n) = n < 256 ^ 4
Fit (recorded n) = n < 256 ^ 4
Fit (ping n) = n < 256 ^ 4
Fit (pong n) = n < 256 ^ 4
Fit (buffer_is n ms) = (n < 256 ^ 4) × (ms < 256 ^ 4)

abbrev pub Parsed : Type 0
Parsed = Outcome BytesReader MessageError (Option RtmpMessageData)

-- An event that the parser does not know leaves its number unread.
abbrev pub unknown : ℕ → Parsed
unknown n = err (event_messages_error unknow_event_message_type) (encode big_endian 4 n)

-- What the other side makes of a call.
unfoldable pub understood : Signal → Parsed
understood (chunk_size_is n) = ok (some (set_chunk_size (low_bits 31 n))) []
understood (aborting n) = ok (some (abort_message n)) []
understood (acknowledging n) = ok (some (acknowledgement n)) []
understood (window_is n) = ok (some (window_acknowledgement_size n)) []
understood (bandwidth_is n t) =
    ok (some (set_peer_bandwidth (record { window_size = n; limit_type = t }))) []
understood (begin n) = ok (some (stream_begin n)) []
understood (eof n) = unknown n
understood (dry n) = unknown n
understood (recorded n) = ok (some (stream_is_recorded n)) []
understood (ping n) = unknown n
understood (pong n) = unknown n
understood (buffer_is n ms) = ok (some (set_buffer_length n ms)) []

abbrev pub type_of : Signal → ℕ
type_of (chunk_size_is n) = 1
type_of (aborting n) = 2
type_of (acknowledging n) = 3
type_of (window_is n) = 5
type_of (bandwidth_is n t) = 6
type_of (begin n) = 4
type_of (eof n) = 4
type_of (dry n) = 4
type_of (recorded n) = 4
type_of (ping n) = 4
type_of (pong n) = 4
type_of (buffer_is n ms) = 4

abbrev pub event_bytes : ℕ → ℕ → Bytes
event_bytes event n = encode big_endian 2 event ++ encode big_endian 4 n

abbrev pub payload_of : Signal → Bytes
payload_of (chunk_size_is n) = encode big_endian 4 (low_bits 31 n)
payload_of (aborting n) = encode big_endian 4 n
payload_of (acknowledging n) = encode big_endian 4 n
payload_of (window_is n) = encode big_endian 4 n
payload_of (bandwidth_is n t) = encode big_endian 4 n ++ t ∷ []
payload_of (begin n) = event_bytes event_stream_begin n
payload_of (eof n) = event_bytes event_stream_eof n
payload_of (dry n) = event_bytes event_stream_dry n
payload_of (recorded n) = event_bytes event_stream_is_recorded n
payload_of (ping n) = event_bytes event_ping n
payload_of (pong n) = event_bytes event_pong n
payload_of (buffer_is n ms) =
    encode big_endian 2 event_set_buffer_length ++ (encode big_endian 4 n ++ encode big_endian 4 ms)

abbrev pub header_of : Signal → ChunkMessageHeader
header_of s = new_message_header 0 (length (payload_of s)) (type_of s) 0

abbrev pub packet_of : ℕ → Signal → Bytes → Bytes
packet_of max s rest = message_bytes max 2 (header_of s) (payload_of s) rest

pub short_payload : (s : Signal) → (0 < length (payload_of s)) × (length (payload_of s) ≤ 10)
unfolding encode to_be
short_payload (chunk_size_is n) = omega arith
short_payload (aborting n) = omega arith
short_payload (bandwidth_is n t) = omega arith
short_payload (begin n) = omega arith
short_payload (buffer_is n ms) = omega arith
short_payload _ = omega arith
