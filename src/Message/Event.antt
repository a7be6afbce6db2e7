-- ===== src/Message/Event.antt =====
-- protocol/rtmp/src/user_control_messages: the writer and the reader.
use xiu.Prelude.{ℕ, Bool, Method, ok, err, ◌>>=◌, ◌>>◌, ◌==◌, if◌then◌else◌, zoom}
use xiu.Prelude.Words.{big_endian}
use xiu.Bytesio.Reader.{BytesReader, ReadError, read_u16, read_u32}
use xiu.Bytesio.Writer.{write_uint, flush}
use xiu.Message.Define.{RtmpMessageData, set_buffer_length, stream_begin, stream_is_recorded}
use xiu.Message.Define.MsgTypeId
use xiu.Message.Control.{Send, inner, write_control_message_header}

pub data EventMessagesError : Type 0 where
  bytes_read_error : ReadError → EventMessagesError
  unknow_event_message_type : EventMessagesError

abbrev pub event_stream_begin : ℕ
event_stream_begin = 0

abbrev pub event_stream_eof : ℕ
event_stream_eof = 1

abbrev pub event_stream_dry : ℕ
event_stream_dry = 2

abbrev pub event_set_buffer_length : ℕ
event_set_buffer_length = 3

abbrev pub event_stream_is_recorded : ℕ
event_stream_is_recorded = 4

abbrev pub event_ping : ℕ
event_ping = 6

abbrev pub event_pong : ℕ
event_pong = 7

-- The header is that of the control messages, for the type of user control events.
unfoldable pub write_event_header : ℕ → Send
unfolding write_control_message_header
write_event_header len = write_control_message_header MsgTypeId.user_control_event len

-- What the writers of events with one number share.
unfoldable pub write_event : Bool → ℕ → ℕ → Send
unfolding write_event_header
write_event taken event value = do
  write_event_header 6
  inner (write_uint big_endian 2 event)
  inner (write_uint big_endian 4 value)
  flush taken

abbrev pub write_stream_begin : Bool → ℕ → Send
write_stream_begin taken stream_id = write_event taken event_stream_begin stream_id

abbrev pub write_stream_eof : Bool → ℕ → Send
write_stream_eof taken stream_id = write_event taken event_stream_eof stream_id

abbrev pub write_stream_dry : Bool → ℕ → Send
write_stream_dry taken stream_id = write_event taken event_stream_dry stream_id

abbrev pub write_stream_is_record : Bool → ℕ → Send
write_stream_is_record taken stream_id = write_event taken event_stream_is_recorded stream_id

abbrev pub write_ping_request : Bool → ℕ → Send
write_ping_request taken timestamp = write_event taken event_ping timestamp

abbrev pub write_ping_response : Bool → ℕ → Send
write_ping_response taken timestamp = write_event taken event_pong timestamp

unfoldable pub write_set_buffer_length : Bool → ℕ → ℕ → Send
unfolding write_event_header
write_set_buffer_length taken stream_id ms = do
  write_event_header 10
  inner (write_uint big_endian 2 event_set_buffer_length)
  inner (write_uint big_endian 4 stream_id)
  inner (write_uint big_endian 4 ms)
  flush taken

abbrev pub ReadEvent : Type 0 → Type 0
ReadEvent A = Method BytesReader EventMessagesError A

abbrev from_reader : {A : Type 0} → Method BytesReader ReadError A → ReadEvent A
from_reader = zoom (λ r. r) (λ r b. b) bytes_read_error

unfoldable pub read_set_buffer_length : ReadEvent RtmpMessageData
read_set_buffer_length = do
  stream_id ← from_reader (read_u32 big_endian)
  ms ← from_reader (read_u32 big_endian)
  ok (set_buffer_length stream_id ms)

unfoldable pub read_stream_begin : ReadEvent RtmpMessageData
read_stream_begin = do stream_id ← from_reader (read_u32 big_endian); ok (stream_begin stream_id)

unfoldable pub read_stream_is_recorded : ReadEvent RtmpMessageData
read_stream_is_recorded = do
  stream_id ← from_reader (read_u32 big_endian)
  ok (stream_is_recorded stream_id)

-- The `match` of `parse_event`.
unfoldable pub read_event : ℕ → ReadEvent RtmpMessageData
unfolding read_set_buffer_length read_stream_begin read_stream_is_recorded
read_event event_type =
    if event_type == event_set_buffer_length
    then read_set_buffer_length
    else if event_type == event_stream_begin
    then read_stream_begin
    else if event_type == event_stream_is_recorded
    then read_stream_is_recorded
    else err unknow_event_message_type

unfoldable pub parse_event : ReadEvent RtmpMessageData
unfolding read_event
parse_event = do event_type ← from_reader (read_u16 big_endian); read_event event_type
