-- ===== src/Message/Parser.antt =====
-- protocol/rtmp/src/messages/parser.rs: `MessageParser`.
use xiu.Prelude.{
  ℕ, Bool, Option, none, some, Outcome, Method, ok, err, panic, stuck, ◌>>=◌, ◌==◌, ◌||◌,
  if◌then◌else◌, zoom,
}
use xiu.Prelude.Words.{Bytes}
use xiu.Bytesio.Reader.{BytesReader, ReadError, read_u8, extract_remaining_bytes}
use xiu.Amf0.Value.{Amf0ValueType, Properties}
use xiu.Amf0.Reader.{Read, Amf0ReadError, read_with_type, read_all}
use xiu.Chunk.Header.{ChunkInfo}
use xiu.Message.Define.{
  RtmpMessageData, amf0_command, amf_data, set_chunk_size, abort_message, acknowledgement,
  window_acknowledgement_size, set_peer_bandwidth, audio_data, video_data,
}
use xiu.Message.Define.MsgTypeId
use xiu.Message.Control.{read_number, read_set_peer_bandwidth}
use xiu.Message.Event.{EventMessagesError, parse_event}

pub data MessageError : Type 0 where
  bytes_read_error : ReadError → MessageError
  amf0_read_error : Amf0ReadError → MessageError
  protocol_control_message_reader_error : ReadError → MessageError
  event_messages_error : EventMessagesError → MessageError

abbrev pub Parse : Type 0 → Type 0
Parse A = Method BytesReader MessageError A

abbrev pub from_bytes : {A : Type 0} → Method BytesReader ReadError A → Parse A
from_bytes = zoom (λ r. r) (λ r b. b) bytes_read_error

abbrev pub from_amf0 : {A : Type 0} → Read A → Parse A
from_amf0 = zoom (λ r. r) (λ r b. b) amf0_read_error

abbrev pub from_control :
    {A : Type 0}
    → (A → RtmpMessageData)
    → Method BytesReader ReadError A
    → Parse (Option RtmpMessageData)
from_control message m =
    zoom (λ r. r) (λ r b. b) protocol_control_message_reader_error m >>= λ value.
    ok (some (message value))

abbrev pub from_event : Parse (Option RtmpMessageData)
from_event = zoom (λ r. r) (λ r b. b) event_messages_error parse_event >>= λ m. ok (some m)

-- The rest of the payload as it is.
abbrev pub remaining : (Bytes → RtmpMessageData) → Parse (Option RtmpMessageData)
remaining message = from_bytes extract_remaining_bytes >>= λ bs. ok (some (message bs))

module _ (is_utf8 : Bytes → Bool) (insert : Bytes → Amf0ValueType → Properties → Properties) where
  -- `match command_obj_raw`: an error of any kind, and a null is tried from where it left the reader.
  abbrev pub or_null :
      Outcome BytesReader Amf0ReadError Amf0ValueType
      → Outcome BytesReader Amf0ReadError Amf0ValueType
  or_null (ok v r) = ok v r
  or_null (err e r) = read_with_type is_utf8 insert 5 r
  or_null panic = panic
  or_null stuck = stuck

  unfoldable pub read_command_object : Read Amf0ValueType
  read_command_object r = or_null (read_with_type is_utf8 insert 3 r)

  unfoldable pub parse_command : Parse (Option RtmpMessageData)
  unfolding read_command_object
  parse_command = do
    command_name ← from_amf0 (read_with_type is_utf8 insert 2)
    transaction_id ← from_amf0 (read_with_type is_utf8 insert 0)
    command_obj ← from_amf0 read_command_object
    others ← from_amf0 (read_all is_utf8 insert)
    ok (some (amf0_command command_name transaction_id command_obj others))

  -- The `match` of `parse` on the type.
  unfoldable pub parse_typed : ℕ → Parse (Option RtmpMessageData)
  unfolding parse_command
  parse_typed msg_type_id =
      if msg_type_id == MsgTypeId.command_amf0
      then parse_command
      else if msg_type_id == MsgTypeId.command_amf3
      then (from_bytes read_u8 >>= λ _. parse_command)
      else if msg_type_id == MsgTypeId.audio
      then remaining audio_data
      else if msg_type_id == MsgTypeId.video
      then remaining video_data
      else if msg_type_id == MsgTypeId.user_control_event
      then from_event
      else if msg_type_id == MsgTypeId.set_chunk_size
      then from_control set_chunk_size read_number
      else if msg_type_id == MsgTypeId.abort
      then from_control abort_message read_number
      else if msg_type_id == MsgTypeId.acknowledgement
      then from_control acknowledgement read_number
      else if msg_type_id == MsgTypeId.win_acknowledgement_size
      then from_control window_acknowledgement_size read_number
      else if msg_type_id == MsgTypeId.set_peer_bandwidth
      then from_control set_peer_bandwidth read_set_peer_bandwidth
      else if (msg_type_id == MsgTypeId.data_amf0) || (msg_type_id == MsgTypeId.data_amf3)
      then remaining amf_data
      else ok none

  unfoldable pub parse : ChunkInfo → Outcome BytesReader MessageError (Option RtmpMessageData)
  unfolding parse_typed
  parse chunk_info = parse_typed chunk_info.message_header.msg_type_id chunk_info.payload
