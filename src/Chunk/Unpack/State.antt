-- ===== src/Chunk/Unpack/State.antt =====
-- The state of a `ChunkUnpacketizer`, and what its methods share.
use xiu.Prelude.{ℕ, List, [], Method, zoom}
use xiu.Prelude.Words.{Bytes}
use xiu.Bytesio.Reader.{BytesReader, ReadError, extend_from_slice}
use xiu.Chunk.Header.{ChunkBasicHeader, ChunkMessageHeader, ChunkInfo, new_chunk, init_chunk_size}

pub data UnpackResult : Type 0 where
  chunk_basic_header_result : ChunkBasicHeader → UnpackResult
  chunk_info : ChunkInfo → UnpackResult
  chunks : List ChunkInfo → UnpackResult
  success not_enough_bytes empty : UnpackResult

pub data UnpackError : Type 0 where
  bytes_read_error : ReadError → UnpackError
  unknow_read_state empty_chunks cannot_parse : UnpackError

pub data ChunkReadState : Type 0 where
  read_basic read_header read_extended read_payload finish : ChunkReadState

pub data HeaderReadState : Type 0 where
  read_timestamp read_msg_length read_msg_type_id read_msg_stream_id : HeaderReadState

pub record ChunkUnpacketizer : Type 0 where
  pub reader : BytesReader
  pub current_chunk_info : ChunkInfo
  pub chunk_message_headers : List (ℕ × ChunkMessageHeader)
  pub chunk_read_state : ChunkReadState
  pub msg_header_read_state : HeaderReadState
  pub max_chunk_size : ℕ
  pub chunk_index : ℕ
  pub session_type : ℕ
  pub parse_error_number : ℕ

abbrev pub new : ChunkUnpacketizer
new = record {
  reader = [];
  current_chunk_info = new_chunk 0 0 0 0 0 0 [];
  chunk_message_headers = [];
  chunk_read_state = read_basic;
  msg_header_read_state = read_timestamp;
  max_chunk_size = init_chunk_size;
  chunk_index = 0;
  session_type = 0;
  parse_error_number = 0;
}

unfoldable pub extend_data : Bytes → ChunkUnpacketizer → ChunkUnpacketizer
unfolding extend_from_slice
extend_data bytes u = record u { reader = extend_from_slice bytes u.reader }

unfoldable pub update_max_chunk_size : ℕ → ChunkUnpacketizer → ChunkUnpacketizer
update_max_chunk_size size u = record u { max_chunk_size = size }

-- A method of the unpacketizer.
abbrev pub Unpack : Type 0 → Type 0
Unpack A = Method ChunkUnpacketizer UnpackError A

-- `self.reader.read_…()?`
abbrev pub inner {ℓ} :
    {A : Type ℓ} → Method BytesReader ReadError A → Method ChunkUnpacketizer UnpackError A
inner = zoom (λ (u : ChunkUnpacketizer). u.reader) (λ u b. record u { reader = b }) bytes_read_error

abbrev pub set_header : ChunkUnpacketizer → ChunkMessageHeader → ChunkUnpacketizer
set_header u h = record u {
  current_chunk_info = record (u.current_chunk_info) { message_header = h };
}

abbrev pub header : ChunkUnpacketizer → ChunkMessageHeader
header u = u.current_chunk_info.message_header

abbrev pub format : ChunkUnpacketizer → ℕ
format u = u.current_chunk_info.basic_header.format
