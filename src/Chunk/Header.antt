-- ===== src/Chunk/Header.antt =====
-- protocol/rtmp/src/chunk/mod.rs and define.rs: the headers of a chunk and a message with its
-- payload.
use xiu.Prelude.{ℕ, List, [], ◌∷◌, Option, none, some, ◌==◌, if◌then◌else◌}
use xiu.Prelude.Words.{Bytes}

pub record ChunkBasicHeader : Type 0 where
  pub format : ℕ
  pub chunk_stream_id : ℕ

-- The source's NONE, FORMAT0 and FORMAT12.
pub data ExtendTimestampType : Type 0 where
  no_extension format0 format12 : ExtendTimestampType

pub record ChunkMessageHeader : Type 0 where
  pub timestamp : ℕ
  pub msg_length : ℕ
  pub msg_type_id : ℕ
  pub msg_streamd_id : ℕ
  pub timestamp_delta : ℕ
  pub extended_timestamp_type : ExtendTimestampType

pub record ChunkHeader : Type 0 where
  pub basic_header : ChunkBasicHeader
  pub message_header : ChunkMessageHeader

pub record ChunkInfo : Type 0 where
  pub basic_header : ChunkBasicHeader
  pub message_header : ChunkMessageHeader
  pub payload : Bytes

abbrev pub new_message_header : ℕ → ℕ → ℕ → ℕ → ChunkMessageHeader
new_message_header timestamp msg_length msg_type_id msg_stream_id = record {
  timestamp = timestamp;
  msg_length = msg_length;
  msg_type_id = msg_type_id;
  msg_streamd_id = msg_stream_id;
  timestamp_delta = 0;
  extended_timestamp_type = no_extension;
}

-- `ChunkInfo::new`.
abbrev pub new_chunk : ℕ → ℕ → ℕ → ℕ → ℕ → ℕ → Bytes → ChunkInfo
new_chunk csid format timestamp msg_length msg_type_id msg_stream_id payload = record {
  basic_header = record { format = format; chunk_stream_id = csid };
  message_header = new_message_header timestamp msg_length msg_type_id msg_stream_id;
  payload = payload;
}

abbrev pub set_chunk_size : ℕ
set_chunk_size = 1

abbrev pub chunk_size : ℕ
chunk_size = 4096

abbrev pub init_chunk_size : ℕ
init_chunk_size = 128

-- A `HashMap<u32, V>`.
module _ {ℓ} {V : Type ℓ} where
  unfoldable pub lookup : ℕ → List (ℕ × V) → Option V
  lookup csid [] = none
  lookup csid ((key, value) ∷ rest) =
      let later = lookup csid rest in if key == csid then some value else later

  unfoldable pub insert : ℕ → V → List (ℕ × V) → List (ℕ × V)
  insert csid new_value [] = (csid, new_value) ∷ []
  insert csid new_value ((key, value) ∷ rest) =
      let later = insert csid new_value rest in
      if key == csid then (csid, new_value) ∷ rest else (key, value) ∷ later
