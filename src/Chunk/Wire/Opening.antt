-- ===== src/Chunk/Wire/Opening.antt =====
-- The first chunk of a message in format 0.
use xiu.Prelude.{
  ℕ, ◌^◌, ◌<◌, ◌≡◌, inl, inr, [], ◌++◌, Bool-cases, leb, ◌==◌, ok, arith, some, none, Option, ◌>>◌,
}
use xiu.Prelude.Words.{Bytes, big_endian, little_endian}
use xiu.Bytesio.Reader.Laws.{read_uint-encode}
use xiu.Chunk.Header.{ChunkMessageHeader, no_extension, lookup}
use xiu.Chunk.Unpack.State.{
  UnpackResult, success, chunk_basic_header_result, ChunkReadState, ChunkUnpacketizer, header,
  read_basic, read_header, read_extended, read_payload, read_timestamp,
}
use xiu.Chunk.Unpack.Basic.{restore_header, basic_done}
use xiu.Chunk.Unpack.Message.{
  read_message_header, read_extended_timestamp, header_fields, reset_extension, go_to, extension,
  add_delta, fields_0, mark_0, field,
}
use xiu.Chunk.Wire.{header_bytes, short_time, sent_header, extension_of, extension_bytes, Fits}
use xiu.Chunk.Wire.Reading.{csid_of}

-- The unpacketizer in the state `s` of a message in format 0, with the header `h`.
abbrev pub opened :
    ChunkUnpacketizer → ℕ → ChunkReadState → ChunkMessageHeader → Bytes → ChunkUnpacketizer
opened u csid s h b = record u {
  reader = b;
  chunk_read_state = s;
  msg_header_read_state = read_timestamp;
  current_chunk_info = record {
    basic_header = record { format = 0; chunk_stream_id = csid };
    message_header = h;
    payload = [];
  };
}

abbrev pub short_header : ChunkMessageHeader → ChunkMessageHeader
short_header h = record (sent_header h) { timestamp = short_time h.timestamp }

short-lt : (t : ℕ) → short_time t < 256 ^ 3
short-lt t = ground arith

abbrev pub no_delta : ChunkMessageHeader → ChunkMessageHeader
no_delta h = record h { timestamp_delta = 0 }

-- The fields as they are sent, before the mark of an extended timestamp.
abbrev plain : ChunkMessageHeader → ChunkMessageHeader
plain h = record h {
  timestamp = short_time h.timestamp;
  timestamp_delta = 0;
  extended_timestamp_type = no_extension;
}

abbrev cleared : ChunkMessageHeader → ChunkMessageHeader
cleared h = record h { timestamp_delta = 0; extended_timestamp_type = no_extension }

read_fields :
    (csid : ℕ) (h old : ChunkMessageHeader) (rest : Bytes) (u : ChunkUnpacketizer)
    → Fits h
    → fields_0 read_timestamp (opened u csid read_header (cleared old) (header_bytes h rest))
      ≡ ok tt (opened u csid read_header (plain h) rest)
unfolding fields_0 header_bytes field
read_fields csid h old rest u f = rw (
  read_uint-encode big_endian 3 (short_time h.timestamp) _ (short-lt h.timestamp),
  read_uint-encode big_endian 3 h.msg_length _ f.msg_length,
  read_uint-encode big_endian 1 h.msg_type_id _ f.msg_type_id,
  read_uint-encode little_endian 4 h.msg_streamd_id rest f.msg_streamd_id,
)

marked :
    (csid : ℕ) (h : ChunkMessageHeader) (rest : Bytes) (u : ChunkUnpacketizer)
    → mark_0 (opened u csid read_header (plain h) rest)
      ≡ ok tt (opened u csid read_header (short_header h) rest)
unfolding mark_0
marked csid h rest u = elim (Bool-cases (leb 0xffffff h.timestamp)) [
  | inl long ↦ rw long
  | inr short ↦ rw (short, short)
]

pub read_header_0 :
    (csid : ℕ) (h old : ChunkMessageHeader) (rest : Bytes) (u : ChunkUnpacketizer)
    → Fits h
    → read_message_header (opened u csid read_header (no_delta old) (header_bytes h rest))
      ≡ ok success (opened u csid read_extended (short_header h) rest)
unfolding read_message_header reset_extension header_fields go_to
read_header_0 csid h old rest u f = rw (read_fields csid h old rest u f, marked csid h rest u)

pub extended_time :
    (t : ℕ) (csid : ℕ) (h : ChunkMessageHeader) (rest : Bytes) (u : ChunkUnpacketizer)
    → h.timestamp ≡ t
    → Fits h
    → read_extended_timestamp (
        opened u csid read_extended
          (short_header h)
          (extension_bytes (extension_of h.timestamp) (sent_header h) ++ rest))
      ≡ ok success (opened u csid read_payload (sent_header h) rest)
unfolding read_extended_timestamp extension add_delta go_to extension_bytes
extended_time t csid h rest u e f =
    ground (arith, read_uint-encode big_endian 4 h.timestamp rest f.timestamp)

-- The unpacketizer at the start of a chunk, with no message begun.
pub record IsReady (u : ChunkUnpacketizer) : Type 0 where
  pub at_start : u.chunk_read_state ≡ read_basic
  pub no_header : u.msg_header_read_state ≡ read_timestamp
  pub no_payload : u.current_chunk_info.payload ≡ []

abbrev pub basic : ℕ → UnpackResult
basic csid = chunk_basic_header_result (record { format = 0; chunk_stream_id = csid })

pub restored :
    (found : Option ChunkMessageHeader) (csid : ℕ) (b : Bytes) (u : ChunkUnpacketizer)
    → lookup csid u.chunk_message_headers ≡ found
    → IsReady u
    → (k : ℕ) × (old : ChunkMessageHeader) × ((restore_header 0 csid >> basic_done 0 csid)
          (record u { reader = b })
        ≡ ok
            (basic csid)
            (opened (record u { parse_error_number = k }) csid read_header (no_delta old) b))
unfolding restore_header basic_done
restored found csid b u e r = elim (Bool-cases (csid == csid_of u)) [
  | inl same ↦ (u.parse_error_number, header u, rw (same, r.no_header, r.no_payload))
  | inr other ↦
      elim found as (λ found. lookup csid u.chunk_message_headers ≡ found → _) [
        | none ↦ λ e. (0, header u, rw (other, e, r.no_header, r.no_payload))
        | some old ↦ λ e. (u.parse_error_number, old, rw (other, e, r.no_header, r.no_payload))
      ]
        e
]
