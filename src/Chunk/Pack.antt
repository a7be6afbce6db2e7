-- ===== src/Chunk/Pack.antt =====
-- protocol/rtmp/src/chunk/packetizer.rs: `ChunkPacketizer`, which cuts messages into chunks.
-- The `u8` and `u16` casts cut bits off, as in the source; an assertion that fails is a panic.
-- `taken` says whether the network takes the bytes at the flush.
use xiu.Prelude.{
  ℕ, zero, suc, ◌-◌, List, [], ◌∷◌, Bool, Option, none, some, ltb, leb, ◌==◌, ◌&&◌, if◌then◌else◌,
  length, take, drop, Method, ok, panic, stuck, ◌>>=◌, ◌>>◌, zoom, bit_or,
}
use xiu.Prelude.Words.{Bytes, big_endian, little_endian}
use xiu.Prelude.Bits.{shl, low_bits}
use xiu.Bytesio.Writer.{
  BytesWriter, WriteError, AsyncBytesWriter, write_u8, write_uint, write_u24, write, flush,
}
use xiu.Chunk.Header.{
  ChunkBasicHeader, ExtendTimestampType, format0, format12, ChunkMessageHeader, ChunkHeader,
  ChunkInfo, chunk_size, lookup, insert,
}

pub record ChunkPacketizer : Type 0 where
  pub csid_2_chunk_header : List (ℕ × ChunkHeader)
  pub max_chunk_size : ℕ
  pub writer : AsyncBytesWriter
  pub extended_timestamp : Option ℕ

abbrev pub new : ChunkPacketizer
new = record {
  csid_2_chunk_header = [];
  max_chunk_size = chunk_size;
  writer = record { bytes_writer = []; sent = [] };
  extended_timestamp = none;
}

abbrev pub Pack : Type 0 → Type 0
Pack A = Method ChunkPacketizer WriteError A

-- `self.writer.write_…()?`
abbrev inner : Method BytesWriter WriteError (Unit {0}) → Pack (Unit {0})
inner =
    zoom (λ (p : ChunkPacketizer). p.writer.bytes_writer)
      (λ p b. record p { writer = record (p.writer) { bytes_writer = b } }) (λ e. e)

-- The headers' new format and delta, against the last header of the chunk stream.
abbrev zip_against : ChunkInfo → ChunkMessageHeader → ChunkInfo
zip_against c pre =
    let cur = c.message_header in
    let delta = cur.timestamp - pre.timestamp in
    let csid = c.basic_header.chunk_stream_id in
    let zipped : ℕ → ChunkInfo = λ fmt. record c {
      basic_header = record { format = fmt; chunk_stream_id = csid };
      message_header = record cur { timestamp_delta = delta };
    } in
    if ltb cur.timestamp pre.timestamp
    then record c { basic_header = record { format = 0; chunk_stream_id = csid } }
    else if cur.msg_streamd_id == pre.msg_streamd_id
    then if (cur.msg_type_id == pre.msg_type_id) && (cur.msg_length == pre.msg_length)
      then if delta == pre.timestamp_delta then zipped 3 else zipped 2
      else zipped 1
    else record c { basic_header = record { format = 0; chunk_stream_id = csid } }

-- The header goes into the map for the next chunk of its stream.
abbrev remember : ChunkInfo → Pack ChunkInfo
remember c p = ok c (record p {
  csid_2_chunk_header =
      insert c.basic_header.chunk_stream_id
        (record { basic_header = c.basic_header; message_header = c.message_header })
        p.csid_2_chunk_header;
})

unfoldable pub zip_chunk_header : ChunkInfo → Pack ChunkInfo
zip_chunk_header c p =
    let csid = c.basic_header.chunk_stream_id in
    elim (lookup csid p.csid_2_chunk_header) [
      | some pre ↦ remember (zip_against c pre.message_header) p
      | none ↦
          if c.message_header.timestamp_delta == 0
          then remember (record c { basic_header = record { format = 0; chunk_stream_id = csid } })
              p
          else panic
    ]

-- Two bytes of the id go out high byte first.
unfoldable pub write_basic_header : ℕ → ℕ → Pack (Unit {0})
write_basic_header fmt csid =
    if leb 319 csid
    then inner (write_u8 (bit_or (shl 8 fmt 6) 1))
      >> inner (write_uint big_endian 2 (low_bits 16 (csid - 64)))
    else if leb 64 csid
    then inner (write_u8 (shl 8 fmt 6)) >> inner (write_u8 (low_bits 8 (csid - 64)))
    else inner (write_u8 (bit_or (shl 8 fmt 6) (low_bits 8 csid)))

-- What is written in the three bytes of the time, and behind the header where they do not hold it.
abbrev short_time : ℕ → ℕ
short_time t = if leb 0xffffff t then 0xffffff else t

abbrev pub long_time : ℕ → Option ℕ
long_time t = if leb 0xffffff t then some t else none

abbrev pub mark : ℕ → ExtendTimestampType → ChunkMessageHeader → ChunkMessageHeader
mark t kind h = if leb 0xffffff t then record h { extended_timestamp_type = kind } else h

abbrev set_extended : Option ℕ → Pack (Unit {0})
set_extended e p = ok tt (record p { extended_timestamp = e })

-- The message header comes back with its extension marked.
unfoldable pub write_message_header :
    ChunkBasicHeader → ChunkMessageHeader → Pack ChunkMessageHeader
write_message_header b h =
    if b.format == 0
    then (do
      set_extended (long_time h.timestamp)
      inner (write_u24 big_endian (short_time h.timestamp))
      inner (write_u24 big_endian h.msg_length)
      inner (write_u8 h.msg_type_id)
      inner (write_uint little_endian 4 h.msg_streamd_id)
      ok (mark h.timestamp format0 h))
    else if b.format == 1
    then (do
      set_extended (long_time h.timestamp_delta)
      inner (write_u24 big_endian (short_time h.timestamp_delta))
      inner (write_u24 big_endian h.msg_length)
      inner (write_u8 h.msg_type_id)
      ok (mark h.timestamp_delta format12 h))
    else if b.format == 2
    then (do
      set_extended (long_time h.timestamp_delta)
      inner (write_u24 big_endian (short_time h.timestamp_delta))
      ok (mark h.timestamp_delta format12 h))
    else (do set_extended none; ok h)

unfoldable pub write_extended : Option ℕ → Pack (Unit {0})
write_extended none = ok tt
write_extended (some t) = inner (write_uint big_endian 4 t)

-- `while whole_payload_size > 0 { … }`, on the payload that is left. With a chunk size above 0
-- each round takes a byte at least.
unfoldable pub write_payload : ℕ → ℕ → Bytes → Pack (Unit {0})
unfolding write_extended
write_payload fuel csid [] = ok tt
write_payload zero csid (b ∷ bs) = λ p. stuck
write_payload (suc fuel) csid (b ∷ bs) = λ p.
    let payload = b ∷ bs in
    let n = if ltb p.max_chunk_size (length payload) then p.max_chunk_size else length payload in
    let rest = drop n payload in
    let next =
      write_basic_header 3 csid
      >> (write_extended p.extended_timestamp >> write_payload fuel csid rest) in
    let more = (inner (write (take n payload)) >> next) p in
    let last = inner (write (take n payload)) p in if length rest == 0 then last else more

unfoldable pub write_chunk : Bool → ChunkInfo → Pack ChunkInfo
unfolding write_extended write_payload
write_chunk taken c = do
  c' ← zip_chunk_header c
  write_basic_header c'.basic_header.format c'.basic_header.chunk_stream_id
  h ← write_message_header c'.basic_header c'.message_header
  λ p. write_extended p.extended_timestamp p
  write_payload (length c.payload) c.basic_header.chunk_stream_id c.payload
  zoom (λ (p : ChunkPacketizer). p.writer) (λ p w. record p { writer = w }) (λ e. e) (flush taken)
  ok (record c' { message_header = h; payload = [] })
