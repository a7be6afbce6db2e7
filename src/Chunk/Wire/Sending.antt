-- ===== src/Chunk/Wire/Sending.antt =====
-- What `write_chunk` sends for the first message of a chunk stream.
use xiu.Prelude.{
  ℕ, ◌≤◌, ◌<◌, ◌≡◌, refl, ap, ◌∙◌, [], ◌∷◌, ◌++◌, append-nil, append_assoc, length, none, ok, arith,
  true,
}
use xiu.Prelude.Words.{Bytes}
use xiu.Bytesio.Writer.{flush}
use xiu.Chunk.Header.{ChunkInfo, ChunkMessageHeader, format0, lookup, insert}
use xiu.Chunk.Pack.{ChunkPacketizer, zip_chunk_header, write_chunk, long_time, mark}
use xiu.Chunk.Wire.{
  basic_bytes, header_bytes, extension_bytes, extension_of, sent_header, separator, pieces, Fits,
  message_bytes,
}
use xiu.Chunk.Wire.Writing.{
  put, extended_bytes, write_basic_header-basic_bytes, write_extended-extended_bytes,
  write_payload-pieces, append_four, header_bytes-append, extended_bytes-long_time,
  write_message_header-header_bytes,
}

-- `c` as the packetizer takes it for the first message of its chunk stream.
abbrev first : ChunkInfo → ChunkInfo
first c = record c {
  basic_header = record { format = 0; chunk_stream_id = c.basic_header.chunk_stream_id };
}

abbrev remembered : ChunkInfo → ChunkPacketizer → ChunkPacketizer
remembered c p = record p {
  csid_2_chunk_header =
      insert c.basic_header.chunk_stream_id
        (record { basic_header = (first c).basic_header; message_header = c.message_header })
        p.csid_2_chunk_header;
}

zip_chunk_header-first :
    (c : ChunkInfo) (p : ChunkPacketizer)
    → lookup c.basic_header.chunk_stream_id p.csid_2_chunk_header ≡ none
    → c.message_header.timestamp_delta ≡ 0
    → zip_chunk_header c p ≡ ok (first c) (remembered c p)
unfolding zip_chunk_header
zip_chunk_header-first c p e d = rw (zip_chunk_header, e, d)

packet :
    (csid max : ℕ) (h : ChunkMessageHeader) (payload w : Bytes)
    → w ≡ []
    → (let e = extended_bytes (long_time h.timestamp) in
        (((w ++ basic_bytes 0 csid) ++ header_bytes h []) ++ e)
        ++ pieces max (basic_bytes 3 csid ++ e) (length payload) payload)
      ≡ message_bytes max csid h payload []
unfolding message_bytes separator
packet csid max h payload w e =
    rw (e, extended_bytes-long_time h)
      (append_four [] (basic_bytes 0 csid) (header_bytes h []) extra chunks
        ∙ rw (append-nil chunks, header_bytes-append h (extra ++ chunks)))
  where
    extra : Bytes
    extra = extension_bytes (extension_of h.timestamp) (sent_header h)

    chunks : Bytes
    chunks = pieces max (basic_bytes 3 csid ++ extra) (length payload) payload

-- The first message of a chunk stream (the writer is empty, the chunk stream id is from 2 to 318,
-- the chunk size is above 0, the fields fit their widths, and the time has no delta) goes out in one packet:
-- its headers in format 0 and its payload, cut in chunks of the chunk size.
pub write_chunk-message_bytes :
    (c : ChunkInfo) (p : ChunkPacketizer)
    → lookup c.basic_header.chunk_stream_id p.csid_2_chunk_header ≡ none
    → c.message_header.timestamp_delta ≡ 0
    → Fits c.message_header
    → 2 ≤ c.basic_header.chunk_stream_id
    → c.basic_header.chunk_stream_id < 319
    → 0 < p.max_chunk_size
    → p.writer.bytes_writer ≡ []
    → (c' : ChunkInfo) × (p' : ChunkPacketizer) × (write_chunk true c p ≡ ok c' p')
      × (p'.writer.sent
          ≡ p.writer.sent
            ++ message_bytes p.max_chunk_size c.basic_header.chunk_stream_id c.message_header
                c.payload []
              ∷ [])
      × (p'.writer.bytes_writer ≡ [])
      × (p'.max_chunk_size ≡ p.max_chunk_size)
unfolding write_chunk flush
write_chunk-message_bytes c p e d f lo hi m w =
    let csid = c.basic_header.chunk_stream_id in
    let h = c.message_header in
    let p1 = put (remembered c p) (basic_bytes 0 csid) in
    let p2 = record (put p1 (header_bytes h [])) { extended_timestamp = long_time h.timestamp } in
    let p3 = put p2 (extended_bytes (long_time h.timestamp)) in
    let sep = basic_bytes 3 csid ++ extended_bytes (long_time h.timestamp) in
    let p4 = put p3 (pieces p.max_chunk_size sep (length c.payload) c.payload) in
    (
      record (first c) { message_header = mark h.timestamp format0 h; payload = [] },
      record p4 {
        writer = record { bytes_writer = []; sent = p.writer.sent ++ p4.writer.bytes_writer ∷ [] };
      },
      rw (
        zip_chunk_header-first c p e d,
        write_basic_header-basic_bytes 0 csid (remembered c p) (omega arith) lo hi,
        write_message_header-header_bytes csid h p1 f,
        write_extended-extended_bytes (long_time h.timestamp) p2,
        write_payload-pieces (length c.payload) csid c.payload p3 (omega arith) m lo hi,
      ),
      ap (λ (b : Bytes). p.writer.sent ++ b ∷ [])
          (packet csid p.max_chunk_size h c.payload p.writer.bytes_writer w),
      refl,
      refl,
    )

pub message_bytes-append :
    (max csid : ℕ) (h : ChunkMessageHeader) (payload rest : Bytes)
    → message_bytes max csid h payload [] ++ rest ≡ message_bytes max csid h payload rest
unfolding message_bytes
message_bytes-append max csid h payload rest = rw (
  append-nil chunks,
  header_bytes-append h (extra ++ chunks),
  header_bytes-append h (extra ++ (chunks ++ rest)),
  append_assoc (basic_bytes 0 csid) (header_bytes h [] ++ (extra ++ chunks)) rest,
  append_assoc (header_bytes h []) (extra ++ chunks) rest,
  append_assoc extra chunks rest,
)
  where
    extra : Bytes
    extra = extension_bytes (extension_of h.timestamp) (sent_header h)

    chunks : Bytes
    chunks = pieces max (separator csid (sent_header h)) (length payload) payload
