-- ===== src/Chunk/Wire/Writing.antt =====
-- What the methods under `write_chunk` put behind the bytes of the writer.
use xiu.Prelude.{
  ℕ, zero, suc, ◌+◌, ◌-◌, ◌*◌, ◌%◌, ◌^◌, ◌≤◌, ◌<◌, ◌≡◌, refl, ap, inl, inr, [], ◌∷◌, ◌++◌,
  append-nil, append_assoc, Bool-cases, leb, ltb, ◌==◌, length, length-drop, take, drop, Option,
  none, some, ok, arith, true, false, ltb→lt, bit_or,
}
use xiu.Prelude.Words.{Bytes, encode, to_be, big_endian, little_endian}
use xiu.Prelude.Bits.{bit_or-disjoint}
use xiu.Bytesio.Writer.{write_uint, write_u24-fits}
use xiu.Chunk.Header.{ChunkMessageHeader, format0}
use xiu.Chunk.Pack.{
  ChunkPacketizer, write_basic_header, write_message_header, write_extended, write_payload,
  long_time, mark,
}
use xiu.Chunk.Wire.{
  basic_bytes, header_bytes, extension_bytes, extension_of, sent_header, share, Fits, short_time,
  pieces,
}

-- The packetizer with `b` behind what its writer holds.
abbrev pub put : ChunkPacketizer → Bytes → ChunkPacketizer
put p b = record p { writer = record (p.writer) { bytes_writer = p.writer.bytes_writer ++ b } }

put-put : (p : ChunkPacketizer) (a b : Bytes) → put (put p a) b ≡ put p (a ++ b)
put-put p a b = rw (append_assoc p.writer.bytes_writer a b)

small : (csid : ℕ) → csid < 319 → leb 319 csid ≡ false
small csid h = ground arith

below : (csid : ℕ) → ltb csid 64 ≡ true → leb 64 csid ≡ false
below csid h = ground arith

above : (csid : ℕ) → ltb csid 64 ≡ false → leb 64 csid ≡ true
above csid h = ground arith

byte : (b : ℕ) → b < 256 → b % 256 ≡ b
byte b h = omega arith

joined :
    (fmt csid : ℕ) → fmt < 4 → csid < 64 → bit_or (fmt * 64 % 256) (csid % 256) ≡ fmt * 64 + csid
joined fmt csid f h =
    rw (byte (fmt * 64) (omega arith), byte csid (omega arith)) (bit_or-disjoint 6 fmt csid h)

pub write_basic_header-basic_bytes :
    (fmt csid : ℕ) (p : ChunkPacketizer)
    → fmt < 4
    → 2 ≤ csid
    → csid < 319
    → write_basic_header fmt csid p ≡ ok tt (put p (basic_bytes fmt csid))
unfolding write_basic_header basic_bytes
write_basic_header-basic_bytes fmt csid p f lo hi = elim (Bool-cases (ltb csid 64)) [
  | inl one ↦ rw (small csid hi, below csid one, one, joined fmt csid f (ltb→lt _ _ one))
  | inr two ↦
      rw
        (
          small csid hi,
          above csid two,
          two,
          byte (fmt * 64) (omega arith),
          byte (csid - 64) (omega arith),
        )
        (rw (append_assoc p.writer.bytes_writer ((fmt * 64) ∷ []) ((csid - 64) ∷ [])))
]

unfoldable pub extended_bytes : Option ℕ → Bytes
extended_bytes none = []
extended_bytes (some t) = encode big_endian 4 t

pub write_extended-extended_bytes :
    (e : Option ℕ) (p : ChunkPacketizer) → write_extended e p ≡ ok tt (put p (extended_bytes e))
unfolding write_extended extended_bytes write_uint
write_extended-extended_bytes none p = rw (append-nil p.writer.bytes_writer)
write_extended-extended_bytes (some t) p = refl

none_left : (n : ℕ) → n == 0 ≡ true → ltb 0 n ≡ false
none_left n h = ground arith

some_left : (n : ℕ) → n == 0 ≡ false → ltb 0 n ≡ true
some_left n h = ground arith

put_four :
    (p : ChunkPacketizer) (a b c d : Bytes)
    → put (put (put (put p a) b) c) d ≡ put p (a ++ ((b ++ c) ++ d))
put_four p a b c d = rw (
  append_assoc b c d,
  append_assoc p.writer.bytes_writer a b,
  append_assoc p.writer.bytes_writer (a ++ b) c,
  append_assoc p.writer.bytes_writer ((a ++ b) ++ c) d,
  append_assoc a b c,
  append_assoc a (b ++ c) d,
  append_assoc b c d,
)

pub write_payload-pieces :
    (n csid : ℕ) (payload : Bytes) (p : ChunkPacketizer)
    → length payload ≤ n
    → 0 < p.max_chunk_size
    → 2 ≤ csid
    → csid < 319
    → write_payload n csid payload p
      ≡ ok tt (
          put p (
            pieces p.max_chunk_size
              (basic_bytes 3 csid ++ extended_bytes p.extended_timestamp)
              n
              payload))
unfolding write_payload pieces
write_payload-pieces n csid [] p l m lo hi = rw (append-nil p.writer.bytes_writer)
write_payload-pieces zero csid (x ∷ xs) p l m lo hi = absurd (omega arith)
write_payload-pieces (suc n) csid (x ∷ xs) p l m lo hi = elim (Bool-cases (length others == 0)) [
  | inl last ↦ rw (last, none_left (length others) last, append-nil part)
  | inr more ↦
      rw
        (
          more,
          some_left (length others) more,
          write_basic_header-basic_bytes 3 csid (put p part) (omega arith) lo hi,
          write_extended-extended_bytes p.extended_timestamp
              (put (put p part) (basic_bytes 3 csid)),
          write_payload-pieces n csid others
              (put (put (put p part) (basic_bytes 3 csid)) (extended_bytes p.extended_timestamp))
              (omega (arith, length-drop k (x ∷ xs), share-pos)) m lo hi,
        )
        (ap (λ q. ok tt q)
          (put_four p part (basic_bytes 3 csid) (extended_bytes p.extended_timestamp) _))
]
  where
    k : ℕ
    k = share p.max_chunk_size (x ∷ xs)

    part : Bytes
    part = take k (x ∷ xs)

    others : Bytes
    others = drop k (x ∷ xs)

    share-pos : 0 < k
    share-pos = ground arith

pub header_bytes-append :
    (h : ChunkMessageHeader) (rest : Bytes) → header_bytes h rest ≡ header_bytes h [] ++ rest
unfolding header_bytes
header_bytes-append h rest = rw (
  append-nil (encode little_endian 4 h.msg_streamd_id),
  append_assoc (encode big_endian 3 (short_time h.timestamp))
      (encode big_endian 3 h.msg_length
        ++ (encode big_endian 1 h.msg_type_id ++ encode little_endian 4 h.msg_streamd_id))
      rest,
  append_assoc (encode big_endian 3 h.msg_length)
      (encode big_endian 1 h.msg_type_id ++ encode little_endian 4 h.msg_streamd_id) rest,
  append_assoc (encode big_endian 1 h.msg_type_id) (encode little_endian 4 h.msg_streamd_id) rest,
)

encode-byte : (v : ℕ) → v < 256 → encode big_endian 1 v ≡ v ∷ []
unfolding encode to_be
encode-byte v h = rw (byte v h)

pub extended_bytes-long_time :
    (h : ChunkMessageHeader)
    → extended_bytes (long_time h.timestamp)
      ≡ extension_bytes (extension_of h.timestamp) (sent_header h)
unfolding extended_bytes extension_bytes
extended_bytes-long_time h = elim (Bool-cases (leb 0xffffff h.timestamp)) [
  | inl long ↦ rw long
  | inr short ↦ rw short
]

pub append_four : (w a b c d : Bytes) → (((w ++ a) ++ b) ++ c) ++ d ≡ w ++ (a ++ (b ++ (c ++ d)))
append_four w a b c d = rw (
  append_assoc w a b,
  append_assoc w (a ++ b) c,
  append_assoc w ((a ++ b) ++ c) d,
  append_assoc a b c,
  append_assoc a (b ++ c) d,
  append_assoc b c d,
)

short_time-lt : (t : ℕ) → short_time t < 2 ^ 24
short_time-lt t = ground arith

pub write_message_header-header_bytes :
    (csid : ℕ) (h : ChunkMessageHeader) (p : ChunkPacketizer)
    → Fits h
    → write_message_header (record { format = 0; chunk_stream_id = csid }) h p
      ≡ ok
          (mark h.timestamp format0 h)
          (record (put p (header_bytes h [])) { extended_timestamp = long_time h.timestamp })
unfolding write_message_header write_uint header_bytes
write_message_header-header_bytes csid h p f = rw (
  write_u24-fits big_endian (short_time h.timestamp) p.writer.bytes_writer
      (short_time-lt h.timestamp),
  write_u24-fits big_endian h.msg_length
      (p.writer.bytes_writer ++ encode big_endian 3 (short_time h.timestamp)) f.msg_length,
  encode-byte h.msg_type_id f.msg_type_id,
  append-nil (encode little_endian 4 h.msg_streamd_id),
  append_four p.writer.bytes_writer (encode big_endian 3 (short_time h.timestamp))
      (encode big_endian 3 h.msg_length) (h.msg_type_id ∷ [])
      (encode little_endian 4 h.msg_streamd_id),
)
