-- ===== src/Chunk/Wire/Reading.antt =====
-- The methods of the unpacketizer on the bytes of `Wire`.
use xiu.Prelude.{
  ℕ, suc, ◌+◌, ◌-◌, ◌*◌, ◌/◌, ◌%◌, ◌^◌, ◌≤◌, ◌<◌, ◌≡◌, refl, ◌∙◌, inl, inr, [], ◌∷◌, ◌++◌,
  append_assoc, false, some, Bool-cases, ltb, ok, ◌>>=◌, ◌>>◌, arith,
}
use xiu.Prelude.Words.{Bytes, ByteOrder, encode, big_endian}
use xiu.Bytesio.Reader.{read_uint, read_u8}
use xiu.Bytesio.Reader.Laws.{read_uint-encode, read_u8-cons}
use xiu.Chunk.Header.{ChunkMessageHeader, ExtendTimestampType, no_extension, format0, format12}
use xiu.Chunk.Unpack.State.{
  UnpackResult, success, chunk_basic_header_result, ChunkReadState, ChunkUnpacketizer, inner,
  header, format, read_extended, read_payload, read_header, read_basic,
}
use xiu.Chunk.Unpack.Basic.{
  read_basic_header, csid_two, csid_more, basic_rest, restore_header, basic_done,
}
use xiu.Chunk.Unpack.Message.{
  read_message_header, read_extended_timestamp, header_fields, reset_extension, go_to, extension,
  add_delta,
}
use xiu.Chunk.Unpack.Chunks.{step, step_in, is_finish, read_chunk_loop}
use xiu.Chunk.Wire.{basic_bytes, extension_bytes, separator}

pub inner-encode :
    (o : ByteOrder) (n v : ℕ) (rest : Bytes) (u : ChunkUnpacketizer)
    → v < 256 ^ n
    → inner (read_uint o n) (record u { reader = encode o n v ++ rest })
      ≡ ok v (record u { reader = rest })
inner-encode o n v rest u h = rw (read_uint-encode o n v rest h)

inner-cons :
    (b : ℕ) (rest : Bytes) (u : ChunkUnpacketizer)
    → inner read_u8 (record u { reader = b ∷ rest }) ≡ ok b (record u { reader = rest })
inner-cons b rest u = rw (read_u8-cons b rest)

first_byte :
    (b fmt csid : ℕ) (rest : Bytes) (u : ChunkUnpacketizer)
    → b % 64 ≡ csid
    → b / 64 % 4 ≡ fmt
    → read_basic_header (record u { reader = b ∷ rest })
      ≡ (csid_more csid >>= basic_rest fmt) (record u { reader = rest })
unfolding read_basic_header
first_byte b fmt csid rest u e f = rw (read_u8-cons b rest, e, f)

csid_more-one : (csid : ℕ) (u : ChunkUnpacketizer) → 2 ≤ csid → csid_more csid u ≡ ok (some csid) u
unfolding csid_more
csid_more-one csid u h = ground arith

csid_more-two :
    (c : ℕ) (rest : Bytes) (u : ChunkUnpacketizer)
    → csid_more 0 (record u { reader = c ∷ rest }) ≡ ok (some (64 + c)) (record u { reader = rest })
unfolding csid_more csid_two
csid_more-two c rest u = ground (arith, inner-cons c rest u)

-- A basic header gives its format and chunk stream id.
pub read_basic_header-basic_bytes :
    (fmt csid : ℕ) (rest : Bytes) (u : ChunkUnpacketizer)
    → fmt < 4
    → 2 ≤ csid
    → csid < 319
    → read_basic_header (record u { reader = basic_bytes fmt csid ++ rest })
      ≡ (restore_header fmt csid >> basic_done fmt csid) (record u { reader = rest })
unfolding basic_bytes basic_rest
read_basic_header-basic_bytes fmt csid rest u hf lo hi = elim (Bool-cases (ltb csid 64)) [
  | inl one ↦ rw one (
      rw (
        first_byte (fmt * 64 + csid) fmt csid rest u (ground arith) (ground arith),
        csid_more-one csid (record u { reader = rest }) lo,
      ))
  | inr two ↦
      let e : 64 + (csid - 64) ≡ csid = ground arith in
      rw two (
        rw (
          first_byte (fmt * 64) fmt 0 ((csid - 64) ∷ rest) u (omega arith) (omega arith),
          csid_more-two (csid - 64) rest u,
          e,
        ))
]

pub same_stream :
    (fmt csid : ℕ) (u : ChunkUnpacketizer)
    → u.current_chunk_info.basic_header.chunk_stream_id ≡ csid
    → (restore_header fmt csid >> basic_done fmt csid) u ≡ basic_done fmt csid u
unfolding restore_header
same_stream fmt csid u e = ground arith

-- A format 3 header has no fields.
read_message_header_3 :
    (u : ChunkUnpacketizer)
    → format u ≡ 3
    → read_message_header u ≡ ok success (record u { chunk_read_state = read_extended })
unfolding read_message_header reset_extension header_fields go_to
read_message_header_3 u e = ground arith

-- The extension in front of a later chunk of a message repeats what the header holds.
extension-extension_bytes :
    (t : ExtendTimestampType) (h : ChunkMessageHeader) (rest : Bytes) (u : ChunkUnpacketizer)
    → header u ≡ h
    → h.timestamp < 2 ^ 32
    → h.timestamp_delta < 2 ^ 32
    → extension t (record u { reader = extension_bytes t h ++ rest })
      ≡ ok tt (record u { reader = rest })
unfolding extension extension_bytes
extension-extension_bytes no_extension h rest u e a b = refl
extension-extension_bytes format0 h rest u e a b =
    rw (inner-encode big_endian 4 h.timestamp rest u a, e)
extension-extension_bytes format12 h rest u e a b =
    rw (inner-encode big_endian 4 h.timestamp_delta rest u b, e)

-- The unpacketizer in the state `s` of a message, with the payload `p` so far and the bytes `b`.
abbrev pub at : ChunkUnpacketizer → ChunkReadState → ℕ → Bytes → Bytes → ChunkUnpacketizer
at u s fmt p b = record u {
  reader = b;
  chunk_read_state = s;
  current_chunk_info = record (u.current_chunk_info) {
    basic_header = record (u.current_chunk_info.basic_header) { format = fmt };
    payload = p;
  };
}

pub read_chunk_loop-step :
    (fuel : ℕ) (r r' : UnpackResult) (u u' : ChunkUnpacketizer)
    → is_finish u.chunk_read_state ≡ false
    → step u ≡ ok r' u'
    → read_chunk_loop (suc fuel) r u ≡ read_chunk_loop fuel r' u'
unfolding read_chunk_loop
read_chunk_loop-step fuel r r' u u' f e = rw (f, e)

abbrev pub csid_of : ChunkUnpacketizer → ℕ
csid_of u = u.current_chunk_info.basic_header.chunk_stream_id

read_extended_3 :
    (x : ℕ) (p rest : Bytes) (u : ChunkUnpacketizer)
    → (header u).timestamp < 2 ^ 32
    → (header u).timestamp_delta < 2 ^ 32
    → let more = extension_bytes (header u).extended_timestamp_type (header u) ++ rest in
      read_extended_timestamp (at u read_extended 3 (x ∷ p) more)
      ≡ ok success (at u read_payload 3 (x ∷ p) rest)
unfolding read_extended_timestamp add_delta go_to
read_extended_3 x p rest u a b =
    rw
      (extension-extension_bytes (header u).extended_timestamp_type (header u) rest
        (at u read_extended 3 (x ∷ p) []) refl a b)
      (ground arith)

read_basic_3 :
    (fmt x : ℕ) (p more : Bytes) (u : ChunkUnpacketizer)
    → 2 ≤ csid_of u
    → csid_of u < 319
    → read_basic_header (at u read_basic fmt (x ∷ p) (basic_bytes 3 (csid_of u) ++ more))
      ≡ ok
          (chunk_basic_header_result (record { format = 3; chunk_stream_id = csid_of u }))
          (at u read_header 3 (x ∷ p) more)
unfolding basic_done
read_basic_3 fmt x p more u lo hi =
    read_basic_header-basic_bytes 3 (csid_of u) more (at u read_basic fmt (x ∷ p) []) (omega arith)
      lo hi
    ∙ same_stream 3 (csid_of u) (at u read_basic fmt (x ∷ p) more) refl

-- Between two chunks of a message the loop goes over the separator, and nothing else changes.
pub read_chunk_loop-separator :
    (fuel : ℕ) (r : UnpackResult) (fmt x : ℕ) (p rest : Bytes) (u : ChunkUnpacketizer)
    → 2 ≤ csid_of u
    → csid_of u < 319
    → (header u).timestamp < 2 ^ 32
    → (header u).timestamp_delta < 2 ^ 32
    → read_chunk_loop
        (suc (suc (suc fuel)))
        r
        (at u read_basic fmt (x ∷ p) (separator (csid_of u) (header u) ++ rest))
      ≡ read_chunk_loop fuel success (at u read_payload 3 (x ∷ p) rest)
unfolding separator step step_in
read_chunk_loop-separator fuel r fmt x p rest u lo hi a b =
    rw (append_assoc (basic_bytes 3 (csid_of u)) extra rest) (
      read_chunk_loop-step (suc (suc fuel)) r basic
        (at u read_basic fmt (x ∷ p) (basic_bytes 3 (csid_of u) ++ more))
        (at u read_header 3 (x ∷ p) more) refl (read_basic_3 fmt x p more u lo hi)
      ∙ read_chunk_loop-step (suc fuel) basic success (at u read_header 3 (x ∷ p) more)
          (at u read_extended 3 (x ∷ p) more) refl
          (read_message_header_3 (at u read_header 3 (x ∷ p) more) refl)
      ∙ read_chunk_loop-step fuel success success (at u read_extended 3 (x ∷ p) more)
          (at u read_payload 3 (x ∷ p) rest) refl (read_extended_3 x p rest u a b))
  where
    extra : Bytes
    extra = extension_bytes (header u).extended_timestamp_type (header u)

    more : Bytes
    more = extra ++ rest

    basic : UnpackResult
    basic = chunk_basic_header_result (record { format = 3; chunk_stream_id = csid_of u })
