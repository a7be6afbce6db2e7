-- ===== src/Flv/FileRoundTrip.antt =====
-- An FLV stream from the muxer to the demuxer.
use xiu.Prelude.{
  ℕ, ◌*◌, ◌/◌, ◌%◌, ◌^◌, ◌<◌, ◌≡◌, refl, ap, ◌∙◌, List, [], ◌∷◌, ◌++◌, joined, joined-append,
  appended-joined, length, Bool, true, false, Method, ok, ◌>>◌, bit_or, arith,
}
use xiu.Prelude.Words.{Bytes, big_endian, encode}
use xiu.Prelude.Bits.{shl, bit_or-disjoint, bit_or_comm}
use xiu.Bytesio.Reader.Laws.{read_uint-encode, read_u8-cons, read_bytes-append, read_bytes_append}
use xiu.Bytesio.Writer.{BytesWriter, WriteError, write_uint, write_u24-fits}
use xiu.Flv.Muxer.{
  flv_header, write_flv_header, write_flv_tag_header, write_flv_tag_body, write_previous_tag_size,
}
use xiu.Flv.Demuxer.{flv_data, read_flv_header, read_flv_tag}

-- The size of the tag before, and a tag: its header and its body.
abbrev pub write_tag : ℕ → ℕ → ℕ → Bytes → Method BytesWriter WriteError (Unit {0})
write_tag previous tag_type timestamp body =
    write_previous_tag_size previous
    >> (write_flv_tag_header tag_type (length body) timestamp >> write_flv_tag_body body)

-- The header of any of the four kinds goes behind the bytes of the writer, and the demuxer skips exactly it.
pub read_flv_header-write_flv_header :
    (has_audio has_video : Bool) (w rest : Bytes)
    → (bs : Bytes) × (write_flv_header has_audio has_video w ≡ ok tt (w ++ bs))
      × (read_flv_header (bs ++ rest) ≡ ok tt rest)
unfolding write_flv_header read_flv_header
read_flv_header-write_flv_header true true w rest =
    (flv_header 5, refl, rw (read_bytes_append 9 (flv_header 5) rest refl))
read_flv_header-write_flv_header true false w rest =
    (flv_header 4, refl, rw (read_bytes_append 9 (flv_header 4) rest refl))
read_flv_header-write_flv_header false true w rest =
    (flv_header 1, refl, rw (read_bytes_append 9 (flv_header 1) rest refl))
read_flv_header-write_flv_header false false w rest =
    (flv_header 0, refl, rw (read_bytes_append 9 (flv_header 0) rest refl))

abbrev tag_parts : ℕ → ℕ → ℕ → Bytes → List Bytes
tag_parts previous tag_type timestamp body =
    encode big_endian 4 previous
    ∷ (tag_type ∷ [])
    ∷ encode big_endian 3 (length body)
    ∷ encode big_endian 3 (timestamp % 2 ^ 24)
    ∷ ((timestamp / 2 ^ 24 % 256) ∷ [])
    ∷ encode big_endian 3 0
    ∷ body
    ∷ []

-- The two parts of a timestamp give it back.
whole_time : (t : ℕ) → t < 2 ^ 32 → bit_or (t % 2 ^ 24 % 2 ^ 24) (shl 32 (t / 2 ^ 24 % 256) 24) ≡ t
whole_time t h =
    rw (high, bit_or_comm (t % 2 ^ 24 % 2 ^ 24) (t / 2 ^ 24 * 2 ^ 24))
      (bit_or-disjoint 24 (t / 2 ^ 24) (t % 2 ^ 24 % 2 ^ 24) (omega arith) ∙ omega arith)
  where
    high : t / 2 ^ 24 % 256 * 2 ^ 24 % 2 ^ 32 ≡ t / 2 ^ 24 * 2 ^ 24
    high = omega arith

-- A tag whose type is a byte, whose body is shorter than 2^24 and whose timestamp and previous
-- size are `u32`s goes behind the bytes of the writer, and the demuxer, on it and whatever follows,
-- returns its body with the whole 32-bit timestamp, as the video or audio data that its type says or as
-- nothing for another type, and leaves what follows.
pub read_flv_tag-write_tag :
    (previous tag_type timestamp : ℕ) (body w rest : Bytes)
    → previous < 256 ^ 4
    → length body < 256 ^ 3
    → timestamp < 2 ^ 32
    → (bs : Bytes) × (write_tag previous tag_type timestamp body w ≡ ok tt (w ++ bs))
      × (read_flv_tag (bs ++ rest) ≡ ok (flv_data tag_type timestamp body) rest)
unfolding write_previous_tag_size write_flv_tag_header write_uint read_flv_tag
read_flv_tag-write_tag previous tag_type timestamp body w rest p l t = (
  joined (tag_parts previous tag_type timestamp body) [],
  rw
      (
        write_u24-fits big_endian (length body)
            ((w ++ encode big_endian 4 previous) ++ tag_type ∷ []) l,
        write_u24-fits big_endian (timestamp % 2 ^ 24)
            (((w ++ encode big_endian 4 previous) ++ tag_type ∷ [])
              ++ encode big_endian 3 (length body))
            (omega arith),
        write_u24-fits big_endian 0
            (((((w ++ encode big_endian 4 previous) ++ tag_type ∷ [])
                  ++ encode big_endian 3 (length body))
                ++ encode big_endian 3 (timestamp % 2 ^ 24))
              ++ (timestamp / 2 ^ 24 % 256) ∷ [])
            (omega arith),
      )
      (ap (λ bs. ok tt bs) (appended-joined w (tag_parts previous tag_type timestamp body))),
  rw (joined-append (tag_parts previous tag_type timestamp body) rest) (
      rw (
        read_uint-encode big_endian 4 previous _ p,
        read_u8-cons _ _,
        read_uint-encode big_endian 3 (length body) _ l,
        read_uint-encode big_endian 3 (timestamp % 2 ^ 24) _ (omega arith),
        read_u8-cons _ _,
        read_uint-encode big_endian 3 0 _ (omega arith),
        read_bytes-append body rest,
        whole_time timestamp t,
      )),
)
