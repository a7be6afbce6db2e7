-- ===== src/Flv/Muxer.antt =====
-- library/container/flv/src/muxer.rs: `FlvMuxer`, whose one field is its writer.
use xiu.Prelude.{ℕ, [], ◌∷◌, Bool, ◌&&◌, if◌then◌else◌, Method, ◌>>◌}
use xiu.Prelude.Words.{Bytes, big_endian}
use xiu.Prelude.Bits.{shr, low_bits}
use xiu.Bytesio.Writer.{BytesWriter, WriteError, write_u8, write_uint, write_u24, write}

-- FLV_HEADER_AV, FLV_HEADER_JUST_AUDIO, FLV_HEADER_JUST_VIDEO and FLV_HEADER_EMPTY_AV.
abbrev pub flv_header : ℕ → Bytes
flv_header flags = 0x46 ∷ 0x4c ∷ 0x56 ∷ 1 ∷ flags ∷ 0 ∷ 0 ∷ 0 ∷ 9 ∷ []

unfoldable pub write_flv_header : Bool → Bool → Method BytesWriter WriteError (Unit {0})
write_flv_header has_audio has_video =
    if has_audio && has_video
    then write (flv_header 5)
    else if has_audio
    then write (flv_header 4)
    else if has_video
    then write (flv_header 1)
    else write (flv_header 0)

unfoldable pub write_flv_tag_header : ℕ → ℕ → ℕ → Method BytesWriter WriteError (Unit {0})
write_flv_tag_header tag_type data_size timestamp = do
  write_u8 tag_type
  write_u24 big_endian data_size
  write_u24 big_endian (low_bits 24 timestamp)
  write_u8 (low_bits 8 (shr timestamp 24))
  write_u24 big_endian 0

abbrev pub write_flv_tag_body : Bytes → Method BytesWriter WriteError (Unit {0})
write_flv_tag_body body = write body

unfoldable pub write_previous_tag_size : ℕ → Method BytesWriter WriteError (Unit {0})
write_previous_tag_size size = write_uint big_endian 4 size
