-- ===== src/Flv/Demuxer.antt =====
-- library/container/flv/src/demuxer.rs: `FlvDemuxer`, whose one field is its reader, and the `FlvData`
-- that it delivers (define.rs).
use xiu.Prelude.{ℕ, Option, none, some, ◌==◌, if◌then◌else◌, Method, ok, ◌>>=◌, bit_or}
use xiu.Prelude.Words.{Bytes, big_endian}
use xiu.Prelude.Bits.{shl, low_bits}
use xiu.Bytesio.Reader.{BytesReader, ReadError, read_bytes, read_u8, read_u24, read_u32}

pub data FlvData : Type 0 where
  video audio meta_data : ℕ → Bytes → FlvData

-- `tag_type::AUDIO` and `tag_type::VIDEO`.
abbrev pub tag_audio : ℕ
tag_audio = 8

abbrev pub tag_video : ℕ
tag_video = 9

unfoldable pub read_flv_header : Method BytesReader ReadError (Unit {0})
read_flv_header = do _ ← read_bytes 9; ok tt

unfoldable pub flv_data : ℕ → ℕ → Bytes → Option FlvData
flv_data tag_type dts body =
    if tag_type == tag_video
    then some (video dts body)
    else if tag_type == tag_audio
    then some (audio dts body)
    else none

unfoldable pub read_flv_tag : Method BytesReader ReadError (Option FlvData)
read_flv_tag = do
  _ ← read_u32 big_endian
  tag_type ← read_u8
  data_size ← read_u24 big_endian
  timestamp ← read_u24 big_endian
  timestamp_ext ← read_u8
  _ ← read_u24 big_endian
  body ← read_bytes data_size
  ok (flv_data tag_type (bit_or (low_bits 24 timestamp) (shl 32 timestamp_ext 24)) body)
