-- ===== src/Flv/TagHeader.antt =====
-- library/container/flv/src/flv_tag_header.rs: `AudioTagHeader` and `VideoTagHeader`. The `i32` of a
-- composition time stands for itself by its 32 bits. An error stands for itself by the error of the
-- reader or the writer that it is made from.
use xiu.Prelude.{
  ℕ, ◌+◌, ◌*◌, ◌/◌, ◌^◌, [], ◌||◌, ◌==◌, leb, if◌then◌else◌, Outcome, Method, ok, ◌>>=◌, ◌>>◌,
  bit_and, bit_or,
}
use xiu.Prelude.Words.{Bytes}
use xiu.Prelude.Bits.{shl, shr, low_bits}
use xiu.Bytesio.Reader.{BytesReader, ReadError, read_u8}
use xiu.Bytesio.Writer.{BytesWriter, WriteError, write_u8, extract_current_bytes}

pub record AudioTagHeader : Type 0 where
  pub sound_format : ℕ
  pub sound_rate : ℕ
  pub sound_size : ℕ
  pub sound_type : ℕ
  pub aac_packet_type : ℕ

-- `SoundFormat::AAC`, `AvcCodecId::H264` and `AvcCodecId::HEVC`.
abbrev pub aac : ℕ
aac = 10

abbrev pub h264 : ℕ
h264 = 7

abbrev pub hevc : ℕ
hevc = 12

unfoldable pub unmarshal_audio : Method BytesReader ReadError AudioTagHeader
unmarshal_audio = do
  flags ← read_u8
  aac_packet_type ← if shr flags 4 == aac then read_u8 else ok 0
  ok (record {
    sound_format = shr flags 4;
    sound_rate = low_bits 2 (shr flags 2);
    sound_size = low_bits 1 (shr flags 1);
    sound_type = low_bits 1 flags;
    aac_packet_type = aac_packet_type;
  })

abbrev pub audio_byte_1st : AudioTagHeader → ℕ
audio_byte_1st h =
    bit_or (bit_or (bit_or (shl 8 h.sound_format 4) (shl 8 h.sound_rate 2)) (shl 8 h.sound_size 1))
      h.sound_type

unfoldable pub marshal_audio : AudioTagHeader → Outcome BytesWriter WriteError Bytes
marshal_audio h =
    (do
      write_u8 (audio_byte_1st h)
      if h.sound_format == aac then write_u8 h.aac_packet_type else ok tt
      extract_current_bytes)
      []

pub record VideoTagHeader : Type 0 where
  pub frame_type : ℕ
  pub codec_id : ℕ
  pub avc_packet_type : ℕ
  pub composition_time : ℕ

-- A round of the loop over three bytes: `(composition_time << 8) + time as i32`.
unfoldable pub read_time_byte : ℕ → Method BytesReader ReadError ℕ
read_time_byte composition_time = do time ← read_u8; ok (shl 32 composition_time 8 + time)

-- The sign in bit 23 goes to the bits above it: `|= 0xffff << 23`.
abbrev pub sign_extend : ℕ → ℕ
sign_extend t = if bit_and t (2 ^ 23) == 0 then t else bit_or t (shl 32 0xffff 23)

unfoldable pub read_composition_time : Method BytesReader ReadError ℕ
read_composition_time = do
  a ← read_time_byte 0
  b ← read_time_byte a
  c ← read_time_byte b
  ok (sign_extend c)

unfoldable pub unmarshal_video : Method BytesReader ReadError VideoTagHeader
unmarshal_video = do
  flags ← read_u8
  let codec_id = low_bits 4 flags in
      if (codec_id == h264) || (codec_id == hevc)
      then (do
        avc_packet_type ← read_u8
        composition_time ← read_composition_time
        ok (record {
          frame_type = shr flags 4;
          codec_id = codec_id;
          avc_packet_type = avc_packet_type;
          composition_time = composition_time;
        }))
      else ok (record {
        frame_type = shr flags 4;
        codec_id = codec_id;
        avc_packet_type = 0;
        composition_time = 0;
      })

-- `cts >>= 8` of an `i32`, which fills with the sign.
abbrev pub shift_signed : ℕ → ℕ
shift_signed cts = if leb (2 ^ 31) cts then cts / 256 + 255 * 2 ^ 24 else cts / 256

unfoldable pub write_composition_time : ℕ → Method BytesWriter WriteError (Unit {0})
write_composition_time cts = do
  write_u8 (low_bits 8 cts)
  write_u8 (low_bits 8 (shift_signed cts))
  write_u8 (low_bits 8 (shift_signed (shift_signed cts)))

unfoldable pub marshal_video : VideoTagHeader → Outcome BytesWriter WriteError Bytes
marshal_video h =
    (do
      write_u8 (bit_or (shl 8 h.frame_type 4) h.codec_id)
      if (h.codec_id == h264) || (h.codec_id == hevc)
          then write_u8 h.avc_packet_type >> write_composition_time h.composition_time
          else ok tt
      extract_current_bytes)
      []
