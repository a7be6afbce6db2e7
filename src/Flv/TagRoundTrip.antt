-- ===== src/Flv/TagRoundTrip.antt =====
-- library/container/flv/src/flv_tag_header.rs: tag headers, marshalled and read back.
use xiu.Prelude.{
  ℕ, ◌+◌, ◌*◌, ◌/◌, ◌%◌, ◌^◌, ◌<◌, ◌≡◌, [], ◌∷◌, ◌++◌, ◌||◌, ◌==◌, if◌then◌else◌, Bool-cases, inl,
  inr, ok, bit_or, arith,
}
use xiu.Prelude.Words.{Bytes}
use xiu.Prelude.Bits.{shl, bit_or-disjoint}
use xiu.Bytesio.Reader.Laws.{read_u8-cons}
use xiu.Flv.TagHeader.{
  AudioTagHeader, aac, unmarshal_audio, audio_byte_1st, marshal_audio, VideoTagHeader, h264, hevc,
  sign_extend, shift_signed, read_time_byte, read_composition_time, unmarshal_video,
  write_composition_time, marshal_video,
}

pub record IsValidAudio (h : AudioTagHeader) : Type 0 where
  pub sound_format : h.sound_format < 16
  pub sound_rate : h.sound_rate < 4
  pub sound_size : h.sound_size < 2
  pub sound_type : h.sound_type < 2

audio_flags :
    (a b c d : ℕ)
    → a < 16
    → b < 4
    → c < 2
    → d < 2
    → bit_or (bit_or (bit_or (shl 8 a 4) (shl 8 b 2)) (shl 8 c 1)) d ≡ ((a * 4 + b) * 2 + c) * 2 + d
audio_flags a b c d h k l m = rw (
  cut (a * 16) (omega arith),
  cut (b * 4) (omega arith),
  cut (c * 2) (omega arith),
  bit_or-disjoint 4 a (b * 4) (omega arith),
  two,
  bit_or-disjoint 2 (a * 4 + b) (c * 2) (omega arith),
  three,
  bit_or-disjoint 1 ((a * 4 + b) * 2 + c) d (omega arith),
)
  where
    cut : (n : ℕ) → n < 256 → n % 256 ≡ n
    cut n h = omega arith

    two : a * 2 ^ 4 + b * 4 ≡ (a * 4 + b) * 2 ^ 2
    two = omega arith

    three : (a * 4 + b) * 2 ^ 2 + c * 2 ≡ ((a * 4 + b) * 2 + c) * 2 ^ 1
    three = omega arith

-- An audio tag header whose fields fit their bits comes back from its bytes, whatever follows them;
-- but the packet type, which only AAC has, comes back as 0 for another format.
pub unmarshal_audio-marshal_audio :
    (h : AudioTagHeader) (rest : Bytes)
    → IsValidAudio h
    → (bs : Bytes) × (marshal_audio h ≡ ok bs [])
      × (unmarshal_audio (bs ++ rest)
          ≡ ok
              (record h {
                aac_packet_type = if h.sound_format == aac then h.aac_packet_type else 0;
              })
              rest)
unfolding marshal_audio unmarshal_audio
unmarshal_audio-marshal_audio h rest v = elim (Bool-cases (h.sound_format == aac)) [
  | inl is_aac ↦ (
    audio_byte_1st h ∷ h.aac_packet_type ∷ [],
    rw is_aac,
    rw (flags, read_u8-cons _ _, format, is_aac, read_u8-cons _ _, rate, size, kind),
  )
  | inr other ↦ (
    audio_byte_1st h ∷ [],
    rw other,
    rw (flags, read_u8-cons _ _, format, other, rate, size, kind),
  )
]
  where
    first : ℕ
    first = ((h.sound_format * 4 + h.sound_rate) * 2 + h.sound_size) * 2 + h.sound_type

    flags : audio_byte_1st h ≡ first
    flags =
        audio_flags h.sound_format h.sound_rate h.sound_size h.sound_type v.sound_format
          v.sound_rate v.sound_size v.sound_type

    format : first / 16 ≡ h.sound_format
    format = omega (arith, v.sound_rate, v.sound_size, v.sound_type)

    rate : first / 4 % 4 ≡ h.sound_rate
    rate = omega (arith, v.sound_rate, v.sound_size, v.sound_type)

    size : first / 2 % 2 ≡ h.sound_size
    size = omega (arith, v.sound_size, v.sound_type)

    kind : first % 2 ≡ h.sound_type
    kind = omega (arith, v.sound_type)

pub record IsValidVideo (h : VideoTagHeader) : Type 0 where
  pub frame_type : h.frame_type < 16
  pub codec_id : h.codec_id < 16
  pub composition_time : h.composition_time < 2 ^ 32

-- The three low bytes of a number, in the other order.
abbrev pub reversed : ℕ → ℕ
reversed t = (t % 256 * 256 + t / 256 % 256) * 256 + t / 256 / 256 % 256

abbrev time_bytes : ℕ → Bytes
time_bytes t = (t % 256) ∷ (t / 256 % 256) ∷ (t / 256 / 256 % 256) ∷ []

write_composition_time-time_bytes :
    (t : ℕ) (w : Bytes)
    → t < 2 ^ 32
    → write_composition_time t w
      ≡ ok tt (((w ++ (t % 256) ∷ []) ++ (t / 256 % 256) ∷ []) ++ (t / 256 / 256 % 256) ∷ [])
unfolding write_composition_time
write_composition_time-time_bytes t w h = rw (once t h, twice t h)
  where
    once : (t : ℕ) → t < 2 ^ 32 → shift_signed t % 256 ≡ t / 256 % 256
    once t h = ground arith

    twice : (t : ℕ) → t < 2 ^ 32 → shift_signed (shift_signed t) % 256 ≡ t / 256 / 256 % 256
    twice t h = ground arith

read_composition_time-time_bytes :
    (t : ℕ) (rest : Bytes)
    → read_composition_time (time_bytes t ++ rest) ≡ ok (sign_extend (reversed t)) rest
unfolding read_composition_time read_time_byte
read_composition_time-time_bytes t rest = rw (
  read_u8-cons _ _,
  read_u8-cons _ _,
  read_u8-cons _ _,
  sum (t % 256) (t / 256 % 256) (t / 256 / 256 % 256) (omega arith) (omega arith),
)
  where
    sum :
        (a b c : ℕ)
        → a < 256
        → b < 256
        → ((0 * 256 % 2 ^ 32 + a) * 256 % 2 ^ 32 + b) * 256 % 2 ^ 32 + c ≡ (a * 256 + b) * 256 + c
    sum a b c h k = omega arith

-- A video tag header whose fields fit their bits comes back from its bytes, whatever follows them; the
-- packet type and the composition time, which only H264 and HEVC have, come back as 0 for another
-- codec, and for those two the composition time comes back as the signed number of its three low
-- bytes in the other order, since they are written low byte first and read high byte first.
pub unmarshal_video-marshal_video :
    (h : VideoTagHeader) (rest : Bytes)
    → IsValidVideo h
    → (bs : Bytes) × (marshal_video h ≡ ok bs [])
      × (unmarshal_video (bs ++ rest) ≡ (
          let avc = (h.codec_id == h264) || (h.codec_id == hevc) in
          ok
            (record h {
              avc_packet_type = if avc then h.avc_packet_type else 0;
              composition_time = if avc then sign_extend (reversed h.composition_time) else 0;
            })
            rest))
unfolding marshal_video unmarshal_video
unmarshal_video-marshal_video h rest v =
    elim (Bool-cases ((h.codec_id == h264) || (h.codec_id == hevc))) [
      | inl avc ↦ (
        flags_byte ∷ h.avc_packet_type ∷ time_bytes h.composition_time,
        rw (avc, write_composition_time-time_bytes h.composition_time _ v.composition_time),
        rw (
          flags,
          read_u8-cons _ _,
          codec,
          avc,
          read_u8-cons _ _,
          read_composition_time-time_bytes h.composition_time rest,
          frame,
        ),
      )
      | inr other ↦ (flags_byte ∷ [], rw other, rw (flags, read_u8-cons _ _, codec, other, frame))
    ]
  where
    flags_byte : ℕ
    flags_byte = bit_or (shl 8 h.frame_type 4) h.codec_id

    cut : (n : ℕ) → n < 16 → n * 16 % 256 ≡ n * 16
    cut n k = omega arith

    flags : flags_byte ≡ h.frame_type * 2 ^ 4 + h.codec_id
    flags =
        rw (cut h.frame_type v.frame_type) (bit_or-disjoint 4 h.frame_type h.codec_id v.codec_id)

    codec : (h.frame_type * 2 ^ 4 + h.codec_id) % 16 ≡ h.codec_id
    codec = omega (arith, v.codec_id)

    frame : (h.frame_type * 2 ^ 4 + h.codec_id) / 16 ≡ h.frame_type
    frame = omega (arith, v.codec_id)
