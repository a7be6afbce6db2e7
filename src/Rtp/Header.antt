-- ===== src/Rtp/Header.antt =====
-- protocol/rtsp/src/rtp/rtp_header.rs: `RtpHeader`.
use xiu.Prelude.{
  ℕ, zero, suc, ◌+◌, ◌*◌, ◌/◌, ◌%◌, ◌^◌, ◌<◌, ◌≡◌, List, [], ◌∷◌, ◌++◌, append-nil, append_assoc,
  length, All, Outcome, Method, ok, ◌>>=◌, ◌>>◌, bit_or, arith,
}
use xiu.Prelude.Words.{Bytes, big_endian, encode}
use xiu.Prelude.Bits.{shl, shr, low_bits}
use xiu.Bytesio.Reader.{BytesReader, ReadError, read_u8, read_u16, read_u32}
use xiu.Bytesio.Reader.Laws.{read_uint-encode, read_u8-cons}
use xiu.Bytesio.Writer.{BytesWriter, WriteError, write_u8, write_uint, extract_current_bytes}
use xiu.Rtp.Flags.{four_flags, marker_flag}

pub record RtpHeader : Type 0 where
  pub version : ℕ
  pub padding_flag : ℕ
  pub extension_flag : ℕ
  pub cc : ℕ
  pub marker : ℕ
  pub payload_type : ℕ
  pub seq_number : ℕ
  pub timestamp : ℕ
  pub ssrc : ℕ
  pub csrcs : List ℕ

-- `for _ in 0..cc`
unfoldable pub read_csrcs : ℕ → List ℕ → Method BytesReader ReadError (List ℕ)
read_csrcs zero csrcs = ok csrcs
read_csrcs (suc n) csrcs = do csrc ← read_u32 big_endian; read_csrcs n (csrcs ++ csrc ∷ [])

unfoldable pub unmarshal : Method BytesReader ReadError RtpHeader
unfolding read_csrcs
unmarshal = do
  byte_1st ← read_u8
  byte_2nd ← read_u8
  seq_number ← read_u16 big_endian
  timestamp ← read_u32 big_endian
  ssrc ← read_u32 big_endian
  csrcs ← read_csrcs (low_bits 4 byte_1st) []
  ok (record {
    version = shr byte_1st 6;
    padding_flag = low_bits 1 (shr byte_1st 5);
    extension_flag = low_bits 1 (shr byte_1st 4);
    cc = low_bits 4 byte_1st;
    marker = shr byte_2nd 7;
    payload_type = low_bits 7 byte_2nd;
    seq_number = seq_number;
    timestamp = timestamp;
    ssrc = ssrc;
    csrcs = csrcs;
  })

unfoldable pub write_csrcs : List ℕ → Method BytesWriter WriteError (Unit {0})
write_csrcs [] = ok tt
write_csrcs (csrc ∷ csrcs) = write_uint big_endian 4 csrc >> write_csrcs csrcs

abbrev pub byte_1st : RtpHeader → ℕ
byte_1st h =
    bit_or (bit_or (bit_or (shl 8 h.version 6) (shl 8 h.padding_flag 5)) (shl 8 h.extension_flag 4))
      (low_bits 4 h.cc)

abbrev pub byte_2nd : RtpHeader → ℕ
byte_2nd h = bit_or (shl 8 h.marker 7) h.payload_type

-- The bytes of a header, which start in a writer of their own.
unfoldable pub marshal : RtpHeader → Outcome BytesWriter WriteError Bytes
unfolding write_csrcs
marshal h =
    (do
      write_u8 (byte_1st h)
      write_u8 (byte_2nd h)
      write_uint big_endian 2 h.seq_number
      write_uint big_endian 4 h.timestamp
      write_uint big_endian 4 h.ssrc
      write_csrcs h.csrcs
      extract_current_bytes)
      []

-- The fields fit their bits, and there are `cc` sources.
pub record IsValid (h : RtpHeader) : Type 0 where
  pub version : h.version < 4
  pub padding_flag : h.padding_flag < 2
  pub extension_flag : h.extension_flag < 2
  pub cc : h.cc < 16
  pub marker : h.marker < 2
  pub payload_type : h.payload_type < 128
  pub seq_number : h.seq_number < 256 ^ 2
  pub timestamp : h.timestamp < 256 ^ 4
  pub ssrc : h.ssrc < 256 ^ 4
  pub csrcs : All (λ c. c < 256 ^ 4) h.csrcs
  pub count : length h.csrcs ≡ h.cc

unfoldable pub csrcs_bytes : List ℕ → Bytes
csrcs_bytes [] = []
csrcs_bytes (c ∷ cs) = encode big_endian 4 c ++ csrcs_bytes cs

pub write_csrcs-csrcs_bytes :
    (cs : List ℕ) (w : Bytes) → write_csrcs cs w ≡ ok tt (w ++ csrcs_bytes cs)
unfolding write_csrcs csrcs_bytes write_uint
write_csrcs-csrcs_bytes [] w = rw (append-nil w)
write_csrcs-csrcs_bytes (c ∷ cs) w = rw (
  write_csrcs-csrcs_bytes cs (w ++ encode big_endian 4 c),
  append_assoc w (encode big_endian 4 c) (csrcs_bytes cs),
)

pub read_csrcs-csrcs_bytes :
    (cs got : List ℕ) (rest : Bytes)
    → All (λ c. c < 256 ^ 4) cs
    → read_csrcs (length cs) got (csrcs_bytes cs ++ rest) ≡ ok (got ++ cs) rest
unfolding read_csrcs csrcs_bytes
read_csrcs-csrcs_bytes [] got rest a = rw (append-nil got)
read_csrcs-csrcs_bytes (c ∷ cs) got rest (h, a) = rw (
  append_assoc (encode big_endian 4 c) (csrcs_bytes cs) rest,
  read_uint-encode big_endian 4 c (csrcs_bytes cs ++ rest) h,
  read_csrcs-csrcs_bytes cs (got ++ c ∷ []) rest a,
  append_assoc got (c ∷ []) cs,
)

abbrev header_bytes : RtpHeader → Bytes → Bytes
header_bytes h rest =
    byte_1st h
    ∷ byte_2nd h
    ∷ (encode big_endian 2 h.seq_number
        ++ (encode big_endian 4 h.timestamp
            ++ (encode big_endian 4 h.ssrc ++ (csrcs_bytes h.csrcs ++ rest))))

marshal-header_bytes : (h : RtpHeader) → marshal h ≡ ok (header_bytes h []) []
unfolding marshal write_uint
marshal-header_bytes h = rw (
  write_csrcs-csrcs_bytes h.csrcs _,
  append-nil (csrcs_bytes h.csrcs),
  append_assoc (encode big_endian 2 h.seq_number ++ encode big_endian 4 h.timestamp)
      (encode big_endian 4 h.ssrc) (csrcs_bytes h.csrcs),
  append_assoc (encode big_endian 2 h.seq_number) (encode big_endian 4 h.timestamp)
      (encode big_endian 4 h.ssrc ++ csrcs_bytes h.csrcs),
)

unmarshal-header_bytes :
    (h : RtpHeader) (rest : Bytes) → IsValid h → unmarshal (header_bytes h rest) ≡ ok h rest
unfolding unmarshal
unmarshal-header_bytes h rest v = rw (
  four_flags h.version h.padding_flag h.extension_flag h.cc v.version v.padding_flag
      v.extension_flag v.cc,
  marker_flag h.marker h.payload_type v.marker v.payload_type,
  read_u8-cons _ _,
  read_u8-cons _ _,
  read_uint-encode big_endian 2 h.seq_number _ v.seq_number,
  read_uint-encode big_endian 4 h.timestamp _ v.timestamp,
  read_uint-encode big_endian 4 h.ssrc _ v.ssrc,
  cc,
  sources,
  version,
  padding,
  extension,
  marker,
  kind,
)
  where
    first : ℕ
    first = ((h.version * 2 + h.padding_flag) * 2 + h.extension_flag) * 2 ^ 4 + h.cc

    cc : first % 16 ≡ h.cc
    cc = omega (arith, v.cc)

    version : first / 64 ≡ h.version
    version = omega (arith, v.cc, v.extension_flag, v.padding_flag)

    padding : first / 32 % 2 ≡ h.padding_flag
    padding = omega (arith, v.cc, v.extension_flag, v.padding_flag)

    extension : first / 16 % 2 ≡ h.extension_flag
    extension = omega (arith, v.cc, v.extension_flag)

    marker : (h.marker * 2 ^ 7 + h.payload_type) / 128 ≡ h.marker
    marker = omega (arith, v.payload_type)

    kind : (h.marker * 2 ^ 7 + h.payload_type) % 128 ≡ h.payload_type
    kind = omega (arith, v.payload_type)

    sources : read_csrcs h.cc [] (csrcs_bytes h.csrcs ++ rest) ≡ ok h.csrcs rest
    sources = rw (← v.count) (read_csrcs-csrcs_bytes h.csrcs [] rest v.csrcs)

-- A header whose fields fit their bits, with `cc` sources, is marshalled to bytes from which, with
-- anything behind them, `unmarshal` reads the same header and leaves what is behind it.
pub unmarshal-marshal :
    (h : RtpHeader) (rest : Bytes)
    → IsValid h
    → (bs : Bytes) × (marshal h ≡ ok bs []) × (unmarshal (bs ++ rest) ≡ ok h rest)
unmarshal-marshal h rest v = (
  header_bytes h [],
  marshal-header_bytes h,
  rw
      (
        append_assoc (encode big_endian 2 h.seq_number)
            (encode big_endian 4 h.timestamp
              ++ (encode big_endian 4 h.ssrc ++ (csrcs_bytes h.csrcs ++ [])))
            rest,
        append_assoc (encode big_endian 4 h.timestamp)
            (encode big_endian 4 h.ssrc ++ (csrcs_bytes h.csrcs ++ [])) rest,
        append_assoc (encode big_endian 4 h.ssrc) (csrcs_bytes h.csrcs ++ []) rest,
        append-nil (csrcs_bytes h.csrcs),
      )
      (unmarshal-header_bytes h rest v),
)
