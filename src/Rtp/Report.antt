-- ===== src/Rtp/Report.antt =====
-- protocol/rtsp/src/rtp/rtcp/rtcp_header.rs and rtcp_rr.rs: `RtcpHeader`, `ReportBlock` and
-- `RtcpReceiverReport`. An `RtcpError` stands for itself by the error of the reader or the writer
-- that it is made from.
use xiu.Prelude.{ℕ, zero, suc, List, [], ◌∷◌, ◌++◌, Outcome, Method, ok, ◌>>=◌, ◌>>◌, after, bit_or}
use xiu.Prelude.Words.{Bytes, big_endian}
use xiu.Prelude.Bits.{shl, shr, low_bits}
use xiu.Bytesio.Reader.{BytesReader, ReadError, read_u8, read_u16, read_u24, read_u32}
use xiu.Bytesio.Writer.{
  BytesWriter, WriteError, write_u8, write_uint, write_u24, write, extract_current_bytes,
}

pub record RtcpHeader : Type 0 where
  pub version : ℕ
  pub padding_flag : ℕ
  pub report_count : ℕ
  pub payload_type : ℕ
  pub length_field : ℕ

unfoldable pub unmarshal_header : Method BytesReader ReadError RtcpHeader
unmarshal_header = do
  byte_1st ← read_u8
  payload_type ← read_u8
  length_field ← read_u16 big_endian
  ok (record {
    version = shr byte_1st 6;
    padding_flag = low_bits 1 (shr byte_1st 5);
    report_count = low_bits 5 byte_1st;
    payload_type = payload_type;
    length_field = length_field;
  })

abbrev pub byte_1st : RtcpHeader → ℕ
byte_1st h = bit_or (bit_or (shl 8 h.version 6) (shl 8 h.padding_flag 5)) h.report_count

unfoldable pub marshal_header : RtcpHeader → Outcome BytesWriter WriteError Bytes
marshal_header h =
    (do
      write_u8 (byte_1st h)
      write_u8 h.payload_type
      write_uint big_endian 2 h.length_field
      extract_current_bytes)
      []

pub record ReportBlock : Type 0 where
  pub ssrc : ℕ
  pub fraction_lost : ℕ
  pub cumutlative_num_of_packets_lost : ℕ
  pub extended_highest_seq_number : ℕ
  pub jitter : ℕ
  pub lsr : ℕ
  pub dlsr : ℕ

unfoldable pub unmarshal_block : Method BytesReader ReadError ReportBlock
unmarshal_block = do
  ssrc ← read_u32 big_endian
  fraction_lost ← read_u8
  cumutlative_num_of_packets_lost ← read_u24 big_endian
  extended_highest_seq_number ← read_u32 big_endian
  jitter ← read_u32 big_endian
  lsr ← read_u32 big_endian
  dlsr ← read_u32 big_endian
  ok (record {
    ssrc = ssrc;
    fraction_lost = fraction_lost;
    cumutlative_num_of_packets_lost = cumutlative_num_of_packets_lost;
    extended_highest_seq_number = extended_highest_seq_number;
    jitter = jitter;
    lsr = lsr;
    dlsr = dlsr;
  })

unfoldable pub marshal_block : ReportBlock → Outcome BytesWriter WriteError Bytes
marshal_block b =
    (do
      write_uint big_endian 4 b.ssrc
      write_u8 b.fraction_lost
      write_u24 big_endian b.cumutlative_num_of_packets_lost
      write_uint big_endian 4 b.extended_highest_seq_number
      write_uint big_endian 4 b.jitter
      write_uint big_endian 4 b.lsr
      write_uint big_endian 4 b.dlsr
      extract_current_bytes)
      []

pub record RtcpReceiverReport : Type 0 where
  pub header : RtcpHeader
  pub ssrc : ℕ
  pub report_blocks : List ReportBlock

unfoldable pub read_blocks : ℕ → List ReportBlock → Method BytesReader ReadError (List ReportBlock)
unfolding unmarshal_block
read_blocks zero blocks = ok blocks
read_blocks (suc n) blocks = do block ← unmarshal_block; read_blocks n (blocks ++ block ∷ [])

unfoldable pub unmarshal_report : Method BytesReader ReadError RtcpReceiverReport
unfolding unmarshal_header read_blocks
unmarshal_report = do
  header ← unmarshal_header
  ssrc ← read_u32 big_endian
  report_blocks ← read_blocks header.report_count []
  ok (record { header = header; ssrc = ssrc; report_blocks = report_blocks })

-- `let data = part.marshal()?; writer.write(&data[..])?`
abbrev pub write_marshalled :
    Outcome BytesWriter WriteError Bytes → Method BytesWriter WriteError (Unit {0})
write_marshalled part w = after part (λ bs _. write bs w)

unfoldable pub write_blocks : List ReportBlock → Method BytesWriter WriteError (Unit {0})
unfolding marshal_block
write_blocks [] = ok tt
write_blocks (b ∷ bs) = write_marshalled (marshal_block b) >> write_blocks bs

unfoldable pub marshal_report : RtcpReceiverReport → Outcome BytesWriter WriteError Bytes
marshal_report r =
    (do
      write_marshalled (marshal_header r.header)
      write_uint big_endian 4 r.ssrc
      write_blocks r.report_blocks
      extract_current_bytes)
      []
