-- ===== src/Rtp/Sender.antt =====
-- protocol/rtsp/src/rtp/rtcp/rtcp_sr.rs: `RtcpSenderReport`.
use xiu.Prelude.{ℕ, List, [], Outcome, Method, ok, ◌>>=◌, ◌>>◌}
use xiu.Prelude.Words.{Bytes, big_endian}
use xiu.Bytesio.Reader.{BytesReader, ReadError, read_u32, read_u64}
use xiu.Bytesio.Writer.{BytesWriter, WriteError, write_uint, extract_current_bytes}
use xiu.Rtp.Report.{
  RtcpHeader, unmarshal_header, marshal_header, ReportBlock, read_blocks, write_marshalled,
  write_blocks,
}

pub record RtcpSenderReport : Type 0 where
  pub header : RtcpHeader
  pub ssrc : ℕ
  pub ntp : ℕ
  pub rtp_timestamp : ℕ
  pub sender_packet_count : ℕ
  pub sender_octet_count : ℕ
  pub report_blocks : List ReportBlock

unfoldable pub unmarshal_sender : Method BytesReader ReadError RtcpSenderReport
unmarshal_sender = do
  header ← unmarshal_header
  ssrc ← read_u32 big_endian
  ntp ← read_u64 big_endian
  rtp_timestamp ← read_u32 big_endian
  sender_packet_count ← read_u32 big_endian
  sender_octet_count ← read_u32 big_endian
  report_blocks ← read_blocks header.report_count []
  ok (record {
    header = header;
    ssrc = ssrc;
    ntp = ntp;
    rtp_timestamp = rtp_timestamp;
    sender_packet_count = sender_packet_count;
    sender_octet_count = sender_octet_count;
    report_blocks = report_blocks;
  })

unfoldable pub marshal_sender : RtcpSenderReport → Outcome BytesWriter WriteError Bytes
marshal_sender r =
    (do
      write_marshalled (marshal_header r.header)
      write_uint big_endian 4 r.ssrc
      write_uint big_endian 8 r.ntp
      write_uint big_endian 4 r.rtp_timestamp
      write_uint big_endian 4 r.sender_packet_count
      write_uint big_endian 4 r.sender_octet_count
      write_blocks r.report_blocks
      extract_current_bytes)
      []
