-- ===== src/Rtp/SenderRoundTrip.antt =====
-- RTCP sender reports, marshalled and read back.
use xiu.Prelude.{
  ◌^◌, ◌<◌, ◌≡◌, ap, List, [], ◌∷◌, ◌++◌, joined, joined-append, appended-joined, length, All, ok,
}
use xiu.Prelude.Words.{Bytes, big_endian, encode}
use xiu.Bytesio.Reader.Laws.{read_uint-encode}
use xiu.Bytesio.Writer.{write_uint}
use xiu.Rtp.Report.{read_blocks}
use xiu.Rtp.ReportRoundTrip.{
  IsValidHeader, IsValidBlock, header_parts, marshal_header-header_parts,
  unmarshal_header-header_parts, blocks_bytes, write_blocks-blocks_bytes, read_blocks-blocks_bytes,
}
use xiu.Rtp.Sender.{RtcpSenderReport, unmarshal_sender, marshal_sender}

-- The fields fit, and the header counts the blocks.
pub record IsValid (r : RtcpSenderReport) : Type 0 where
  pub header : IsValidHeader r.header
  pub ssrc : r.ssrc < 256 ^ 4
  pub ntp : r.ntp < 256 ^ 8
  pub rtp_timestamp : r.rtp_timestamp < 256 ^ 4
  pub sender_packet_count : r.sender_packet_count < 256 ^ 4
  pub sender_octet_count : r.sender_octet_count < 256 ^ 4
  pub blocks : All IsValidBlock r.report_blocks
  pub count : length r.report_blocks ≡ r.header.report_count

abbrev sender_parts : RtcpSenderReport → List Bytes
sender_parts r =
    joined (header_parts r.header) []
    ∷ encode big_endian 4 r.ssrc
    ∷ encode big_endian 8 r.ntp
    ∷ encode big_endian 4 r.rtp_timestamp
    ∷ encode big_endian 4 r.sender_packet_count
    ∷ encode big_endian 4 r.sender_octet_count
    ∷ blocks_bytes r.report_blocks
    ∷ []

marshal_sender-sender_parts :
    (r : RtcpSenderReport)
    → All IsValidBlock r.report_blocks
    → marshal_sender r ≡ ok (joined (sender_parts r) []) []
unfolding marshal_sender write_uint
marshal_sender-sender_parts r a =
    rw (marshal_header-header_parts r.header, write_blocks-blocks_bytes r.report_blocks _ a)
      (ap (λ bs. ok bs []) (appended-joined [] (sender_parts r)))

unmarshal_sender-sender_parts :
    (r : RtcpSenderReport) (rest : Bytes)
    → IsValid r
    → unmarshal_sender (joined (sender_parts r) [] ++ rest) ≡ ok r rest
unfolding unmarshal_sender
unmarshal_sender-sender_parts r rest v = rw (
  joined-append (sender_parts r) rest,
  joined-append (header_parts r.header) (joined (sender_rest r) rest),
  unmarshal_header-header_parts r.header _ v.header,
  read_uint-encode big_endian 4 r.ssrc _ v.ssrc,
  read_uint-encode big_endian 8 r.ntp _ v.ntp,
  read_uint-encode big_endian 4 r.rtp_timestamp _ v.rtp_timestamp,
  read_uint-encode big_endian 4 r.sender_packet_count _ v.sender_packet_count,
  read_uint-encode big_endian 4 r.sender_octet_count _ v.sender_octet_count,
  blocks,
)
  where
    sender_rest : RtcpSenderReport → List Bytes
    sender_rest s =
        encode big_endian 4 s.ssrc
        ∷ encode big_endian 8 s.ntp
        ∷ encode big_endian 4 s.rtp_timestamp
        ∷ encode big_endian 4 s.sender_packet_count
        ∷ encode big_endian 4 s.sender_octet_count
        ∷ blocks_bytes s.report_blocks
        ∷ []

    blocks :
        read_blocks r.header.report_count [] (blocks_bytes r.report_blocks ++ rest)
        ≡ ok r.report_blocks rest
    blocks = rw (← v.count) (read_blocks-blocks_bytes r.report_blocks [] rest v.blocks)

-- A sender report whose fields fit, and whose header counts its blocks, is marshalled to bytes
-- from which `unmarshal` reads the same report, whatever follows them.
pub unmarshal_sender-marshal_sender :
    (r : RtcpSenderReport) (rest : Bytes)
    → IsValid r
    → (bs : Bytes) × (marshal_sender r ≡ ok bs []) × (unmarshal_sender (bs ++ rest) ≡ ok r rest)
unmarshal_sender-marshal_sender r rest v = (
  joined (sender_parts r) [],
  marshal_sender-sender_parts r v.blocks,
  unmarshal_sender-sender_parts r rest v,
)
