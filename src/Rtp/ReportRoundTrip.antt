-- ===== src/Rtp/ReportRoundTrip.antt =====
-- RTCP receiver reports, marshalled and read back.
use xiu.Prelude.{
  ℕ, ◌+◌, ◌*◌, ◌/◌, ◌%◌, ◌^◌, ◌<◌, ◌≡◌, ap, List, [], ◌∷◌, ◌++◌, append-nil, append_assoc, joined,
  joined-append, appended-joined, length, All, ok, arith,
}
use xiu.Prelude.Words.{Bytes, big_endian, encode}
use xiu.Bytesio.Reader.Laws.{read_uint-encode, read_u8-cons}
use xiu.Bytesio.Writer.{write_uint, write_u24-fits}
use xiu.Rtp.Flags.{three_flags}
use xiu.Rtp.Report.{
  RtcpHeader, unmarshal_header, byte_1st, marshal_header, ReportBlock, unmarshal_block,
  marshal_block, RtcpReceiverReport, read_blocks, unmarshal_report, write_blocks, marshal_report,
}

pub record IsValidHeader (h : RtcpHeader) : Type 0 where
  pub version : h.version < 4
  pub padding_flag : h.padding_flag < 2
  pub report_count : h.report_count < 32
  pub length_field : h.length_field < 256 ^ 2

pub record IsValidBlock (b : ReportBlock) : Type 0 where
  pub ssrc : b.ssrc < 256 ^ 4
  pub lost : b.cumutlative_num_of_packets_lost < 256 ^ 3
  pub highest : b.extended_highest_seq_number < 256 ^ 4
  pub jitter : b.jitter < 256 ^ 4
  pub lsr : b.lsr < 256 ^ 4
  pub dlsr : b.dlsr < 256 ^ 4

-- The fields fit, and the header counts the blocks.
pub record IsValid (r : RtcpReceiverReport) : Type 0 where
  pub header : IsValidHeader r.header
  pub ssrc : r.ssrc < 256 ^ 4
  pub blocks : All IsValidBlock r.report_blocks
  pub count : length r.report_blocks ≡ r.header.report_count

abbrev block_parts : ReportBlock → List Bytes
block_parts b =
    encode big_endian 4 b.ssrc
    ∷ (b.fraction_lost ∷ [])
    ∷ encode big_endian 3 b.cumutlative_num_of_packets_lost
    ∷ encode big_endian 4 b.extended_highest_seq_number
    ∷ encode big_endian 4 b.jitter
    ∷ encode big_endian 4 b.lsr
    ∷ encode big_endian 4 b.dlsr
    ∷ []

abbrev block_bytes : ReportBlock → Bytes → Bytes
block_bytes b rest = joined (block_parts b) rest

marshal_block-block_bytes :
    (b : ReportBlock) → IsValidBlock b → marshal_block b ≡ ok (block_bytes b []) []
unfolding marshal_block write_uint
marshal_block-block_bytes b v =
    let front = encode big_endian 4 b.ssrc ++ b.fraction_lost ∷ [] in
    rw (write_u24-fits big_endian b.cumutlative_num_of_packets_lost front v.lost)
      (ap (λ bs. ok bs []) (appended-joined [] (block_parts b)))

block_bytes-append :
    (b : ReportBlock) (rest : Bytes) → block_bytes b [] ++ rest ≡ block_bytes b rest
block_bytes-append b rest = joined-append (block_parts b) rest

unmarshal_block-block_bytes :
    (b : ReportBlock) (rest : Bytes)
    → IsValidBlock b
    → unmarshal_block (block_bytes b rest) ≡ ok b rest
unfolding unmarshal_block
unmarshal_block-block_bytes b rest v = rw (
  read_uint-encode big_endian 4 b.ssrc _ v.ssrc,
  read_u8-cons _ _,
  read_uint-encode big_endian 3 b.cumutlative_num_of_packets_lost _ v.lost,
  read_uint-encode big_endian 4 b.extended_highest_seq_number _ v.highest,
  read_uint-encode big_endian 4 b.jitter _ v.jitter,
  read_uint-encode big_endian 4 b.lsr _ v.lsr,
  read_uint-encode big_endian 4 b.dlsr rest v.dlsr,
)

unfoldable pub blocks_bytes : List ReportBlock → Bytes
blocks_bytes [] = []
blocks_bytes (b ∷ bs) = block_bytes b [] ++ blocks_bytes bs

pub write_blocks-blocks_bytes :
    (bs : List ReportBlock) (w : Bytes)
    → All IsValidBlock bs
    → write_blocks bs w ≡ ok tt (w ++ blocks_bytes bs)
unfolding write_blocks blocks_bytes
write_blocks-blocks_bytes [] w a = rw (append-nil w)
write_blocks-blocks_bytes (b ∷ bs) w (v, a) = rw (
  marshal_block-block_bytes b v,
  write_blocks-blocks_bytes bs (w ++ block_bytes b []) a,
  append_assoc w (block_bytes b []) (blocks_bytes bs),
)

pub read_blocks-blocks_bytes :
    (bs got : List ReportBlock) (rest : Bytes)
    → All IsValidBlock bs
    → read_blocks (length bs) got (blocks_bytes bs ++ rest) ≡ ok (got ++ bs) rest
unfolding read_blocks blocks_bytes
read_blocks-blocks_bytes [] got rest a = rw (append-nil got)
read_blocks-blocks_bytes (b ∷ bs) got rest (v, a) = rw (
  append_assoc (block_bytes b []) (blocks_bytes bs) rest,
  block_bytes-append b (blocks_bytes bs ++ rest),
  unmarshal_block-block_bytes b (blocks_bytes bs ++ rest) v,
  read_blocks-blocks_bytes bs (got ++ b ∷ []) rest a,
  append_assoc got (b ∷ []) bs,
)

abbrev pub header_parts : RtcpHeader → List Bytes
header_parts h = (byte_1st h ∷ []) ∷ (h.payload_type ∷ []) ∷ encode big_endian 2 h.length_field ∷ []

pub marshal_header-header_parts :
    (h : RtcpHeader) → marshal_header h ≡ ok (joined (header_parts h) []) []
unfolding marshal_header write_uint
marshal_header-header_parts h = ap (λ bs. ok bs []) (appended-joined [] (header_parts h))

pub unmarshal_header-header_parts :
    (h : RtcpHeader) (rest : Bytes)
    → IsValidHeader h
    → unmarshal_header (joined (header_parts h) rest) ≡ ok h rest
unfolding unmarshal_header
unmarshal_header-header_parts h rest v = rw (
  three_flags h.version h.padding_flag h.report_count v.version v.padding_flag v.report_count,
  read_u8-cons _ _,
  read_u8-cons _ _,
  read_uint-encode big_endian 2 h.length_field rest v.length_field,
  count,
  version,
  padding,
)
  where
    first : ℕ
    first = (h.version * 2 + h.padding_flag) * 2 ^ 5 + h.report_count

    count : first % 32 ≡ h.report_count
    count = omega (arith, v.report_count)

    version : first / 64 ≡ h.version
    version = omega (arith, v.report_count, v.padding_flag)

    padding : first / 32 % 2 ≡ h.padding_flag
    padding = omega (arith, v.report_count, v.padding_flag)

abbrev report_bytes : RtcpReceiverReport → Bytes
report_bytes r =
    (joined (header_parts r.header) [] ++ encode big_endian 4 r.ssrc)
    ++ blocks_bytes r.report_blocks

marshal_report-report_bytes :
    (r : RtcpReceiverReport)
    → All IsValidBlock r.report_blocks
    → marshal_report r ≡ ok (report_bytes r) []
unfolding marshal_report write_uint
marshal_report-report_bytes r a =
    rw (marshal_header-header_parts r.header, write_blocks-blocks_bytes r.report_blocks _ a)

unmarshal_report-report_bytes :
    (r : RtcpReceiverReport) (rest : Bytes)
    → IsValid r
    → unmarshal_report (report_bytes r ++ rest) ≡ ok r rest
unfolding unmarshal_report
unmarshal_report-report_bytes r rest v = rw (
  append_assoc (joined (header_parts r.header) [] ++ encode big_endian 4 r.ssrc)
      (blocks_bytes r.report_blocks) rest,
  append_assoc (joined (header_parts r.header) []) (encode big_endian 4 r.ssrc)
      (blocks_bytes r.report_blocks ++ rest),
  joined-append (header_parts r.header)
      (encode big_endian 4 r.ssrc ++ (blocks_bytes r.report_blocks ++ rest)),
  unmarshal_header-header_parts r.header _ v.header,
  read_uint-encode big_endian 4 r.ssrc _ v.ssrc,
  blocks,
)
  where
    blocks :
        read_blocks r.header.report_count [] (blocks_bytes r.report_blocks ++ rest)
        ≡ ok r.report_blocks rest
    blocks = rw (← v.count) (read_blocks-blocks_bytes r.report_blocks [] rest v.blocks)

-- A receiver report whose fields fit, and whose header counts its blocks, is marshalled to bytes
-- from which `unmarshal` reads the same report, whatever follows them.
pub unmarshal_report-marshal_report :
    (r : RtcpReceiverReport) (rest : Bytes)
    → IsValid r
    → (bs : Bytes) × (marshal_report r ≡ ok bs []) × (unmarshal_report (bs ++ rest) ≡ ok r rest)
unmarshal_report-marshal_report r rest v =
    (report_bytes r, marshal_report-report_bytes r v.blocks, unmarshal_report-report_bytes r rest v)
