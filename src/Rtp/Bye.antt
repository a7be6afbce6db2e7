-- ===== src/Rtp/Bye.antt =====
-- protocol/rtsp/src/rtp/rtcp/rtcp_bye.rs: `RtcpBye`, whose sources are read and written as the
-- contributing sources of an RTP header.
use xiu.Prelude.{
  ℕ, ◌^◌, ◌<◌, ◌≡◌, ap, List, [], ◌∷◌, ◌++◌, joined, joined-append, appended-joined, length, All,
  Outcome, Method, ok, ◌>>=◌, ◌>>◌,
}
use xiu.Prelude.Words.{Bytes}
use xiu.Bytesio.Reader.{BytesReader, ReadError, read_u8, read_bytes}
use xiu.Bytesio.Reader.Laws.{read_u8-cons, read_bytes_append}
use xiu.Bytesio.Writer.{BytesWriter, WriteError, write_u8, write_uint, write, extract_current_bytes}
use xiu.Rtp.Header.{
  read_csrcs, write_csrcs, csrcs_bytes, write_csrcs-csrcs_bytes, read_csrcs-csrcs_bytes,
}
use xiu.Rtp.Report.{RtcpHeader, unmarshal_header, marshal_header, write_marshalled}
use xiu.Rtp.ReportRoundTrip.{
  IsValidHeader, header_parts, marshal_header-header_parts, unmarshal_header-header_parts,
}

pub record RtcpBye : Type 0 where
  pub header : RtcpHeader
  pub ssrss : List ℕ
  pub length_field : ℕ
  pub reason : Bytes

-- The reader is the one made from the data.
unfoldable pub unmarshal_bye : Method BytesReader ReadError RtcpBye
unmarshal_bye = do
  header ← unmarshal_header
  ssrss ← read_csrcs header.report_count []
  length_field ← read_u8
  reason ← read_bytes length_field
  ok (record { header = header; ssrss = ssrss; length_field = length_field; reason = reason })

unfoldable pub marshal_bye : RtcpBye → Outcome BytesWriter WriteError Bytes
marshal_bye b =
    (do
      write_marshalled (marshal_header b.header)
      write_csrcs b.ssrss
      write_u8 b.length_field
      write b.reason
      extract_current_bytes)
      []

-- The fields fit, the header counts the sources and the length is that of the reason.
pub record IsValid (b : RtcpBye) : Type 0 where
  pub header : IsValidHeader b.header
  pub ssrss : All (λ c. c < 256 ^ 4) b.ssrss
  pub count : length b.ssrss ≡ b.header.report_count
  pub reason : length b.reason ≡ b.length_field

abbrev bye_parts : RtcpBye → List Bytes
bye_parts b =
    joined (header_parts b.header) [] ∷ csrcs_bytes b.ssrss ∷ (b.length_field ∷ []) ∷ b.reason ∷ []

marshal_bye-bye_parts : (b : RtcpBye) → marshal_bye b ≡ ok (joined (bye_parts b) []) []
unfolding marshal_bye write_uint
marshal_bye-bye_parts b =
    rw (marshal_header-header_parts b.header, write_csrcs-csrcs_bytes b.ssrss _)
      (ap (λ bs. ok bs []) (appended-joined [] (bye_parts b)))

unmarshal_bye-bye_parts :
    (b : RtcpBye) (rest : Bytes)
    → IsValid b
    → unmarshal_bye (joined (bye_parts b) [] ++ rest) ≡ ok b rest
unfolding unmarshal_bye
unmarshal_bye-bye_parts b rest v = rw (
  joined-append (bye_parts b) rest,
  joined-append (header_parts b.header)
      (csrcs_bytes b.ssrss ++ (b.length_field ∷ (b.reason ++ rest))),
  unmarshal_header-header_parts b.header _ v.header,
  sources,
  read_u8-cons _ _,
  read_bytes_append b.length_field b.reason rest v.reason,
)
  where
    sources :
        read_csrcs b.header.report_count []
          (csrcs_bytes b.ssrss ++ (b.length_field ∷ (b.reason ++ rest)))
        ≡ ok b.ssrss (b.length_field ∷ (b.reason ++ rest))
    sources = rw (← v.count) (read_csrcs-csrcs_bytes b.ssrss [] _ v.ssrss)

-- A goodbye whose fields fit, whose header counts its sources and whose length is that of its
-- reason is marshalled to bytes from which `unmarshal` reads the same goodbye, whatever follows.
pub unmarshal_bye-marshal_bye :
    (b : RtcpBye) (rest : Bytes)
    → IsValid b
    → (bs : Bytes) × (marshal_bye b ≡ ok bs []) × (unmarshal_bye (bs ++ rest) ≡ ok b rest)
unmarshal_bye-marshal_bye b rest v =
    (joined (bye_parts b) [], marshal_bye-bye_parts b, unmarshal_bye-bye_parts b rest v)
