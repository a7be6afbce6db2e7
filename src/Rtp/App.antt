-- ===== src/Rtp/App.antt =====
-- protocol/rtsp/src/rtp/rtcp/rtcp_app.rs: `RtcpApp`. The data are read as four times `length` bytes,
-- without taking off the source and the name that the length counts too.
use xiu.Prelude.{
  ℕ, ◌*◌, ◌^◌, ◌<◌, ◌≡◌, ap, List, [], ◌∷◌, ◌++◌, joined, joined-append, appended-joined, length,
  Outcome, Method, ok, ◌>>=◌, ◌>>◌,
}
use xiu.Prelude.Words.{Bytes, big_endian, encode}
use xiu.Bytesio.Reader.{BytesReader, ReadError, read_u32, read_bytes}
use xiu.Bytesio.Reader.Laws.{read_uint-encode, read_bytes_append}
use xiu.Bytesio.Writer.{BytesWriter, WriteError, write_uint, write, extract_current_bytes}
use xiu.Rtp.Report.{RtcpHeader, unmarshal_header, marshal_header, write_marshalled}
use xiu.Rtp.ReportRoundTrip.{
  IsValidHeader, header_parts, marshal_header-header_parts, unmarshal_header-header_parts,
}

pub record RtcpApp : Type 0 where
  pub header : RtcpHeader
  pub ssrc : ℕ
  pub name : Bytes
  pub app_data : Bytes

unfoldable pub unmarshal_app : Method BytesReader ReadError RtcpApp
unmarshal_app = do
  header ← unmarshal_header
  ssrc ← read_u32 big_endian
  name ← read_bytes 4
  app_data ← read_bytes (header.length_field * 4)
  ok (record { header = header; ssrc = ssrc; name = name; app_data = app_data })

unfoldable pub marshal_app : RtcpApp → Outcome BytesWriter WriteError Bytes
marshal_app a =
    (do
      write_marshalled (marshal_header a.header)
      write_uint big_endian 4 a.ssrc
      write a.name
      write a.app_data
      extract_current_bytes)
      []

-- The fields fit, and the length counts the words of the data alone.
pub record IsValid (a : RtcpApp) : Type 0 where
  pub header : IsValidHeader a.header
  pub ssrc : a.ssrc < 256 ^ 4
  pub name : length a.name ≡ 4
  pub app_data : length a.app_data ≡ a.header.length_field * 4

abbrev app_parts : RtcpApp → List Bytes
app_parts a =
    joined (header_parts a.header) [] ∷ encode big_endian 4 a.ssrc ∷ a.name ∷ a.app_data ∷ []

marshal_app-app_parts : (a : RtcpApp) → marshal_app a ≡ ok (joined (app_parts a) []) []
unfolding marshal_app write_uint
marshal_app-app_parts a =
    rw (marshal_header-header_parts a.header)
      (ap (λ bs. ok bs []) (appended-joined [] (app_parts a)))

unmarshal_app-app_parts :
    (a : RtcpApp) (rest : Bytes)
    → IsValid a
    → unmarshal_app (joined (app_parts a) [] ++ rest) ≡ ok a rest
unfolding unmarshal_app
unmarshal_app-app_parts a rest v = rw (
  joined-append (app_parts a) rest,
  joined-append (header_parts a.header)
      (encode big_endian 4 a.ssrc ++ (a.name ++ (a.app_data ++ rest))),
  unmarshal_header-header_parts a.header _ v.header,
  read_uint-encode big_endian 4 a.ssrc _ v.ssrc,
  read_bytes_append 4 a.name (a.app_data ++ rest) v.name,
  read_bytes_append (a.header.length_field * 4) a.app_data rest v.app_data,
)

-- An application packet whose fields fit, with a name of four bytes and a length that counts the
-- words of its data alone, is marshalled to bytes from which `unmarshal` reads the same packet,
-- whatever follows.
pub unmarshal_app-marshal_app :
    (a : RtcpApp) (rest : Bytes)
    → IsValid a
    → (bs : Bytes) × (marshal_app a ≡ ok bs []) × (unmarshal_app (bs ++ rest) ≡ ok a rest)
unmarshal_app-marshal_app a rest v =
    (joined (app_parts a) [], marshal_app-app_parts a, unmarshal_app-app_parts a rest v)
