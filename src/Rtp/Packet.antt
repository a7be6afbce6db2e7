-- ===== src/Rtp/Packet.antt =====
-- protocol/rtsp/src/rtp/mod.rs: `RtpPacket`.
use xiu.Prelude.{
  ℕ, ◌-◌, ◌*◌, [], Bool, ltb, ◌==◌, if◌then◌else◌, length, Outcome, Method, ok, panic, ◌>>=◌, ◌>>◌,
}
use xiu.Prelude.Words.{Bytes, big_endian}
use xiu.Bytesio.Reader.{BytesReader, ReadError, read_bytes, read_u16, get, extract_remaining_bytes}
use xiu.Bytesio.Writer.{BytesWriter, WriteError, write_uint, write, extract_current_bytes}
use xiu.Rtp.Header.{RtpHeader, unmarshal, marshal}
use xiu.Rtp.Report.{write_marshalled}

pub record RtpPacket : Type 0 where
  pub header : RtpHeader
  pub header_extension_profile : ℕ
  pub header_extension_length : ℕ
  pub header_extension_payload : Bytes
  pub payload : Bytes
  pub padding : Bytes

abbrev pub new_packet : RtpHeader → RtpPacket
new_packet header = record {
  header = header;
  header_extension_profile = 0;
  header_extension_length = 0;
  header_extension_payload = [];
  payload = [];
  padding = [];
}

abbrev ReadPacket : Type 0
ReadPacket = Method BytesReader ReadError RtpPacket

unfoldable pub read_extension : RtpPacket → ReadPacket
read_extension p = do
  profile ← read_u16 big_endian
  words ← read_u16 big_endian
  extension ← read_bytes (4 * words)
  ok (record p {
    header_extension_profile = profile;
    header_extension_length = words;
    header_extension_payload = extension;
  })

-- The last byte says how many bytes of padding there are, itself included. `reader.len() - 1` and
-- `reader.len() - padding_length` are panics below 0.
unfoldable pub split_padding : ℕ → RtpPacket → ReadPacket
split_padding padding_length p reader =
    let split = (do
      payload ← read_bytes (length reader - padding_length)
      padding ← read_bytes padding_length
      ok (record p { payload = payload; padding = padding })) in
    if ltb (length reader) padding_length then panic else split reader

unfoldable pub read_padded : RtpPacket → ReadPacket
unfolding split_padding
read_padded p reader =
    let split = (get (length reader - 1) >>= λ padding_length. split_padding padding_length p) in
    if length reader == 0 then panic else split reader

unfoldable pub read_body : RtpPacket → ReadPacket
unfolding read_padded
read_body p =
    if p.header.padding_flag == 1
    then read_padded p
    else (extract_remaining_bytes >>= λ payload. ok (record p { payload = payload }))

unfoldable pub unmarshal_packet : ReadPacket
unfolding read_extension read_body
unmarshal_packet = do
  header ← unmarshal
  p ←
      if header.extension_flag == 1
      then read_extension (new_packet header)
      else ok (new_packet header)
  read_body p

abbrev Write : Type 0
Write = Method BytesWriter WriteError (Unit {0})

abbrev write_if : Bool → Write → Write
write_if b m = if b then m else ok tt

unfoldable pub marshal_packet : RtpPacket → Outcome BytesWriter WriteError Bytes
marshal_packet p =
    (do
      write_marshalled (marshal p.header)
      write_if (p.header.extension_flag == 1) (
          write_uint big_endian 2 p.header_extension_profile
          >> (write_uint big_endian 2 p.header_extension_length
              >> write p.header_extension_payload))
      write p.payload
      write_if (p.header.padding_flag == 1) (write p.padding)
      extract_current_bytes)
      []
