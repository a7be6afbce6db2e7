-- ===== src/Rtp/H264/Packer.antt =====
-- protocol/rtsp/src/rtp/rtp_h264.rs: `RtpH264Packer`. The two handlers are parameters, with the world
-- that they change, which `io` is a part of.
use xiu.Prelude.{
  ℕ, zero, suc, ◌+◌, ◌-◌, ◌%◌, ◌^◌, [], ◌∷◌, leb, ltb, if◌then◌else◌, bit_and, bit_or, Option, none,
  some, length, Outcome, Method, ok, err, panic, stuck, ◌>>◌, zoom,
}
use xiu.Prelude.Words.{Bytes}
use xiu.Bytesio.Reader.{BytesReader, ReadError, read_bytes, read_u8}
use xiu.Bytesio.Writer.{WriteError}
use xiu.Rtp.Header.{RtpHeader}
use xiu.Rtp.Packet.{RtpPacket, new_packet}
use xiu.Rtp.H264.{
  fu_a, fu_start, fu_end, rtp_fixed_header_len, is_fu_start, is_fu_end, split_annexb_and_process,
}

pub data PackerError : Type 0 where
  bytes_read_error : ReadError → PackerError
  bytes_write_error : WriteError → PackerError

pub record Packer (World : Type 0) : Type 0 where
  pub header : RtpHeader
  pub mtu : ℕ
  pub world : World

abbrev pub new_header : ℕ → ℕ → ℕ → RtpHeader
new_header payload_type ssrc init_seq = record {
  version = 2;
  padding_flag = 0;
  extension_flag = 0;
  cc = 0;
  marker = 0;
  payload_type = payload_type;
  seq_number = init_seq;
  timestamp = 0;
  ssrc = ssrc;
  csrcs = [];
}

module _ {World : Type 0}
    (on_packet_handler : Option (RtpPacket → Method World PackerError (Unit {0})))
    (on_packet_for_rtcp_handler : Option (RtpPacket → World → World)) where
  abbrev pub Pack : Type 0
  Pack = Method (Packer World) PackerError (Unit {0})

  abbrev pub tell_rtcp : Option (RtpPacket → World → World) → RtpPacket → Pack
  tell_rtcp none packet p = ok tt p
  tell_rtcp (some f) packet p = ok tt (record p { world = f packet p.world })

  abbrev pub hand_over : Option (RtpPacket → Method World PackerError (Unit {0})) → RtpPacket → Pack
  hand_over none packet = ok tt
  hand_over (some f) packet =
      zoom (λ (p : Packer World). p.world) (λ p w. record p { world = w }) (λ e. e) (f packet)

  abbrev pub next_seq : Pack
  next_seq p =
      ok tt (record p {
        header = record (p.header) { seq_number = (p.header.seq_number + 1) % 2 ^ 16 };
      })

  -- The start bit is left out of the later fragments.
  abbrev pub clear_start : ℕ → ℕ
  clear_start fu_header = if is_fu_start fu_header then bit_and fu_header 0x7f else fu_header

  -- One fragment, with the bytes that were read for it.
  abbrev pub fragment : ℕ → ℕ → Bytes → RtpHeader → RtpPacket
  fragment fu_indicator fu_header fu_payload header =
      let marker : ℕ = if is_fu_end (clear_start fu_header) then 1 else 0 in
      record (new_packet (record header { marker = marker })) {
        payload = fu_indicator ∷ fu_header ∷ fu_payload;
      }

  unfoldable pub send_fragment :
      (ℕ → Bytes → Pack) → ℕ → ℕ → Outcome BytesReader ReadError Bytes → Pack
  unfolding is_fu_start is_fu_end
  send_fragment next fu_indicator fu_header (ok fu_payload left) = λ p.
      let packet = fragment fu_indicator fu_header fu_payload p.header in
      (do
        tell_rtcp on_packet_for_rtcp_handler packet
        hand_over on_packet_handler packet
        next_seq
        next (clear_start fu_header) left)
        p
  send_fragment next fu_indicator fu_header (err e left) = err (bytes_read_error e)
  send_fragment next fu_indicator fu_header panic = λ p. panic
  send_fragment next fu_indicator fu_header stuck = λ p. stuck

  -- The body of the loop, on the bytes of the unit that are left.
  unfoldable pub fu_round : (ℕ → Bytes → Pack) → ℕ → ℕ → Bytes → Pack
  unfolding send_fragment
  fu_round next byte_1st fu_header left p =
      let fu_indicator = bit_or (bit_and byte_1st 0xe0) fu_a in
      let last =
        send_fragment next fu_indicator (bit_or (bit_and byte_1st 0x1f) fu_end)
          (read_bytes (length left) left) p in
      let inner =
        send_fragment next fu_indicator fu_header
          (read_bytes (p.mtu - rtp_fixed_header_len - 2) left) p in
      if ltb p.mtu 2
      then panic
      else if leb (length left + rtp_fixed_header_len) (p.mtu - 2)
      then last
      else if ltb p.mtu (rtp_fixed_header_len + 2)
      then panic
      else inner

  -- `while left_nalu_bytes > 0 { … }`; with an `mtu` above 14 a round takes a byte at least.
  unfoldable pub fu_loop : ℕ → ℕ → ℕ → Bytes → Pack
  unfolding fu_round
  fu_loop fuel byte_1st fu_header [] = ok tt
  fu_loop zero byte_1st fu_header (b ∷ bs) = λ p. stuck
  fu_loop (suc fuel) byte_1st fu_header (b ∷ bs) =
      fu_round (fu_loop fuel byte_1st) byte_1st fu_header (b ∷ bs)

  abbrev pub fu_start_with : Outcome BytesReader ReadError ℕ → Pack
  fu_start_with (ok byte_1st left) =
      fu_loop (length left) byte_1st (bit_or (bit_and byte_1st 0x1f) fu_start) left
  fu_start_with (err e left) = err (bytes_read_error e)
  fu_start_with panic = λ p. panic
  fu_start_with stuck = λ p. stuck

  unfoldable pub pack_fu_a : Bytes → Pack
  unfolding fu_loop
  pack_fu_a nalu = fu_start_with (read_u8 nalu)

  unfoldable pub pack_single : Bytes → Pack
  pack_single nalu = λ p.
      let packet = record (new_packet (record (p.header) { marker = 1 })) { payload = nalu } in
      (do next_seq; tell_rtcp on_packet_for_rtcp_handler packet; hand_over on_packet_handler packet)
        p

  unfoldable pub pack_nalu : Bytes → Pack
  unfolding pack_fu_a pack_single
  pack_nalu nalu = λ p.
      if leb (length nalu + rtp_fixed_header_len) p.mtu
      then pack_single nalu p
      else pack_fu_a nalu p

  unfoldable pub pack : Bytes → ℕ → Pack
  unfolding pack_nalu split_annexb_and_process
  pack nalus timestamp = λ p.
      split_annexb_and_process pack_nalu nalus
        (record p { header = record (p.header) { timestamp = timestamp } })
