-- ===== src/Rtp/H264/Unpacker.antt =====
-- protocol/rtsp/src/rtp/rtp_h264.rs: `RtpH264UnPacker`. The two handlers are parameters, with the
-- world that they change.
use xiu.Prelude.{
  ℕ, zero, suc, ◌+◌, ◌-◌, [], ◌∷◌, ◌++◌, leb, ltb, ◌==◌, ◌&&◌, ◌||◌, if◌then◌else◌, bit_and, bit_or,
  Option, none, some, length, Outcome, Method, ok, err, panic, stuck, ◌>>◌, zoom,
}
use xiu.Prelude.Words.{Bytes, big_endian}
use xiu.Bytesio.Reader.{BytesReader, ReadError, read_bytes, read_u8, read_u16, read_u24}
use xiu.Hub.Define.{FrameData, video_frame}
use xiu.Rtp.Packet.{RtpPacket, unmarshal_packet}
use xiu.Rtp.H264.{
  annexb_nalu_start_code, stap_a, stap_b, mtap_16, mtap_24, fu_a, fu_b, is_fu_start, is_fu_end,
}

pub data UnPackerError : Type 0 where
  bytes_read_error : ReadError → UnPackerError
  handler_error : UnPackerError

pub record UnPacker (World : Type 0) : Type 0 where
  pub sequence_number : ℕ
  pub timestamp : ℕ
  pub fu_buffer : Bytes
  pub world : World

abbrev pub new : {World : Type 0} → World → UnPacker World
new w = record { sequence_number = 0; timestamp = 0; fu_buffer = []; world = w }

module _ {World : Type 0}
    (on_frame_handler : Option (FrameData → Method World UnPackerError (Unit {0})))
    (on_packet_for_rtcp_handler : Option (RtpPacket → World → World)) where
  abbrev pub Unpack : Type 0
  Unpack = Method (UnPacker World) UnPackerError (Unit {0})

  abbrev pub hand_frame :
      Option (FrameData → Method World UnPackerError (Unit {0})) → FrameData → Unpack
  hand_frame none frame = ok tt
  hand_frame (some f) frame =
      zoom (λ (u : UnPacker World). u.world) (λ u w. record u { world = w }) (λ e. e) (f frame)

  -- A unit goes out behind a start code, with the time of the last packet.
  abbrev pub emit : Bytes → Unpack
  emit nalu u =
      hand_frame on_frame_handler (video_frame u.timestamp (annexb_nalu_start_code ++ nalu)) u

  -- `reader.…()?` on a reader of the method's own, and what is done with the value and the reader.
  abbrev pub reading :
      {A : Type 0} → Outcome BytesReader ReadError A → (A → Bytes → Unpack) → Unpack
  reading (ok a left) f = f a left
  reading (err e left) f = err (bytes_read_error e)
  reading panic f = λ u. panic
  reading stuck f = λ u. stuck

  unfoldable pub unpack_single : Bytes → Unpack
  unpack_single payload = emit payload

  abbrev pub put : Bytes → Unpack
  put bytes u = ok tt (record u { fu_buffer = u.fu_buffer ++ bytes })

  -- `put` of what is left, and the unit if it is complete.
  unfoldable pub end_fu : ℕ → Bytes → Unpack
  end_fu fu_header left = λ u.
      let buffer = u.fu_buffer ++ left in
      if is_fu_end fu_header
      then emit buffer (record u { fu_buffer = [] })
      else ok tt (record u { fu_buffer = buffer })

  unfoldable pub rest_fu : ℕ → ℕ → Bytes → Unpack
  unfolding end_fu
  rest_fu fu_indicator fu_header left = λ u.
      if is_fu_start fu_header
      then (put (bit_or (bit_and fu_indicator 0xe0) (bit_and fu_header 0x1f) ∷ [])
            >> end_fu fu_header left)
          u
      else end_fu fu_header left u

  -- The decoding order number of FU-B is read and dropped.
  unfoldable pub unpack_fu : Bytes → ℕ → Unpack
  unfolding rest_fu
  unpack_fu rtp_payload t = reading (read_u8 rtp_payload) λ fu_indicator bs.
      reading (read_u8 bs) λ fu_header cs.
        if t == fu_b
        then reading (read_u16 big_endian cs) (λ don left. rest_fu fu_indicator fu_header left)
        else rest_fu fu_indicator fu_header cs

  -- `while !payload_reader.is_empty() { … }`; a round takes two bytes at least.
  unfoldable pub stap_loop : ℕ → Bytes → Unpack
  stap_loop fuel [] = ok tt
  stap_loop zero (b ∷ bs) = λ u. stuck
  stap_loop (suc fuel) (b ∷ bs) =
      reading (read_u16 big_endian (b ∷ bs))
        λ n left. reading (read_bytes n left) λ nalu more. emit nalu >> stap_loop fuel more

  unfoldable pub unpack_stap : Bytes → ℕ → Unpack
  unfolding stap_loop
  unpack_stap rtp_payload t = reading (read_u8 rtp_payload) λ hdr bs.
      if t == stap_b
      then reading (read_u16 big_endian bs) (λ don left. stap_loop (length left) left)
      else stap_loop (length bs) bs

  -- The offset of the time and its bytes; by a type that is no MTAP it is 0.
  abbrev pub read_offset : ℕ → Bytes → (ℕ → ℕ → Bytes → Unpack) → Unpack
  read_offset t bs f =
      if t == mtap_16
      then reading (read_u16 big_endian bs) (λ ts left. f ts 2 left)
      else if t == mtap_24
      then reading (read_u24 big_endian bs) (λ ts left. f ts 3 left)
      else f 0 0 bs

  -- `assert!(ts != 0)`, then the unit, whose size is too small for the subtraction or not.
  unfoldable pub mtap_unit : (Bytes → Unpack) → ℕ → ℕ → ℕ → Bytes → Unpack
  mtap_unit next nalu_size ts ts_bytes left = λ u.
      if ts == 0
      then panic
      else if ltb nalu_size (ts_bytes + 1)
      then panic
      else reading (read_bytes (nalu_size - ts_bytes - 1) left)
          (λ nalu more. emit nalu >> next more) u

  unfoldable pub mtap_loop : ℕ → ℕ → Bytes → Unpack
  unfolding mtap_unit
  mtap_loop fuel t [] = ok tt
  mtap_loop zero t (b ∷ bs) = λ u. stuck
  mtap_loop (suc fuel) t (b ∷ bs) = reading (read_u16 big_endian (b ∷ bs)) λ nalu_size cs.
      reading (read_u8 cs) λ dond ds.
        read_offset t ds λ ts ts_bytes left. mtap_unit (mtap_loop fuel t) nalu_size ts ts_bytes left

  unfoldable pub unpack_mtap : Bytes → ℕ → Unpack
  unfolding mtap_loop
  unpack_mtap rtp_payload t =
      reading (read_u8 rtp_payload)
        λ hdr bs. reading (read_u16 big_endian bs) λ don left. mtap_loop (length left) t left

  -- The `match` on the type, which is that of the whole first byte in what it calls.
  unfoldable pub unpack_payload : Bytes → Unpack
  unfolding unpack_single unpack_fu unpack_stap unpack_mtap
  unpack_payload [] = ok tt
  unpack_payload (packet_type ∷ bs) =
      let t = bit_and packet_type 0x1f in
      let payload = packet_type ∷ bs in
      if leb 1 t && leb t 23
      then unpack_single payload
      else if (t == stap_a) || (t == stap_b)
      then unpack_stap payload packet_type
      else if (t == mtap_16) || (t == mtap_24)
      then unpack_mtap payload packet_type
      else if (t == fu_a) || (t == fu_b)
      then unpack_fu payload packet_type
      else ok tt

  abbrev pub told : Option (RtpPacket → World → World) → RtpPacket → World → World
  told none packet w = w
  told (some f) packet w = f packet w

  unfoldable pub unpack : Bytes → Unpack
  unfolding unpack_payload
  unpack reader = reading (unmarshal_packet reader) λ packet left. λ u.
      unpack_payload packet.payload (record u {
        timestamp = packet.header.timestamp;
        sequence_number = packet.header.seq_number;
        world = told on_packet_for_rtcp_handler packet u.world;
      })
