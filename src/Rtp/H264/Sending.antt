-- ===== src/Rtp/H264/Sending.antt =====
-- One RTP packet, from the packer's handler to the unpacker.
use xiu.Prelude.{
  ℕ, ◌+◌, ◌%◌, ◌^◌, ◌<◌, ◌≡◌, List, [], ◌∷◌, ◌++◌, Bool, true, false, ◌==◌, if◌then◌else◌, none,
  some, Outcome, Method, ok, err, panic, stuck, ◌>>◌, arith,
}
use xiu.Prelude.Words.{Bytes}
use xiu.Bytesio.Reader.{extract_remaining_bytes}
use xiu.Bytesio.Writer.{BytesWriter, WriteError}
use xiu.Hub.Define.{FrameData}
use xiu.Rtp.Header.{RtpHeader, IsValid, unmarshal-marshal}
use xiu.Rtp.Packet.{RtpPacket, new_packet, marshal_packet, unmarshal_packet, read_body}
use xiu.Rtp.H264.Packer.{Packer, PackerError, bytes_write_error}
use xiu.Rtp.H264.Unpacker.{UnPackerError, UnPacker, unpack, unpack_payload}

-- A header without an extension or padding, as the packer's.
pub record IsPlain (h : RtpHeader) : Type 0 where
  pub valid : IsValid h
  pub no_extension : h.extension_flag ≡ 0
  pub no_padding : h.padding_flag ≡ 0

abbrev pub Sender : Type 0
Sender = Packer (List Bytes)

abbrev pub bump : RtpHeader → RtpHeader
bump h = record h { seq_number = (h.seq_number + 1) % 2 ^ 16 }

abbrev pub marked : RtpHeader → Bool → RtpHeader
marked h b = record h { marker = if b then 1 else 0 }

pub retouched :
    (h : RtpHeader) (m s t : ℕ)
    → IsPlain h
    → m < 2
    → s < 256 ^ 2
    → t < 256 ^ 4
    → IsPlain (record h { marker = m; seq_number = s; timestamp = t })
retouched h m s t v a b c = record {
  valid = record {
    version = v.valid.version;
    padding_flag = v.valid.padding_flag;
    extension_flag = v.valid.extension_flag;
    cc = v.valid.cc;
    marker = a;
    payload_type = v.valid.payload_type;
    seq_number = b;
    timestamp = c;
    ssrc = v.valid.ssrc;
    csrcs = v.valid.csrcs;
    count = v.valid.count;
  };
  no_extension = v.no_extension;
  no_padding = v.no_padding;
}

pub marked-IsPlain : (h : RtpHeader) (b : Bool) → IsPlain h → IsPlain (marked h b)
marked-IsPlain h true v =
    retouched h 1 h.seq_number h.timestamp v (omega arith) v.valid.seq_number v.valid.timestamp
marked-IsPlain h false v =
    retouched h 0 h.seq_number h.timestamp v (omega arith) v.valid.seq_number v.valid.timestamp

pub bump-IsPlain : (h : RtpHeader) → IsPlain h → IsPlain (bump h)
bump-IsPlain h v =
    retouched h h.marker ((h.seq_number + 1) % 2 ^ 16) h.timestamp v v.valid.marker (omega arith)
      v.valid.timestamp

abbrev pub packet_with : RtpHeader → Bytes → RtpPacket
packet_with h payload = record (new_packet h) { payload = payload }

off : (x : ℕ) → x ≡ 0 → x == 1 ≡ false
off x e = ground arith

pub unmarshal_packet-marshal_packet_plain :
    (h : RtpHeader) (payload : Bytes)
    → IsPlain h
    → (bs : Bytes) × (marshal_packet (packet_with h payload) ≡ ok bs [])
      × (unmarshal_packet bs ≡ ok (packet_with h payload) [])
unfolding marshal_packet unmarshal_packet read_body extract_remaining_bytes
unmarshal_packet-marshal_packet_plain h payload v =
    let (bs, wrote, read) = unmarshal-marshal h payload v.valid in
    (
      bs ++ payload,
      rw (wrote, off h.extension_flag v.no_extension, off h.padding_flag v.no_padding),
      rw (read, off h.extension_flag v.no_extension, off h.padding_flag v.no_padding),
    )

-- What the sessions do with a packet: it is marshalled and sent. The world is what was sent.
abbrev pub transmitted :
    Outcome BytesWriter WriteError Bytes → Method (List Bytes) PackerError (Unit {0})
transmitted (ok bs left) w = ok tt (w ++ bs ∷ [])
transmitted (err e left) w = err (bytes_write_error e) w
transmitted panic w = panic
transmitted stuck w = stuck

abbrev pub transmit : RtpPacket → Method (List Bytes) PackerError (Unit {0})
transmit packet = transmitted (marshal_packet packet)

-- The frames that come are kept.
abbrev pub keep_frame : FrameData → Method (List FrameData) UnPackerError (Unit {0})
keep_frame frame w = ok tt (w ++ frame ∷ [])

abbrev pub Receiver : Type 0
Receiver = UnPacker (List FrameData)

-- `unpack` for each packet that was sent.
unfoldable pub unpack_all : List Bytes → Method Receiver UnPackerError (Unit {0})
unfolding unpack
unpack_all [] = ok tt
unpack_all (bs ∷ more) = unpack (some keep_frame) none bs >> unpack_all more

abbrev pub at_packet : RtpHeader → Receiver → Receiver
at_packet h u = record u { timestamp = h.timestamp; sequence_number = h.seq_number }

-- A plain packet goes out and is unpacked as its payload.
pub transmit-unpack :
    (h : RtpHeader) (payload : Bytes)
    → IsPlain h
    → (bs : Bytes) × ((w : List Bytes) → transmit (packet_with h payload) w ≡ ok tt (w ++ bs ∷ []))
      × ((u : Receiver)
          → unpack (some keep_frame) none bs u
            ≡ unpack_payload (some keep_frame) none payload (at_packet h u))
unfolding unpack
transmit-unpack h payload v =
    let (bs, wrote, read) = unmarshal_packet-marshal_packet_plain h payload v in
    (bs, λ w. rw wrote, λ u. rw read)
