-- ===== src/Rtp/H264/Runs.antt =====
-- Runs of the packer and the unpacker.
use xiu.Prelude.{
  ◌+◌, ◌%◌, ◌^◌, ◌≡◌, refl, inl, List, [], ◌∷◌, ◌++◌, map, Bool, true, false, none, some, length,
  All, Method, ok, panic, arith,
}
use xiu.Prelude.Words.{Bytes}
use xiu.Bytesio.Writer.{WriteError}
use xiu.Rtp.H264.{find_start_code, split_annexb_and_process}
use xiu.Rtp.H264.Packer.{new_header, pack}
use xiu.Rtp.H264.Unpacker.{new, unpack_stap, unpack_payload}
use xiu.Rtp.H264.Sending.{IsPlain, Sender, transmit, keep_frame, Receiver, unpack_all}
use xiu.Rtp.H264.Delivery.{IsUnit, frame}
use xiu.Rtp.H264.AnnexB.{annexb, IsSeparable, each, split_annexb_and_process-annexb}
use xiu.Rtp.H264.RoundTrip.{units_of, unpack_all-pack}
use xiu.Rtp.H264.Aggregates.{stap_units, unpack_stap-stap_units, unpack_payload-mtap}

-- A parameter set, and a unit of thirteen bytes.
abbrev units : List (Bool × Bytes)
units =
    (true, 0x67 ∷ 1 ∷ 2 ∷ [])
    ∷ (false, 0x65 ∷ 1 ∷ 0 ∷ 0 ∷ 2 ∷ 3 ∷ 4 ∷ 5 ∷ 6 ∷ 7 ∷ 8 ∷ 9 ∷ 10 ∷ [])
    ∷ []

-- Six bytes of a unit go into a fragment.
abbrev sender : Sender
sender = record { header = new_header 96 7 65535; mtu = 20; world = [] }

-- A packer that only keeps what it is given.
abbrev collect : Bytes → Method (List Bytes) WriteError (Unit {0})
collect nalu w = ok tt (w ++ nalu ∷ [])

units-IsSeparable : All IsSeparable units
unfolding find_start_code
units-IsSeparable = ((refl, refl), ((refl, refl), tt))

units-IsUnit : All IsUnit (units_of units)
units-IsUnit = ((omega arith, refl), ((omega arith, refl), tt))

sender-IsPlain : IsPlain sender.header
sender-IsPlain = record {
  valid = record {
    version = omega arith;
    padding_flag = omega arith;
    extension_flag = omega arith;
    cc = omega arith;
    marker = omega arith;
    payload_type = omega arith;
    seq_number = omega arith;
    timestamp = omega arith;
    ssrc = omega arith;
    csrcs = tt;
    count = refl;
  };
  no_extension = refl;
  no_padding = refl;
}

unpack_all-pack_example :
    (p' : Sender) × (bss : List Bytes) × (pack (some transmit) none (annexb units) 90000 sender
      ≡ ok tt p')
    × (p'.world ≡ [] ++ bss)
    × (p'.header.seq_number ≡ (65535 + length bss) % 2 ^ 16)
    × ((u : Receiver)
        → u.fu_buffer ≡ []
        → (u' : Receiver) × (unpack_all bss u ≡ ok tt u')
          × (u'.fu_buffer ≡ [])
          × (u'.world ≡ u.world ++ map (frame 90000) (units_of units)))
unpack_all-pack_example =
    unpack_all-pack units 90000 sender units-IsSeparable units-IsUnit (omega arith) sender-IsPlain
      (omega arith)

split_annexb_and_process-annexb_example :
    split_annexb_and_process collect (annexb units) [] ≡ each collect units []
split_annexb_and_process-annexb_example =
    split_annexb_and_process-annexb collect units [] units-IsSeparable

unpack_stap-stap_units_example :
    unpack_stap (some keep_frame) none (0x78 ∷ stap_units (units_of units)) 0x78 (new [])
    ≡ ok tt (record (new []) { world = [] ++ map (frame 0) (units_of units) })
unpack_stap-stap_units_example =
    unpack_stap-stap_units 0x78 0x78 (units_of units) (new []) (omega arith, (omega arith, tt)) (cc)

unpack_payload-mtap_example :
    unpack_payload
      (some keep_frame)
      none
      (0x7a ∷ 0 ∷ 1 ∷ 0 ∷ 8 ∷ 0 ∷ 0 ∷ 9 ∷ 1 ∷ 2 ∷ 3 ∷ [])
      (new [])
    ≡ panic
unpack_payload-mtap_example =
    unpack_payload-mtap (some keep_frame) none 0x7a 0 1 0 8 0 (0 ∷ 9 ∷ 1 ∷ 2 ∷ 3 ∷ []) (new [])
      (inl refl) (omega arith)
