-- ===== src/Rtp/H264/RoundTrip.antt =====
-- A whole frame in Annex B, from the packer to the unpacker.
use xiu.Prelude.{
  ℕ, ◌+◌, ◌%◌, ◌^◌, ◌<◌, ◌≡◌, refl, ap, ◌∙◌, List, [], ◌∷◌, ◌++◌, map, Bool, none, some, length,
  All, ok, ◌>>◌,
}
use xiu.Prelude.Words.{Bytes}
use xiu.Rtp.H264.Packer.{pack_nalu, pack}
use xiu.Rtp.H264.Sending.{IsPlain, retouched, Sender, transmit, Receiver, unpack_all}
use xiu.Rtp.H264.Delivery.{IsUnit, frame, pack_units, pack_units-Delivered}
use xiu.Rtp.H264.AnnexB.{annexb, IsSeparable, each, split_annexb_and_process-annexb}

abbrev pub units_of : List (Bool × Bytes) → List Bytes
units_of [] = []
units_of ((long, unit) ∷ units) = unit ∷ units_of units

each-pack_units :
    (units : List (Bool × Bytes))
    → each (pack_nalu (some transmit) none) units ≡ pack_units (units_of units)
each-pack_units [] = refl
each-pack_units ((long, unit) ∷ units) =
    ap (λ m. pack_nalu (some transmit) none unit >> m) (each-pack_units units)

abbrev at_time : ℕ → Sender → Sender
at_time time p = record p { header = record (p.header) { timestamp = time } }

-- A frame in Annex B, of units that hold no start code, do not end in a 0 and have a type from 1 to 23, is
-- packed for a handler that marshals each packet and sends it, with an `mtu` above 14 and a header
-- whose fields fit, without extension and padding. The packets have consecutive sequence numbers,
-- and an `RtpH264UnPacker` that has no fragments of another unit makes of them exactly the units of
-- the frame, in order, each behind a start code of four bytes and with the time of the frame.
pub unpack_all-pack :
    (units : List (Bool × Bytes)) (time : ℕ) (p : Sender)
    → All IsSeparable units
    → All IsUnit (units_of units)
    → 14 < p.mtu
    → IsPlain p.header
    → time < 256 ^ 4
    → (p' : Sender) × (bss : List Bytes) × (pack (some transmit) none (annexb units) time p
        ≡ ok tt p')
      × (p'.world ≡ p.world ++ bss)
      × (p'.header.seq_number ≡ (p.header.seq_number + length bss) % 2 ^ 16)
      × ((u : Receiver)
          → u.fu_buffer ≡ []
          → (u' : Receiver) × (unpack_all bss u ≡ ok tt u')
            × (u'.fu_buffer ≡ [])
            × (u'.world ≡ u.world ++ map (frame time) (units_of units)))
unfolding pack
unpack_all-pack units time p s h m v t =
    let plain =
      retouched p.header p.header.marker p.header.seq_number time v v.valid.marker
        v.valid.seq_number t in
    let (p', bss, run, d) = pack_units-Delivered (units_of units) (at_time time p) h m plain in
    (
      p',
      bss,
      split_annexb_and_process-annexb (pack_nalu (some transmit) none) units (at_time time p) s
          ∙ (rw (each-pack_units units) run),
      d.sent,
      d.numbers,
      d.unpacked,
    )
