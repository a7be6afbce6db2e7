-- ===== src/Rtp/H264/Aggregates.antt =====
-- Packets of several units.
use xiu.Prelude.{
  ℕ, zero, suc, ◌+◌, ◌^◌, ◌≤◌, ◌<◌, ◌≡◌, ◌≢◌, refl, ap, ◌∙◌, List, [], ◌∷◌, ◌++◌, append-nil,
  append_assoc, map, true, false, ◌==◌, ◌*◌, ◌⊎◌, inl, inr, ◌&&◌, ◌||◌, leb, bit_and, Option,
  Method, ◌>>◌, none, some, length, length-append, All, ok, panic, arith,
}
use xiu.Prelude.Words.{Bytes, big_endian, encode, decode, from_be, length-encode}
use xiu.Bytesio.Reader.{read_uint, read_u16, read_bytes}
use xiu.Bytesio.Reader.Laws.{read_u8-cons, read_uint-encode, read_bytes_append}
use xiu.Hub.Define.{FrameData}
use xiu.Rtp.Packet.{RtpPacket}
use xiu.Rtp.H264.Unpacker.{
  UnPackerError, UnPacker, reading, emit, unpack_payload, unpack_stap, stap_loop, unpack_mtap,
  mtap_loop, mtap_unit,
}
use xiu.Rtp.H264.Sending.{keep_frame, Receiver}
use xiu.Rtp.H264.Delivery.{frame}

-- Units with their lengths in front, as in STAP-A.
unfoldable pub stap_units : List Bytes → Bytes
stap_units [] = []
stap_units (unit ∷ units) = encode big_endian 2 (length unit) ++ (unit ++ stap_units units)

stap_step :
    (fuel : ℕ) (bs : Bytes) (u : Receiver)
    → 0 < length bs
    → stap_loop (some keep_frame) none (suc fuel) bs u
      ≡ reading
          (some keep_frame)
          none
          (read_u16 big_endian bs)
          (λ n left. reading (some keep_frame) none (read_bytes n left) (λ nalu more.
            emit (some keep_frame) none nalu >> stap_loop (some keep_frame) none fuel more))
          u
unfolding stap_loop
stap_step fuel [] u h = absurd (omega arith)
stap_step fuel (b ∷ bs) u h = refl

loop_step :
    (fuel : ℕ) (unit rest : Bytes) (u : Receiver)
    → length unit < 256 ^ 2
    → stap_loop
        (some keep_frame)
        none
        (suc fuel)
        (encode big_endian 2 (length unit) ++ (unit ++ rest))
        u
      ≡ stap_loop
          (some keep_frame)
          none
          fuel
          rest
          (record u { world = u.world ++ frame u.timestamp unit ∷ [] })
loop_step fuel unit rest u h =
    stap_step fuel (encode big_endian 2 (length unit) ++ (unit ++ rest)) u (
      omega (
        arith,
        length-append (encode big_endian 2 (length unit)) (unit ++ rest),
        length-encode big_endian 2 (length unit),
      ))
    ∙ (rw (
      read_uint-encode big_endian 2 (length unit) (unit ++ rest) h,
      read_bytes_append (length unit) unit rest refl,
    ))

-- The frames of a packet of units.
abbrev with_frames : List Bytes → Receiver → Receiver
with_frames units u = record u { world = u.world ++ map (frame u.timestamp) units }

size :
    (unit : Bytes) (units : List Bytes)
    → length (stap_units (unit ∷ units)) ≡ 2 + (length unit + length (stap_units units))
unfolding stap_units
size unit units = omega (
  arith,
  length-append (encode big_endian 2 (length unit)) (unit ++ stap_units units),
  length-encode big_endian 2 (length unit),
  length-append unit (stap_units units),
)

loop-stap_units :
    (units : List Bytes) (fuel : ℕ) (u : Receiver)
    → All (λ unit. length unit < 256 ^ 2) units
    → length (stap_units units) ≤ fuel
    → stap_loop (some keep_frame) none fuel (stap_units units) u ≡ ok tt (with_frames units u)
unfolding stap_units
loop-stap_units [] zero u h l = unfold stap_loop in rw (append-nil u.world)
loop-stap_units [] (suc fuel) u h l = unfold stap_loop in rw (append-nil u.world)
loop-stap_units (unit ∷ units) zero u h l = absurd (omega (arith, size unit units))
loop-stap_units (unit ∷ units) (suc fuel) u (h, hs) l =
    loop_step fuel unit (stap_units units) u h
    ∙ loop-stap_units units fuel (record u { world = u.world ++ frame u.timestamp unit ∷ [] }) hs
        (omega (arith, size unit units))
    ∙ ap (λ w. ok tt (record u { world = w }))
        (append_assoc u.world (frame u.timestamp unit ∷ []) (map (frame u.timestamp) units))

-- A packet of units behind their lengths, whose first byte is not 25, is unpacked as these units, in
-- order, each behind a start code.
pub unpack_stap-stap_units :
    (hdr t : ℕ) (units : List Bytes) (u : Receiver)
    → All (λ unit. length unit < 256 ^ 2) units
    → t ≢ 25
    → unpack_stap (some keep_frame) none (hdr ∷ stap_units units) t u ≡ ok tt (with_frames units u)
unfolding unpack_stap
unpack_stap-stap_units hdr t units u h n =
    rw (read_u8-cons hdr (stap_units units), other t n)
      (loop-stap_units units (length (stap_units units)) u h (omega arith))
  where
    other : (t : ℕ) → t ≢ 25 → t == 25 ≡ false
    other t n = ground arith

two_read : (a b : ℕ) (rest : Bytes) → read_u16 big_endian (a ∷ b ∷ rest) ≡ ok (a * 256 + b) rest
unfolding read_uint decode from_be
two_read a b rest = rw (read_bytes_append 2 (a ∷ b ∷ []) rest refl) (ground arith)

not_mtap : (b t : ℕ) → 32 ≤ b → t < 32 → b == t ≡ false
not_mtap b t h l = ground arith

mtap_types :
    (t : ℕ)
    → (t ≡ 26) ⊎ (t ≡ 27)
    → (leb 1 t && leb t 23 ≡ false)
      × ((t == 24) || (t == 25) ≡ false)
      × ((t == 26) || (t == 27) ≡ true)
mtap_types t (inl e) = rw e (refl, refl, refl)
mtap_types t (inr e) = rw e (refl, refl, refl)

module _ {World : Type 0}
    (on_frame_handler : Option (FrameData → Method World UnPackerError (Unit {0})))
    (on_packet_for_rtcp_handler : Option (RtpPacket → World → World)) where
  -- A packet of type MTAP16 or MTAP24 whose first byte has a bit above the type (an NRI that is not
  -- 0), with the three bytes of its header and those of a unit's size and order, is a panic: the type
  -- is compared with the whole byte, so that no time offset is read, and the assertion that it is
  -- not 0 fails.
  pub unpack_payload-mtap :
      (b d₁ d₂ s₁ s₂ dond : ℕ) (rest : Bytes) (u : UnPacker World)
      → (bit_and b 0x1f ≡ 26) ⊎ (bit_and b 0x1f ≡ 27)
      → 32 ≤ b
      → unpack_payload on_frame_handler on_packet_for_rtcp_handler
          (b ∷ d₁ ∷ d₂ ∷ s₁ ∷ s₂ ∷ dond ∷ rest)
          u
        ≡ panic
  unfolding unpack_payload unpack_mtap mtap_loop mtap_unit
  unpack_payload-mtap b d₁ d₂ s₁ s₂ dond rest u e h =
      let (f, g, k) = mtap_types (bit_and b 0x1f) e in
      rw (
        f,
        g,
        k,
        read_u8-cons b (d₁ ∷ d₂ ∷ s₁ ∷ s₂ ∷ dond ∷ rest),
        two_read d₁ d₂ (s₁ ∷ s₂ ∷ dond ∷ rest),
        two_read s₁ s₂ (dond ∷ rest),
        read_u8-cons dond rest,
        not_mtap b 26 h (omega arith),
        not_mtap b 27 h (omega arith),
      )
