-- ===== src/Rtp/H264/Delivery.antt =====
-- A unit, and units one after the other, from the packer to the unpacker.
use xiu.Prelude.{
  ℕ, suc, ◌+◌, ◌%◌, ◌^◌, ◌<◌, ◌≡◌, refl, sym, ap, ◌∙◌, inl, inr, List, [], ◌∷◌, ◌++◌, append-nil,
  append_assoc, map, Bool-cases, true, false, Outcome, err, panic, stuck, after, ◌&&◌, leb, none,
  some, length, length-append, bit_and, All, ok, ◌>>◌, arith,
}
use xiu.Prelude.Words.{Bytes}
use xiu.Hub.Define.{FrameData, video_frame}
use xiu.Rtp.H264.{annexb_nalu_start_code}
use xiu.Rtp.H264.Packer.{PackerError, pack_nalu, pack_single, pack_fu_a}
use xiu.Rtp.H264.Unpacker.{UnPackerError, unpack, unpack_payload, unpack_single}
use xiu.Rtp.H264.Sending.{
  Sender, bump, marked-IsPlain, bump-IsPlain, IsPlain, transmit, keep_frame, Receiver, unpack_all,
  at_packet, transmit-unpack,
}
use xiu.Rtp.H264.Fragments.{Sent, done_with}
use xiu.Rtp.H264.Loop.{pack_fu_a-Sent}

-- A unit that has a byte, and a type that is sent as it is.
abbrev pub IsUnit : Bytes → Type 0
IsUnit [] = ⊥
IsUnit (b ∷ bs) = (b < 256) × (leb 1 (bit_and b 0x1f) && leb (bit_and b 0x1f) 23 ≡ true)

abbrev pub frame : ℕ → Bytes → FrameData
frame time unit = video_frame time (annexb_nalu_start_code ++ unit)

-- Packets were sent, with consecutive numbers, and an unpacker between two units makes exactly these
-- units of them, in order.
pub record Delivered (p p' : Sender) (bss : List Bytes) (units : List Bytes) : Type 0 where
  pub sent : p'.world ≡ p.world ++ bss
  pub mtu : p'.mtu ≡ p.mtu
  pub plain : IsPlain p'.header
  pub time : p'.header.timestamp ≡ p.header.timestamp
  pub numbers : p'.header.seq_number ≡ (p.header.seq_number + length bss) % 2 ^ 16
  pub unpacked :
      (u : Receiver)
      → u.fu_buffer ≡ []
      → (u' : Receiver) × (unpack_all bss u ≡ ok tt u')
        × (u'.fu_buffer ≡ [])
        × (u'.world ≡ u.world ++ map (frame p.header.timestamp) units)

pack_single-Delivered :
    (b : ℕ) (bs : Bytes) (p : Sender)
    → IsUnit (b ∷ bs)
    → IsPlain p.header
    → (p' : Sender) × (bss : List Bytes) × (pack_single (some transmit) none (b ∷ bs) p ≡ ok tt p')
      × Delivered p p' bss ((b ∷ bs) ∷ [])
unfolding pack_single unpack_all unpack_payload unpack_single
pack_single-Delivered b bs p (h, t) v =
    let m = record (p.header) { marker = 1 } in
    let (bytes, wrote, read) = transmit-unpack m (b ∷ bs) (marked-IsPlain p.header true v) in
    (
      record p { header = bump p.header; world = p.world ++ bytes ∷ [] },
      bytes ∷ [],
      rw (wrote p.world),
      record {
        sent = refl;
        mtu = refl;
        plain = bump-IsPlain p.header v;
        time = refl;
        numbers = refl;
        unpacked = λ u e. (
          record (at_packet p.header u) {
            world = u.world ++ frame p.header.timestamp (b ∷ bs) ∷ [];
          },
          rw (read u, t),
          e,
          refl,
        );
      },
    )

module _ (nalu : Bytes) (p : Sender) where
  by_single :
      leb (length nalu + 12) p.mtu ≡ true
      → pack_nalu (some transmit) none nalu p ≡ pack_single (some transmit) none nalu p
  unfolding pack_nalu
  by_single e = rw e

  by_fu_a :
      leb (length nalu + 12) p.mtu ≡ false
      → pack_nalu (some transmit) none nalu p ≡ pack_fu_a (some transmit) none nalu p
  unfolding pack_nalu
  by_fu_a e = rw e

Sent-Delivered :
    (p p' : Sender) (bss : List Bytes) (b : ℕ) (bs : Bytes)
    → Sent p p' bss (λ buffer. (buffer ++ b ∷ []) ++ bs)
    → Delivered p p' bss ((b ∷ bs) ∷ [])
Sent-Delivered p p' bss b bs s = record {
  sent = s.sent;
  mtu = s.mtu;
  plain = s.plain;
  time = s.time;
  numbers = s.numbers;
  unpacked = λ u e.
      let (k, run) = s.unpacked u in
      (
        done_with k p.header.timestamp (b ∷ bs) u,
        run ∙ ap (λ buffer. ok tt (done_with k p.header.timestamp ((buffer ++ b ∷ []) ++ bs) u)) e,
        refl,
        refl,
      );
}

-- A unit is delivered, in one packet or in fragments.
pub pack_nalu-Delivered :
    (nalu : Bytes) (p : Sender)
    → IsUnit nalu
    → 14 < p.mtu
    → IsPlain p.header
    → (p' : Sender) × (bss : List Bytes) × (pack_nalu (some transmit) none nalu p ≡ ok tt p')
      × Delivered p p' bss (nalu ∷ [])
pack_nalu-Delivered [] p h m v = absurd h
pack_nalu-Delivered (b ∷ bs) p h m v = elim (Bool-cases (leb (length (b ∷ bs) + 12) p.mtu)) [
  | inl e ↦
      let (p', bss, run, d) = pack_single-Delivered b bs p h v in
      (p', bss, by_single (b ∷ bs) p e ∙ run, d)
  | inr e ↦
      let (p', bss, run, s) = pack_fu_a-Sent b bs p (above (length bs) p.mtu e) m h.0 v in
      (p', bss, by_fu_a (b ∷ bs) p e ∙ run, Sent-Delivered p p' bss b bs s)
]
  where
    above : (n k : ℕ) → leb (suc n + 12) k ≡ false → k < n + 13
    above n k f = ground arith

-- The calls of `pack_nalu` for units one after the other.
abbrev pub pack_units : List Bytes → Sender → Outcome Sender PackerError (Unit {0})
pack_units [] = ok tt
pack_units (nalu ∷ nalus) = pack_nalu (some transmit) none nalu >> pack_units nalus

unpack_all-append :
    (xs ys : List Bytes) (u u' : Receiver)
    → unpack_all xs u ≡ ok tt u'
    → unpack_all (xs ++ ys) u ≡ unpack_all ys u'
unfolding unpack_all
unpack_all-append [] ys u u' e = cc
unpack_all-append (x ∷ xs) ys u u' e =
    after_step (λ v. unpack_all-append xs ys v u') (unpack (some keep_frame) none x u) e
  where
    after_step :
        ((v : Receiver) → unpack_all xs v ≡ ok tt u' → unpack_all (xs ++ ys) v ≡ unpack_all ys u')
        → (o : Outcome Receiver UnPackerError (Unit {0})) → after o (λ _. unpack_all xs) ≡ ok tt u'
        → after o (λ _. unpack_all (xs ++ ys)) ≡ unpack_all ys u'
    after_step ih (ok a v) h = ih v h
    after_step ih (err x v) h = cc
    after_step ih panic h = cc
    after_step ih stuck h = cc

join :
    (p q p' : Sender) (bss css : List Bytes) (nalu : Bytes) (nalus : List Bytes)
    → Delivered p q bss (nalu ∷ [])
    → Delivered q p' css nalus
    → Delivered p p' (bss ++ css) (nalu ∷ nalus)
join p q p' bss css nalu nalus d e = record {
  sent = e.sent ∙ ap (λ w. w ++ css) d.sent ∙ append_assoc p.world bss css;
  mtu = e.mtu ∙ d.mtu;
  plain = e.plain;
  time = e.time ∙ d.time;
  numbers = omega (arith, e.numbers, d.numbers, length-append bss css);
  unpacked = λ u f.
      let (v, run, g, w) = d.unpacked u f in
      let (u', more, h, w') = e.unpacked v g in
      (
        u',
        unpack_all-append bss css u v run ∙ more,
        h,
        w'
            ∙ ap (λ t. v.world ++ map (frame t) nalus) d.time
            ∙ ap (λ fs. fs ++ map (frame p.header.timestamp) nalus) w
            ∙ append_assoc u.world (frame p.header.timestamp nalu ∷ [])
                (map (frame p.header.timestamp) nalus),
      );
}

none_sent : (p : Sender) → IsPlain p.header → Delivered p p [] []
unfolding unpack_all
none_sent p v = record {
  sent = sym (append-nil p.world);
  mtu = refl;
  plain = v;
  time = refl;
  numbers = omega (arith, v.valid.seq_number);
  unpacked = λ u e. (u, refl, e, sym (append-nil u.world));
}

pub pack_units-Delivered :
    (nalus : List Bytes) (p : Sender)
    → All IsUnit nalus
    → 14 < p.mtu
    → IsPlain p.header
    → (p' : Sender) × (bss : List Bytes) × (pack_units nalus p ≡ ok tt p')
      × Delivered p p' bss nalus
pack_units-Delivered [] p h m v = (p, [], refl, none_sent p v)
pack_units-Delivered (nalu ∷ nalus) p (h, hs) m v =
    let (q, bss, run, d) = pack_nalu-Delivered nalu p h m v in
    let (p', css, more, e) = pack_units-Delivered nalus q hs (rw d.mtu m) d.plain in
    (p', bss ++ css, rw run more, join p q p' bss css nalu nalus d e)
