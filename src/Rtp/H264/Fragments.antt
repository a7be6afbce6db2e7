-- ===== src/Rtp/H264/Fragments.antt =====
-- A unit in fragments (FU-A), packed and put together again.
use xiu.Prelude.{
  ℕ, ◌+◌, ◌%◌, ◌^◌, ◌<◌, ◌≡◌, refl, ◌∙◌, List, [], ◌∷◌, ◌++◌, append_assoc, none, some, length, ok,
  arith,
}
use xiu.Prelude.Words.{Bytes}
use xiu.Bytesio.Reader.Laws.{read_u8-cons}
use xiu.Hub.Define.{video_frame}
use xiu.Rtp.H264.{annexb_nalu_start_code, is_fu_end}
use xiu.Rtp.H264.Packer.{Pack, clear_start, send_fragment}
use xiu.Rtp.H264.Unpacker.{unpack, unpack_payload, unpack_fu, rest_fu, end_fu}
use xiu.Rtp.H264.Fields.{
  indicator, first, later, final, indicator_type, indicator_not_fu_b, first_start, first_end,
  later_start, later_end, final_start, final_end, first_byte_back,
}
use xiu.Rtp.H264.Sending.{
  Sender, bump, marked, marked-IsPlain, bump-IsPlain, IsPlain, transmit, keep_frame, Receiver,
  unpack_all, at_packet, transmit-unpack,
}

-- The payload of a fragment goes to `unpack_fu`, past its two bytes.
unpack_fragment :
    (b hdr : ℕ) (pl : Bytes) (u : Receiver)
    → b < 256
    → unpack_payload (some keep_frame) none (indicator b ∷ hdr ∷ pl) u
      ≡ rest_fu (some keep_frame) none (indicator b) hdr pl u
unfolding unpack_payload unpack_fu
unpack_fragment b hdr pl u h = rw (
  indicator_type b h,
  read_u8-cons (indicator b) (hdr ∷ pl),
  read_u8-cons hdr pl,
  indicator_not_fu_b b h,
)

abbrev pub next_sender : Bytes → Sender → Sender
next_sender bs p = record p { header = bump p.header; world = p.world ++ bs ∷ [] }

-- One fragment goes out, and what its bytes do to an unpacker.
pub send_one :
    (next : ℕ → Bytes → Pack {World = List Bytes} (some transmit) none) (b hdr : ℕ)
    (pl left : Bytes) (p : Sender)
    → b < 256
    → IsPlain p.header
    → (bs : Bytes) × (send_fragment (some transmit) none next (indicator b) hdr (ok pl left) p
        ≡ next (clear_start (some transmit) none hdr) left (next_sender bs p))
      × ((u : Receiver)
          → unpack (some keep_frame) none bs u
            ≡ rest_fu (some keep_frame) none (indicator b) hdr pl (at_packet p.header u))
unfolding send_fragment
send_one next b hdr pl left p h v =
    let m = marked p.header (is_fu_end (clear_start (some transmit) none hdr)) in
    let (bs, wrote, read) =
      transmit-unpack m (indicator b ∷ hdr ∷ pl)
        (marked-IsPlain p.header (is_fu_end (clear_start (some transmit) none hdr)) v) in
    (bs, rw (wrote p.world), λ u. read u ∙ unpack_fragment b hdr pl (at_packet p.header u) h)

-- The unpacker after a complete unit, with the number `s` of its last packet.
abbrev pub done_with : ℕ → ℕ → Bytes → Receiver → Receiver
done_with s time unit u = record {
  sequence_number = s;
  timestamp = time;
  fu_buffer = [];
  world = u.world ++ video_frame time (annexb_nalu_start_code ++ unit) ∷ [];
}

pub rest_final :
    (b : ℕ) (pl : Bytes) (u : Receiver)
    → b < 256
    → rest_fu (some keep_frame) none (indicator b) (final b) pl u
      ≡ ok tt (done_with u.sequence_number u.timestamp (u.fu_buffer ++ pl) u)
unfolding rest_fu end_fu
rest_final b pl u h = rw (final_start b h, final_end b h)

pub rest_later :
    (b : ℕ) (pl : Bytes) (u : Receiver)
    → b < 256
    → rest_fu (some keep_frame) none (indicator b) (later b) pl u
      ≡ ok tt (record u { fu_buffer = u.fu_buffer ++ pl })
unfolding rest_fu end_fu
rest_later b pl u h = rw (later_start b h, later_end b h)

pub rest_first :
    (b : ℕ) (pl : Bytes) (u : Receiver)
    → b < 256
    → rest_fu (some keep_frame) none (indicator b) (first b) pl u
      ≡ ok tt (record u { fu_buffer = (u.fu_buffer ++ b ∷ []) ++ pl })
unfolding rest_fu end_fu
rest_first b pl u h = rw (first_start b h, first_end b h, first_byte_back b h)

-- What a call of the packer comes to: packets are sent, with consecutive numbers, and the unpacker
-- makes of them the one unit `unit`, from its buffer.
pub record Sent (p p' : Sender) (bss : List Bytes) (unit : Bytes → Bytes) : Type 0 where
  pub sent : p'.world ≡ p.world ++ bss
  pub mtu : p'.mtu ≡ p.mtu
  pub plain : IsPlain p'.header
  pub time : p'.header.timestamp ≡ p.header.timestamp
  pub numbers : p'.header.seq_number ≡ (p.header.seq_number + length bss) % 2 ^ 16
  pub unpacked :
      (u : Receiver)
      → (s : ℕ) × (unpack_all bss u ≡ ok tt (done_with s p.header.timestamp (unit u.fu_buffer) u))

abbrev pub unit_after : Bytes → Bytes → Bytes
unit_after pl buffer = buffer ++ pl

-- The last fragment alone.
pub send_last :
    (next : ℕ → Bytes → Pack {World = List Bytes} (some transmit) none) (b : ℕ) (pl : Bytes)
    (p : Sender)
    → ((hdr : ℕ) (q : Sender) → next hdr [] q ≡ ok tt q)
    → b < 256
    → IsPlain p.header
    → (p' : Sender) × (bss : List Bytes) × (send_fragment
          (some transmit)
          none
          next
          (indicator b)
          (final b)
          (ok pl [])
          p
        ≡ ok tt p')
      × Sent p p' bss (unit_after pl)
unfolding unpack_all
send_last next b pl p n h v =
    let (bs, wrote, read) = send_one next b (final b) pl [] p h v in
    (
      next_sender bs p,
      bs ∷ [],
      wrote ∙ n _ (next_sender bs p),
      record {
        sent = refl;
        mtu = refl;
        plain = bump-IsPlain p.header v;
        time = refl;
        numbers = refl;
        unpacked =
            λ u. (p.header.seq_number, rw (read u, rest_final b pl (at_packet p.header u) h));
      },
    )

-- A fragment before others.
pub send_before :
    (next : ℕ → Bytes → Pack {World = List Bytes} (some transmit) none) (b hdr : ℕ)
    (pl left : Bytes) (grow : Bytes → Bytes) (p : Sender)
    → b < 256
    → IsPlain p.header
    → ((u : Receiver)
        → rest_fu (some keep_frame) none (indicator b) hdr pl u
          ≡ ok tt (record u { fu_buffer = grow u.fu_buffer }))
    → (bs : Bytes) × (send_fragment (some transmit) none next (indicator b) hdr (ok pl left) p
        ≡ next (clear_start (some transmit) none hdr) left (next_sender bs p))
      × ((p' : Sender) (bss : List Bytes)
          → Sent (next_sender bs p) p' bss (unit_after left)
          → Sent p p' (bs ∷ bss) (λ buffer. grow buffer ++ left))
unfolding unpack_all
send_before next b hdr pl left grow p h v g =
    let (bs, wrote, read) = send_one next b hdr pl left p h v in
    (
      bs,
      wrote,
      λ p' bss r. record {
        sent = r.sent ∙ append_assoc p.world (bs ∷ []) bss;
        mtu = r.mtu;
        plain = r.plain;
        time = r.time;
        numbers = omega (arith, r.numbers);
        unpacked = λ u.
            let (s, e) =
              r.unpacked (record (at_packet p.header u) { fu_buffer = grow u.fu_buffer }) in
            (s, rw (read u, g (at_packet p.header u)) e);
      },
    )
