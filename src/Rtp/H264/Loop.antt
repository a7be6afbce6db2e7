-- ===== src/Rtp/H264/Loop.antt =====
-- The loop over the fragments of a unit.
use xiu.Prelude.{
  ℕ, zero, suc, ◌+◌, ◌-◌, ◌≤◌, ◌<◌, ◌≡◌, refl, ap, ◌∙◌, inl, inr, List, [], ◌∷◌, ◌++◌, append-nil,
  append_assoc, Bool-cases, true, false, leb, ltb, none, some, length, take, drop, take-append-drop,
  length-drop, ok, arith,
}
use xiu.Prelude.Words.{Bytes}
use xiu.Bytesio.Reader.{read_bytes}
use xiu.Bytesio.Reader.Laws.{read_u8-cons, read_bytes_append}
use xiu.Rtp.H264.Packer.{Pack, clear_start, send_fragment, fu_round, fu_loop, pack_fu_a}
use xiu.Rtp.H264.Fields.{indicator, first, later, final, later_start, first_start, first_cleared}
use xiu.Rtp.H264.Sending.{Sender, bump-IsPlain, IsPlain, transmit}
use xiu.Rtp.H264.Fragments.{
  next_sender, unit_after, done_with, Sent, send_last, send_before, rest_later, rest_first,
}

clear_later : (b : ℕ) → b < 256 → clear_start (some transmit) none (later b) ≡ later b
clear_later b h = rw (later_start b h)

clear_first : (b : ℕ) → b < 256 → clear_start (some transmit) none (first b) ≡ later b
clear_first b h = rw (first_start b h) (first_cleared b h)

no_panic : (n : ℕ) → 14 < n → ltb n 2 ≡ false
no_panic n h = ground arith

no_panic_inner : (n : ℕ) → 14 < n → ltb n 14 ≡ false
no_panic_inner n h = ground arith

read_all_of : (xs : Bytes) → read_bytes (length xs) xs ≡ ok xs []
read_all_of xs = rw append-nil at (read_bytes_append (length xs) xs [] refl)

read_some : (n : ℕ) (xs : Bytes) → n ≤ length xs → read_bytes n xs ≡ ok (take n xs) (drop n xs)
unfolding read_bytes
read_some n xs h = ground arith

module _ (next : ℕ → Bytes → Pack {World = List Bytes} (some transmit) none) (b hdr : ℕ)
    (left : Bytes) (p : Sender) (m : 14 < p.mtu) where
  round_last :
      leb (length left + 12) (p.mtu - 2) ≡ true
      → fu_round (some transmit) none next b hdr left p
        ≡ send_fragment (some transmit) none next (indicator b) (final b) (ok left []) p
  unfolding fu_round
  round_last e = rw (no_panic p.mtu m, e, read_all_of left)

  round_inner :
      leb (length left + 12) (p.mtu - 2) ≡ false
      → fu_round (some transmit) none next b hdr left p
        ≡ send_fragment
            (some transmit)
            none
            next
            (indicator b)
            hdr
            (ok (take (p.mtu - 12 - 2) left) (drop (p.mtu - 12 - 2) left))
            p
  unfolding fu_round
  round_inner e = rw (
    no_panic p.mtu m,
    e,
    no_panic_inner p.mtu m,
    read_some (p.mtu - 12 - 2) left (below (length left) p.mtu e),
  )
    where
      below : (n k : ℕ) → leb (n + 12) (k - 2) ≡ false → k - 12 - 2 ≤ n
      below n k f = ground arith

loop_empty : (fuel b hdr : ℕ) (q : Sender) → fu_loop (some transmit) none fuel b hdr [] q ≡ ok tt q
unfolding fu_loop
loop_empty zero b hdr q = refl
loop_empty (suc fuel) b hdr q = refl

loop_step :
    (fuel b hdr : ℕ) (left : Bytes) (p : Sender)
    → 0 < length left
    → fu_loop (some transmit) none (suc fuel) b hdr left p
      ≡ fu_round (some transmit) none (fu_loop (some transmit) none fuel b) b hdr left p
unfolding fu_loop
loop_step fuel b hdr [] p h = absurd (omega arith)
loop_step fuel b hdr (x ∷ xs) p h = refl

-- What was cut is joined again.
whole :
    (n : ℕ) (left : Bytes) (p p' : Sender) (bss : List Bytes) (head : Bytes → Bytes)
    → Sent p p' bss (λ buffer. (head buffer ++ take n left) ++ drop n left)
    → Sent p p' bss (λ buffer. head buffer ++ left)
whole n left p p' bss head s = record {
  sent = s.sent;
  mtu = s.mtu;
  plain = s.plain;
  time = s.time;
  numbers = s.numbers;
  unpacked = λ u.
      let (k, e) = s.unpacked u in
      (
        k,
        e
            ∙ ap (λ unit. ok tt (done_with k p.header.timestamp unit u))
                (append_assoc (head u.fu_buffer) (take n left) (drop n left)
                  ∙ ap (λ xs. head u.fu_buffer ++ xs) (take-append-drop n left)),
      );
}

-- The rounds after the first.
loop_later :
    (fuel b : ℕ) (left : Bytes) (p : Sender)
    → length left ≤ fuel
    → 0 < length left
    → 14 < p.mtu
    → b < 256
    → IsPlain p.header
    → (p' : Sender) × (bss : List Bytes) × (fu_loop (some transmit) none fuel b (later b) left p
        ≡ ok tt p')
      × Sent p p' bss (unit_after left)
loop_later zero b left p l o m h v = absurd (omega arith)
loop_later (suc fuel) b left p l o m h v = elim (Bool-cases (leb (length left + 12) (p.mtu - 2))) [
  | inl e ↦
      let next = fu_loop (some transmit) none fuel b in
      let (p', bss, run, s) = send_last next b left p (λ hdr q. loop_empty fuel b hdr q) h v in
      (
        p',
        bss,
        loop_step fuel b (later b) left p o ∙ round_last next b (later b) left p m e ∙ run,
        s,
      )
  | inr e ↦
      let next = fu_loop (some transmit) none fuel b in
      let n = p.mtu - 12 - 2 in
      let k = less (length left) p.mtu m e in
      let (bs, run, join) =
        send_before next b (later b) (take n left) (drop n left) (unit_after (take n left)) p h v
          (λ u. rest_later b (take n left) u h) in
      let (p', bss, more, s) =
        loop_later fuel b (drop n left) (next_sender bs p) (omega (arith, length-drop n left, k))
          (omega (arith, length-drop n left, k)) m h (bump-IsPlain p.header v) in
      (
        p',
        bs ∷ bss,
        loop_step fuel b (later b) left p o
            ∙ round_inner next b (later b) left p m e
            ∙ run
            ∙ (rw (clear_later b h) more),
        whole n left p p' (bs ∷ bss) (λ buffer. buffer) (join p' bss s),
      )
]
  where
    less : (n k : ℕ) → 14 < k → leb (n + 12) (k - 2) ≡ false → (0 < k - 12 - 2) × (k - 12 - 2 < n)
    less n k h f = ground arith

-- A unit of more than one packet.
pub pack_fu_a-Sent :
    (b : ℕ) (left : Bytes) (p : Sender)
    → p.mtu < length left + 13
    → 14 < p.mtu
    → b < 256
    → IsPlain p.header
    → (p' : Sender) × (bss : List Bytes) × (pack_fu_a (some transmit) none (b ∷ left) p ≡ ok tt p')
      × Sent p p' bss (λ buffer. (buffer ++ b ∷ []) ++ left)
unfolding pack_fu_a
pack_fu_a-Sent b [] p l m h v = absurd (omega arith)
pack_fu_a-Sent b (x ∷ xs) p l m h v =
    let left = x ∷ xs in
    let n = p.mtu - 12 - 2 in
    let fuel = length xs in
    let next = fu_loop (some transmit) none fuel b in
    let (bs, run, join) =
      send_before next b (first b) (take n left) (drop n left)
        (λ buffer. (buffer ++ b ∷ []) ++ take n left) p h v (λ u. rest_first b (take n left) u h) in
    let (p', bss, more, s) =
      loop_later fuel b (drop n left) (next_sender bs p) (omega (arith, length-drop n left))
        (omega (arith, length-drop n left)) m h (bump-IsPlain p.header v) in
    (
      p',
      bs ∷ bss,
      rw (read_u8-cons b left) (
          loop_step fuel b (first b) left p (omega arith)
          ∙ round_inner next b (first b) left p m (above (length left) p.mtu l)
          ∙ run
          ∙ (rw (clear_first b h) more)),
      whole n left p p' (bs ∷ bss) (λ buffer. buffer ++ b ∷ []) (join p' bss s),
    )
  where
    above : (n k : ℕ) → k < n + 13 → leb (n + 12) (k - 2) ≡ false
    above n k f = ground arith
