-- ===== src/Bytesio/BitsWriter/Laws.antt =====
-- `BitsWriter` against the row of bits that it has taken.
use xiu.Prelude.{
  ℕ, zero, suc, ◌+◌, ◌-◌, ◌*◌, ◌/◌, ◌%◌, ◌^◌, ◌<◌, ◌≡◌, sym, ◌∙◌, List, [], ◌∷◌, ◌++◌, append_assoc,
  append-nil, ok, arith, bit_or, ◌==◌, Bool-cases, inl, inr,
}
use xiu.Prelude.Words.{Bytes}
use xiu.Prelude.Bits.{shl, bit_or-disjoint}
use xiu.Bytesio.Bits.{bits_of, bytes_bits, bytes_bits-append, bits_of-suc}
use xiu.Bytesio.BitsWriter.{BitsWriter, write_bit}

-- The bits of the bytes written, and those begun with in the byte at hand.
abbrev pub bits : BitsWriter → List ℕ
bits w = bytes_bits w.writer ++ bits_of w.cur_bit_num (w.cur_byte / 2 ^ (8 - w.cur_bit_num))

-- Fewer than eight bits are at hand, and the places behind them are free.
pub record IsValid (w : BitsWriter) : Type 0 where
  pub open_bits : w.cur_bit_num < 8
  pub is_byte : w.cur_byte < 256
  pub free : w.cur_byte % 2 ^ (8 - w.cur_bit_num) ≡ 0

-- The byte at hand with one more bit, which takes the highest free place.
new_byte :
    (c cur b : ℕ)
    → c < 8
    → b < 2
    → cur < 256
    → cur % 2 ^ (8 - c) ≡ 0
    → let byte = bit_or cur (shl 8 b (7 - c)) in
      (byte < 256) × (byte % 2 ^ (7 - c) ≡ 0) × (byte / 2 ^ (7 - c) ≡ 2 * (cur / 2 ^ (8 - c)) + b)
new_byte zero cur b h hb v e =
    ground (arith, bit_or-disjoint 8 (cur / 2 ^ 8) (b * 2 ^ 7) (omega arith))
new_byte (suc zero) cur b h hb v e =
    ground (arith, bit_or-disjoint 7 (cur / 2 ^ 7) (b * 2 ^ 6) (omega arith))
new_byte (suc (suc zero)) cur b h hb v e =
    ground (arith, bit_or-disjoint 6 (cur / 2 ^ 6) (b * 2 ^ 5) (omega arith))
new_byte (suc (suc (suc zero))) cur b h hb v e =
    ground (arith, bit_or-disjoint 5 (cur / 2 ^ 5) (b * 2 ^ 4) (omega arith))
new_byte (suc (suc (suc (suc zero)))) cur b h hb v e =
    ground (arith, bit_or-disjoint 4 (cur / 2 ^ 4) (b * 2 ^ 3) (omega arith))
new_byte (suc (suc (suc (suc (suc zero))))) cur b h hb v e =
    ground (arith, bit_or-disjoint 3 (cur / 2 ^ 3) (b * 2 ^ 2) (omega arith))
new_byte (suc (suc (suc (suc (suc (suc zero)))))) cur b h hb v e =
    ground (arith, bit_or-disjoint 2 (cur / 2 ^ 2) (b * 2 ^ 1) (omega arith))
new_byte (suc (suc (suc (suc (suc (suc (suc zero))))))) cur b h hb v e =
    ground (arith, bit_or-disjoint 1 (cur / 2 ^ 1) (b * 2 ^ 0) (omega arith))
new_byte (suc (suc (suc (suc (suc (suc (suc (suc c)))))))) cur b h hb v e = absurd (omega arith)

-- The bits before the byte at hand, and those in it with the new one.
one_more :
    (bytes : Bytes) (c cur byte b : ℕ)
    → b < 2
    → byte / 2 ^ (7 - c) ≡ 2 * (cur / 2 ^ (8 - c)) + b
    → bytes_bits bytes ++ bits_of (suc c) (byte / 2 ^ (7 - c))
      ≡ (bytes_bits bytes ++ bits_of c (cur / 2 ^ (8 - c))) ++ b ∷ []
one_more bytes c cur byte b h e =
    rw (e, bits_of-suc c _ b h)
      (sym (append_assoc (bytes_bits bytes) (bits_of c (cur / 2 ^ (8 - c))) (b ∷ [])))

bytes_bits-push :
    (bytes : Bytes) (byte : ℕ)
    → bytes_bits (bytes ++ byte ∷ []) ++ bits_of 0 0 ≡ bytes_bits bytes ++ bits_of 8 byte
bytes_bits-push bytes byte =
    rw (bytes_bits-append bytes (byte ∷ []))
      (unfold bits_of bytes_bits in simp (append_assoc, append-nil))

full_byte :
    (bytes : Bytes) (c cur byte b : ℕ)
    → b < 2
    → c ≡ 7
    → byte / 2 ^ (7 - c) ≡ 2 * (cur / 2 ^ (8 - c)) + b
    → bytes_bits (bytes ++ byte ∷ []) ++ bits_of 0 0
      ≡ (bytes_bits bytes ++ bits_of c (cur / 2 ^ (8 - c))) ++ b ∷ []
full_byte bytes c cur byte b h e f =
    let one : byte / 2 ^ (7 - c) ≡ byte = rw e (omega arith) in
    let eight : suc c ≡ 8 = omega arith in
    bytes_bits-push bytes byte ∙ rw (one, eight) at (one_more bytes c cur byte b h f)

-- A bit is put behind the bits written before, and the writer stays valid.
pub write_bit-bits :
    (b : ℕ) (w : BitsWriter)
    → b < 2
    → IsValid w
    → (w' : BitsWriter) × (write_bit b w ≡ ok tt w') × IsValid w' × (bits w' ≡ bits w ++ b ∷ [])
unfolding write_bit
write_bit-bits b w h v = elim (Bool-cases (w.cur_bit_num + 1 == 8)) [
  | inl last ↦ (
    record { writer = w.writer ++ byte ∷ []; cur_byte = 0; cur_bit_num = 0 },
    ground arith,
    omega arith,
    full_byte w.writer w.cur_bit_num w.cur_byte byte b h (ground arith) facts.2,
  )
  | inr more ↦ (
    record w { cur_byte = byte; cur_bit_num = w.cur_bit_num + 1 },
    ground arith,
    record { open_bits = ground arith; is_byte = facts.0; free = rw seven facts.1 },
    rw (seven, next) (one_more w.writer w.cur_bit_num w.cur_byte byte b h facts.2),
  )
]
  where
    byte : ℕ
    byte = bit_or w.cur_byte (shl 8 b (7 - w.cur_bit_num))

    seven : 8 - (w.cur_bit_num + 1) ≡ 7 - w.cur_bit_num
    seven = omega arith

    next : w.cur_bit_num + 1 ≡ suc w.cur_bit_num
    next = omega arith

    facts :
        (byte < 256)
        × (byte % 2 ^ (7 - w.cur_bit_num) ≡ 0)
        × (byte / 2 ^ (7 - w.cur_bit_num) ≡ 2 * (w.cur_byte / 2 ^ (8 - w.cur_bit_num)) + b)
    facts = new_byte w.cur_bit_num w.cur_byte b v.open_bits h v.is_byte v.free
