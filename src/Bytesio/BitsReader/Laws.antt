-- ===== src/Bytesio/BitsReader/Laws.antt =====
-- `BitsReader` against the row of bits that it is still to give.
use xiu.Prelude.{
  ℕ, zero, suc, ◌+◌, ◌*◌, ◌^◌, ◌≤◌, ◌<◌, ◌≡◌, refl, List, [], ◌∷◌, ◌++◌, length, take, drop, ok,
  err, arith, bit_or,
}
use native.Mathlib.Nat.{pow-suc, one-le-pow, pow-le-pow_right}
use xiu.Prelude.Words.{Bytes}
use xiu.Prelude.Bits.{shl, bit_or-disjoint}
use xiu.Bytesio.Bits.{bits_of, bytes_bits, from_bits}
use xiu.Bytesio.Reader.{not_enough_bytes}
use xiu.Bytesio.Reader.Laws.{read_u8-cons, read_u8_empty}
use xiu.Bytesio.BitsReader.{BitsReader, bytes_read_error, read_bit, read_n_bits_loop, read_n_bits}

-- The bits left in the byte at hand, and those of the bytes behind it.
abbrev pub bits : BitsReader → List ℕ
bits r = bits_of r.cur_bit_left r.cur_byte ++ bytes_bits r.reader

read_bit_at :
    (bytes : Bytes) (cur left : ℕ) (b : ℕ) (bs : List ℕ)
    → bits_of left cur ++ bytes_bits bytes ≡ b ∷ bs
    → (r : BitsReader) × (read_bit (record { reader = bytes; cur_byte = cur; cur_bit_left = left })
        ≡ ok b r)
      × (bits r ≡ bs)
      × (b < 2)
unfolding read_bit bits_of bytes_bits
read_bit_at [] cur zero b bs h = cc
read_bit_at (x ∷ bytes) cur zero b bs h = (
  record { reader = bytes; cur_byte = x; cur_bit_left = 7 },
  rw (read_u8-cons x bytes) (ground arith),
  ground arith,
  ground arith,
)
read_bit_at bytes cur (suc left) b bs h = (
  record { reader = bytes; cur_byte = cur; cur_bit_left = left },
  ground arith,
  ground arith,
  ground arith,
)

-- The next bit is read and taken off.
pub read_bit-bits :
    (r : BitsReader) (b : ℕ) (bs : List ℕ)
    → bits r ≡ b ∷ bs
    → (r' : BitsReader) × (read_bit r ≡ ok b r') × (bits r' ≡ bs) × (b < 2)
read_bit-bits r b bs h = read_bit_at r.reader r.cur_byte r.cur_bit_left b bs h

read_bit_empty_at :
    (bytes : Bytes) (cur left : ℕ)
    → bits_of left cur ++ bytes_bits bytes ≡ []
    → let r : BitsReader = record { reader = bytes; cur_byte = cur; cur_bit_left = left } in
      read_bit r ≡ err (bytes_read_error not_enough_bytes) r
unfolding read_bit bits_of bytes_bits
read_bit_empty_at [] cur zero h = rw read_u8_empty
read_bit_empty_at (x ∷ bytes) cur zero h = cc
read_bit_empty_at bytes cur (suc left) h = cc

-- With no bit left the read fails, and changes nothing.
pub read_bit_empty :
    (r : BitsReader) → bits r ≡ [] → read_bit r ≡ err (bytes_read_error not_enough_bytes) r
read_bit_empty r h = read_bit_empty_at r.reader r.cur_byte r.cur_bit_left h

-- Room for `n` more bits behind `acc` in 64.
abbrev Fits : ℕ → ℕ → Type 0
Fits acc n = (acc + 1) * 2 ^ n ≤ 2 ^ 64

Fits-step : (acc n b : ℕ) → b < 2 → Fits acc (suc n) → Fits (2 * acc + b) n
Fits-step acc n b hb h = grind (arith, pow-suc 2 n)

Fits-lt : (acc n : ℕ) → Fits acc (suc n) → acc * 2 < 2 ^ 64
Fits-lt acc n h = grind (arith, pow-suc 2 n, one-le-pow n 2)

shift_in : (acc n b : ℕ) → b < 2 → Fits acc (suc n) → bit_or (shl 64 acc 1) b ≡ 2 * acc + b
shift_in acc n b hb h =
    let small : acc * 2 < 2 ^ 64 = Fits-lt acc n h in ground (arith, bit_or-disjoint 1 acc b hb)

read_n_bits_from :
    (n acc : ℕ) (r : BitsReader) (xs : List ℕ)
    → bits r ≡ xs
    → n ≤ length xs
    → Fits acc n
    → (r' : BitsReader) × (read_n_bits_loop n acc r ≡ ok (from_bits acc (take n xs)) r')
      × (bits r' ≡ drop n xs)
unfolding read_n_bits_loop from_bits
read_n_bits_from zero acc r xs e h f = (r, refl, e)
read_n_bits_from (suc n) acc r [] e h f = absurd (omega arith)
read_n_bits_from (suc n) acc r (b ∷ bs) e h f =
    let (q, eq, rest, small) = read_bit-bits r b bs e in
    let (r', eq', rest') =
      read_n_bits_from n (2 * acc + b) q bs rest (omega arith) (Fits-step acc n b small f) in
    (r', rw (eq, shift_in acc n b small f) eq', rest')

-- `read_n_bits` returns the next `n` bits as a number, the first bit the highest, and takes them
-- off, for up to 64 bits.
pub read_n_bits-bits :
    (n : ℕ) (r : BitsReader)
    → n ≤ 64
    → n ≤ length (bits r)
    → (r' : BitsReader) × (read_n_bits n r ≡ ok (from_bits 0 (take n (bits r))) r')
      × (bits r' ≡ drop n (bits r))
unfolding read_n_bits
read_n_bits-bits n r h l =
    read_n_bits_from n 0 r (bits r) refl l (omega (arith, pow-le-pow_right {n = 2} (omega arith) h))
