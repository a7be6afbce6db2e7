-- ===== src/Mpegts/Checksum.antt =====
-- library/container/mpegts/src/crc32.rs: data with its own checksum behind it.
use xiu.Prelude.{
  ℕ, zero, suc, ◌/◌, ◌%◌, ◌^◌, ◌<◌, ◌≡◌, refl, ap, ◌∙◌, List, [], ◌∷◌, ◌++◌, Bool, true, false,
  ◌&&◌, ltb, ltb→lt, get_elem?, arith,
}
use xiu.Prelude.Words.{Bytes, encode, little_endian, to_le}
use xiu.Prelude.Bits.{shr, low_bits}
use xiu.Prelude.Xor.{bit_xor, Agree, bit_xor-Agree, bit_xor-zero_left, bit_xor_bound}
use xiu.Mpegts.Crc32.{crc32_table, found, entry, crc_step, gen_crc32}

pub gen_crc32-append :
    (crc : ℕ) (xs ys : Bytes) → gen_crc32 crc (xs ++ ys) ≡ gen_crc32 (gen_crc32 crc xs) ys
unfolding gen_crc32
gen_crc32-append crc [] ys = refl
gen_crc32-append crc (x ∷ xs) ys = gen_crc32-append (crc_step crc x) xs ys

abbrev all_below : ℕ → List ℕ → Bool
all_below n [] = true
all_below n (x ∷ xs) = ltb x n && all_below n xs

and-true : (b c : Bool) → (b && c) ≡ true → (b ≡ true) × (c ≡ true)
and-true true c h = (refl, h)
and-true false c h = ground arith

found-below :
    (n : ℕ) (xs : List ℕ) (i : ℕ) → 0 < n → all_below n xs ≡ true → found (get_elem? xs i) < n
found-below n [] i p h = p
found-below n (x ∷ xs) zero p h = ltb→lt x n (and-true (ltb x n) (all_below n xs) h).0
found-below n (x ∷ xs) (suc i) p h = found-below n xs i p (and-true (ltb x n) (all_below n xs) h).1

pub entry_bound : (i : ℕ) → entry i < 2 ^ 32
unfolding entry
entry_bound i = found-below (2 ^ 32) crc32_table i (omega arith) refl

pub crc_step_bound : (crc i : ℕ) → crc < 2 ^ 32 → crc_step crc i < 2 ^ 32
crc_step_bound crc i h =
    bit_xor_bound 32 (entry (low_bits 8 (bit_xor crc i))) (shr crc 8) (entry_bound _) (omega arith)

pub gen_crc32_bound : (crc : ℕ) (xs : Bytes) → crc < 2 ^ 32 → gen_crc32 crc xs < 2 ^ 32
unfolding gen_crc32
gen_crc32_bound crc [] h = h
gen_crc32_bound crc (x ∷ xs) h = gen_crc32_bound (crc_step crc x) xs (crc_step_bound crc x h)

low_byte-Agree : (r : ℕ) → Agree 8 r (r % 256)
low_byte-Agree r = (
  omega arith,
  (
    omega arith,
    (omega arith, (omega arith, (omega arith, (omega arith, (omega arith, (omega arith, tt)))))),
  ),
)

-- The low byte of the checksum, taken as data, shifts it out.
crc_step-low : (r : ℕ) → crc_step r (r % 256) ≡ r / 256
unfolding entry
crc_step-low r =
    let x = bit_xor-Agree 8 r (r % 256) (low_byte-Agree r) in
    let e : bit_xor r (r % 256) % 256 ≡ 0 = omega (arith, x.1) in rw e (bit_xor-zero_left (r / 256))

crc32-to_le : (n r : ℕ) → r < 256 ^ n → gen_crc32 r (to_le n r) ≡ 0
unfolding gen_crc32 to_le
crc32-to_le zero r h = omega arith
crc32-to_le (suc n) r h =
    ap (λ c. gen_crc32 c (to_le n (r / 256))) (crc_step-low r)
    ∙ crc32-to_le n (r / 256) (omega (arith, h))

-- The checksum of any data with its own checksum behind it, in little endian order and for the same
-- initial value of 32 bits, is 0.
pub gen_crc32-encode :
    (crc : ℕ) (buffer : Bytes)
    → crc < 2 ^ 32
    → gen_crc32 crc (buffer ++ encode little_endian 4 (gen_crc32 crc buffer)) ≡ 0
unfolding encode
gen_crc32-encode crc buffer h =
    gen_crc32-append crc buffer (to_le 4 (gen_crc32 crc buffer))
    ∙ crc32-to_le 4 (gen_crc32 crc buffer) (gen_crc32_bound crc buffer h)
