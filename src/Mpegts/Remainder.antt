-- ===== src/Mpegts/Remainder.antt =====
-- library/container/mpegts/src/crc32.rs: the checksum by the table is the remainder of polynomials.
use xiu.Prelude.{
  ℕ, zero, suc, ◌+◌, ◌*◌, ◌/◌, ◌%◌, ◌^◌, ◌<◌, ◌≤◌, ◌≡◌, refl, sym, ap, ◌∙◌, List, [], ◌∷◌, ◌++◌,
  Bool, ◌==◌, length, length-append, arith,
}
use xiu.Prelude.Words.{Bytes, encode, little_endian, to_le, length-encode}
use xiu.Prelude.Xor.{bit_xor, bit_xor_step, differ_lt}
use Prim.Native.Nat.{differ}
use xiu.Mpegts.Crc32.{entry, crc_step, gen_crc32}
use xiu.Mpegts.Checksum.{crc_step_bound}
use xiu.Mpegts.Polynomial.{xor, bits, bits_of, add, shifts, remainder}
use xiu.Mpegts.Table.{zeros, entry-shifts}
use xiu.Mpegts.Linear.{add_comm, add-append, add-zeros, zeros-add, shifts-add, shifts-zeros}

differ-xor :
    (a b t q : ℕ) → a < 2 → b < 2 → t ≡ differ a b + 2 * q → (t % 2 == 1) ≡ xor (a == 1) (b == 1)
differ-xor zero zero t q h k e = let even : t % 2 ≡ 0 = omega (arith, e) in rw even refl
differ-xor zero (suc zero) t q h k e = let odd : t % 2 ≡ 1 = omega (arith, e) in rw odd refl
differ-xor (suc zero) zero t q h k e = let odd : t % 2 ≡ 1 = omega (arith, e) in rw odd refl
differ-xor (suc zero) (suc zero) t q h k e = let even : t % 2 ≡ 0 = omega (arith, e) in rw even refl
differ-xor (suc (suc a)) b t q h k e = absurd (omega arith)
differ-xor zero (suc (suc b)) t q h k e = absurd (omega arith)
differ-xor (suc zero) (suc (suc b)) t q h k e = absurd (omega arith)

digit-xor : (x y : ℕ) → (bit_xor x y % 2 == 1) ≡ xor (x % 2 == 1) (y % 2 == 1)
digit-xor x y =
    differ-xor (x % 2) (y % 2) (bit_xor x y) (bit_xor (x / 2) (y / 2)) (omega arith) (omega arith)
      (bit_xor_step x y)

half-xor : (x y : ℕ) → bit_xor x y / 2 ≡ bit_xor (x / 2) (y / 2)
half-xor x y =
    omega (arith, bit_xor_step x y, differ_lt (x % 2) (y % 2) (omega arith) (omega arith))

length-bits : (w n : ℕ) → length (bits w n) ≡ w
length-bits zero n = refl
length-bits (suc w) n =
    omega (arith, length-append (bits w (n / 2)) ((n % 2 == 1) ∷ []), length-bits w (n / 2))

bits-xor : (w x y : ℕ) → bits w (bit_xor x y) ≡ add (bits w x) (bits w y)
bits-xor zero x y = refl
bits-xor (suc w) x y =
    rw (half-xor x y, digit-xor x y, bits-xor w (x / 2) (y / 2))
      (sym (
        add-append (bits w (x / 2)) (bits w (y / 2)) _ _
          (omega (arith, length-bits w (x / 2), length-bits w (y / 2)))))

byte-xor : (x y : ℕ) → bit_xor x y / 256 ≡ bit_xor (x / 256) (y / 256)
byte-xor x y =
    let parts : (n : ℕ) → n / 256 ≡ n / 2 / 2 / 2 / 2 / 2 / 2 / 2 / 2 = λ n. omega arith in
    rw
      (
        parts (bit_xor x y),
        parts x,
        parts y,
        half-xor x y,
        half-xor (x / 2) (y / 2),
        half-xor (x / 2 / 2) (y / 2 / 2),
        half-xor (x / 2 / 2 / 2) (y / 2 / 2 / 2),
        half-xor (x / 2 / 2 / 2 / 2) (y / 2 / 2 / 2 / 2),
        half-xor (x / 2 / 2 / 2 / 2 / 2) (y / 2 / 2 / 2 / 2 / 2),
        half-xor (x / 2 / 2 / 2 / 2 / 2 / 2) (y / 2 / 2 / 2 / 2 / 2 / 2),
        half-xor (x / 2 / 2 / 2 / 2 / 2 / 2 / 2) (y / 2 / 2 / 2 / 2 / 2 / 2 / 2),
      )
      refl

bits-mod : (n : ℕ) → bits 8 (n % 256) ≡ bits 8 n
bits-mod n =
    let e0 : n % 256 % 2 ≡ n % 2 = omega arith in
    let e1 : n % 256 / 2 % 2 ≡ n / 2 % 2 = omega arith in
    let e2 : n % 256 / 2 / 2 % 2 ≡ n / 2 / 2 % 2 = omega arith in
    let e3 : n % 256 / 2 / 2 / 2 % 2 ≡ n / 2 / 2 / 2 % 2 = omega arith in
    let e4 : n % 256 / 2 / 2 / 2 / 2 % 2 ≡ n / 2 / 2 / 2 / 2 % 2 = omega arith in
    let e5 : n % 256 / 2 / 2 / 2 / 2 / 2 % 2 ≡ n / 2 / 2 / 2 / 2 / 2 % 2 = omega arith in
    let e6 : n % 256 / 2 / 2 / 2 / 2 / 2 / 2 % 2 ≡ n / 2 / 2 / 2 / 2 / 2 / 2 % 2 = omega arith in
    let e7 : n % 256 / 2 / 2 / 2 / 2 / 2 / 2 / 2 % 2 ≡ n / 2 / 2 / 2 / 2 / 2 / 2 / 2 % 2 =
      omega arith in
    rw (e0, e1, e2, e3, e4, e5, e6, e7) refl

to_le-xor :
    (n x y : ℕ) → bits_of (to_le n (bit_xor x y)) ≡ add (bits_of (to_le n x)) (bits_of (to_le n y))
unfolding to_le
to_le-xor zero x y = refl
to_le-xor (suc n) x y =
    let us = bits_of (to_le n (x / 256)) in
    let vs = bits_of (to_le n (y / 256)) in
    let sum = add (bits 8 x) (bits 8 y) in
    ap (λ t. t ++ bits_of (to_le n (bit_xor x y / 256))) (bits-mod (bit_xor x y) ∙ bits-xor 8 x y)
    ∙ ap (λ q. sum ++ bits_of (to_le n q)) (byte-xor x y)
    ∙ ap (λ t. sum ++ t) (to_le-xor n (x / 256) (y / 256))
    ∙ sym (add-append (bits 8 x) (bits 8 y) us vs refl)
    ∙ ap (λ t. add (t ++ us) (bits 8 y ++ vs)) (sym (bits-mod x))
    ∙ ap (λ t. add (bits 8 (x % 256) ++ us) (t ++ vs)) (sym (bits-mod y))

length-bits_of : (bs : Bytes) → length (bits_of bs) ≡ 8 * length bs
length-bits_of [] = refl
length-bits_of (b ∷ bs) =
    omega (arith, length-append (bits 8 b) (bits_of bs), length-bits 8 b, length-bits_of bs)

-- The first byte of a register, and the others.
abbrev others : ℕ → List Bool
others r = bits_of (encode little_endian 3 (r / 256))

length-others : (r : ℕ) → length (others r) ≡ 24
length-others r = omega (
  arith,
  length-bits_of (encode little_endian 3 (r / 256)),
  length-encode little_endian 3 (r / 256),
)

split_top :
    (xs : List Bool) (m : ℕ) (low : List Bool)
    → m ≤ length low
    → xs ++ low ≡ add (xs ++ zeros m) (zeros (length xs) ++ low)
split_top xs m low h = sym (
    add-append xs (zeros (length xs)) (zeros m) low (length_zeros (length xs))
    ∙ ap (λ t. t ++ add (zeros m) low) (add-zeros xs)
    ∙ ap (λ t. xs ++ t) (zeros-add m low h))
  where
    length_zeros : (n : ℕ) → n ≡ length (zeros n)
    length_zeros zero = refl
    length_zeros (suc n) = ap suc (length_zeros n)

-- Eight shifts take the first byte out: its entry is what it leaves.
shift_byte :
    (a r : ℕ)
    → a < 256
    → shifts 8 (bits 8 a ++ others r)
      ≡ add (bits_of (encode little_endian 4 (entry a))) (others r ++ zeros 8)
shift_byte a r h =
    ap (shifts 8) (split_top (bits 8 a) 24 (others r) (omega (arith, length-others r)))
    ∙ shifts-add 8 (bits 8 a ++ zeros 24) (zeros 8 ++ others r) refl
        (omega (arith, length-others r))
    ∙ ap (λ t. add t (shifts 8 (zeros 8 ++ others r))) (entry-shifts a h)
    ∙ ap (add (bits_of (encode little_endian 4 (entry a)))) (shifts-zeros 8 (others r))

shifted_out :
    (r : ℕ) → r < 2 ^ 32 → bits_of (encode little_endian 4 (r / 256)) ≡ others r ++ zeros 8
unfolding encode to_le
shifted_out r h =
    let empty : r / 256 / 256 / 256 / 256 % 256 ≡ 0 = omega (arith, h) in rw empty refl

fed :
    (r i : ℕ)
    → add (bits 8 i) (bits_of (encode little_endian 4 r)) ≡ bits 8 (bit_xor r i % 256) ++ others r
unfolding encode to_le
fed r i =
    ap (λ t. add (bits 8 i) (t ++ others r)) (bits-mod r)
    ∙ add-append (bits 8 i) (bits 8 r) [] (others r) refl
    ∙ ap (λ t. t ++ others r)
        (add_comm (bits 8 i) (bits 8 r) ∙ sym (bits-xor 8 r i) ∙ sym (bits-mod (bit_xor r i)))

crc_step-remainder :
    (r i : ℕ)
    → r < 2 ^ 32
    → bits_of (encode little_endian 4 (crc_step r i))
      ≡ shifts 8 (add (bits 8 i) (bits_of (encode little_endian 4 r)))
crc_step-remainder r i h =
    unfold encode in
    to_le-xor 4 (entry (bit_xor r i % 256)) (r / 256)
    ∙ ap (add (bits_of (encode little_endian 4 (entry (bit_xor r i % 256))))) (shifted_out r h)
    ∙ sym (shift_byte (bit_xor r i % 256) r (omega arith))
    ∙ sym (ap (shifts 8) (fed r i))

-- For any data and any initial value of 32 bits, the checksum in little endian order is, bit by bit,
-- the remainder that the polynomial of H.222.0 leaves of the data, with the initial value, in the same
-- order, in the register.
pub gen_crc32-remainder :
    (crc : ℕ) (buffer : Bytes)
    → crc < 2 ^ 32
    → bits_of (encode little_endian 4 (gen_crc32 crc buffer))
      ≡ remainder buffer (bits_of (encode little_endian 4 crc))
unfolding gen_crc32
gen_crc32-remainder crc [] h = refl
gen_crc32-remainder crc (i ∷ buffer) h =
    gen_crc32-remainder (crc_step crc i) buffer (crc_step_bound crc i h)
    ∙ ap (remainder buffer) (crc_step-remainder crc i h)
