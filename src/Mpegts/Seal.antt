-- ===== src/Mpegts/Seal.antt =====
-- library/container/mpegts/src/pat.rs and pmt.rs: a section with its checksum, at a receiver.
use xiu.Prelude.{
  ℕ, ◌+◌, ◌-◌, ◌*◌, ◌/◌, ◌%◌, ◌^◌, ◌<◌, ◌≡◌, refl, sym, ap, ◌∙◌, ◌∷◌, ◌++◌, true, ◌==◌, ==_iff,
  some, length, length-append, take-length_append, bit_or, arith,
}
use xiu.Prelude.Words.{Bytes, encode, little_endian, length-encode}
use xiu.Prelude.Bits.{shl, bit_or-disjoint}
use xiu.Prelude.Checked.{expected, exception, no_exception}
use xiu.Mpegts.Crc32.{gen_crc32}
use xiu.Mpegts.Checksum.{gen_crc32-encode}
use xiu.Mpegts.Remainder.{gen_crc32-remainder}
use xiu.Mpegts.Polynomial.{bits_of}
use xiu.Mpegts.Receiver.{is_empty, is_intact, read_section, read_version}

abbrev pub sealed : Bytes → Bytes
sealed xs = xs ++ encode little_endian 4 (gen_crc32 0xffffffff xs)

is_intact-sealed : (xs : Bytes) → is_intact (sealed xs) ≡ true
unfolding is_intact encode
is_intact-sealed xs = ap is_empty (
    sym (gen_crc32-remainder 0xffffffff (sealed xs) (omega arith))
    ∙ ap (λ r. bits_of (encode little_endian 4 r)) (gen_crc32-encode 0xffffffff xs (omega arith)))

pub same_number : (n : ℕ) → (n == n) ≡ true
same_number n = (==_iff n n).1 refl

pub read_section-sealed :
    (table_id a b : ℕ) (body : Bytes)
    → a / 16 ≡ 11
    → a % 16 * 256 + b ≡ length body + 4
    → read_section table_id (sealed (table_id ∷ a ∷ b ∷ body)) ≡ some body
read_section-sealed table_id a b body h k =
    let crc = encode little_endian 4 (gen_crc32 0xffffffff (table_id ∷ a ∷ b ∷ body)) in
    let long : length (body ++ crc) ≡ length body + 4 = omega (
      arith,
      length-append body crc,
      length-encode little_endian 4 (gen_crc32 0xffffffff (table_id ∷ a ∷ b ∷ body)),
    ) in
    let cut : length body + 4 - 4 ≡ length body = omega arith in
    rw
      (
        same_number table_id,
        h,
        long,
        k,
        same_number (length body + 4),
        is_intact-sealed (table_id ∷ a ∷ b ∷ body),
        cut,
      )
      (ap some (take-length_append body crc))

-- A number of 16 bits in two bytes, and one of 13 or 12 bits behind bits that are set.
pub word : (n : ℕ) → n < 2 ^ 16 → n / 256 % 256 * 256 + n % 256 ≡ n
word n h = omega (arith, h)

module _ (pid : ℕ) (h : pid < 2 ^ 13) where
  pub pid_top : bit_or 0xe000 pid / 256 % 256 / 32 ≡ 7
  pid_top = omega (arith, bit_or-disjoint 13 7 pid h)

  pub pid_value : bit_or 0xe000 pid / 256 % 256 % 32 * 256 + bit_or 0xe000 pid % 256 ≡ pid
  pid_value = omega (arith, bit_or-disjoint 13 7 pid h)

module _ (q n : ℕ) (k : q < 16) (h : n < 2 ^ 12) where
  pub length_top : bit_or (q * 2 ^ 12) n / 256 % 256 / 16 ≡ q
  length_top = omega (arith, bit_or-disjoint 12 q n h)

  pub length_value : bit_or (q * 2 ^ 12) n / 256 % 256 % 16 * 256 + bit_or (q * 2 ^ 12) n % 256 ≡ n
  length_value = omega (arith, bit_or-disjoint 12 q n h)

pub read_version-field :
    (version : ℕ) → version < 32 → read_version (bit_or 0xc1 (shl 8 version 1)) 0 0 ≡ some version
unfolding exception expected
read_version-field version h =
    let top : bit_or 0xc1 (shl 8 version 1) / 64 ≡ 3 =
      (==_iff _ _).0
        (no_exception (λ v. bit_or 0xc1 (shl 8 v 1) / 64 == 3) true 32 version refl h) in
    let current : bit_or 0xc1 (shl 8 version 1) % 2 ≡ 1 =
      (==_iff _ _).0
        (no_exception (λ v. bit_or 0xc1 (shl 8 v 1) % 2 == 1) true 32 version refl h) in
    let value : bit_or 0xc1 (shl 8 version 1) / 2 % 32 ≡ version =
      (==_iff _ _).0
        (no_exception (λ v. bit_or 0xc1 (shl 8 v 1) / 2 % 32 == v) true 32 version refl h) in
    rw (top, current, value) refl
