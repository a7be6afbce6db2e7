-- ===== src/Bytesio/Bits.antt =====
-- The bits of a byte string, the highest bit of each byte first: what the readers and writers of
-- library/bytesio/src/bits_reader.rs and bits_writer.rs are about.
use xiu.Prelude.{
  ℕ, zero, suc, ◌+◌, ◌*◌, ◌/◌, ◌%◌, ◌^◌, ◌<◌, ◌≡◌, refl, sym, ap, List, [], ◌∷◌, ◌++◌, append_assoc,
  length, arith,
}
use native.Mathlib.Nat.{pow-succ', div-div-eq-div-mul}
use xiu.Prelude.Words.{Bytes}

-- The low `k` bits of `b`.
unfoldable pub bits_of : ℕ → ℕ → List ℕ
bits_of zero b = []
bits_of (suc k) b = (b / 2 ^ k % 2) ∷ bits_of k b

unfoldable pub bytes_bits : Bytes → List ℕ
bytes_bits [] = []
bytes_bits (b ∷ bs) = bits_of 8 b ++ bytes_bits bs

-- The number that a row of bits stands for, after `acc`.
unfoldable pub from_bits : ℕ → List ℕ → ℕ
from_bits acc [] = acc
from_bits acc (b ∷ bs) = from_bits (2 * acc + b) bs

pub length-bits_of : (k b : ℕ) → length (bits_of k b) ≡ k
unfolding bits_of
length-bits_of zero b = refl
length-bits_of (suc k) b = ap suc (length-bits_of k b)

pub bytes_bits-append : (xs ys : Bytes) → bytes_bits (xs ++ ys) ≡ bytes_bits xs ++ bytes_bits ys
unfolding bytes_bits
bytes_bits-append [] ys = refl
bytes_bits-append (x ∷ xs) ys = simp (bytes_bits-append xs ys, append_assoc)

div-two_pow_suc : (c v : ℕ) → v / 2 ^ suc c ≡ v / 2 / 2 ^ c
div-two_pow_suc c v = rw pow-succ' (sym (div-div-eq-div-mul v 2 (2 ^ c)))

-- A bit that is put behind a number stands behind its bits.
pub bits_of-suc : (c q b : ℕ) → b < 2 → bits_of (suc c) (2 * q + b) ≡ bits_of c q ++ b ∷ []
unfolding bits_of
bits_of-suc zero q b h = ground arith
bits_of-suc (suc c) q b h = ground (arith, div-two_pow_suc c (2 * q + b), bits_of-suc c q b h)
