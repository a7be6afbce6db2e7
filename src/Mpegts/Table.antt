-- ===== src/Mpegts/Table.antt =====
-- library/container/mpegts/src/crc32.rs: the entries of the table, by the polynomial.
use xiu.Prelude.{
  ℕ, zero, suc, ◌<◌, ◌≡◌, refl, List, [], ◌∷◌, ◌++◌, Bool, true, false, not, ◌&&◌, arith,
}
use xiu.Prelude.Words.{encode, little_endian, to_le}
use xiu.Prelude.Checked.{expected, exception, no_exception}
use xiu.Mpegts.Crc32.{entry}
use xiu.Mpegts.Polynomial.{xor, bits, bits_of, shifts}

abbrev pub zeros : ℕ → List Bool
zeros zero = []
zeros (suc n) = false ∷ zeros n

abbrev same : List Bool → List Bool → Bool
same [] [] = true
same [] (y ∷ ys) = false
same (x ∷ xs) [] = false
same (x ∷ xs) (y ∷ ys) = not (xor x y) && same xs ys

same_sound : (xs ys : List Bool) → same xs ys ≡ true → xs ≡ ys
same_sound [] [] h = refl
same_sound [] (y ∷ ys) h = ground arith
same_sound (x ∷ xs) [] h = ground arith
same_sound (true ∷ xs) (true ∷ ys) h = rw (same_sound xs ys h) refl
same_sound (true ∷ xs) (false ∷ ys) h = ground arith
same_sound (false ∷ xs) (true ∷ ys) h = ground arith
same_sound (false ∷ xs) (false ∷ ys) h = rw (same_sound xs ys h) refl

-- An entry, in the order of its bytes, is what a byte leaves of an empty register.
pub entry-shifts :
    (a : ℕ) → a < 256 → shifts 8 (bits 8 a ++ zeros 24) ≡ bits_of (encode little_endian 4 (entry a))
unfolding exception expected entry encode to_le
entry-shifts a h = same_sound _ _ (
    no_exception (λ a. same (shifts 8 (bits 8 a ++ zeros 24)) (bits_of (to_le 4 (entry a)))) true
      256 a refl h)
