-- ===== src/Mpegts/Polynomial.antt =====
-- ITU-T H.222.0, Annex A: the CRC of a section as a remainder of polynomials over two elements, bit
-- by bit, with no table. A register holds the coefficients, the highest first.
use xiu.Prelude.{
  ℕ, zero, suc, ◌/◌, ◌%◌, List, [], ◌∷◌, ◌++◌, Bool, true, false, not, ◌==◌, if◌then◌else◌,
}
use xiu.Prelude.Words.{Bytes}

abbrev pub xor : Bool → Bool → Bool
xor true b = not b
xor false b = b

-- The `w` low bits of a number, the highest first.
abbrev pub bits : ℕ → ℕ → List Bool
bits zero n = []
bits (suc w) n = bits w (n / 2) ++ (n % 2 == 1) ∷ []

abbrev pub bits_of : Bytes → List Bool
bits_of [] = []
bits_of (b ∷ bs) = bits 8 b ++ bits_of bs

-- The sum of two polynomials, from the highest coefficient on.
abbrev pub add : List Bool → List Bool → List Bool
add [] ys = ys
add (x ∷ xs) [] = x ∷ xs
add (x ∷ xs) (y ∷ ys) = xor x y ∷ add xs ys

-- x^32 + x^26 + x^23 + x^22 + x^16 + x^12 + x^11 + x^10 + x^8 + x^7 + x^5 + x^4 + x^2 + x + 1,
-- without its first term.
abbrev pub generator : List Bool
generator = bits 32 0x04c11db7

-- Times x, modulo the generator.
abbrev pub shift : List Bool → List Bool
shift [] = []
shift (top ∷ rest) = let next = rest ++ false ∷ [] in if top then add generator next else next

abbrev pub shifts : ℕ → List Bool → List Bool
shifts zero register = register
shifts (suc k) register = shifts k (shift register)

-- The register after the bytes; each is added to its first eight bits and shifted out.
abbrev pub remainder : Bytes → List Bool → List Bool
remainder [] register = register
remainder (b ∷ bs) register = remainder bs (shifts 8 (add (bits 8 b) register))
