-- ===== src/Prelude/Words.antt =====
-- Unsigned integers as bytes, in the two byte orders (`to_be_bytes`, `from_be_bytes` and their
-- little endian twins, for any number of bytes; the bits that do not fit are cut off).
use Prim.Native.Nat.{ℕ, zero, suc, ◌+◌, ◌*◌, ◌/◌, ◌%◌, ◌^◌, ◌<◌}
use mathlib.Core.Path.{◌≡◌, refl}
use mathlib.Core.List.{List, [], ◌∷◌, ◌++◌}
use native.Mathlib.Omega.{arith}
use xiu.Prelude.Lists.{length, length-append}

abbrev pub Bytes : Type 0
Bytes = List ℕ

abbrev pub IsByte : ℕ → Type 0
IsByte b = b < 256

-- `BigEndian` and `LittleEndian`, the arguments for `T: ByteOrder`.
pub data ByteOrder : Type 0 where
  big_endian little_endian : ByteOrder

unfoldable pub to_be : ℕ → ℕ → Bytes
to_be zero v = []
to_be (suc n) v = to_be n (v / 256) ++ (v % 256) ∷ []

unfoldable pub to_le : ℕ → ℕ → Bytes
to_le zero v = []
to_le (suc n) v = (v % 256) ∷ to_le n (v / 256)

from_be_loop : ℕ → Bytes → ℕ
from_be_loop acc [] = acc
from_be_loop acc (b ∷ bs) = from_be_loop (acc * 256 + b) bs

unfoldable pub from_be : Bytes → ℕ
unfolding from_be_loop
from_be bs = from_be_loop 0 bs

unfoldable pub from_le : Bytes → ℕ
from_le [] = 0
from_le (b ∷ bs) = b + 256 * from_le bs

unfoldable pub encode : ByteOrder → ℕ → ℕ → Bytes
unfolding to_be to_le
encode big_endian n v = to_be n v
encode little_endian n v = to_le n v

unfoldable pub decode : ByteOrder → Bytes → ℕ
unfolding from_be from_le
decode big_endian bs = from_be bs
decode little_endian bs = from_le bs

from_be_loop-append :
    (acc : ℕ) (bs : Bytes) (b : ℕ) → from_be_loop acc (bs ++ b ∷ []) ≡ from_be_loop acc bs * 256 + b
unfolding from_be_loop
from_be_loop-append acc [] b = refl
from_be_loop-append acc (x ∷ bs) b = from_be_loop-append (acc * 256 + x) bs b

div-lt_pow : (n v : ℕ) → v < 256 ^ suc n → v / 256 < 256 ^ n
div-lt_pow n v h = omega arith

from_be-to_be : (n v : ℕ) → v < 256 ^ n → from_be_loop 0 (to_be n v) ≡ v
unfolding to_be
from_be-to_be zero v h = unfold from_be_loop in omega arith
from_be-to_be (suc n) v h = omega (
  arith,
  from_be_loop-append 0 (to_be n (v / 256)) (v % 256),
  from_be-to_be n (v / 256) (div-lt_pow n v h),
)

from_le-to_le : (n v : ℕ) → v < 256 ^ n → from_le (to_le n v) ≡ v
unfolding to_le from_le
from_le-to_le zero v h = omega arith
from_le-to_le (suc n) v h = omega (arith, from_le-to_le n (v / 256) (div-lt_pow n v h))

-- What is written in a byte order is read back in it.
pub decode-encode : (o : ByteOrder) (n v : ℕ) → v < 256 ^ n → decode o (encode o n v) ≡ v
unfolding decode encode
decode-encode big_endian n v h = from_be-to_be n v h
decode-encode little_endian n v h = from_le-to_le n v h

length-to_be : (n v : ℕ) → length (to_be n v) ≡ n
unfolding to_be
length-to_be zero v = refl
length-to_be (suc n) v =
    omega (arith, length-append (to_be n (v / 256)) ((v % 256) ∷ []), length-to_be n (v / 256))

length-to_le : (n v : ℕ) → length (to_le n v) ≡ n
unfolding to_le
length-to_le zero v = refl
length-to_le (suc n) v = omega (arith, length-to_le n (v / 256))

pub length-encode : (o : ByteOrder) (n v : ℕ) → length (encode o n v) ≡ n
unfolding encode
length-encode big_endian n v = length-to_be n v
length-encode little_endian n v = length-to_le n v
