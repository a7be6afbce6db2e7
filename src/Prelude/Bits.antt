-- ===== src/Prelude/Bits.antt =====
-- Shifts, masks and disjoint `|`, as arithmetic.
use Prim.Native.Nat.{
  ℕ, zero, suc, ◌+◌, ◌*◌, ◌/◌, ◌%◌, ◌^◌, ◌≤◌, ◌<◌, max, bit_or, digits, bit_or-bitwise,
}
use mathlib.Core.Path.{◌≡◌, refl, ap}
use native.Mathlib.Omega.{arith}
use native.Mathlib.Nat.{pow-suc}

-- `x >> k`.
abbrev pub shr : ℕ → ℕ → ℕ
shr x k = x / 2 ^ k

-- `x << k` on a word of `w` bits: the bits that leave it are lost.
abbrev pub shl : ℕ → ℕ → ℕ → ℕ
shl w x k = x * 2 ^ k % 2 ^ w

-- `x & (2 ^ k - 1)`, and `x as u8` for `k = 8`.
abbrev pub low_bits : ℕ → ℕ → ℕ
low_bits k x = x % 2 ^ k

abbrev or_digits : ℕ → ℕ → ℕ → ℕ
or_digits fuel a b = digits (λ x. x) max fuel a b

-- More fuel than `x` needs changes nothing.
or_digits-fuel : (f g x y : ℕ) → x ≤ f → x ≤ g → or_digits f x y ≡ or_digits g x y
or_digits-fuel zero zero x y h k = refl
or_digits-fuel zero (suc g) zero y h k = refl
or_digits-fuel (suc f) zero zero y h k = refl
or_digits-fuel (suc f) (suc g) zero y h k = refl
or_digits-fuel zero g (suc x) y h k = absurd (omega arith)
or_digits-fuel (suc f) zero (suc x) y h k = absurd (omega arith)
or_digits-fuel (suc f) (suc g) (suc x) y h k =
    let halves = or_digits-fuel f g (suc x / 2) (y / 2) (omega arith) (omega arith) in
    omega (halves, arith)

-- The lowest binary digit of `a | b`.
bit_or_step : (x y : ℕ) → bit_or x y ≡ max (x % 2) (y % 2) + 2 * bit_or (x / 2) (y / 2)
bit_or_step zero y = omega (arith, bit_or-bitwise 0 y, bit_or-bitwise 0 (y / 2))
bit_or_step (suc x) y = omega (
  arith,
  or_digits-fuel x (suc x / 2) (suc x / 2) (y / 2) (omega arith) (omega arith),
  bit_or-bitwise (suc x) y,
  bit_or-bitwise (suc x / 2) (y / 2),
)

bit_or-zero_below : (n a : ℕ) → a ≤ n → bit_or a 0 ≡ a
bit_or-zero_below n zero h = bit_or-bitwise 0 0
bit_or-zero_below zero (suc a) h = absurd (omega arith)
bit_or-zero_below (suc n) (suc a) h =
    omega (arith, bit_or_step (suc a) 0, bit_or-zero_below n (suc a / 2) (omega arith))

pub bit_or-zero : (a : ℕ) → bit_or a 0 ≡ a
bit_or-zero a = bit_or-zero_below a a (omega arith)

-- `(q << k) | r` is a sum if `r` has no more than `k` bits.
pub bit_or-disjoint : (k q r : ℕ) → r < 2 ^ k → bit_or (q * 2 ^ k) r ≡ q * 2 ^ k + r
bit_or-disjoint zero q r h =
    let e : r ≡ 0 = omega arith in rw e (omega (arith, bit_or-zero (q * 2 ^ 0)))
bit_or-disjoint (suc k) q r h = omega (
  arith,
  ap (λ (t : ℕ). q * t) (pow-suc 2 k),
  bit_or_step (q * 2 ^ suc k) r,
  ap (λ (t : ℕ). bit_or t (r / 2)) (half k q),
  bit_or-disjoint k q (r / 2) (omega (arith, pow-suc 2 k)),
)
  where
    half : (k q : ℕ) → q * 2 ^ suc k / 2 ≡ q * 2 ^ k
    half k q = omega (arith, ap (λ (t : ℕ). q * t) (pow-suc 2 k))

bit_or_comm_below : (n a b : ℕ) → a ≤ n → b ≤ n → bit_or a b ≡ bit_or b a
bit_or_comm_below zero zero zero h k = refl
bit_or_comm_below zero zero (suc b) h k = absurd (omega arith)
bit_or_comm_below zero (suc a) b h k = absurd (omega arith)
bit_or_comm_below (suc n) a b h k = omega (
  arith,
  bit_or_step a b,
  bit_or_step b a,
  bit_or_comm_below n (a / 2) (b / 2) (omega arith) (omega arith),
)

pub bit_or_comm : (a b : ℕ) → bit_or a b ≡ bit_or b a
bit_or_comm a b = bit_or_comm_below (a + b) a b (omega arith) (omega arith)
