-- ===== src/Prelude/Xor.antt =====
-- `^` on words, by binary digits.
pub use Prim.Native.Nat.{bit_xor}
use Prim.Native.Nat.{
  ℕ, zero, suc, ◌+◌, ◌*◌, ◌/◌, ◌%◌, ◌^◌, ◌≤◌, ◌<◌, bit_xor, digits, differ, bit_xor-bitwise,
}
use mathlib.Core.Path.{◌≡◌, refl, ap}
use native.Mathlib.Omega.{arith}
use native.Mathlib.Nat.{pow-suc}

abbrev xor_digits : ℕ → ℕ → ℕ → ℕ
xor_digits fuel a b = digits (λ x. x) differ fuel a b

xor_digits-fuel : (f g x y : ℕ) → x ≤ f → x ≤ g → xor_digits f x y ≡ xor_digits g x y
xor_digits-fuel zero zero x y h k = refl
xor_digits-fuel zero (suc g) zero y h k = refl
xor_digits-fuel (suc f) zero zero y h k = refl
xor_digits-fuel (suc f) (suc g) zero y h k = refl
xor_digits-fuel zero g (suc x) y h k = absurd (omega arith)
xor_digits-fuel (suc f) zero (suc x) y h k = absurd (omega arith)
xor_digits-fuel (suc f) (suc g) (suc x) y h k =
    let halves = xor_digits-fuel f g (suc x / 2) (y / 2) (omega arith) (omega arith) in
    omega (halves, arith)

-- The lowest binary digit of `a ^ b`.
pub bit_xor_step : (x y : ℕ) → bit_xor x y ≡ differ (x % 2) (y % 2) + 2 * bit_xor (x / 2) (y / 2)
bit_xor_step zero y = omega (arith, bit_xor-bitwise 0 y, bit_xor-bitwise 0 (y / 2))
bit_xor_step (suc x) y = omega (
  arith,
  xor_digits-fuel x (suc x / 2) (suc x / 2) (y / 2) (omega arith) (omega arith),
  bit_xor-bitwise (suc x) y,
  bit_xor-bitwise (suc x / 2) (y / 2),
)

pub bit_xor-zero_left : (y : ℕ) → bit_xor 0 y ≡ y
bit_xor-zero_left y = omega (arith, bit_xor-bitwise 0 y)

pub differ_lt : (a b : ℕ) → a < 2 → b < 2 → differ a b < 2
differ_lt zero b h k = k
differ_lt (suc a) zero h k = h
differ_lt (suc a) (suc b) h k = differ_lt a b (omega arith) (omega arith)

differ_self : (a : ℕ) → differ a a ≡ 0
differ_self zero = refl
differ_self (suc a) = differ_self a

-- The `k` low bits are the same.
abbrev pub Agree : ℕ → ℕ → ℕ → Type 0
Agree zero x y = Unit
Agree (suc k) x y = (x % 2 ≡ y % 2) × Agree k (x / 2) (y / 2)

-- The low bits that are the same go out.
pub bit_xor-Agree : (k x y : ℕ) → Agree k x y → (q : ℕ) × (bit_xor x y ≡ 2 ^ k * q)
bit_xor-Agree zero x y e = (bit_xor x y, omega arith)
bit_xor-Agree (suc k) x y e =
    let rest = bit_xor-Agree k (x / 2) (y / 2) e.1 in
    (
      rest.0,
      omega (
        arith,
        bit_xor_step x y,
        ap (λ d. differ d (y % 2)) e.0,
        differ_self (y % 2),
        rest.1,
        ap (λ (n : ℕ). n * rest.0) (pow-suc 2 k),
      ),
    )

pub bit_xor_bound : (k x y : ℕ) → x < 2 ^ k → y < 2 ^ k → bit_xor x y < 2 ^ k
bit_xor_bound zero x y h j =
    let e : x ≡ 0 = omega arith in rw e (omega (arith, bit_xor-zero_left y))
bit_xor_bound (suc k) x y h j = omega (
  arith,
  bit_xor_step x y,
  differ_lt (x % 2) (y % 2) (omega arith) (omega arith),
  bit_xor_bound k (x / 2) (y / 2) (omega (arith, pow-suc 2 k)) (omega (arith, pow-suc 2 k)),
  pow-suc 2 k,
)
