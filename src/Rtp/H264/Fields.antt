-- ===== src/Rtp/H264/Fields.antt =====
-- The indicator and the header of a fragment, over all first bytes of a unit.
use xiu.Prelude.{ℕ, ◌<◌, ◌≡◌, refl, true, false, ◌==◌, ==_iff, bit_and, bit_or}
use xiu.Prelude.Checked.{expected, exception, no_exception}
use xiu.Rtp.H264.{fu_a, fu_b, fu_start, fu_end, is_fu_start, is_fu_end}

abbrev pub indicator : ℕ → ℕ
indicator b = bit_or (bit_and b 0xe0) fu_a

abbrev pub first : ℕ → ℕ
first b = bit_or (bit_and b 0x1f) fu_start

abbrev pub later : ℕ → ℕ
later b = bit_and b 0x1f

abbrev pub final : ℕ → ℕ
final b = bit_or (bit_and b 0x1f) fu_end

module _ (b : ℕ) (h : b < 256) where
  pub indicator_type : bit_and (indicator b) 0x1f ≡ 28
  unfolding exception expected
  indicator_type =
      (==_iff _ _).0 (no_exception (λ x. bit_and (indicator x) 0x1f == 28) true 256 b refl h)

  pub indicator_not_fu_b : indicator b == fu_b ≡ false
  unfolding exception expected
  indicator_not_fu_b = no_exception (λ x. indicator x == fu_b) false 256 b refl h

  pub first_start : is_fu_start (first b) ≡ true
  unfolding exception expected is_fu_start
  first_start = no_exception (λ x. is_fu_start (first x)) true 256 b refl h

  pub first_end : is_fu_end (first b) ≡ false
  unfolding exception expected is_fu_end
  first_end = no_exception (λ x. is_fu_end (first x)) false 256 b refl h

  pub later_start : is_fu_start (later b) ≡ false
  unfolding exception expected is_fu_start
  later_start = no_exception (λ x. is_fu_start (later x)) false 256 b refl h

  pub later_end : is_fu_end (later b) ≡ false
  unfolding exception expected is_fu_end
  later_end = no_exception (λ x. is_fu_end (later x)) false 256 b refl h

  pub final_start : is_fu_start (final b) ≡ false
  unfolding exception expected is_fu_start
  final_start = no_exception (λ x. is_fu_start (final x)) false 256 b refl h

  pub final_end : is_fu_end (final b) ≡ true
  unfolding exception expected is_fu_end
  final_end = no_exception (λ x. is_fu_end (final x)) true 256 b refl h

  pub first_cleared : bit_and (first b) 0x7f ≡ later b
  unfolding exception expected
  first_cleared =
      (==_iff _ _).0 (no_exception (λ x. bit_and (first x) 0x7f == later x) true 256 b refl h)

  -- The first byte of the unit, out of the first fragment.
  pub first_byte_back : bit_or (bit_and (indicator b) 0xe0) (bit_and (first b) 0x1f) ≡ b
  unfolding exception expected
  first_byte_back = (==_iff _ _).0 (
      no_exception (λ x. bit_or (bit_and (indicator x) 0xe0) (bit_and (first x) 0x1f) == x) true 256
        b refl h)
