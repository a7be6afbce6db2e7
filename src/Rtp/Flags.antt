-- ===== src/Rtp/Flags.antt =====
-- Bit fields of a byte put together by `<<` and `|`, as sums.
use xiu.Prelude.{ℕ, ◌+◌, ◌*◌, ◌%◌, ◌^◌, ◌<◌, ◌≡◌, ◌∙◌, bit_or, arith}
use xiu.Prelude.Bits.{shl, low_bits, bit_or-disjoint}

cut : (q k : ℕ) → q * k < 256 → q * k % 256 ≡ q * k
cut q k h = omega arith

pub two_flags : (a b : ℕ) → a < 4 → b < 2 → bit_or (shl 8 a 6) (shl 8 b 5) ≡ (a * 2 + b) * 2 ^ 5
two_flags a b h k =
    rw (cut a 64 (omega arith), cut b 32 (omega arith))
      (bit_or-disjoint 6 a (b * 32) (omega arith) ∙ omega arith)

-- The version, the padding flag and the report count of RTCP.
pub three_flags :
    (a b c : ℕ)
    → a < 4
    → b < 2
    → c < 32
    → bit_or (bit_or (shl 8 a 6) (shl 8 b 5)) c ≡ (a * 2 + b) * 2 ^ 5 + c
three_flags a b c h k l = rw (two_flags a b h k) (bit_or-disjoint 5 (a * 2 + b) c (omega arith))

-- The first byte of RTP.
pub four_flags :
    (a b c d : ℕ)
    → a < 4
    → b < 2
    → c < 2
    → d < 16
    → bit_or (bit_or (bit_or (shl 8 a 6) (shl 8 b 5)) (shl 8 c 4)) (low_bits 4 d)
      ≡ ((a * 2 + b) * 2 + c) * 2 ^ 4 + d
four_flags a b c d h k l m =
    rw (cut c 16 (omega arith), low d m, three)
      (bit_or-disjoint 4 ((a * 2 + b) * 2 + c) d (omega arith))
  where
    low : (d : ℕ) → d < 16 → d % 16 ≡ d
    low d m = omega arith

    three : bit_or (bit_or (shl 8 a 6) (shl 8 b 5)) (c * 16) ≡ ((a * 2 + b) * 2 + c) * 16
    three = three_flags a b (c * 16) h k (omega arith) ∙ omega arith

pub marker_flag : (a b : ℕ) → a < 2 → b < 128 → bit_or (shl 8 a 7) b ≡ a * 2 ^ 7 + b
marker_flag a b h k = rw (cut a 128 (omega arith)) (bit_or-disjoint 7 a b (omega arith))
