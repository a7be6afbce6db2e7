-- ===== src/Bytesio/BitsWriter/Boundary.antt =====
-- library/bytesio/src/bits_writer.rs: `write_n_bits` where it ends on the boundary of a byte, and the
-- call of `write_bit` behind it.
use xiu.Prelude.{
  ℕ, zero, suc, ◌+◌, ◌-◌, ◌*◌, ◌/◌, ◌%◌, ◌^◌, ◌≤◌, ◌<◌, ◌≡◌, ok, panic, arith, bit_or, [], ◌∷◌,
  ◌++◌, ltb, Bool-cases, inl, inr,
}
use xiu.Bytesio.BitsWriter.{BitsWriter, flush, write_bit, write_loop, write_bits, write_n_bits}

-- The loop over a positive multiple of 8 bits ends with 8 of them at hand.
write_loop_full :
    (fuel d m : ℕ) (w : BitsWriter)
    → 0 < m
    → m % 8 ≡ 0
    → m ≤ 8 * fuel
    → (w' : BitsWriter) × (write_loop fuel d m w ≡ ok tt w') × (w'.cur_bit_num ≡ 8)
unfolding write_loop flush
write_loop_full zero d m w p h l = absurd (omega arith)
write_loop_full (suc fuel) d m w p h l = elim (Bool-cases (ltb 8 m)) [
  | inl more ↦
      let pushed : BitsWriter = record {
        writer = w.writer ++ (d / 2 ^ 56 % 2 ^ 8) ∷ [];
        cur_byte = 0;
        cur_bit_num = 0;
      } in
      let (w', e, f) =
        write_loop_full fuel (d * 2 ^ 8 % 2 ^ 64) (m - 8) pushed (ground arith) (ground arith)
          (ground arith) in
      (w', ground arith, f)
  | inr last ↦
      (record w { cur_byte = d / 2 ^ 56 % 2 ^ 8; cur_bit_num = m }, ground arith, ground arith)
]

write_bit_full : (b : ℕ) (w : BitsWriter) → w.cur_bit_num ≡ 8 → write_bit b w ≡ panic
unfolding write_bit
write_bit_full b w h = ground arith

-- Whenever the bits written reach over the byte at hand and end on the boundary of a byte, the
-- next `write_bit` panics.
pub write_bit-write_n_bits_boundary :
    (value n : ℕ) (w : BitsWriter)
    → w.cur_bit_num < 8
    → n ≤ 64
    → 8 < w.cur_bit_num + n
    → (w.cur_bit_num + n) % 8 ≡ 0
    → (w' : BitsWriter) × (write_n_bits value n w ≡ ok tt w') × ((b : ℕ) → write_bit b w' ≡ panic)
unfolding write_n_bits write_bits flush
write_bit-write_n_bits_boundary value n w c l o h =
    let left : ℕ = 8 - w.cur_bit_num in
    let v : ℕ = value * 2 ^ (64 - n) % 2 ^ 64 in
    let byte : ℕ = bit_or w.cur_byte (v / 2 ^ (56 + w.cur_bit_num) % 2 ^ 8) in
    let pushed : BitsWriter = record {
      writer = w.writer ++ byte ∷ [];
      cur_byte = 0;
      cur_bit_num = 0;
    } in
    let (w', e, f) =
      write_loop_full 8 (v * 2 ^ left % 2 ^ 64) (n - left) pushed (omega arith) (omega arith)
        (omega arith) in
    (w', ground arith, λ b. write_bit_full b w' f)
