-- ===== src/Bytesio/BitsWriter.antt =====
-- library/bytesio/src/bits_writer.rs: writing bit by bit, the highest bit of a byte first.
-- A shift by the width of its word or more, and a subtraction below 0, are panics.
pub mod Laws
pub mod Boundary
use xiu.Prelude.{
  ℕ, zero, suc, ◌+◌, ◌-◌, ◌*◌, ◌/◌, ◌%◌, ◌^◌, ◌++◌, [], ◌∷◌, Bool, true, false, ltb, leb, ◌==◌,
  if◌then◌else◌, length, Method, ok, err, panic, stuck, ◌>>=◌, bit_or, ◌||◌,
}
use xiu.Prelude.Words.{Bytes}
use xiu.Prelude.Bits.{shr, shl, low_bits}
use xiu.Bytesio.Writer.{BytesWriter}

pub data BitError : Type 0 where
  too_big cannot_write_8bit : BitError

pub record BitsWriter : Type 0 where
  pub writer : BytesWriter
  pub cur_byte : ℕ
  pub cur_bit_num : ℕ

abbrev pub new : BytesWriter → BitsWriter
new writer = record { writer = writer; cur_byte = 0; cur_bit_num = 0 }

unfoldable pub write_bytes : Bytes → Method BitsWriter BitError (Unit {0})
write_bytes bytes w = ok tt (record w { writer = w.writer ++ bytes })

-- The byte at hand goes out, and an empty one is begun.
abbrev push : ℕ → BitsWriter → BitsWriter
push byte w = record { writer = w.writer ++ byte ∷ []; cur_byte = 0; cur_bit_num = 0 }

unfoldable pub write_bit : ℕ → Method BitsWriter BitError (Unit {0})
write_bit b w =
    let byte = bit_or w.cur_byte (shl 8 b (7 - w.cur_bit_num)) in
    if ltb 7 w.cur_bit_num
    then panic
    else if w.cur_bit_num + 1 == 8
    then ok tt (push byte w)
    else ok tt (record w { cur_byte = byte; cur_bit_num = w.cur_bit_num + 1 })

unfoldable pub write_8bit : ℕ → Method BitsWriter BitError (Unit {0})
write_8bit b w =
    if w.cur_bit_num == 0
    then ok tt (record w { writer = w.writer ++ b ∷ [] })
    else err cannot_write_8bit w

flush : Method BitsWriter BitError (Unit {0})
flush w = if w.cur_bit_num == 8 then ok tt (push w.cur_byte w) else ok tt w

-- `while bit_num_mut > 0 { … }` of `write_n_bits`. A round that goes on takes 8 bits off.
pub write_loop : ℕ → ℕ → ℕ → Method BitsWriter BitError (Unit {0})
unfolding flush
write_loop zero data_mut bit_num_mut w = if bit_num_mut == 0 then ok tt w else stuck
write_loop (suc fuel) data_mut bit_num_mut w =
    let byte = low_bits 8 (shr data_mut 56) in
    let rest = write_loop fuel (shl 64 data_mut 8) (bit_num_mut - 8) in
    let more = (flush >>= λ _. rest) (record w { cur_byte = byte; cur_bit_num = 8 }) in
    if bit_num_mut == 0
    then ok tt w
    else if ltb 8 bit_num_mut
    then more
    else ok tt (record w { cur_byte = byte; cur_bit_num = bit_num_mut })

-- The part of `write_n_bits` behind its first test; `64 - bit_num` is 64, and the shift by it a
-- panic, if there is nothing to write. Eight rounds write all that 64 bits can leave.
write_bits : ℕ → ℕ → Method BitsWriter BitError (Unit {0})
unfolding flush
write_bits value bit_num w =
    let data_mut = shl 64 value (64 - bit_num) in
    let byte = bit_or w.cur_byte (low_bits 8 (shr data_mut (56 + w.cur_bit_num))) in
    let left = 8 - w.cur_bit_num in
    let rest = write_loop 8 (shl 64 data_mut left) (bit_num - left) in
    let full = (flush >>= λ _. rest) (record w { cur_byte = byte; cur_bit_num = 8 }) in
    if bit_num == 0 || ltb 7 w.cur_bit_num
    then panic
    else if leb left bit_num
    then full
    else ok tt (record w { cur_byte = byte; cur_bit_num = w.cur_bit_num + bit_num })

unfoldable pub write_n_bits : ℕ → ℕ → Method BitsWriter BitError (Unit {0})
unfolding write_bits
write_n_bits value bit_num w = if ltb 64 bit_num then err too_big w else write_bits value bit_num w

unfoldable pub bits_aligment_8 : Method BitsWriter BitError (Unit {0})
unfolding flush
bits_aligment_8 w = flush (record w { cur_bit_num = 8 })

unfoldable pub len : BitsWriter → ℕ
len w = length w.writer * 8 + w.cur_bit_num
