-- ===== src/Bytesio/BitsReader.antt =====
-- library/bytesio/src/bits_reader.rs: reading bit by bit, the highest bit of a byte first.
pub mod Laws
use xiu.Prelude.{
  ℕ, zero, suc, ◌+◌, ◌-◌, ◌*◌, ◌/◌, ◌%◌, ◌^◌, ◌++◌, Bool, true, false, ◌==◌, if◌then◌else◌, length,
  Outcome, Method, ok, err, ◌>>=◌, zoom, bit_or,
}
use xiu.Prelude.Bits.{shr, shl, low_bits}
use xiu.Bytesio.Reader.{BytesReader, ReadError, read_u8}

pub data BitError : Type 0 where
  bytes_read_error : ReadError → BitError
  cannot_read_byte : BitError

pub record BitsReader : Type 0 where
  pub reader : BytesReader
  pub cur_byte : ℕ
  pub cur_bit_left : ℕ

unfoldable pub len : BitsReader → ℕ
len r = length r.reader * 8 + r.cur_bit_left

-- A call of the byte reader inside.
abbrev inner : Method BytesReader ReadError ℕ → Method BitsReader BitError ℕ
inner = zoom (λ (r : BitsReader). r.reader) (λ r b. record r { reader = b }) bytes_read_error

unfoldable pub read_byte : Method BitsReader BitError ℕ
read_byte r = if r.cur_bit_left == 0 then inner read_u8 r else err cannot_read_byte r

-- The byte that `read_bit` goes on with, if none is begun.
abbrev fill : ℕ → Method BitsReader BitError (Unit {0})
fill byte r = ok tt (record r { cur_byte = byte; cur_bit_left = 8 })

next_byte : Method BitsReader BitError (Unit {0})
next_byte r = if r.cur_bit_left == 0 then (inner read_u8 >>= fill) r else ok tt r

-- `self.cur_bit_left -= 1` and the bit at that place.
abbrev take_bit : Method BitsReader BitError ℕ
take_bit r =
    let left = r.cur_bit_left - 1 in
    ok (low_bits 1 (shr r.cur_byte left)) (record r { cur_bit_left = left })

unfoldable pub read_bit : Method BitsReader BitError ℕ
unfolding next_byte
read_bit = next_byte >>= λ _. take_bit

-- `for _ in 0..n { result <<= 1; result |= self.read_bit()?; }`
read_n_bits_loop : ℕ → ℕ → Method BitsReader BitError ℕ
read_n_bits_loop zero result = ok result
read_n_bits_loop (suc n) result = do
  cur_bit ← read_bit
  read_n_bits_loop n (bit_or (shl 64 result 1) cur_bit)

unfoldable pub read_n_bits : ℕ → Method BitsReader BitError ℕ
unfolding read_n_bits_loop
read_n_bits n = read_n_bits_loop n 0

unfoldable pub bits_aligment_8 : BitsReader → BitsReader
bits_aligment_8 r = record r { cur_bit_left = 0 }
