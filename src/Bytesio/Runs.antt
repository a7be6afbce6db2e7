-- ===== src/Bytesio/Runs.antt =====
-- Runs of the readers and writers of library/bytesio.
use xiu.Prelude.{ℕ, ◌≡◌, [], ◌∷◌, ◌++◌, take, drop, ok, panic, arith}
use xiu.Bytesio.Reader.{AsyncBytesReader, async_read_bytes}
use xiu.Bytesio.Reader.Stream.{stream, async_read_bytes-stream}
use xiu.Bytesio.BitsReader.{BitsReader, read_n_bits}
use xiu.Bytesio.BitsReader.Laws as ReaderLaws
use xiu.Bytesio.Bits.{bits_of, bytes_bits, from_bits}
use xiu.Bytesio.BitsWriter.{BitsWriter, write_bit, write_n_bits}
use xiu.Bytesio.BitsWriter.Laws as WriterLaws
use xiu.Bytesio.BitsWriter.Boundary.{write_bit-write_n_bits_boundary}

-- Three bytes at hand and three packets to come, one of them empty.
abbrev split_stream : AsyncBytesReader
split_stream = record {
  bytes_reader = 1 ∷ 2 ∷ 3 ∷ [];
  incoming = (4 ∷ []) ∷ [] ∷ (5 ∷ 6 ∷ 7 ∷ []) ∷ [];
}

async_read_bytes-stream_example :
    (r' : AsyncBytesReader) × (async_read_bytes 5 split_stream
      ≡ ok (take 5 (stream split_stream)) r')
    × (stream r' ≡ drop 5 (stream split_stream))
async_read_bytes-stream_example = async_read_bytes-stream 5 split_stream (omega arith)

-- Three bits of a byte are left, and two bytes behind it.
abbrev bit_reader : BitsReader
bit_reader = record { reader = 0xa5 ∷ 0x3c ∷ []; cur_byte = 0x96; cur_bit_left = 3 }

read_n_bits-bits_example :
    (r' : BitsReader) × (read_n_bits 13 bit_reader
      ≡ ok (from_bits 0 (take 13 (ReaderLaws.bits bit_reader))) r')
    × (ReaderLaws.bits r' ≡ drop 13 (ReaderLaws.bits bit_reader))
unfolding bits_of bytes_bits
read_n_bits-bits_example = ReaderLaws.read_n_bits-bits 13 bit_reader (omega arith) (omega arith)

-- Seven bits of a byte are written.
abbrev bit_writer : BitsWriter
bit_writer = record { writer = 0xa5 ∷ []; cur_byte = 0xc2; cur_bit_num = 7 }

bit_writer-IsValid : WriterLaws.IsValid bit_writer
bit_writer-IsValid = record { open_bits = omega arith; is_byte = omega arith; free = omega arith }

write_bit-bits_example :
    (w' : BitsWriter) × (write_bit 1 bit_writer ≡ ok tt w')
    × WriterLaws.IsValid w'
    × (WriterLaws.bits w' ≡ WriterLaws.bits bit_writer ++ 1 ∷ [])
write_bit-bits_example = WriterLaws.write_bit-bits 1 bit_writer (omega arith) bit_writer-IsValid

write_bit-write_n_bits_boundary_example :
    (w' : BitsWriter) × (write_n_bits 0x155 9 bit_writer ≡ ok tt w')
    × ((b : ℕ) → write_bit b w' ≡ panic)
write_bit-write_n_bits_boundary_example =
    write_bit-write_n_bits_boundary 0x155 9 bit_writer (omega arith) (omega arith) (omega arith)
      (omega arith)
