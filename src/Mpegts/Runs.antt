-- ===== src/Mpegts/Runs.antt =====
-- library/container/mpegts: examples. The data is that of the test in crc32.rs.
use xiu.Prelude.{◌≡◌, refl, [], ◌∷◌, ◌++◌, bit_or, length, some, ok, arith}
use xiu.Prelude.Words.{Bytes, encode, little_endian}
use xiu.Prelude.Bits.{shr, low_bits}
use xiu.Mpegts.Crc32.{gen_crc32, entry}
use xiu.Mpegts.Polynomial.{bits_of, remainder}
use xiu.Mpegts.Remainder.{gen_crc32-remainder}
use xiu.Mpegts.Receiver.{read_pat, read_pmt}
use xiu.Mpegts.Association.{write_pat-read_pat}
use xiu.Mpegts.ProgramMap.{write_pmt-read_pmt}
use xiu.Mpegts.Tables.{Pes, new_pes, Pmt, new_pmt, new_pat, write_pat, write_pmt}
use xiu.Mpegts.Programs.{write_ts_header_for_pat_pmt}
use xiu.Mpegts.Streams.{write_ts_header_for_pat_pmt-length}

abbrev section : Bytes
section = 0x00 ∷ 0xb0 ∷ 0x0d ∷ 0x00 ∷ 0x01 ∷ 0xc1 ∷ 0x00 ∷ 0x00 ∷ 0x00 ∷ 0x01 ∷ 0xe1 ∷ 0x00 ∷ []

gen_crc32_value : gen_crc32 0xffffffff section ≡ 0x7d5ef9e8
unfolding gen_crc32 entry
gen_crc32_value = refl

gen_crc32-remainder_example :
    bits_of (encode little_endian 4 (gen_crc32 0xffffffff section))
    ≡ remainder section (bits_of (encode little_endian 4 0xffffffff))
gen_crc32-remainder_example = gen_crc32-remainder 0xffffffff section (omega arith)

abbrev video : Pes
video = record new_pes { codec_id = 0x1b; pid = 0x101 }

abbrev sound : Pes
sound = record new_pes { codec_id = 0x9c; pid = 0x102 }

abbrev first : Pmt
first = record new_pmt {
  pid = 0x100;
  program_number = 1;
  pcr_pid = 0x101;
  program_info = 5 ∷ 6 ∷ [];
  streams = video ∷ sound ∷ [];
}

abbrev second : Pmt
second = record new_pmt {
  pid = 0x103;
  program_number = 2;
  streams = record new_pes { pid = 0x104 } ∷ [];
}

write_pat-read_pat_example :
    (bytes : Bytes) × (write_pat (record new_pat { pmt = first ∷ second ∷ [] }) [] ≡ ok bytes [])
    × (read_pat bytes
        ≡ some (record {
          transport_stream_id = 1;
          version = 0;
          programs = (1, 0x100) ∷ (2, 0x103) ∷ [];
        }))
write_pat-read_pat_example =
    write_pat-read_pat (record new_pat { pmt = first ∷ second ∷ [] }) (omega arith) (omega arith)
      (omega arith) ((omega arith, omega arith), ((omega arith, omega arith), tt))

write_pmt-read_pmt_example :
    (bytes : Bytes) × (write_pmt first [] ≡ ok bytes [])
    × (read_pmt bytes
        ≡ some (record {
          program_number = 1;
          version = 0;
          pcr_pid = 0x101;
          program_info = 5 ∷ 6 ∷ [];
          streams = (0x1b, 0x101) ∷ (0x06, 0x102) ∷ [];
        }))
write_pmt-read_pmt_example =
    write_pmt-read_pmt first (omega arith) (omega arith) (omega arith) (omega arith)
      (omega arith, (omega arith, tt))

write_ts_header_for_pat_pmt-length_example :
    (packet rest : Bytes) × (write_ts_header_for_pat_pmt 0x100 section 3 (1 ∷ [])
      ≡ ok tt ((1 ∷ []) ++ packet))
    × (length packet ≡ 188)
    × (packet
        ≡ 0x47
            ∷ bit_or 0x40 (low_bits 5 (low_bits 8 (shr 0x100 8)))
            ∷ low_bits 8 0x100
            ∷ bit_or 0x10 3
            ∷ 0
            ∷ section
          ++ rest)
write_ts_header_for_pat_pmt-length_example =
    write_ts_header_for_pat_pmt-length 0x100 section 3 (1 ∷ []) (omega arith)
