-- ===== src/Mpegts/Tables.antt =====
-- library/container/mpegts/src: the streams of pes.rs, the program map of pmt.rs and the program
-- association of pat.rs, with the muxers that write the two tables. An i64 is its bits.
use xiu.Prelude.{
  ℕ, ◌+◌, ◌*◌, ◌^◌, List, [], ◌∷◌, ◌&&◌, ltb, ◌==◌, if◌then◌else◌, length, bit_or, Outcome, ok, err,
  stuck, panic, Method, ◌>>◌,
}
use xiu.Prelude.Words.{Bytes, big_endian, little_endian}
use xiu.Prelude.Bits.{shl, low_bits}
use xiu.Bytesio.Writer.{BytesWriter, WriteError, write_u8, write_uint, write, extract_current_bytes}
use xiu.Mpegts.Crc32.{gen_crc32}

pub record Pes : Type 0 where
  pub program_number : ℕ
  pub pid : ℕ
  pub stream_id : ℕ
  pub codec_id : ℕ
  pub continuity_counter : ℕ
  pub esinfo : Bytes
  pub esinfo_length : ℕ
  pub data_alignment_indicator : ℕ
  pub pts : ℕ
  pub dts : ℕ
  pub escr_base : ℕ
  pub escr_extension : ℕ
  pub es_rate : ℕ

abbrev pub new_pes : Pes
new_pes = record {
  program_number = 0;
  pid = 0;
  stream_id = 0;
  codec_id = 0;
  continuity_counter = 0;
  esinfo = [];
  esinfo_length = 0;
  data_alignment_indicator = 0;
  pts = 0;
  dts = 0;
  escr_base = 0;
  escr_extension = 0;
  es_rate = 0;
}

pub record Pmt : Type 0 where
  pub pid : ℕ
  pub program_number : ℕ
  pub version_number : ℕ
  pub continuity_counter : ℕ
  pub pcr_pid : ℕ
  pub program_info : Bytes
  pub streams : List Pes

abbrev pub new_pmt : Pmt
new_pmt = record {
  pid = 0;
  program_number = 0;
  version_number = 0;
  continuity_counter = 0;
  pcr_pid = 0;
  program_info = [];
  streams = [];
}

pub record Pat : Type 0 where
  pub transport_stream_id : ℕ
  pub version_number : ℕ
  pub pmt : List Pmt

abbrev pub new_pat : Pat
new_pat = record { transport_stream_id = 1; version_number = 0; pmt = [] }

abbrev pub Write : Type 0
Write = Method BytesWriter WriteError (Unit {0})

-- The checksum of all that the writer holds.
abbrev pub write_crc32 : Write
write_crc32 w = write_uint little_endian 4 (gen_crc32 0xffffffff w) w

abbrev pub write_pat_entries : List Pmt → Write
write_pat_entries [] = ok tt
write_pat_entries (ele ∷ pmts) = do
  write_uint big_endian 2 ele.program_number
  write_uint big_endian 2 (bit_or 0xe000 ele.pid)
  write_pat_entries pmts

-- `pat.pmt.len() as u16 * 4 + 5 + 4`.
abbrev pub write_pat_length : ℕ → Write
write_pat_length count w =
    let length = low_bits 16 count * 4 + 9 in
    if ltb length (2 ^ 16) then write_uint big_endian 2 (bit_or 0xb000 length) w else panic

-- The section without its checksum.
abbrev pub write_pat_body : Pat → Write
write_pat_body pat = do
  write_u8 0
  write_pat_length (length pat.pmt)
  write_uint big_endian 2 pat.transport_stream_id
  write_u8 (bit_or 0xc1 (shl 8 pat.version_number 1))
  write_uint big_endian 2 0
  write_pat_entries pat.pmt

-- `PatMuxer::write`.
unfoldable pub write_pat : Pat → Method BytesWriter WriteError Bytes
write_pat pat = do write_pat_body pat; write_crc32; extract_current_bytes

abbrev pub stream_type : ℕ → ℕ
stream_type codec_id = if codec_id == 0x9c then 0x06 else codec_id

abbrev pub write_pmt_streams : List Pes → Write
write_pmt_streams [] = ok tt
write_pmt_streams (stream ∷ streams) = do
  write_u8 (stream_type stream.codec_id)
  write_uint big_endian 2 (bit_or 0xe000 stream.pid)
  write_uint big_endian 2 0xf000
  write_pmt_streams streams

abbrev pub write_program_info : ℕ → Bytes → Write
write_program_info n info = if ltb 0 n && ltb n 0x400 then write info else ok tt

-- What `PmtMuxer::write` puts into its second writer.
abbrev pub write_pmt_program : Pmt → Write
write_pmt_program pmt =
    let program_info_length = low_bits 16 (length pmt.program_info) in
    do
      write_uint big_endian 2 pmt.program_number
      write_u8 (bit_or 0xc1 (shl 8 pmt.version_number 1))
      write_u8 0
      write_u8 0
      write_uint big_endian 2 (bit_or 0xe000 pmt.pcr_pid)
      write_uint big_endian 2 (bit_or 0xf000 program_info_length)
      write_program_info program_info_length pmt.program_info
      write_pmt_streams pmt.streams

-- The second writer behind the length of what it holds.
abbrev pub write_pmt_section : Outcome BytesWriter WriteError (Unit {0}) → Write
write_pmt_section (ok a section) w =
    let length = low_bits 16 (length section) + 4 in
    if ltb length (2 ^ 16)
    then (do write_uint big_endian 2 (bit_or 0xb000 length); write section) w
    else panic
write_pmt_section (err e section) w = err e w
write_pmt_section panic w = panic
write_pmt_section stuck w = stuck

abbrev pub write_pmt_body : Pmt → Write
write_pmt_body pmt = do write_u8 2; write_pmt_section (write_pmt_program pmt [])

-- `PmtMuxer::write`.
unfoldable pub write_pmt : Pmt → Method BytesWriter WriteError Bytes
write_pmt pmt = do write_pmt_body pmt; write_crc32; extract_current_bytes
