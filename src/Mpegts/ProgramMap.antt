-- ===== src/Mpegts/ProgramMap.antt =====
-- library/container/mpegts/src/pmt.rs: the section of `PmtMuxer`, at a receiver.
use xiu.Prelude.{
  ℕ, suc, ◌+◌, ◌*◌, ◌/◌, ◌%◌, ◌^◌, ◌<◌, ◌≤◌, ◌≡◌, refl, sym, ap, ◌∙◌, List, [], ◌∷◌, ◌++◌,
  append_assoc, append-nil, map, All, true, ltb, leb, ◌==◌, ◌&&◌, if◌then◌else◌, some, length,
  length-append, take, take-length_append, drop-length_append, bit_or, ok, arith,
}
use xiu.Prelude.Words.{Bytes, encode, big_endian, to_be}
use xiu.Prelude.Bits.{low_bits, shl}
use xiu.Bytesio.Writer.{BytesWriter, write_uint}
use xiu.Mpegts.Tables.{
  Pes, Pmt, stream_type, write_pmt_streams, write_program_info, write_pmt_program, write_pmt,
}
use xiu.Mpegts.Receiver.{read_streams, read_pmt, and_then, read_map, read_section}
use xiu.Mpegts.Seal.{
  sealed, read_section-sealed, word, pid_top, pid_value, length_top, length_value,
  read_version-field,
}

abbrev entries : List Pes → Bytes
entries [] = []
entries (stream ∷ streams) =
    stream_type stream.codec_id
    ∷ bit_or 0xe000 stream.pid / 256 % 256
    ∷ bit_or 0xe000 stream.pid % 256
    ∷ 0xf0
    ∷ 0
    ∷ entries streams

abbrev pub Fits : Pes → Type 0
Fits stream = stream.pid < 2 ^ 13

-- Opus goes as private data, every other codec under its own number.
abbrev pub announced : Pes → ℕ × ℕ
announced stream = (if stream.codec_id == 0x9c then 0x06 else stream.codec_id, stream.pid)

write_pmt_streams-entries :
    (streams : List Pes) (w : BytesWriter)
    → write_pmt_streams streams w ≡ ok tt (w ++ entries streams)
unfolding write_uint encode to_be
write_pmt_streams-entries [] w = ap (ok tt) (sym (append-nil w))
write_pmt_streams-entries (stream ∷ streams) w =
    let kind = stream_type stream.codec_id ∷ [] in
    let pid = encode big_endian 2 (bit_or 0xe000 stream.pid) in
    let none_follow = encode big_endian 2 0xf000 in
    write_pmt_streams-entries streams (((w ++ kind) ++ pid) ++ none_follow)
    ∙ ap (ok tt) (
        append_assoc ((w ++ kind) ++ pid) none_follow (entries streams)
        ∙ append_assoc (w ++ kind) pid (none_follow ++ entries streams)
        ∙ append_assoc w kind (pid ++ none_follow ++ entries streams))

read_streams-entries :
    (streams : List Pes)
    → All Fits streams
    → read_streams (entries streams) ≡ some (map announced streams)
read_streams-entries [] h = refl
read_streams-entries (stream ∷ streams) h =
    rw (pid_top stream.pid h.0, read_streams-entries streams h.1, pid_value stream.pid h.0) refl

length-entries : (streams : List Pes) → length (entries streams) ≡ 5 * length streams
length-entries [] = refl
length-entries (stream ∷ streams) = omega (arith, length-entries streams)

write_program_info-all :
    (info : Bytes) (w : BytesWriter)
    → length info < 0x400
    → write_program_info (low_bits 16 (length info)) info w ≡ ok tt (w ++ info)
write_program_info-all [] w h = ap (ok tt) (sym (append-nil w))
write_program_info-all (x ∷ xs) w h = rw (some_bytes (length xs) h) refl
  where
    some_bytes :
        (n : ℕ)
        → suc n < 0x400
        → (ltb 0 (low_bits 16 (suc n)) && ltb (low_bits 16 (suc n)) 0x400) ≡ true
    some_bytes n h = ground arith

module _ (pmt : Pmt) (short : 13 + length pmt.program_info + 5 * length pmt.streams ≤ 1021) where
  abbrev info_size : ℕ
  info_size = bit_or 0xf000 (low_bits 16 (length pmt.program_info))

  abbrev body : Bytes
  body =
      pmt.program_number / 256 % 256
        ∷ pmt.program_number % 256
        ∷ bit_or 0xc1 (shl 8 pmt.version_number 1)
        ∷ 0
        ∷ 0
        ∷ bit_or 0xe000 pmt.pcr_pid / 256 % 256
        ∷ bit_or 0xe000 pmt.pcr_pid % 256
        ∷ info_size / 256 % 256
        ∷ info_size % 256
        ∷ pmt.program_info
      ++ entries pmt.streams

  length-body : length body ≡ 9 + length pmt.program_info + 5 * length pmt.streams
  length-body =
      omega
        (arith, length-append pmt.program_info (entries pmt.streams), length-entries pmt.streams)

  abbrev size : ℕ
  size = bit_or 0xb000 (low_bits 16 (length body) + 4)

  abbrev section : Bytes
  section = 2 ∷ size / 256 % 256 ∷ size % 256 ∷ body

  write_pmt_program-body : write_pmt_program pmt [] ≡ ok tt body
  unfolding write_uint encode to_be
  write_pmt_program-body =
      rw
        (
          write_program_info-all pmt.program_info (take 9 body) (omega (arith, short)),
          write_pmt_streams-entries pmt.streams (take 9 body ++ pmt.program_info),
        )
        refl

  fits : (n : ℕ) → n < 2000 → ltb (low_bits 16 n + 4) (2 ^ 16) ≡ true
  fits n h = ground arith

  write_pmt-sealed : write_pmt pmt [] ≡ ok (sealed section) []
  unfolding write_pmt write_uint encode to_be
  write_pmt-sealed =
      rw (write_pmt_program-body, fits (length body) (omega (arith, short, length-body))) refl

  read_section-pmt : read_section 2 (sealed section) ≡ some body
  read_section-pmt =
      read_section-sealed 2 (size / 256 % 256) (size % 256) body
        (length_top 11 (low_bits 16 (length body) + 4) (omega arith)
          (omega (arith, short, length-body)))
        (omega (
          arith,
          short,
          length-body,
          length_value 11 (low_bits 16 (length body) + 4) (omega arith)
              (omega (arith, short, length-body)),
        ))

  info_top : info_size / 256 % 256 / 16 ≡ 15
  info_top =
      length_top 15 (low_bits 16 (length pmt.program_info)) (omega arith) (omega (arith, short))

  info_value : info_size / 256 % 256 % 16 * 256 + info_size % 256 ≡ length pmt.program_info
  info_value = omega (
    arith,
    short,
    length_value 15 (low_bits 16 (length pmt.program_info)) (omega arith) (omega (arith, short)),
  )

  all_there :
      leb (length pmt.program_info) (length (pmt.program_info ++ entries pmt.streams)) ≡ true
  all_there =
      rw (length-append pmt.program_info (entries pmt.streams))
        (prefix (length pmt.program_info) (length (entries pmt.streams)))
    where
      prefix : (m n : ℕ) → leb m (m + n) ≡ true
      prefix m n = ground arith

-- The section that a new muxer writes, if its length is at most 1021 and the numbers fit their fields,
-- is returned, and the muxer is empty again; a receiver finds its length and its checksum right and
-- reads the program number, the version, the PID of the clock, the program info, and each stream's
-- type with its PID, in order. The type is that of private data for Opus, and the codec for others.
pub write_pmt-read_pmt :
    (pmt : Pmt)
    → 13 + length pmt.program_info + 5 * length pmt.streams ≤ 1021
    → pmt.program_number < 2 ^ 16
    → pmt.version_number < 32
    → pmt.pcr_pid < 2 ^ 13
    → All Fits pmt.streams
    → (bytes : Bytes) × (write_pmt pmt [] ≡ ok bytes [])
      × (read_pmt bytes
          ≡ some (record {
            program_number = pmt.program_number;
            version = pmt.version_number;
            pcr_pid = pmt.pcr_pid;
            program_info = pmt.program_info;
            streams = map announced pmt.streams;
          }))
write_pmt-read_pmt pmt short number version clock fit = (
  sealed (section pmt short),
  write_pmt-sealed pmt short,
  ap (λ o. and_then o read_map) (read_section-pmt pmt short)
      ∙ rw
          (
            read_version-field pmt.version_number version,
            pid_top pmt.pcr_pid clock,
            info_top pmt short,
            info_value pmt short,
            all_there pmt short,
            drop-length_append pmt.program_info (entries pmt.streams),
            read_streams-entries pmt.streams fit,
            take-length_append pmt.program_info (entries pmt.streams),
            word pmt.program_number number,
            pid_value pmt.pcr_pid clock,
          )
          refl,
)
