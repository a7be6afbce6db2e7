-- ===== src/Mpegts/Association.antt =====
-- library/container/mpegts/src/pat.rs: the section of `PatMuxer`, at a receiver.
use xiu.Prelude.{
  ℕ, ◌+◌, ◌*◌, ◌/◌, ◌%◌, ◌^◌, ◌<◌, ◌≤◌, ◌≡◌, refl, sym, ap, ◌∙◌, List, [], ◌∷◌, ◌++◌, append_assoc,
  append-nil, map, All, true, ltb, some, length, take, bit_or, ok, arith,
}
use xiu.Prelude.Words.{Bytes, encode, big_endian, to_be}
use xiu.Prelude.Bits.{low_bits, shl}
use xiu.Bytesio.Writer.{BytesWriter, write_uint}
use xiu.Mpegts.Tables.{Pmt, Pat, write_pat_entries, write_pat}
use xiu.Mpegts.Receiver.{read_programs, read_pat, and_then, read_association, read_section}
use xiu.Mpegts.Seal.{
  sealed, read_section-sealed, word, pid_top, pid_value, length_top, length_value,
  read_version-field,
}

abbrev entries : List Pmt → Bytes
entries [] = []
entries (ele ∷ pmts) =
    ele.program_number / 256 % 256
    ∷ ele.program_number % 256
    ∷ bit_or 0xe000 ele.pid / 256 % 256
    ∷ bit_or 0xe000 ele.pid % 256
    ∷ entries pmts

-- The numbers fit their fields.
abbrev pub Fits : Pmt → Type 0
Fits ele = (ele.program_number < 2 ^ 16) × (ele.pid < 2 ^ 13)

write_pat_entries-entries :
    (pmts : List Pmt) (w : BytesWriter) → write_pat_entries pmts w ≡ ok tt (w ++ entries pmts)
unfolding write_uint encode to_be
write_pat_entries-entries [] w = ap (ok tt) (sym (append-nil w))
write_pat_entries-entries (ele ∷ pmts) w =
    let number = encode big_endian 2 ele.program_number in
    let pid = encode big_endian 2 (bit_or 0xe000 ele.pid) in
    write_pat_entries-entries pmts ((w ++ number) ++ pid)
    ∙ ap (ok tt) (
        append_assoc (w ++ number) pid (entries pmts) ∙ append_assoc w number (pid ++ entries pmts))

read_programs-entries :
    (pmts : List Pmt)
    → All Fits pmts
    → read_programs (entries pmts) ≡ some (map (λ ele. (ele.program_number, ele.pid)) pmts)
read_programs-entries [] h = refl
read_programs-entries (ele ∷ pmts) h =
    rw
      (
        pid_top ele.pid h.0.1,
        read_programs-entries pmts h.1,
        word ele.program_number h.0.0,
        pid_value ele.pid h.0.1,
      )
      refl

length-entries : (pmts : List Pmt) → length (entries pmts) ≡ 4 * length pmts
length-entries [] = refl
length-entries (ele ∷ pmts) = omega (arith, length-entries pmts)

module _ (pat : Pat) (few : length pat.pmt ≤ 253) where
  abbrev size : ℕ
  size = bit_or 0xb000 (low_bits 16 (length pat.pmt) * 4 + 9)

  abbrev body : Bytes
  body =
      pat.transport_stream_id / 256 % 256
      ∷ pat.transport_stream_id % 256
      ∷ bit_or 0xc1 (shl 8 pat.version_number 1)
      ∷ 0
      ∷ 0
      ∷ entries pat.pmt

  abbrev section : Bytes
  section = 0 ∷ size / 256 % 256 ∷ size % 256 ∷ body

  fits : (n : ℕ) → n ≤ 253 → ltb (low_bits 16 n * 4 + 9) (2 ^ 16) ≡ true
  fits n h = ground arith

  write_pat-sealed : write_pat pat [] ≡ ok (sealed section) []
  unfolding write_pat write_uint encode to_be
  write_pat-sealed =
      rw (fits (length pat.pmt) few, write_pat_entries-entries pat.pmt (take 8 section)) refl

  read_section-pat : read_section 0 (sealed section) ≡ some body
  read_section-pat =
      read_section-sealed 0 (size / 256 % 256) (size % 256) body
        (length_top 11 (low_bits 16 (length pat.pmt) * 4 + 9) (omega arith) (omega (arith, few)))
        (omega (
          arith,
          few,
          length_value 11 (low_bits 16 (length pat.pmt) * 4 + 9) (omega arith) (omega (arith, few)),
          length-entries pat.pmt,
        ))

-- The section that a new muxer writes for up to 253 programs, whose numbers fit their fields, is
-- returned, and the muxer is empty again; a receiver finds its length and its checksum right and
-- reads the id of the transport stream, the version, and each program number with its PID, in order.
pub write_pat-read_pat :
    (pat : Pat)
    → pat.transport_stream_id < 2 ^ 16
    → pat.version_number < 32
    → length pat.pmt ≤ 253
    → All Fits pat.pmt
    → (bytes : Bytes) × (write_pat pat [] ≡ ok bytes [])
      × (read_pat bytes
          ≡ some (record {
            transport_stream_id = pat.transport_stream_id;
            version = pat.version_number;
            programs = map (λ ele. (ele.program_number, ele.pid)) pat.pmt;
          }))
write_pat-read_pat pat id version few fit = (
  sealed (section pat few),
  write_pat-sealed pat few,
  ap (λ o. and_then o read_association) (read_section-pat pat few)
      ∙ rw
          (
            read_version-field pat.version_number version,
            read_programs-entries pat.pmt fit,
            word pat.transport_stream_id id,
          )
          refl,
)
