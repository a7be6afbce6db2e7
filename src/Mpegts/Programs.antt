-- ===== src/Mpegts/Programs.antt =====
-- library/container/mpegts/src/ts.rs: the programs and streams of `TsMuxer`, and the packets of its
-- two tables. `pid` has 16 bits, and a sum that overflows is a panic. The packets of
-- the streams (`write`, `write_pes`) are left out.
use xiu.Prelude.{
  ℕ, zero, suc, ◌+◌, ◌*◌, ◌-◌, ◌%◌, ◌^◌, List, [], ◌∷◌, ◌++◌, Bool, false, ◌||◌, Option, none, some,
  ltb, ◌==◌, if◌then◌else◌, length, get_elem?, set, bit_or, Outcome, ok, err, panic, Method, ◌>>=◌,
  ◌>>◌,
}
use xiu.Prelude.Words.{Bytes}
use xiu.Prelude.Bits.{shr, low_bits}
use xiu.Bytesio.Writer.{write_u8, write}
use xiu.Mpegts.Tables.{Pes, new_pes, Pmt, new_pmt, Pat, new_pat, Write}

pub record TsMuxer : Type 0 where
  pub bytes_writer : Bytes
  pub pat_continuity_counter : ℕ
  pub pmt_continuity_counter : ℕ
  pub h264_h265_with_aud : Bool
  pub pid : ℕ
  pub pat_period : ℕ
  pub pcr_period : ℕ
  pub pcr_clock : ℕ
  pub pat : Pat
  pub cur_pmt_index : ℕ
  pub cur_stream_index : ℕ
  pub packet_number : ℕ

-- The variants of MpegTsErrorValue that these methods return.
pub data MpegTsError : Type 0 where
  program_number_exists pmt_count_execeed stream_count_execeed stream_not_found : MpegTsError

abbrev pub new_ts : TsMuxer
new_ts = record {
  bytes_writer = [];
  pat_continuity_counter = 0;
  pmt_continuity_counter = 0;
  h264_h265_with_aud = false;
  pid = 0x0100;
  pat_period = 0;
  pcr_period = 80 * 90;
  pcr_clock = 0;
  pat = new_pat;
  cur_pmt_index = 0;
  cur_stream_index = 0;
  packet_number = 0;
}

abbrev pub reset : TsMuxer → TsMuxer
reset m = record m { pat_period = 0; pcr_period = 80 * 90; pcr_clock = 0; packet_number = 0 }

-- The inner loop of `find_stream`, for the streams of one program: where it stops, and at which
-- count, or the count behind them.
pub data Search : Type 0 where
  found_at : ℕ → Search
  passed : ℕ → Search

unfoldable pub find_in_program : ℕ → List Pes → ℕ → Search
find_in_program pid [] stream_index = passed stream_index
find_in_program pid (stream ∷ streams) stream_index =
    let rest = find_in_program pid streams (stream_index + 1) in
    if stream.pid == pid then found_at stream_index else rest

-- The early return, or what follows for the count so far.
abbrev pub settle :
    ℕ
    → TsMuxer
    → (ℕ → Outcome TsMuxer MpegTsError (Unit {0}))
    → Search
    → Outcome TsMuxer MpegTsError (Unit {0})
settle pmt_index m rest (found_at i) =
    ok tt (record m { cur_pmt_index = pmt_index; cur_stream_index = i })
settle pmt_index m rest (passed n) = rest n

unfoldable pub find_loop : ℕ → List Pmt → ℕ → ℕ → Method TsMuxer MpegTsError (Unit {0})
find_loop pid [] pmt_index stream_index m = err stream_not_found m
find_loop pid (pmt ∷ pmts) pmt_index stream_index m =
    settle pmt_index m (λ passed_by. find_loop pid pmts (pmt_index + 1) passed_by m)
      (find_in_program pid pmt.streams stream_index)

-- `find_stream`.
unfoldable pub find_stream : ℕ → Method TsMuxer MpegTsError (Unit {0})
find_stream pid m = find_loop pid m.pat.pmt 0 0 m

-- `self.pat.pmt.get_mut(self.cur_pmt_index).unwrap().streams.get_mut(self.cur_stream_index)`, whose
-- `unwrap` is a panic.
abbrev pub unwrap : {A : Type 0} → Option A → Method TsMuxer MpegTsError A
unwrap none m = panic
unwrap (some a) m = ok a m

unfoldable pub cur_stream : Method TsMuxer MpegTsError Pes
cur_stream m =
    (do
      pmt ← unwrap (get_elem? m.pat.pmt m.cur_pmt_index)
      unwrap (get_elem? pmt.streams m.cur_stream_index))
      m

abbrev pub has_program : ℕ → List Pmt → Bool
has_program n [] = false
has_program n (pmt ∷ pmts) = pmt.program_number == n || has_program n pmts

-- `self.pid += 1`.
abbrev pub next_pid : Method TsMuxer MpegTsError ℕ
next_pid m = if ltb (m.pid + 1) (2 ^ 16) then ok m.pid (record m { pid = m.pid + 1 }) else panic

abbrev pub push_pmt : Pmt → Method TsMuxer MpegTsError (Unit {0})
push_pmt pmt m = ok tt (record m { pat = record (m.pat) { pmt = m.pat.pmt ++ pmt ∷ [] } })

abbrev pub push_program : ℕ → Bytes → Method TsMuxer MpegTsError (Unit {0})
push_program program_number info = do
  pid ← next_pid
  push_pmt (record new_pmt {
    pid = pid;
    program_number = program_number;
    pcr_pid = 0x1fff;
    program_info = info;
  })

unfoldable pub add_program : ℕ → Bytes → Method TsMuxer MpegTsError (Unit {0})
add_program program_number info m =
    if has_program program_number m.pat.pmt
    then err program_number_exists m
    else if length m.pat.pmt == 4
    then err pmt_count_execeed m
    else push_program program_number info m

-- is_steam_type_video, is_steam_type_audio and the stream ids.
abbrev pub stream_id_of : ℕ → ℕ
stream_id_of codecid =
    if codecid == 0x1b
    then 0xe0
    else if codecid == 0x9c || codecid == 0x0f || codecid == 0x04 || codecid == 0x1c
    then 0xc0
    else 0xbd

abbrev pub push_stream : Pes → Pmt → Pmt
push_stream stream pmt = record pmt {
  streams = pmt.streams ++ stream ∷ [];
  version_number = (pmt.version_number + 1) % 32;
}

-- The part of `pmt_add_stream` that has the program at hand. The result is `self.pid - 1`.
abbrev pub add_stream_to : ℕ → ℕ → Bytes → Option Pmt → Method TsMuxer MpegTsError ℕ
add_stream_to pmt_index codecid extra_data none m = panic
add_stream_to pmt_index codecid extra_data (some pmt) m =
    if length pmt.streams == 4
    then err stream_count_execeed m
    else ((do
      pid ← next_pid
      let stream = record new_pes {
        codec_id = codecid;
        pid = pid;
        stream_id = stream_id_of codecid;
        esinfo = extra_data;
      } in
          λ n. ok (n.pid - 1) (
            reset (record n {
              pat = record (n.pat) { pmt = set n.pat.pmt pmt_index (push_stream stream pmt) };
            })))
        m)

unfoldable pub pmt_add_stream : ℕ → ℕ → Bytes → Method TsMuxer MpegTsError ℕ
pmt_add_stream pmt_index codecid extra_data m =
    add_stream_to pmt_index codecid extra_data (get_elem? m.pat.pmt pmt_index) m

abbrev pub first_program : Method TsMuxer MpegTsError (Unit {0})
first_program m = if length m.pat.pmt == 0 then add_program 1 [] m else ok tt m

unfoldable pub add_stream : ℕ → Bytes → Method TsMuxer MpegTsError ℕ
add_stream codecid extra_data = do first_program; pmt_add_stream 0 codecid extra_data

abbrev pub write_stuffing : ℕ → Write
write_stuffing zero = ok tt
write_stuffing (suc n) = do write_u8 0xff; write_stuffing n

-- `TS_PACKET_SIZE - payload.len() as u8 - 5`, which panics below 0.
abbrev pub write_left : ℕ → Write
write_left n w = if ltb 183 (low_bits 8 n) then panic else write_stuffing (183 - low_bits 8 n) w

unfoldable pub write_ts_header_for_pat_pmt : ℕ → Bytes → ℕ → Write
write_ts_header_for_pat_pmt pid payload continuity_counter = do
  write_u8 0x47
  write_u8 (bit_or 0x40 (low_bits 5 (low_bits 8 (shr pid 8))))
  write_u8 (low_bits 8 pid)
  write_u8 (bit_or 0x10 continuity_counter)
  write_u8 0
  write payload
  write_left (length payload)
