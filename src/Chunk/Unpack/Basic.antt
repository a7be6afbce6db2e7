-- ===== src/Chunk/Unpack/Basic.antt =====
-- `read_basic_header`: the format, and the chunk stream id in one to three bytes.
use xiu.Prelude.{ℕ, ◌+◌, ◌*◌, Option, none, some, ltb, ◌==◌, if◌then◌else◌, ok, err, ◌>>=◌, ◌>>◌}
use xiu.Prelude.Bits.{shr, low_bits}
use xiu.Bytesio.Reader.{read_u8, is_empty}
use xiu.Chunk.Header.{ChunkBasicHeader, ChunkMessageHeader, lookup}
use xiu.Chunk.Unpack.State.{
  UnpackResult, chunk_basic_header_result, not_enough_bytes, cannot_parse, read_header, Unpack,
  inner, set_header, header,
}

-- The rest of a chunk stream id of two bytes, and of one of three, the low byte first.
unfoldable pub csid_two : Unpack (Option ℕ)
csid_two = do a ← inner read_u8; ok (some (64 + a))

unfoldable pub csid_three : Unpack (Option ℕ)
csid_three = do a ← inner read_u8; b ← inner read_u8; ok (some (64 + a + b * 256))

-- `none` is the early return of `NotEnoughBytes`.
unfoldable pub csid_more : ℕ → Unpack (Option ℕ)
unfolding csid_two csid_three
csid_more csid u =
    if csid == 0
    then if is_empty u.reader then ok none u else csid_two u
    else if csid == 1
    then if is_empty u.reader then ok none u else csid_three u
    else ok (some csid) u

-- The cached header of another chunk stream, or the count of the chunks that have none.
unfoldable pub restore_header : ℕ → ℕ → Unpack (Unit {0})
restore_header format_id csid u =
    if csid == u.current_chunk_info.basic_header.chunk_stream_id
    then ok tt u
    else elim (lookup csid u.chunk_message_headers) [
      | some h ↦ ok tt (set_header u h)
      | none ↦
          if format_id == 0
          then ok tt (record u { parse_error_number = 0 })
          else if ltb 5 u.parse_error_number
          then err cannot_parse u
          else ok tt (record u { parse_error_number = u.parse_error_number + 1 })
    ]

abbrev pub reset_delta : ℕ → ChunkMessageHeader → ChunkMessageHeader
reset_delta format_id h = if format_id == 0 then record h { timestamp_delta = 0 } else h

unfoldable pub basic_done : ℕ → ℕ → Unpack UnpackResult
basic_done format_id csid u =
    let basic : ChunkBasicHeader = record { format = format_id; chunk_stream_id = csid } in
    ok (chunk_basic_header_result basic) (record u {
      current_chunk_info = record (u.current_chunk_info) {
        basic_header = basic;
        message_header = reset_delta format_id (header u);
      };
      chunk_read_state = read_header;
    })

unfoldable pub basic_rest : ℕ → Option ℕ → Unpack UnpackResult
unfolding restore_header basic_done
basic_rest format_id none = ok not_enough_bytes
basic_rest format_id (some csid) = restore_header format_id csid >> basic_done format_id csid

unfoldable pub read_basic_header : Unpack UnpackResult
unfolding csid_more basic_rest
read_basic_header = do
  byte ← inner read_u8
  csid ← csid_more (low_bits 6 byte)
  basic_rest (low_bits 2 (shr byte 6)) csid
