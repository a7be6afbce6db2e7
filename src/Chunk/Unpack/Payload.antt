-- ===== src/Chunk/Unpack/Payload.antt =====
-- `read_message_payload`: one chunk's share of the payload. A payload that is longer than its
-- message makes the subtraction overflow, which is a panic.
use xiu.Prelude.{ℕ, ◌-◌, [], ◌++◌, ltb, ◌==◌, if◌then◌else◌, length, ok, panic, ◌>>=◌}
use Prim.Native.Nat.{min}
use xiu.Prelude.Words.{Bytes}
use xiu.Bytesio.Reader.{read_bytes}
use xiu.Chunk.Header.{insert}
use xiu.Chunk.Unpack.State.{
  UnpackResult, chunk_info, success, read_basic, finish, Unpack, inner, header,
}

-- How much of the payload this chunk holds.
abbrev pub need_read_length : ℕ → ℕ → ℕ → ℕ
need_read_length max_chunk_size whole remaining =
    if ltb max_chunk_size whole then min remaining max_chunk_size else remaining

-- The message is complete: it goes out, and its header is kept for its chunk stream.
unfoldable pub payload_done : Unpack UnpackResult
payload_done u = ok (chunk_info u.current_chunk_info) (record u {
  chunk_read_state = finish;
  current_chunk_info = record (u.current_chunk_info) { payload = [] };
  chunk_message_headers =
      insert u.current_chunk_info.basic_header.chunk_stream_id (header u) u.chunk_message_headers;
})

unfoldable pub payload_more : Bytes → Unpack UnpackResult
unfolding payload_done
payload_more share u =
    let payload = u.current_chunk_info.payload ++ share in
    let u' = record u {
      current_chunk_info = record (u.current_chunk_info) { payload = payload };
    } in
    if length payload == (header u).msg_length
    then payload_done u'
    else ok success (record u' { chunk_read_state = read_basic })

unfoldable pub read_message_payload : Unpack UnpackResult
unfolding payload_more
read_message_payload u =
    let whole = (header u).msg_length in
    let remaining = whole - length u.current_chunk_info.payload in
    let share = inner (read_bytes (need_read_length u.max_chunk_size whole remaining)) in
    if ltb whole (length u.current_chunk_info.payload) then panic else (share >>= payload_more) u
