-- ===== src/Chunk/Unpack/Chunks.antt =====
-- `read_chunk` and `read_chunks`. The fuel of the first loop is four rounds for each byte in the
-- reader, as many as there are states on the way from one basic header to the next, and six more;
-- that of the second is one round for each byte and three more.
use xiu.Prelude.{
  ℕ, zero, suc, ◌+◌, ◌-◌, ◌*◌, ◌^◌, List, [], ◌∷◌, ◌++◌, Bool, true, false, ◌==◌, if◌then◌else◌,
  length, Outcome, ok, err, panic, stuck, ◌>>=◌,
}
use xiu.Chunk.Header.{ChunkInfo, set_chunk_size}
use xiu.Chunk.Unpack.State.{
  UnpackResult, chunk_info, chunks, empty, UnpackError, empty_chunks, cannot_parse, ChunkReadState,
  read_basic, read_header, read_extended, read_payload, finish, ChunkUnpacketizer, Unpack,
}
use xiu.Chunk.Unpack.Basic.{read_basic_header}
use xiu.Chunk.Unpack.Message.{read_message_header, read_extended_timestamp}
use xiu.Chunk.Unpack.Payload.{read_message_payload}

-- The method for the state; `finish` ends the loop before it is called.
unfoldable pub step_in : ChunkReadState → Unpack UnpackResult
step_in read_basic = read_basic_header
step_in read_header = read_message_header
step_in read_extended = read_extended_timestamp
step_in read_payload = read_message_payload
step_in finish = ok empty

abbrev pub is_finish : ChunkReadState → Bool
is_finish finish = true
is_finish _ = false

unfoldable pub step : Unpack UnpackResult
unfolding step_in
step u = step_in u.chunk_read_state u

unfoldable pub read_chunk_loop : ℕ → UnpackResult → Unpack UnpackResult
read_chunk_loop zero result u = stuck
read_chunk_loop (suc fuel) result u =
    let more = (step >>= read_chunk_loop fuel) u in
    if is_finish u.chunk_read_state
    then ok result (record u { chunk_read_state = read_basic })
    else more

abbrev pub chunk_fuel : ChunkUnpacketizer → ℕ
chunk_fuel u = 4 * length u.reader + 6

unfoldable pub read_chunk : Unpack UnpackResult
unfolding read_chunk_loop
read_chunk u =
    if u.chunk_index == 2 ^ 32 - 1
    then panic
    else read_chunk_loop (chunk_fuel u) empty (record u { chunk_index = u.chunk_index + 1 })

-- What `read_chunks` does with what it has when it stops.
unfoldable pub deliver : List ChunkInfo → Unpack UnpackResult
deliver [] = err empty_chunks
deliver (c ∷ cs) = ok (chunks (c ∷ cs))

-- What one result of `read_chunk` makes the loop of `read_chunks` do, which goes on by `more`.
unfoldable pub turn :
    (List ChunkInfo → Unpack UnpackResult)
    → List ChunkInfo
    → Outcome ChunkUnpacketizer UnpackError UnpackResult
    → Outcome ChunkUnpacketizer UnpackError UnpackResult
unfolding deliver
turn more got (ok (chunk_info c) u) =
    if c.message_header.msg_type_id == set_chunk_size
    then deliver (got ++ c ∷ []) u
    else more (got ++ c ∷ []) u
turn more got (ok other u) = more got u
turn more got (err cannot_parse u) = err cannot_parse u
turn more got (err other u) = deliver got u
turn more got panic = panic
turn more got stuck = stuck

unfoldable pub read_chunks_loop : ℕ → List ChunkInfo → Unpack UnpackResult
unfolding turn
read_chunks_loop zero got u = stuck
read_chunks_loop (suc fuel) got u = turn (read_chunks_loop fuel) got (read_chunk u)

unfoldable pub read_chunks : Unpack UnpackResult
unfolding read_chunks_loop
read_chunks u = read_chunks_loop (length u.reader + 3) [] u
