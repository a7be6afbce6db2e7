-- ===== src/Chunk/Wire/RoundTrip.antt =====
-- One message that `Wire` lays out, read by `read_chunk`.
use xiu.Prelude.{
  ℕ, zero, suc, ◌+◌, ◌-◌, ◌*◌, ◌^◌, ◌≤◌, ◌<◌, ◌≡◌, refl, ap, ◌∙◌, [], ◌++◌, length, length-append,
  ok, arith, ◌==◌, false,
}
use xiu.Prelude.Words.{Bytes, encode, big_endian, little_endian}
use xiu.Chunk.Header.{ChunkInfo, ChunkMessageHeader, lookup}
use xiu.Chunk.Unpack.State.{
  UnpackResult, success, empty, chunk_info, ChunkUnpacketizer, read_basic, read_header,
  read_extended, read_payload,
}
use xiu.Chunk.Unpack.Basic.{read_basic_header}
use xiu.Chunk.Unpack.Chunks.{is_finish, step, step_in, read_chunk_loop, read_chunk}
use xiu.Chunk.Wire.{
  short_time, basic_bytes, header_bytes, extension_bytes, extension_of, sent_header, separator,
  pieces, Fits, message_bytes,
}
use xiu.Chunk.Wire.Pieces.{length-pieces}
use xiu.Chunk.Wire.Reading.{read_chunk_loop-step, read_basic_header-basic_bytes}
use xiu.Chunk.Wire.Message.{info, kept, fuel_for, read_chunk_loop-pieces}
use xiu.Chunk.Wire.Opening.{
  opened, IsReady, restored, basic, read_header_0, extended_time, short_header, no_delta,
}

step_basic :
    (u : ChunkUnpacketizer) → u.chunk_read_state ≡ read_basic → step u ≡ read_basic_header u
unfolding step step_in
step_basic u e = ap (λ s. step_in s u) e

loop_basic :
    (fuel : ℕ) (r r' : UnpackResult) (u u' : ChunkUnpacketizer)
    → u.chunk_read_state ≡ read_basic
    → read_basic_header u ≡ ok r' u'
    → read_chunk_loop (suc fuel) r u ≡ read_chunk_loop fuel r' u'
loop_basic fuel r r' u u' s e =
    read_chunk_loop-step fuel r r' u u' (ap is_finish s) (step_basic u s ∙ e)

-- The first chunk of a message, with `b` behind its three headers.
abbrev first_chunk : ℕ → ChunkMessageHeader → Bytes → Bytes
first_chunk csid h b =
    basic_bytes 0 csid
    ++ header_bytes h (extension_bytes (extension_of h.timestamp) (sent_header h) ++ b)

headers :
    (fuel csid : ℕ) (r : UnpackResult) (h : ChunkMessageHeader) (b : Bytes) (u : ChunkUnpacketizer)
    → Fits h
    → 2 ≤ csid
    → csid < 319
    → IsReady u
    → (k : ℕ) × (read_chunk_loop
          (suc (suc (suc fuel)))
          r
          (record u { reader = first_chunk csid h b })
        ≡ read_chunk_loop fuel success
            (opened (record u { parse_error_number = k }) csid read_payload (sent_header h) b))
unfolding step step_in
headers fuel csid r h b u f lo hi ready =
    let (k, old, e) =
      restored (lookup csid u.chunk_message_headers) csid (header_bytes h more) u refl ready in
    let u' = record u { parse_error_number = k } in
    (
      k,
      loop_basic (suc (suc fuel)) r (basic csid) (record u { reader = first_chunk csid h b })
            (opened u' csid read_header (no_delta old) (header_bytes h more)) ready.at_start
            (read_basic_header-basic_bytes 0 csid (header_bytes h more) u (omega arith) lo hi ∙ e)
          ∙ read_chunk_loop-step (suc fuel) (basic csid) success
              (opened u' csid read_header (no_delta old) (header_bytes h more))
              (opened u' csid read_extended (short_header h) more) refl
              (read_header_0 csid h old more u' f)
          ∙ read_chunk_loop-step fuel success success
              (opened u' csid read_extended (short_header h) more)
              (opened u' csid read_payload (sent_header h) b) refl
              (extended_time h.timestamp csid h b u' refl f),
    )
  where
    more : Bytes
    more = extension_bytes (extension_of h.timestamp) (sent_header h) ++ b

fuel_for-sum : (n f : ℕ) → fuel_for n f ≡ 4 * n + (f + 2)
fuel_for-sum zero f = omega arith
fuel_for-sum (suc n) f = omega (arith, fuel_for-sum n f)

-- The loop reads the message to its end, whatever fuel there is above what it takes.
whole :
    (f csid : ℕ) (r : UnpackResult) (h : ChunkMessageHeader) (payload rest : Bytes)
    (u : ChunkUnpacketizer)
    → Fits h
    → 2 ≤ csid
    → csid < 319
    → IsReady u
    → h.msg_length ≡ length payload
    → 0 < u.max_chunk_size
    → (k fmt : ℕ) × (read_chunk_loop
          (suc (suc (suc (fuel_for (length payload) f))))
          r
          (record u { reader = message_bytes u.max_chunk_size csid h payload rest })
        ≡ (let u' =
              opened (record u { parse_error_number = k }) csid read_payload (sent_header h) [] in
            ok (chunk_info (info u' fmt payload)) (kept u' fmt rest)))
unfolding message_bytes
whole f csid r h payload rest u fits lo hi ready e m =
    let chunks =
      pieces u.max_chunk_size (separator csid (sent_header h)) (length payload) payload in
    let (k, first) =
      headers (fuel_for (length payload) f) csid r h (chunks ++ rest) u fits lo hi ready in
    let (fmt, others) =
      read_chunk_loop-pieces (length payload) f success 0 [] payload rest
        (opened (record u { parse_error_number = k }) csid read_payload (sent_header h) [])
        (omega arith) (omega (arith, e)) m lo hi fits.timestamp (omega arith) in
    (k, fmt, first ∙ others)

unequal : (i : ℕ) → i < 2 ^ 32 - 1 → i == 2 ^ 32 - 1 ≡ false
unequal i h = ground arith

length-message_bytes :
    (max csid : ℕ) (h : ChunkMessageHeader) (payload rest : Bytes)
    → 0 < max
    → length payload ≤ length (message_bytes max csid h payload rest)
unfolding message_bytes header_bytes
length-message_bytes max csid h payload rest m = omega (
  arith,
  length-append (basic_bytes 0 csid)
      (time ++ (size ++ (kind ++ (stream ++ (extra ++ (chunks ++ rest)))))),
  length-append time (size ++ (kind ++ (stream ++ (extra ++ (chunks ++ rest))))),
  length-append size (kind ++ (stream ++ (extra ++ (chunks ++ rest)))),
  length-append kind (stream ++ (extra ++ (chunks ++ rest))),
  length-append stream (extra ++ (chunks ++ rest)),
  length-append extra (chunks ++ rest),
  length-append chunks rest,
  length-pieces max (length payload) (separator csid (sent_header h)) payload (omega arith) m,
)
  where
    time : Bytes
    time = encode big_endian 3 (short_time h.timestamp)

    size : Bytes
    size = encode big_endian 3 h.msg_length

    kind : Bytes
    kind = encode big_endian 1 h.msg_type_id

    stream : Bytes
    stream = encode little_endian 4 h.msg_streamd_id

    extra : Bytes
    extra = extension_bytes (extension_of h.timestamp) (sent_header h)

    chunks : Bytes
    chunks = pieces max (separator csid (sent_header h)) (length payload) payload

-- One call of `read_chunk` on an unpacketizer between two messages, whose reader begins with the
-- chunks of a message in format 0 (chunk stream id from 2 to 318, a chunk size above 0, fields that
-- fit their widths, and the length of the payload in the header), returns that message: its chunk
-- stream id, its header, and the payload put together from its chunks. The bytes behind it stay in
-- the reader, and the unpacketizer is again between two messages.
pub read_chunk-message_bytes :
    (csid : ℕ) (h : ChunkMessageHeader) (payload rest : Bytes) (u : ChunkUnpacketizer)
    → Fits h
    → 2 ≤ csid
    → csid < 319
    → IsReady u
    → h.msg_length ≡ length payload
    → 0 < u.max_chunk_size
    → u.chunk_index < 2 ^ 32 - 1
    → (c : ChunkInfo) × (u' : ChunkUnpacketizer) × (read_chunk
          (record u { reader = message_bytes u.max_chunk_size csid h payload rest })
        ≡ ok (chunk_info c) u')
      × (c.basic_header.chunk_stream_id ≡ csid)
      × (c.message_header ≡ sent_header h)
      × (c.payload ≡ payload)
      × (u'.reader ≡ rest)
      × IsReady u'
unfolding read_chunk
read_chunk-message_bytes csid h payload rest u f lo hi r e m i =
    let n = length payload in
    let len = length (message_bytes u.max_chunk_size csid h payload rest) in
    let spare = 4 * (len - n) + 1 in
    let counted = record u { chunk_index = u.chunk_index + 1 } in
    let ready : IsReady counted = record {
      at_start = r.at_start;
      no_header = r.no_header;
      no_payload = r.no_payload;
    } in
    let (k, fmt, run) = whole spare csid empty h payload rest counted f lo hi ready e m in
    let u' =
      opened (record counted { parse_error_number = k }) csid read_payload (sent_header h) [] in
    let enough : 4 * len + 6 ≡ suc (suc (suc (fuel_for n spare))) =
      omega (
        arith,
        fuel_for-sum n spare,
        length-message_bytes u.max_chunk_size csid h payload rest m,
      ) in
    (
      info u' fmt payload,
      kept u' fmt rest,
      rw (unequal u.chunk_index i, enough) run,
      refl,
      refl,
      refl,
      refl,
      record { at_start = refl; no_header = refl; no_payload = refl },
    )
