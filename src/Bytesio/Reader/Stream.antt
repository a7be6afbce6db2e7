-- ===== src/Bytesio/Reader/Stream.antt =====
-- library/bytesio/src/bytes_reader.rs: `AsyncBytesReader` against the stream of its packets.
use xiu.Prelude.{
  ℕ, ◌≤◌, ◌<◌, ◌≡◌, refl, sym, ap, ◌∙◌, lt→ltb, List, [], ◌∷◌, ◌++◌, append-nil, append_assoc,
  length, length-append, take, drop, take-append_le, drop-append_le, ltb, Bool-cases, inl, inr, ok,
  err, arith,
}
use xiu.Prelude.Words.{Bytes}
use xiu.Bytesio.Reader.{
  AsyncBytesReader, bytes_io_error, check_loop, extend_from_slice, async_read_bytes, read_bytes,
}

-- All bytes that the packets hold.
abbrev pub concat : List Bytes → Bytes
concat [] = []
concat (p ∷ ps) = p ++ concat ps

-- All bytes that the reader has or is still to get.
abbrev pub stream : AsyncBytesReader → Bytes
stream r = r.bytes_reader ++ concat r.incoming

check_loop_enough :
    (n : ℕ) (buffer : Bytes) (ps : List Bytes)
    → n ≤ length (buffer ++ concat ps)
    → (r : AsyncBytesReader) × (check_loop n buffer ps ≡ ok tt r)
      × (stream r ≡ buffer ++ concat ps)
      × (n ≤ length r.bytes_reader)
unfolding check_loop extend_from_slice
check_loop_enough n buffer [] h =
    let enough : n ≤ length buffer = rw append-nil at h in
    (record { bytes_reader = buffer; incoming = [] }, ground arith, refl, enough)
check_loop_enough n buffer (p ∷ ps) h = elim (Bool-cases (ltb (length buffer) n)) [
  | inl less ↦
      let (r, e, s, l) =
        check_loop_enough n (buffer ++ p) ps (rw (append_assoc buffer p (concat ps)) h) in
      (r, rw less e, s ∙ append_assoc buffer p (concat ps), l)
  | inr enough ↦
      (record { bytes_reader = buffer; incoming = p ∷ ps }, rw enough, refl, ground arith)
]

check_loop_short :
    (n : ℕ) (buffer : Bytes) (ps : List Bytes)
    → length (buffer ++ concat ps) < n
    → check_loop n buffer ps
      ≡ err bytes_io_error (record { bytes_reader = buffer ++ concat ps; incoming = [] })
unfolding check_loop extend_from_slice
check_loop_short n buffer [] h = rw append-nil (ground (arith, ap length (append-nil buffer)))
check_loop_short n buffer (p ∷ ps) h =
    let less : length buffer < n = omega (arith, length-append buffer (p ++ concat ps)) in
    rw (lt→ltb _ _ less) (
      check_loop_short n (buffer ++ p) ps (rw (append_assoc buffer p (concat ps)) h)
      ∙ rw (append_assoc buffer p (concat ps)))

-- With `n` bytes in the stream the read returns them and leaves the others, however the stream
-- is cut into packets.
pub async_read_bytes-stream :
    (n : ℕ) (r : AsyncBytesReader)
    → n ≤ length (stream r)
    → (r' : AsyncBytesReader) × (async_read_bytes n r ≡ ok (take n (stream r)) r')
      × (stream r' ≡ drop n (stream r))
unfolding async_read_bytes read_bytes
async_read_bytes-stream n r h =
    let (q, e, s, l) = check_loop_enough n r.bytes_reader r.incoming h in
    (
      record q { bytes_reader = drop n q.bytes_reader },
      rw (e, ← s, take-append_le n q.bytes_reader (concat q.incoming) l) (ground arith),
      rw (← s) (sym (drop-append_le n q.bytes_reader (concat q.incoming) l)),
    )

-- With fewer bytes in the stream the read fails when the packets end, and nothing is lost.
pub async_read_bytes_short :
    (n : ℕ) (r : AsyncBytesReader)
    → length (stream r) < n
    → async_read_bytes n r ≡ err bytes_io_error (record { bytes_reader = stream r; incoming = [] })
unfolding async_read_bytes
async_read_bytes_short n r h = rw (check_loop_short n r.bytes_reader r.incoming h)
