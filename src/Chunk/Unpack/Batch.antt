-- ===== src/Chunk/Unpack/Batch.antt =====
-- protocol/rtmp/src/chunk/unpacketizer.rs: what counts down in the loop of `read_chunks`.
use xiu.Prelude.{
  ℕ, zero, suc, ◌+◌, ◌≤◌, ◌<◌, ◌≡◌, refl, inl, inr, List, [], ◌∷◌, ◌++◌, Bool-cases, ◌==◌, length,
  Outcome, ok, err, panic, stuck, Returns, Returns-mono, arith,
}
use xiu.Chunk.Header.{ChunkInfo, set_chunk_size}
use xiu.Chunk.Unpack.State.{
  UnpackResult, chunk_info, UnpackError, cannot_parse, ChunkReadState, read_basic, read_header,
  read_extended, read_payload, finish, ChunkUnpacketizer, Unpack,
}
use xiu.Chunk.Unpack.Chunks.{read_chunk, deliver, turn, read_chunks_loop, read_chunks}
use xiu.Chunk.Unpack.Termination.{read_chunk-ends}

-- A chunk may be complete with no further byte if it was begun before.
abbrev begun : ChunkReadState → ℕ
begun read_basic = 0
begun _ = 1

abbrev left : ChunkUnpacketizer → ℕ
left u = length u.reader + begun u.chunk_read_state

abbrev pub Ends : Outcome ChunkUnpacketizer UnpackError UnpackResult → Type 0
Ends o = Returns (λ _ _. Unit) o

deliver-Ends : (got : List ChunkInfo) (u : ChunkUnpacketizer) → Ends (deliver got u)
unfolding deliver
deliver-Ends [] u = tt
deliver-Ends (c ∷ cs) u = tt

module _ (n : ℕ) (more : List ChunkInfo → Unpack UnpackResult)
    (ends : (got : List ChunkInfo) (u : ChunkUnpacketizer) → left u < n → Ends (more got u)) where
  turn-Ends :
      (got : List ChunkInfo) (o : Outcome ChunkUnpacketizer UnpackError UnpackResult)
      → Returns (λ _ u. left u < n) o
      → Ends (turn more got o)
  unfolding turn
  turn-Ends got (ok (chunk_info c) u) h =
      elim (Bool-cases (c.message_header.msg_type_id == set_chunk_size)) [
        | inl last ↦ rw last (deliver-Ends (got ++ c ∷ []) u)
        | inr next ↦ rw next (ends (got ++ c ∷ []) u h)
      ]
  turn-Ends got (ok other u) h = ends got u h
  turn-Ends got (err cannot_parse u) h = tt
  turn-Ends got (err other u) h = deliver-Ends got u
  turn-Ends got panic h = tt
  turn-Ends got stuck h = absurd h

falls : (s : ChunkReadState) (a b : ℕ) → b ≤ a → (s ≡ read_basic → b < a) → b < a + begun s
falls read_basic a b h k = omega (arith, k refl)
falls read_header a b h k = omega arith
falls read_extended a b h k = omega arith
falls read_payload a b h k = omega arith
falls finish a b h k = omega arith

read_chunk-left : (u : ChunkUnpacketizer) → Returns (λ _ u'. left u' < left u) (read_chunk u)
read_chunk-left u = Returns-mono _ _ (read_chunk u) (read_chunk-ends u) λ _ u' h.
    rw h.1
      (omega (arith, falls u.chunk_read_state (length u.reader) (length u'.reader) h.0.0 h.0.1))

read_chunks_loop-Ends :
    (fuel : ℕ) (got : List ChunkInfo) (u : ChunkUnpacketizer)
    → left u < fuel
    → Ends (read_chunks_loop fuel got u)
unfolding read_chunks_loop
read_chunks_loop-Ends zero got u h = absurd (omega arith)
read_chunks_loop-Ends (suc fuel) got u h =
    turn-Ends fuel (read_chunks_loop fuel) (λ got' u' h'. read_chunks_loop-Ends fuel got' u' h') got
      (read_chunk u) (Returns-mono _ _ (read_chunk u) (read_chunk-left u) (λ _ u' h'. omega arith))

begun-le : (s : ChunkReadState) → begun s ≤ 1
begun-le read_basic = omega arith
begun-le read_header = omega arith
begun-le read_extended = omega arith
begun-le read_payload = omega arith
begun-le finish = omega arith

-- `read_chunks` ends on every state and input: its loop does not run out of fuel.
pub read_chunks-Ends : (u : ChunkUnpacketizer) → Ends (read_chunks u)
unfolding read_chunks
read_chunks-Ends u =
    read_chunks_loop-Ends (length u.reader + 3) [] u (omega (arith, begun-le u.chunk_read_state))
