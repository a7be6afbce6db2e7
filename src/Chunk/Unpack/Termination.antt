-- ===== src/Chunk/Unpack/Termination.antt =====
-- protocol/rtmp/src/chunk/unpacketizer.rs: what counts down in the loop of `read_chunk`.
use xiu.Prelude.{
  ℕ, zero, suc, ◌+◌, ◌-◌, ◌*◌, ◌^◌, ◌≤◌, ◌<◌, ◌≡◌, refl, ◌≢◌, inl, inr, true, false, Option, none,
  some, Bool-cases, ltb, ◌==◌, length, Returns, after-Returns, Returns-mono, zoom-Returns, arith,
}
use xiu.Prelude.Words.{Bytes, big_endian}
use xiu.Prelude.Bits.{low_bits, shr}
use xiu.Bytesio.Reader.{read_bytes, read_u8}
use xiu.Chunk.Unpack.State.{
  UnpackResult, ChunkReadState, read_basic, read_header, read_extended, read_payload, finish,
  ChunkUnpacketizer, inner, header, empty,
}
use xiu.Chunk.Unpack.Basic.{
  read_basic_header, csid_two, csid_three, csid_more, basic_rest, restore_header, basic_done,
}
use xiu.Chunk.Unpack.Message.{
  read_message_header, read_extended_timestamp, header_fields, reset_extension, go_to, extension,
  add_delta,
}
use xiu.Chunk.Unpack.Payload.{read_message_payload, need_read_length, payload_more, payload_done}
use xiu.Chunk.Unpack.Chunks.{step, step_in, is_finish, read_chunk_loop, read_chunk, chunk_fuel}
use xiu.Chunk.Unpack.Progress.{
  Within, Shrinks, read_bytes-Returns, inner-Returns, inner-Shrinks, header_fields-Shrinks,
  reset_extension-Shrinks, extension-Shrinks, add_delta-Shrinks, bind-Shrinks,
}

abbrev rank : ChunkReadState → ℕ
rank finish = 0
rank read_basic = 1
rank read_payload = 2
rank read_extended = 3
rank read_header = 4

abbrev pub measure : ChunkUnpacketizer → ℕ
measure u = 4 * length u.reader + rank u.chunk_read_state

header-Returns :
    (u : ChunkUnpacketizer)
    → Returns (λ _ u'. Within (length u.reader) read_extended u') (read_message_header u)
unfolding read_message_header go_to
header-Returns u =
    let n = length u.reader in
    let s = u.chunk_read_state in
    after-Returns _ _ (reset_extension u) _ (reset_extension-Shrinks n s u (omega arith, refl))
      λ _ u₁ w₁.
        after-Returns _ _ (header_fields u₁) _ (header_fields-Shrinks n s u₁ w₁)
          (λ _ u₂ w₂. (w₂.0, refl))

extended-Returns :
    (u : ChunkUnpacketizer)
    → Returns (λ _ u'. Within (length u.reader) read_payload u') (read_extended_timestamp u)
unfolding read_extended_timestamp go_to
extended-Returns u =
    let n = length u.reader in
    let s = u.chunk_read_state in
    let t = (header u).extended_timestamp_type in
    after-Returns _ _ (extension t u) _ (extension-Shrinks t n s u (omega arith, refl)) λ _ u₁ w₁.
      after-Returns _ _ (add_delta u₁) _ (add_delta-Shrinks n s u₁ w₁) (λ _ u₂ w₂. (w₂.0, refl))

csid_two-Shrinks : Shrinks csid_two
unfolding csid_two
csid_two-Shrinks = bind-Shrinks (inner read_u8) _ (inner-Shrinks big_endian 1) (λ a n s u w. w)

csid_three-Shrinks : Shrinks csid_three
unfolding csid_three
csid_three-Shrinks =
    bind-Shrinks (inner read_u8) _ (inner-Shrinks big_endian 1)
      λ a. bind-Shrinks (inner read_u8) _ (inner-Shrinks big_endian 1) (λ b n s u w. w)

csid_more-Shrinks : (csid : ℕ) → Shrinks (csid_more csid)
unfolding csid_more
csid_more-Shrinks csid n s u w =
    ground (arith, csid_two-Shrinks n s u w, csid_three-Shrinks n s u w)

basic_rest-Returns :
    (fmt : ℕ) (csid : Option ℕ) (n : ℕ) (u : ChunkUnpacketizer)
    → length u.reader ≤ n
    → Returns (λ _ u'. length u'.reader ≤ n) (basic_rest fmt csid u)
unfolding basic_rest restore_header basic_done
basic_rest-Returns fmt none n u h = h
basic_rest-Returns fmt (some csid) n u h = ground arith

basic-Returns :
    (u : ChunkUnpacketizer)
    → Returns (λ _ u'. length u'.reader < length u.reader) (read_basic_header u)
unfolding read_basic_header
basic-Returns u = after-Returns _ _ (inner read_u8 u) _ (inner-Returns big_endian 1 u) λ byte u₁ h₁.
    after-Returns _ _ (csid_more (low_bits 6 byte) u₁) _
      (csid_more-Shrinks (low_bits 6 byte) (length u₁.reader) u₁.chunk_read_state u₁
        (omega arith, refl))
      λ csid u₂ w₂.
        Returns-mono _ _ (basic_rest (low_bits 2 (shr byte 6)) csid u₂)
          (basic_rest-Returns _ csid (length u₁.reader) u₂ w₂.0) (λ _ u₃ h₃. omega arith)

payload_more-Returns :
    (share : Bytes) (n : ℕ) (u : ChunkUnpacketizer)
    → length u.reader ≤ n
    → Returns
        (λ _ u'. (length u'.reader ≤ n) × (rank u'.chunk_read_state ≤ 1))
        (payload_more share u)
unfolding payload_more payload_done
payload_more-Returns share n u h = ground arith

payload-Returns :
    (u : ChunkUnpacketizer)
    → Returns
        (λ _ u'. (length u'.reader ≤ length u.reader) × (rank u'.chunk_read_state ≤ 1))
        (read_message_payload u)
unfolding read_message_payload
payload-Returns u = elim (Bool-cases (ltb whole (length u.current_chunk_info.payload))) [
  | inl over ↦ rw over tt
  | inr fits ↦ rw fits (
      after-Returns (λ _ u'. length u'.reader ≤ length u.reader) _ (inner (read_bytes need) u) _
        (zoom-Returns _ _ _ _ (read_bytes need u.reader) (read_bytes-Returns need u.reader)
          (λ a b h. omega arith))
        (λ share u₁ h₁. payload_more-Returns share (length u.reader) u₁ h₁))
]
  where
    whole : ℕ
    whole = (header u).msg_length

    need : ℕ
    need = need_read_length u.max_chunk_size whole (whole - length u.current_chunk_info.payload)

-- What is left after a turn, or after the loop, in the state `s`: no new bytes, and one byte less
-- at least if a chunk began.
abbrev Takes : ChunkReadState → ChunkUnpacketizer → ChunkUnpacketizer → Type 0
Takes s u u' =
    (length u'.reader ≤ length u.reader) × (s ≡ read_basic → length u'.reader < length u.reader)

abbrev Falls : ChunkReadState → ChunkUnpacketizer → ChunkUnpacketizer → Type 0
Falls s u u' = (measure u' < 4 * length u.reader + rank s) × Takes s u u'

rank-le : (s : ChunkReadState) → rank s ≤ 4
rank-le finish = omega arith
rank-le read_basic = omega arith
rank-le read_payload = omega arith
rank-le read_extended = omega arith
rank-le read_header = omega arith

step_in-Returns :
    (s : ChunkReadState) (u : ChunkUnpacketizer)
    → is_finish s ≡ false
    → Returns (λ _ u'. Falls s u u') (step_in s u)
unfolding step_in
step_in-Returns read_basic u f =
    Returns-mono _ _ (read_basic_header u) (basic-Returns u)
      (λ _ u' h. (omega (arith, rank-le u'.chunk_read_state), (omega arith, λ _. h)))
step_in-Returns read_header u f =
    Returns-mono _ _ (read_message_header u) (header-Returns u)
      (λ _ u' h. (rw h.1 (omega arith), (h.0, λ e. cc)))
step_in-Returns read_extended u f =
    Returns-mono _ _ (read_extended_timestamp u) (extended-Returns u)
      (λ _ u' h. (rw h.1 (omega arith), (h.0, λ e. cc)))
step_in-Returns read_payload u f =
    Returns-mono _ _ (read_message_payload u) (payload-Returns u)
      (λ _ u' h. (omega arith, (h.0, λ e. cc)))
step_in-Returns finish u f = cc

step-Returns :
    (u : ChunkUnpacketizer)
    → is_finish u.chunk_read_state ≡ false
    → Returns (λ _ u'. Falls u.chunk_read_state u u') (step u)
unfolding step
step-Returns u f = step_in-Returns u.chunk_read_state u f

finish-ne-basic : (s : ChunkReadState) → is_finish s ≡ true → s ≢ read_basic
finish-ne-basic finish f e = cc
finish-ne-basic read_basic f e = cc
finish-ne-basic read_header f e = cc
finish-ne-basic read_extended f e = cc
finish-ne-basic read_payload f e = cc

-- What the loop leaves.
abbrev pub Ended : ChunkUnpacketizer → ChunkUnpacketizer → Type 0
Ended u u' = Takes u.chunk_read_state u u' × (u'.chunk_read_state ≡ read_basic)

pub read_chunk_loop-ends :
    (fuel : ℕ) (r : UnpackResult) (u : ChunkUnpacketizer)
    → measure u < fuel
    → Returns (λ _ u'. Ended u u') (read_chunk_loop fuel r u)
unfolding read_chunk_loop
read_chunk_loop-ends zero r u h = absurd (omega arith)
read_chunk_loop-ends (suc fuel) r u h = elim (Bool-cases (is_finish u.chunk_read_state)) [
  | inl done ↦
      rw done ((omega arith, λ e. absurd (finish-ne-basic u.chunk_read_state done e)), refl)
  | inr more ↦ rw more (
      after-Returns _ _ (step u) _ (step-Returns u more) (λ r' u' less.
        Returns-mono _ _ (read_chunk_loop fuel r' u')
          (read_chunk_loop-ends fuel r' u' (omega arith))
          (λ _ u₂ w. ((omega arith, λ e. later u u' u₂ (less.1.1 e) w.0.0), w.1))))
]
  where
    later :
        (u u' u₂ : ChunkUnpacketizer)
        → length u'.reader < length u.reader
        → length u₂.reader ≤ length u'.reader
        → length u₂.reader < length u.reader
    later u u' u₂ h k = omega arith

-- `read_chunk` ends on every state and input. A chunk that it returns leaves the unpacketizer at
-- the start of a chunk, with no more bytes than before, and with fewer if it was at the start of
-- a chunk before.
pub read_chunk-ends : (u : ChunkUnpacketizer) → Returns (λ _ u'. Ended u u') (read_chunk u)
unfolding read_chunk
read_chunk-ends u = elim (Bool-cases (u.chunk_index == 2 ^ 32 - 1)) [
  | inl over ↦ rw over tt
  | inr fits ↦ rw fits (
      read_chunk_loop-ends (chunk_fuel u) empty (record u { chunk_index = u.chunk_index + 1 })
        (omega (arith, rank-le u.chunk_read_state)))
]
