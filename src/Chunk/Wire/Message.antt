-- ===== src/Chunk/Wire/Message.antt =====
-- The payload of a message, chunk by chunk.
use xiu.Prelude.{
  ℕ, zero, suc, ◌+◌, ◌-◌, ◌^◌, ◌≤◌, ◌<◌, ◌≡◌, refl, sym, ◌∙◌, inl, inr, [], ◌∷◌, ◌++◌, append_assoc,
  Bool-cases, false, ltb, ltb→lt, length, length-append, take, drop, length-take, length-drop,
  take-append-drop, ok, arith,
}
use xiu.Prelude.Words.{Bytes}
use xiu.Bytesio.Reader.Laws.{read_bytes_append}
use xiu.Chunk.Header.{ChunkInfo, insert}
use xiu.Chunk.Unpack.State.{
  UnpackResult, success, chunk_info, ChunkUnpacketizer, header, read_basic, read_payload, finish,
}
use xiu.Chunk.Unpack.Payload.{read_message_payload, need_read_length, payload_more, payload_done}
use xiu.Chunk.Unpack.Chunks.{step, step_in, read_chunk_loop}
use xiu.Chunk.Wire.{separator, share, pieces}
use xiu.Chunk.Wire.Pieces.{pieces-last, pieces-inner}
use xiu.Chunk.Wire.Reading.{at, csid_of, read_chunk_loop-step, read_chunk_loop-separator}

-- Both sides take the same share of what is left of a payload.
need-share :
    (max whole : ℕ) (acc payload : Bytes)
    → whole ≡ length acc + length payload
    → need_read_length max whole (whole - length acc) ≡ share max payload
need-share max whole acc payload e = ground arith

-- One chunk's share is read and put behind the payload so far.
read_share :
    (fmt : ℕ) (acc x rest : Bytes) (u : ChunkUnpacketizer)
    → length acc ≤ (header u).msg_length
    → length x
      ≡ need_read_length u.max_chunk_size (header u).msg_length ((header u).msg_length - length acc)
    → read_message_payload (at u read_payload fmt acc (x ++ rest))
      ≡ payload_more x (at u read_payload fmt acc rest)
unfolding read_message_payload
read_share fmt acc x rest u h e = ground (
  arith,
  read_bytes_append
      (need_read_length u.max_chunk_size (header u).msg_length ((header u).msg_length - length acc))
      x rest e,
)

-- What the unpacketizer returns and keeps when the message is complete.
abbrev pub info : ChunkUnpacketizer → ℕ → Bytes → ChunkInfo
info u fmt payload = (at u read_payload fmt payload []).current_chunk_info

abbrev pub kept : ChunkUnpacketizer → ℕ → Bytes → ChunkUnpacketizer
kept u fmt rest = record (at u read_basic fmt [] rest) {
  chunk_message_headers = insert (csid_of u) (header u) u.chunk_message_headers;
}

payload_more-last :
    (fmt : ℕ) (acc x rest : Bytes) (u : ChunkUnpacketizer)
    → (header u).msg_length ≡ length acc + length x
    → payload_more x (at u read_payload fmt acc rest)
      ≡ ok
          (chunk_info (info u fmt (acc ++ x)))
          (record (kept u fmt rest) { chunk_read_state = finish })
unfolding payload_more payload_done
payload_more-last fmt acc x rest u e = ground (arith, length-append acc x)

payload_more-inner :
    (fmt : ℕ) (acc x rest : Bytes) (u : ChunkUnpacketizer)
    → length acc + length x < (header u).msg_length
    → payload_more x (at u read_payload fmt acc rest)
      ≡ ok success (at u read_basic fmt (acc ++ x) rest)
unfolding payload_more
payload_more-inner fmt acc x rest u e = ground (arith, length-append acc x)

loop_finish :
    (fuel : ℕ) (r : UnpackResult) (u : ChunkUnpacketizer)
    → read_chunk_loop (suc fuel) r (record u { chunk_read_state = finish })
      ≡ ok r (record u { chunk_read_state = read_basic })
unfolding read_chunk_loop
loop_finish fuel r u = refl

-- The last share completes the message.
last_share :
    (fuel : ℕ) (r : UnpackResult) (fmt : ℕ) (acc x rest : Bytes) (u : ChunkUnpacketizer)
    → (header u).msg_length ≡ length acc + length x
    → share u.max_chunk_size x ≡ length x
    → read_chunk_loop (suc (suc fuel)) r (at u read_payload fmt acc (x ++ rest))
      ≡ ok (chunk_info (info u fmt (acc ++ x))) (kept u fmt rest)
unfolding step step_in
last_share fuel r fmt acc x rest u e s =
    read_chunk_loop-step (suc fuel) r (chunk_info (info u fmt (acc ++ x)))
      (at u read_payload fmt acc (x ++ rest))
      (record (kept u fmt rest) { chunk_read_state = finish }) refl
      (read_share fmt acc x rest u (omega arith)
          (sym s ∙ sym (need-share u.max_chunk_size (header u).msg_length acc x e))
        ∙ payload_more-last fmt acc x rest u e)
    ∙ loop_finish fuel (chunk_info (info u fmt (acc ++ x))) (kept u fmt rest)

-- Another share leads to the next basic header.
inner_share :
    (fuel : ℕ) (r : UnpackResult) (fmt : ℕ) (acc payload more : Bytes) (u : ChunkUnpacketizer)
    → (header u).msg_length ≡ length acc + length payload
    → share u.max_chunk_size payload < length payload
    → let k = share u.max_chunk_size payload in
      read_chunk_loop (suc fuel) r (at u read_payload fmt acc (take k payload ++ more))
      ≡ read_chunk_loop fuel success (at u read_basic fmt (acc ++ take k payload) more)
unfolding step step_in
inner_share fuel r fmt acc payload more u e s =
    read_chunk_loop-step fuel r success (at u read_payload fmt acc (x ++ more))
      (at u read_basic fmt (acc ++ x) more) refl
      (read_share fmt acc x more u (omega arith)
          (size ∙ sym (need-share u.max_chunk_size (header u).msg_length acc payload e))
        ∙ payload_more-inner fmt acc x more u (omega (arith, size)))
  where
    x : Bytes
    x = take (share u.max_chunk_size payload) payload

    size : length x ≡ share u.max_chunk_size payload
    size = omega (arith, length-take (share u.max_chunk_size payload) payload)

separator-nonempty :
    (fuel : ℕ) (r : UnpackResult) (fmt : ℕ) (p rest : Bytes) (u : ChunkUnpacketizer)
    → 0 < length p
    → 2 ≤ csid_of u
    → csid_of u < 319
    → (header u).timestamp < 2 ^ 32
    → (header u).timestamp_delta < 2 ^ 32
    → read_chunk_loop
        (suc (suc (suc fuel)))
        r
        (at u read_basic fmt p (separator (csid_of u) (header u) ++ rest))
      ≡ read_chunk_loop fuel success (at u read_payload 3 p rest)
separator-nonempty fuel r fmt [] rest u h lo hi a b = absurd (omega arith)
separator-nonempty fuel r fmt (x ∷ p) rest u h lo hi a b =
    read_chunk_loop-separator fuel r fmt x p rest u lo hi a b

abbrev pub fuel_for : ℕ → ℕ → ℕ
fuel_for zero f = suc (suc f)
fuel_for (suc n) f = suc (suc (suc (suc (fuel_for n f))))

-- The whole payload, in as many chunks as it takes.
pub read_chunk_loop-pieces :
    (n f : ℕ) (r : UnpackResult) (fmt : ℕ) (acc payload rest : Bytes) (u : ChunkUnpacketizer)
    → length payload ≤ n
    → (header u).msg_length ≡ length acc + length payload
    → 0 < u.max_chunk_size
    → 2 ≤ csid_of u
    → csid_of u < 319
    → (header u).timestamp < 2 ^ 32
    → (header u).timestamp_delta < 2 ^ 32
    → (fmt' : ℕ) × (read_chunk_loop (fuel_for n f) r (
          at u read_payload fmt acc
            (pieces u.max_chunk_size (separator (csid_of u) (header u)) n payload ++ rest))
        ≡ ok (chunk_info (info u fmt' (acc ++ payload))) (kept u fmt' rest))
read_chunk_loop-pieces zero f r fmt acc [] rest u l e m lo hi a b =
    (fmt, unfold pieces in last_share f r fmt acc [] rest u e (ground arith))
read_chunk_loop-pieces zero f r fmt acc (x ∷ xs) rest u l e m lo hi a b = absurd (omega arith)
read_chunk_loop-pieces (suc n) f r fmt acc [] rest u l e m lo hi a b = (
  fmt,
  unfold pieces in last_share (suc (suc (fuel_for n f))) r fmt acc [] rest u e (ground arith),
)
read_chunk_loop-pieces (suc n) f r fmt acc (x ∷ xs) rest u l e m lo hi a b =
    elim (Bool-cases (ltb (share max payload) (length payload))) [
      | inl more ↦
          let (fmt', ih) =
            read_chunk_loop-pieces n f success 3 (acc ++ part) others rest u
              (omega (arith, others_size, share-pos)) (omega (arith, total, others_size, share_le))
              m lo hi a b in
          (
            fmt',
            rw (pieces-inner max n sep x xs (ltb→lt _ _ more)) (
                rw (append_assoc part (sep ++ pieces max sep n others) rest) (
                  inner_share (suc (suc (suc (fuel_for n f)))) r fmt acc payload
                    ((sep ++ pieces max sep n others) ++ rest) u e (ltb→lt _ _ more)
                  ∙ rw (append_assoc sep (pieces max sep n others) rest) (
                      separator-nonempty (fuel_for n f) success fmt (acc ++ part)
                        (pieces max sep n others ++ rest) u
                        (omega (arith, total, part_size, share-pos)) lo hi a b)
                  ∙ rw (append_assoc acc part others, take-append-drop (share max payload) payload)
                      at ih)),
          )
      | inr last ↦ (
        fmt,
        rw (pieces-last max n sep x xs (share_all last))
            (last_share (suc (suc (fuel_for n f))) r fmt acc payload rest u e (share_all last)),
      )
    ]
  where
    max : ℕ
    max = u.max_chunk_size

    payload : Bytes
    payload = x ∷ xs

    sep : Bytes
    sep = separator (csid_of u) (header u)

    part : Bytes
    part = take (share max payload) payload

    others : Bytes
    others = drop (share max payload) payload

    share_all :
        ltb (share max payload) (length payload) ≡ false → share max payload ≡ length payload
    share_all h = ground arith

    share-pos : 0 < share max payload
    share-pos = ground arith

    share_le : share max payload ≤ length payload
    share_le = ground arith

    others_size : length others ≡ length payload - share max payload
    others_size = length-drop (share max payload) payload

    part_size : length part ≡ share max payload
    part_size = omega (arith, length-take (share max payload) payload, share_le)

    total : length (acc ++ part) ≡ length acc + share max payload
    total = omega (arith, length-append acc part, part_size)
