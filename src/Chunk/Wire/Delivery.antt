-- ===== src/Chunk/Wire/Delivery.antt =====
-- From the packetizer to the unpacketizer.
use xiu.Prelude.{◌-◌, ◌^◌, ◌≤◌, ◌<◌, ◌≡◌, [], ◌∷◌, ◌++◌, length, none, ok, true}
use xiu.Prelude.Words.{Bytes}
use xiu.Chunk.Header.{ChunkInfo, lookup}
use xiu.Chunk.Unpack.State.{chunk_info, ChunkUnpacketizer}
use xiu.Chunk.Unpack.Chunks.{read_chunk}
use xiu.Chunk.Pack.{ChunkPacketizer, write_chunk}
use xiu.Chunk.Wire.{sent_header, Fits, message_bytes}
use xiu.Chunk.Wire.Opening.{IsReady}
use xiu.Chunk.Wire.RoundTrip.{read_chunk-message_bytes}
use xiu.Chunk.Wire.Sending.{write_chunk-message_bytes, message_bytes-append}

-- A message `c` that is the first of its chunk stream on the packetizer `p`, and goes to `u`, which
-- has the same chunk size and stands between two messages.
pub record CanSend (c : ChunkInfo) (p : ChunkPacketizer) (u : ChunkUnpacketizer) : Type 0 where
  pub first : lookup c.basic_header.chunk_stream_id p.csid_2_chunk_header ≡ none
  pub no_delta : c.message_header.timestamp_delta ≡ 0
  pub fits : Fits c.message_header
  pub payload_length : c.message_header.msg_length ≡ length c.payload
  pub csid_lo : 2 ≤ c.basic_header.chunk_stream_id
  pub csid_hi : c.basic_header.chunk_stream_id < 319
  pub writer_empty : p.writer.bytes_writer ≡ []
  pub same_size : p.max_chunk_size ≡ u.max_chunk_size
  pub size_pos : 0 < p.max_chunk_size
  pub ready : IsReady u
  pub index : u.chunk_index < 2 ^ 32 - 1

-- For a message, a packetizer and an unpacketizer as `CanSend` says: `write_chunk` sends one packet,
-- and `read_chunk`, on that packet with any bytes behind it, returns a message with the same chunk
-- stream id, the same payload, and the header as it was sent; it leaves exactly the bytes behind
-- the packet, and the unpacketizer stands between two messages again.
pub read_chunk-write_chunk :
    (c : ChunkInfo) (p : ChunkPacketizer) (u : ChunkUnpacketizer) (rest : Bytes)
    → CanSend c p u
    → (packet : Bytes) × (c' : ChunkInfo) × (p' : ChunkPacketizer) × (c'' : ChunkInfo)
      × (u' : ChunkUnpacketizer) × (write_chunk true c p ≡ ok c' p')
      × (p'.writer.sent ≡ p.writer.sent ++ packet ∷ [])
      × (read_chunk (record u { reader = packet ++ rest }) ≡ ok (chunk_info c'') u')
      × (c''.basic_header.chunk_stream_id ≡ c.basic_header.chunk_stream_id)
      × (c''.message_header ≡ sent_header c.message_header)
      × (c''.payload ≡ c.payload)
      × (u'.reader ≡ rest)
      × IsReady u'
read_chunk-write_chunk c p u rest s =
    let csid = c.basic_header.chunk_stream_id in
    let h = c.message_header in
    let packet = message_bytes p.max_chunk_size csid h c.payload [] in
    let (c', p', wrote, sent, _, _) =
      write_chunk-message_bytes c p s.first s.no_delta s.fits s.csid_lo s.csid_hi s.size_pos
        s.writer_empty in
    let (c'', u', read, csid_same, header_same, payload_same, left, ready) =
      read_chunk-message_bytes csid h c.payload rest u s.fits s.csid_lo s.csid_hi s.ready
        s.payload_length (rw (← s.same_size) s.size_pos) s.index in
    let same : packet ++ rest ≡ message_bytes u.max_chunk_size csid h c.payload rest =
      rw (← s.same_size) (message_bytes-append p.max_chunk_size csid h c.payload rest) in
    (
      packet,
      c',
      p',
      c'',
      u',
      wrote,
      sent,
      rw same read,
      csid_same,
      header_same,
      payload_same,
      left,
      ready,
    )
