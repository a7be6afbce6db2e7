-- ===== src/Chunk/Runs.antt =====
-- Runs of the packetizer and the unpacketizer.
use xiu.Prelude.{◌≡◌, refl, [], ◌∷◌, ◌++◌, ok, true, Returns, arith}
use xiu.Prelude.Words.{Bytes}
use xiu.Chunk.Header.{ChunkInfo, new_chunk, lookup}
use xiu.Chunk.Unpack.State as State
use xiu.Chunk.Unpack.State.{ChunkUnpacketizer, chunk_info}
use xiu.Chunk.Unpack.Chunks.{read_chunk, read_chunks}
use xiu.Chunk.Unpack.Termination.{Ended, read_chunk-ends}
use xiu.Chunk.Unpack.Batch.{Ends, read_chunks-Ends}
use xiu.Chunk.Pack as Pack
use xiu.Chunk.Pack.{ChunkPacketizer, write_chunk}
use xiu.Chunk.Wire.{sent_header, Fits, message_bytes}
use xiu.Chunk.Wire.Opening.{IsReady}
use xiu.Chunk.Wire.RoundTrip.{read_chunk-message_bytes}
use xiu.Chunk.Wire.Sending.{write_chunk-message_bytes}
use xiu.Chunk.Wire.Delivery.{CanSend, read_chunk-write_chunk}

-- A message of five bytes, on chunk stream 100, with a timestamp that takes the extension.
abbrev message : ChunkInfo
message = new_chunk 100 0 0x1000000 5 9 1 (10 ∷ 20 ∷ 30 ∷ 40 ∷ 50 ∷ [])

-- Both ends cut payloads in chunks of two bytes.
abbrev packetizer : ChunkPacketizer
packetizer = record (Pack.new) { max_chunk_size = 2 }

abbrev unpacketizer : ChunkUnpacketizer
unpacketizer = record (State.new) { max_chunk_size = 2 }

message-Fits : Fits message.message_header
message-Fits = record {
  timestamp = omega arith;
  msg_length = omega arith;
  msg_type_id = omega arith;
  msg_streamd_id = omega arith;
}

unpacketizer-IsReady : IsReady unpacketizer
unpacketizer-IsReady = record { at_start = refl; no_header = refl; no_payload = refl }

message-CanSend : CanSend message packetizer unpacketizer
unfolding lookup
message-CanSend = record {
  first = refl;
  no_delta = refl;
  fits = message-Fits;
  payload_length = refl;
  csid_lo = omega arith;
  csid_hi = omega arith;
  writer_empty = refl;
  same_size = refl;
  size_pos = omega arith;
  ready = unpacketizer-IsReady;
  index = omega arith;
}

read_chunk-write_chunk_example :
    (packet : Bytes) × (c' : ChunkInfo) × (p' : ChunkPacketizer) × (c'' : ChunkInfo)
    × (u' : ChunkUnpacketizer) × (write_chunk true message packetizer ≡ ok c' p')
    × (p'.writer.sent ≡ packetizer.writer.sent ++ packet ∷ [])
    × (read_chunk (record unpacketizer { reader = packet ++ 7 ∷ 8 ∷ [] }) ≡ ok (chunk_info c'') u')
    × (c''.basic_header.chunk_stream_id ≡ 100)
    × (c''.message_header ≡ sent_header message.message_header)
    × (c''.payload ≡ message.payload)
    × (u'.reader ≡ 7 ∷ 8 ∷ [])
    × IsReady u'
read_chunk-write_chunk_example =
    read_chunk-write_chunk message packetizer unpacketizer (7 ∷ 8 ∷ []) message-CanSend

read_chunk-message_bytes_example :
    (c : ChunkInfo) × (u' : ChunkUnpacketizer) × (read_chunk (record unpacketizer {
      reader = message_bytes 2 100 message.message_header message.payload (7 ∷ []);
    })
      ≡ ok (chunk_info c) u')
    × (c.basic_header.chunk_stream_id ≡ 100)
    × (c.message_header ≡ sent_header message.message_header)
    × (c.payload ≡ message.payload)
    × (u'.reader ≡ 7 ∷ [])
    × IsReady u'
read_chunk-message_bytes_example =
    read_chunk-message_bytes 100 message.message_header message.payload (7 ∷ []) unpacketizer
      message-Fits (omega arith) (omega arith) unpacketizer-IsReady refl (omega arith) (omega arith)

write_chunk-message_bytes_example :
    (c' : ChunkInfo) × (p' : ChunkPacketizer) × (write_chunk true message packetizer ≡ ok c' p')
    × (p'.writer.sent
        ≡ packetizer.writer.sent
          ++ message_bytes 2 100 message.message_header message.payload [] ∷ [])
    × (p'.writer.bytes_writer ≡ [])
    × (p'.max_chunk_size ≡ 2)
write_chunk-message_bytes_example =
    write_chunk-message_bytes message packetizer message-CanSend.first refl message-Fits
      (omega arith) (omega arith) (omega arith) refl

-- A chunk of format 0 that is cut inside its payload.
abbrev half_read : ChunkUnpacketizer
half_read = record (State.new) {
  reader = 3 ∷ 0 ∷ 0 ∷ 1 ∷ 0 ∷ 0 ∷ 4 ∷ 9 ∷ 1 ∷ 0 ∷ 0 ∷ 0 ∷ 10 ∷ 20 ∷ [];
}

read_chunk-ends_example : Returns (λ _ u'. Ended half_read u') (read_chunk half_read)
read_chunk-ends_example = read_chunk-ends half_read

read_chunks-Ends_example : Ends (read_chunks half_read)
read_chunks-Ends_example = read_chunks-Ends half_read
