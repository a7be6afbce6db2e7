-- ===== src/Chunk/Wire.antt =====
-- The bytes of a chunk stream, written down once as plain lists, between the packetizer that
-- writes them and the unpacketizer that reads them.
pub mod Reading
pub mod Pieces
pub mod Message
pub mod Opening
pub mod Writing
pub mod Sending
pub mod RoundTrip
pub mod Delivery
use xiu.Prelude.{
  ℕ, zero, suc, ◌+◌, ◌-◌, ◌*◌, ◌^◌, ◌<◌, List, [], ◌∷◌, ◌++◌, ltb, leb, if◌then◌else◌, length, take,
  drop,
}
use xiu.Prelude.Words.{Bytes, encode, big_endian, little_endian}
use xiu.Chunk.Header.{ChunkMessageHeader, ExtendTimestampType, no_extension, format0, format12}

-- A basic header for a chunk stream id below 319.
unfoldable pub basic_bytes : ℕ → ℕ → Bytes
basic_bytes fmt csid = if ltb csid 64 then (fmt * 64 + csid) ∷ [] else (fmt * 64) ∷ (csid - 64) ∷ []

unfoldable pub extension_bytes : ExtendTimestampType → ChunkMessageHeader → Bytes
extension_bytes no_extension h = []
extension_bytes format0 h = encode big_endian 4 h.timestamp
extension_bytes format12 h = encode big_endian 4 h.timestamp_delta

-- What stands between two chunks of a message.
unfoldable pub separator : ℕ → ChunkMessageHeader → Bytes
unfolding basic_bytes extension_bytes
separator csid h = basic_bytes 3 csid ++ extension_bytes h.extended_timestamp_type h

abbrev pub share : ℕ → Bytes → ℕ
share max payload = if ltb max (length payload) then max else length payload

-- A payload in chunks of `max` bytes, in `fuel` chunks at most.
unfoldable pub pieces : ℕ → Bytes → ℕ → Bytes → Bytes
pieces max sep fuel [] = []
pieces max sep zero (b ∷ bs) = []
pieces max sep (suc fuel) (b ∷ bs) =
    let payload = b ∷ bs in
    let rest = drop (share max payload) payload in
    take (share max payload) payload
    ++ (if ltb 0 (length rest) then sep ++ pieces max sep fuel rest else [])

abbrev pub short_time : ℕ → ℕ
short_time t = if leb 0xffffff t then 0xffffff else t

-- The header of a message in format 0, and what follows it.
unfoldable pub header_bytes : ChunkMessageHeader → Bytes → Bytes
header_bytes h rest =
    encode big_endian 3 (short_time h.timestamp)
    ++ (encode big_endian 3 h.msg_length
        ++ (encode big_endian 1 h.msg_type_id ++ (encode little_endian 4 h.msg_streamd_id ++ rest)))

abbrev pub extension_of : ℕ → ExtendTimestampType
extension_of t = if leb 0xffffff t then format0 else no_extension

-- A header as it stands when its message went out in format 0.
abbrev pub sent_header : ChunkMessageHeader → ChunkMessageHeader
sent_header h = record h { timestamp_delta = 0; extended_timestamp_type = extension_of h.timestamp }

-- The fields fit their widths.
pub record Fits (h : ChunkMessageHeader) : Type 0 where
  pub timestamp : h.timestamp < 2 ^ 32
  pub msg_length : h.msg_length < 2 ^ 24
  pub msg_type_id : h.msg_type_id < 256
  pub msg_streamd_id : h.msg_streamd_id < 2 ^ 32

-- A message in format 0, as chunks of `max` bytes.
unfoldable pub message_bytes : ℕ → ℕ → ChunkMessageHeader → Bytes → Bytes → Bytes
unfolding header_bytes
message_bytes max csid h payload rest =
    let h' = sent_header h in
    let chunks = pieces max (separator csid h') (length payload) payload in
    basic_bytes 0 csid
    ++ header_bytes h (extension_bytes h'.extended_timestamp_type h' ++ (chunks ++ rest))
