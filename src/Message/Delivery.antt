-- ===== src/Message/Delivery.antt =====
-- The control messages and events of RTMP, from their writers over the chunk stream to the parser.
use xiu.Prelude.{
  ℕ, suc, ◌-◌, ◌%◌, ◌^◌, ◌≤◌, ◌<◌, ◌≡◌, refl, List, [], ◌∷◌, ◌++◌, append-nil, Bool, true, ltb,
  if◌then◌else◌, length, ok, arith,
}
use xiu.Prelude.Words.{Bytes, encode, to_be, to_le, big_endian}
use xiu.Prelude.Bits.{low_bits}
use xiu.Bytesio.Reader.{read_u16, read_u32}
use xiu.Bytesio.Reader.Laws.{read_uint-encode, read_u8-cons}
use xiu.Bytesio.Writer.{AsyncBytesWriter, write_uint, write_u24, flush}
use xiu.Amf0.Value.{Amf0ValueType, Properties}
use xiu.Chunk.Header.{ChunkInfo, new_message_header}
use xiu.Chunk.Unpack.State.{ChunkUnpacketizer, chunk_info}
use xiu.Chunk.Unpack.Chunks.{read_chunk}
use xiu.Chunk.Wire.{
  Fits, message_bytes, basic_bytes, header_bytes, extension_bytes, sent_header, pieces,
}
use xiu.Chunk.Wire.Opening.{IsReady}
use xiu.Chunk.Wire.Pieces.{pieces-last}
use xiu.Chunk.Wire.RoundTrip.{read_chunk-message_bytes}
use xiu.Message.Control.{read_set_peer_bandwidth}
use xiu.Message.Event.{parse_event}
use xiu.Message.Parser.{parse}
use xiu.Message.Signal.{
  Signal, chunk_size_is, aborting, acknowledging, window_is, bandwidth_is, begin, eof, dry,
  recorded, ping, pong, buffer_is, send, Fit, understood, type_of, payload_of, header_of,
  short_payload, event_bytes,
}

-- A payload of one chunk.
pieces-whole :
    (max : ℕ) (sep payload : Bytes)
    → 0 < length payload
    → length payload ≤ max
    → pieces max sep (length payload) payload ≡ payload
pieces-whole max sep [] h l = absurd (omega arith)
pieces-whole max sep (x ∷ xs) h l = pieces-last max (length xs) sep x xs (all (length xs) l)
  where
    all : (n : ℕ) → suc n ≤ max → (if ltb max (suc n) then max else suc n) ≡ suc n
    all n k = ground arith

abbrev plain_bytes : ℕ → ℕ → Bytes → Bytes
plain_bytes kind len payload =
    2
    ∷ (encode big_endian 3 0
        ++ (encode big_endian 3 len ++ kind ∷ (encode big_endian 4 0 ++ payload)))

plain_bytes-append :
    (kind len : ℕ) (payload rest : Bytes)
    → plain_bytes kind len payload ++ rest ≡ plain_bytes kind len (payload ++ rest)
unfolding encode to_be
plain_bytes-append kind len payload rest = refl

message_bytes-plain :
    (max kind : ℕ) (payload rest : Bytes)
    → kind < 256
    → 0 < length payload
    → length payload ≤ max
    → message_bytes max 2 (new_message_header 0 (length payload) kind 0) payload rest
      ≡ plain_bytes kind (length payload) (payload ++ rest)
unfolding message_bytes header_bytes basic_bytes extension_bytes encode to_be to_le
message_bytes-plain max kind payload rest k h l = rw (small kind k, pieces-whole max _ payload h l)
  where
    small : (n : ℕ) → n < 256 → n % 256 ≡ n
    small n j = omega arith

abbrev pub idle : List Bytes → AsyncBytesWriter
idle sent = record { bytes_writer = []; sent = sent }

type-lt : (s : Signal) → type_of s < 256
type-lt (chunk_size_is n) = omega arith
type-lt (aborting n) = omega arith
type-lt _ = omega arith

send-plain :
    (s : Signal) (sent : List Bytes)
    → send true s (idle sent)
      ≡ ok tt (idle (sent ++ plain_bytes (type_of s) (length (payload_of s)) (payload_of s) ∷ []))
unfolding send write_u24 write_uint flush encode to_be
send-plain (chunk_size_is n) sent = refl
send-plain (aborting n) sent = refl
send-plain (bandwidth_is n t) sent = refl
send-plain (begin n) sent = refl
send-plain (buffer_is n ms) sent = refl
send-plain _ sent = refl

number_read : (n : ℕ) → n < 256 ^ 4 → read_u32 big_endian (encode big_endian 4 n) ≡ ok n []
number_read n h = rw append-nil at (read_uint-encode big_endian 4 n [] h)

event_read :
    (event n : ℕ)
    → event < 256 ^ 2
    → read_u16 big_endian (event_bytes event n) ≡ ok event (encode big_endian 4 n)
event_read event n h = read_uint-encode big_endian 2 event (encode big_endian 4 n) h

module _ (is_utf8 : Bytes → Bool) (insert : Bytes → Amf0ValueType → Properties → Properties) where
  parse_signal :
      (s : Signal) (c : ChunkInfo)
      → Fit s
      → c.message_header ≡ sent_header (header_of s)
      → c.payload ≡ payload_of s
      → parse is_utf8 insert c ≡ understood s
  unfolding parse understood parse_event read_set_peer_bandwidth
  parse_signal (chunk_size_is n) c f h p = rw (h, p, number_read (low_bits 31 n) (omega arith))
  parse_signal (aborting n) c f h p = rw (h, p, number_read n f)
  parse_signal (acknowledging n) c f h p = rw (h, p, number_read n f)
  parse_signal (window_is n) c f h p = rw (h, p, number_read n f)
  parse_signal (bandwidth_is n t) c f h p =
      rw (h, p, read_uint-encode big_endian 4 n (t ∷ []) f, read_u8-cons t [])
  parse_signal (begin n) c f h p = rw (h, p, event_read 0 n (omega arith), number_read n f)
  parse_signal (eof n) c f h p = rw (h, p, event_read 1 n (omega arith))
  parse_signal (dry n) c f h p = rw (h, p, event_read 2 n (omega arith))
  parse_signal (recorded n) c f h p = rw (h, p, event_read 4 n (omega arith), number_read n f)
  parse_signal (ping n) c f h p = rw (h, p, event_read 6 n (omega arith))
  parse_signal (pong n) c f h p = rw (h, p, event_read 7 n (omega arith))
  parse_signal (buffer_is n ms) c (f, g) h p = rw (
    h,
    p,
    read_uint-encode big_endian 2 3 (encode big_endian 4 n ++ encode big_endian 4 ms) (omega arith),
    read_uint-encode big_endian 4 n (encode big_endian 4 ms) f,
    number_read ms g,
  )

  -- Whatever control message or event is sent by its writer, with numbers that fit their fields, on
  -- a connection that takes the packet: the packet, read by an unpacketizer between two messages
  -- whose chunk size is 10 or more, is one message, and exactly what follows the packet is left.
  -- `MessageParser` makes of it the same control message or event, a chunk size without its highest
  -- bit; for the end of a stream, a dry stream and the two pings it returns the error
  -- UnknowEventMessageType.
  pub parse-send :
      (s : Signal) (sent : List Bytes) (u : ChunkUnpacketizer) (rest : Bytes)
      → Fit s
      → IsReady u
      → 10 ≤ u.max_chunk_size
      → u.chunk_index < 2 ^ 32 - 1
      → (packet : Bytes) × (c : ChunkInfo) × (u' : ChunkUnpacketizer) × (send true s (idle sent)
          ≡ ok tt (idle (sent ++ packet ∷ [])))
        × (read_chunk (record u { reader = packet ++ rest }) ≡ ok (chunk_info c) u')
        × (parse is_utf8 insert c ≡ understood s)
        × (u'.reader ≡ rest)
        × IsReady u'
  parse-send s sent u rest f r m i =
      let (lo, hi) = short_payload s in
      let n = length (payload_of s) in
      let fits : Fits (header_of s) = record {
        timestamp = omega arith;
        msg_length = omega arith;
        msg_type_id = type-lt s;
        msg_streamd_id = omega arith;
      } in
      let (c, u', read, _, header_same, payload_same, left, ready) =
        read_chunk-message_bytes 2 (header_of s) (payload_of s) rest u fits (omega arith)
          (omega arith) r refl (omega arith) i in
      let same : plain_bytes (type_of s) n (payload_of s ++ rest)
          ≡ message_bytes u.max_chunk_size 2 (header_of s) (payload_of s) rest =
        rw (
          message_bytes-plain u.max_chunk_size (type_of s) (payload_of s) rest (type-lt s) lo
            (omega arith)) in
      (
        plain_bytes (type_of s) n (payload_of s),
        c,
        u',
        send-plain s sent,
        rw (plain_bytes-append (type_of s) n (payload_of s) rest, same) read,
        parse_signal s c f header_same payload_same,
        left,
        ready,
      )
