-- ===== src/Message/CommandDelivery.antt =====
-- The commands of RTMP, from their writers over the chunk stream to the parser.
use xiu.Prelude.{
  ℕ, ◌%◌, ◌^◌, ◌<◌, ◌≡◌, refl, ap, ◌∙◌, List, [], ◌∷◌, ◌++◌, map, append-nil, append_assoc, Bool,
  true, length, All, ok, some, arith,
}
use xiu.Prelude.Words.{Bytes}
use xiu.Amf0.Value.{Amf0ValueType, number, utf8_string, object, null, Properties}
use xiu.Amf0.Reader.{read_with_type}
use xiu.Amf0.Layout.{value_bytes, Storable, write_any-value_bytes}
use xiu.Amf0.RoundTrip.{read_back}
use xiu.Amf0.All.{
  values_bytes, read_with_type-value_bytes, read_with_type_wrong, read_all-values_bytes,
}
use xiu.Chunk.Header.{ChunkInfo, new_chunk}
use xiu.Chunk.Pack.{ChunkPacketizer}
use xiu.Chunk.Pack as Pack
use xiu.Chunk.Unpack.State.{ChunkUnpacketizer, chunk_info}
use xiu.Chunk.Unpack.Chunks.{read_chunk}
use xiu.Chunk.Wire.{sent_header}
use xiu.Chunk.Wire.Opening.{IsReady}
use xiu.Chunk.Wire.Delivery.{CanSend, read_chunk-write_chunk}
use xiu.Message.Define.{RtmpMessageData, amf0_command}
use xiu.Message.NetWriter.{NetWriter, Net, write_chunk}
use xiu.Message.Command.{
  Command, connect_with, connect, connect_response, create_stream, run, name_of, object_of,
  others_of, stream_of, values_of, put_all, run-put_all,
}
use xiu.Message.Parser.{parse, parse_command, read_command_object}

module _ (is_utf8 : Bytes → Bool) where
  put_all-values_bytes :
      (vs : List Amf0ValueType) (m : Net (Unit {0})) (n : NetWriter)
      → All (λ v. Storable is_utf8 v) vs
      → put_all vs m n ≡ m (record n { amf0_writer = n.amf0_writer ++ values_bytes vs })
  put_all-values_bytes [] m n h = rw (append-nil n.amf0_writer)
  put_all-values_bytes (v ∷ vs) m n (h, hs) =
      let n' = record n { amf0_writer = n.amf0_writer ++ value_bytes v } in
      rw
        (
          write_any-value_bytes is_utf8 v n.amf0_writer h,
          ← append_assoc n.amf0_writer (value_bytes v) (values_bytes vs),
        )
        (put_all-values_bytes vs m n' hs)

-- The message that holds the bytes of a command.
abbrev pub message : ℕ → Bytes → ChunkInfo
message sid bytes = new_chunk 3 0 0 (length bytes) 20 sid bytes

write_chunk-message :
    (k : Bool) (sid : ℕ) (n : NetWriter) (c : ChunkInfo) (p : ChunkPacketizer)
    → length n.amf0_writer < 2 ^ 24
    → Pack.write_chunk k (message sid n.amf0_writer) n.packetizer ≡ ok c p
    → write_chunk k sid n ≡ ok tt (record { amf0_writer = []; packetizer = p })
unfolding write_chunk
write_chunk-message k sid n c p h e = rw (cut (length n.amf0_writer) h, e)
  where
    cut : (m : ℕ) → m < 2 ^ 24 → m % 2 ^ 32 ≡ m
    cut m l = omega arith

module _ (is_utf8 : Bytes → Bool) (insert : Bytes → Amf0ValueType → Properties → Properties) where
  read_object :
      (ps : Properties) (rest : Bytes)
      → Storable is_utf8 (object ps)
      → read_command_object is_utf8 insert (value_bytes (object ps) ++ rest)
        ≡ ok (read_back insert (object ps)) rest
  unfolding read_command_object value_bytes
  read_object ps rest h =
      rw (read_with_type-value_bytes is_utf8 insert 3 (object ps) _ rest refl refl h)

  read_null :
      (rest : Bytes)
      → read_command_object is_utf8 insert (value_bytes null ++ rest)
        ≡ ok (read_back insert null) rest
  unfolding read_command_object value_bytes Storable
  read_null rest = rw (
    read_with_type_wrong is_utf8 insert 3 5 rest refl,
    read_with_type-value_bytes is_utf8 insert 5 null [] rest refl refl tt,
  )

  object_read :
      (c : Command) (rest : Bytes)
      → Storable is_utf8 (object_of insert c)
      → read_command_object is_utf8 insert (value_bytes (object_of insert c) ++ rest)
        ≡ ok (read_back insert (object_of insert c)) rest
  object_read (connect_with ps) rest h = read_object ps rest h
  object_read (connect p) rest h = read_object _ rest h
  object_read (connect_response f x code l d e) rest h = read_object _ rest h
  object_read create_stream rest h = read_null rest
  object_read _ rest h = read_null rest

  string_read :
      (s rest : Bytes)
      → Storable is_utf8 (utf8_string s)
      → read_with_type is_utf8 insert 2 (value_bytes (utf8_string s) ++ rest)
        ≡ ok (utf8_string s) rest
  unfolding value_bytes read_back
  string_read s rest h =
      read_with_type-value_bytes is_utf8 insert 2 (utf8_string s) _ rest refl refl h

  number_read :
      (n : ℕ) (rest : Bytes)
      → Storable is_utf8 (number n)
      → read_with_type is_utf8 insert 0 (value_bytes (number n) ++ rest) ≡ ok (number n) rest
  unfolding value_bytes read_back
  number_read n rest h = read_with_type-value_bytes is_utf8 insert 0 (number n) _ rest refl refl h

  -- What the parser makes of a command.
  abbrev pub received : ℕ → Command → RtmpMessageData
  received t c =
      amf0_command (utf8_string (name_of c)) (number t) (read_back insert (object_of insert c))
        (map (read_back insert) (others_of insert c))

  parse_values :
      (t : ℕ) (c : Command)
      → All (λ v. Storable is_utf8 v) (values_of insert t c)
      → parse_command is_utf8 insert (values_bytes (values_of insert t c))
        ≡ ok (some (received t c)) []
  unfolding parse_command
  parse_values t c (n, (i, (o, s))) =
      rw (name, id, rest, read_all-values_bytes is_utf8 insert (others_of insert c) s)
    where
      others : Bytes
      others = values_bytes (others_of insert c)

      name :
          read_with_type is_utf8 insert 2 (
            value_bytes (utf8_string (name_of c))
            ++ (value_bytes (number t) ++ (value_bytes (object_of insert c) ++ others)))
          ≡ ok
              (utf8_string (name_of c))
              (value_bytes (number t) ++ (value_bytes (object_of insert c) ++ others))
      name = string_read (name_of c) _ n

      id :
          read_with_type is_utf8 insert 0
            (value_bytes (number t) ++ (value_bytes (object_of insert c) ++ others))
          ≡ ok (number t) (value_bytes (object_of insert c) ++ others)
      id = number_read t _ i

      rest :
          read_command_object is_utf8 insert (value_bytes (object_of insert c) ++ others)
          ≡ ok (read_back insert (object_of insert c)) others
      rest = object_read c others o

  parse-message :
      (t : ℕ) (c : Command) (m : ChunkInfo)
      → All (λ v. Storable is_utf8 v) (values_of insert t c)
      → m.message_header
        ≡ sent_header (message (stream_of c) (values_bytes (values_of insert t c))).message_header
      → m.payload ≡ values_bytes (values_of insert t c)
      → parse is_utf8 insert m ≡ ok (some (received t c)) []
  unfolding parse
  parse-message t c m s h e = rw (h, e) (parse_values t c s)

  -- Whatever command a method of `NetConnection` or `NetStreamWriter` writes with an empty writer,
  -- for values that AMF0 can store, as the first message of its chunk stream, to an unpacketizer with
  -- the same chunk size that stands between two messages: one packet is sent, and read it is one
  -- message on the stream of the command, with exactly what follows the packet left. `MessageParser`
  -- makes of it the command with its name, its transaction id, its object (or null) and its other
  -- values in order, each as AMF0 reads it back.
  pub parse-run :
      (t : ℕ) (c : Command) (p : ChunkPacketizer) (u : ChunkUnpacketizer) (rest : Bytes)
      → All (λ v. Storable is_utf8 v) (values_of insert t c)
      → CanSend (message (stream_of c) (values_bytes (values_of insert t c))) p u
      → (packet : Bytes) × (p' : ChunkPacketizer) × (m : ChunkInfo) × (u' : ChunkUnpacketizer)
        × (run insert true t c (record { amf0_writer = []; packetizer = p })
            ≡ ok tt (record { amf0_writer = []; packetizer = p' }))
        × (p'.writer.sent ≡ p.writer.sent ++ packet ∷ [])
        × (read_chunk (record u { reader = packet ++ rest }) ≡ ok (chunk_info m) u')
        × (parse is_utf8 insert m ≡ ok (some (received t c)) [])
        × (m.message_header.msg_streamd_id ≡ stream_of c)
        × (u'.reader ≡ rest)
        × IsReady u'
  parse-run t c p u rest s can =
      let bytes = values_bytes (values_of insert t c) in
      let (packet, c', p', m, u', wrote, sent, read, _, header_same, payload_same, left, ready) =
        read_chunk-write_chunk (message (stream_of c) bytes) p u rest can in
      (
        packet,
        p',
        m,
        u',
        rw (run-put_all insert true t c) (
            put_all-values_bytes is_utf8 (values_of insert t c) (write_chunk true (stream_of c))
              (record { amf0_writer = []; packetizer = p }) s
            ∙ write_chunk-message true (stream_of c)
                (record { amf0_writer = bytes; packetizer = p }) c' p' can.fits.msg_length wrote),
        sent,
        read,
        parse-message t c m s header_same payload_same,
        ap (λ h. h.msg_streamd_id) header_same,
        left,
        ready,
      )
