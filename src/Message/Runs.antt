-- ===== src/Message/Runs.antt =====
-- Runs of the writers and the parser of RTMP messages.
use xiu.Prelude.{ℕ, All, ◌≡◌, refl, [], ◌∷◌, ◌++◌, Bool, true, ok, some, arith}
use xiu.Prelude.Words.{Bytes, encode}
use xiu.Prelude.Text.{codes}
use xiu.Amf0.Value.{property}
use xiu.Amf0.Layout.{Storable, value_bytes}
use xiu.Chunk.Header.{ChunkInfo, lookup}
use xiu.Chunk.Unpack.State as State
use xiu.Chunk.Unpack.State.{ChunkUnpacketizer, chunk_info}
use xiu.Chunk.Unpack.Chunks.{read_chunk}
use xiu.Chunk.Pack as Pack
use xiu.Chunk.Pack.{ChunkPacketizer}
use xiu.Chunk.Wire.Opening.{IsReady}
use xiu.Chunk.Wire.Delivery.{CanSend}
use xiu.Amf0.All.{values_bytes}
use xiu.Message.Parser.{parse}
use xiu.Message.Signal.{buffer_is, send, understood}
use xiu.Message.Delivery.{idle, parse-send}
use xiu.Message.Command.{Command, publish, run, values_of, stream_of}
use xiu.Message.CommandDelivery.{message, received, parse-run}

abbrev accept : Bytes → Bool
accept bytes = true

abbrev unpacketizer : ChunkUnpacketizer
unpacketizer = record (State.new) { max_chunk_size = 4096 }

unpacketizer-IsReady : IsReady unpacketizer
unpacketizer-IsReady = record { at_start = refl; no_header = refl; no_payload = refl }

parse-send_example :
    (packet : Bytes) × (c : ChunkInfo) × (u' : ChunkUnpacketizer) × (send true
        (buffer_is 1 3000)
        (idle [])
      ≡ ok tt (idle ([] ++ packet ∷ [])))
    × (read_chunk (record unpacketizer { reader = packet ++ 7 ∷ [] }) ≡ ok (chunk_info c) u')
    × (parse accept property c ≡ understood (buffer_is 1 3000))
    × (u'.reader ≡ 7 ∷ [])
    × IsReady u'
parse-send_example =
    parse-send accept property (buffer_is 1 3000) [] unpacketizer (7 ∷ [])
      (omega arith, omega arith) unpacketizer-IsReady (omega arith) (omega arith)

abbrev command : Command
command = publish (codes "live") (codes "record")

-- The number 5.
abbrev five : ℕ
five = 0x4014000000000000

command-CanSend :
    CanSend
      (message (stream_of command) (values_bytes (values_of property five command)))
      Pack.new
      unpacketizer
unfolding lookup value_bytes encode
command-CanSend = record {
  first = refl;
  no_delta = refl;
  fits = record {
    timestamp = omega arith;
    msg_length = omega arith;
    msg_type_id = omega arith;
    msg_streamd_id = omega arith;
  };
  payload_length = refl;
  csid_lo = omega arith;
  csid_hi = omega arith;
  writer_empty = refl;
  same_size = refl;
  size_pos = omega arith;
  ready = unpacketizer-IsReady;
  index = omega arith;
}

command-Storable : All (λ v. Storable accept v) (values_of property five command)
unfolding Storable
command-Storable =
    ((omega arith, refl), (omega arith, (tt, ((omega arith, refl), ((omega arith, refl), tt)))))

parse-run_example :
    (packet : Bytes) × (p' : ChunkPacketizer) × (m : ChunkInfo) × (u' : ChunkUnpacketizer) × (run
        property true five command
        (record { amf0_writer = []; packetizer = Pack.new })
      ≡ ok tt (record { amf0_writer = []; packetizer = p' }))
    × (p'.writer.sent ≡ [] ++ packet ∷ [])
    × (read_chunk (record unpacketizer { reader = packet ++ 7 ∷ [] }) ≡ ok (chunk_info m) u')
    × (parse accept property m ≡ ok (some (received accept property five command)) [])
    × (m.message_header.msg_streamd_id ≡ 0)
    × (u'.reader ≡ 7 ∷ [])
    × IsReady u'
parse-run_example =
    parse-run accept property five command Pack.new unpacketizer (7 ∷ []) command-Storable
      command-CanSend
