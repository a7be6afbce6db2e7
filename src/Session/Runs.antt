-- ===== src/Session/Runs.antt =====
-- A new session of a server, and two commands of a client.
use xiu.Prelude.{ℕ, [], ◌∷◌, ◌++◌, Bool, true, not, Option, none, some, List, ok, refl}
use xiu.Prelude.Words.{Bytes}
use xiu.Prelude.Text.{codes}
use xiu.Amf0.Value.{property}
use xiu.Chunk.Header.{ChunkInfo, new_chunk}
use xiu.Chunk.Unpack.State as Unpack
use xiu.Message.NetConnection.{new_none}
use xiu.Session.Define.{server, read_chunk}
use xiu.Session.Common.{Surroundings, Common, answered}
use xiu.Session.Server.{ServerSession}
use xiu.Session.Commands.{process_chunks}
use xiu.Session.Leaves.{Leaves}
use xiu.Session.Safety.{IsSafe}
use xiu.Session.Admission.{process_chunks-Safe}

abbrev around : Surroundings
around = record {
  FrameSender = ℕ;
  FrameReceiver = ℕ;
  StatisticSender = ℕ;
  Cache = ℕ;
  event_taken = λ events. true;
  frame_taken = λ sender frames. true;
  subscribe_answer = λ events. answered (some 1, none);
  publish_answer = λ events. answered (some 1, none);
  new_cache = λ gop_num statistics. gop_num;
  save_video_data = λ bytes timestamp. ok tt;
  save_audio_data = λ bytes timestamp. ok tt;
  save_metadata = λ bytes timestamp cache. cache;
}

abbrev common : Common around
common = record {
  session_id = 7;
  data_receiver = 0;
  data_sender = 0;
  frames = [];
  events = [];
  session_type = server;
  remote_addr = none;
  request_url = [];
  cache = none;
  statistic_data_sender = none;
}

abbrev session : ServerSession around
session = record {
  app_name = [];
  stream_name = [];
  query = none;
  io = [];
  unpacketizer = Unpack.new;
  state = read_chunk;
  connect_properties = new_none;
  common = common;
}

abbrev command : Bytes → ChunkInfo
command payload = new_chunk 3 0 0 0 20 0 payload

abbrev one_half : Bytes
one_half = 0 ∷ 63 ∷ 224 ∷ 0 ∷ 0 ∷ 0 ∷ 0 ∷ 0 ∷ 0 ∷ []

-- `connect` to the application `live/x`, and `publish` of `x?k=v`.
abbrev commands : List ChunkInfo
commands =
    command (
      2 ∷ 0 ∷ 7 ∷ codes "connect"
      ++ one_half
      ++ 3 ∷ 0 ∷ 3 ∷ codes "app"
      ++ 2 ∷ 0 ∷ 6 ∷ codes "live/x"
      ++ 0 ∷ 0 ∷ 9 ∷ [])
    ∷ command (
        2 ∷ 0 ∷ 7 ∷ codes "publish"
        ++ one_half
        ++ 5 ∷ 2 ∷ 0 ∷ 5 ∷ codes "x?k=v"
        ++ 2 ∷ 0 ∷ 4 ∷ codes "live")
    ∷ []

abbrev pushers : Option (Bytes → Option Bytes → Bool → Bool)
pushers = some (λ name query is_pull. not is_pull)

process_chunks-Safe_example :
    Leaves
      (IsSafe pushers 7 {around = around})
      (IsSafe pushers 7 {around = around})
      (process_chunks around (λ sent. true) property pushers 2 (λ bytes. true) commands session)
process_chunks-Safe_example =
    process_chunks-Safe pushers 7 around (λ sent. true) property 2 (λ bytes. true) commands session
      ((tt, refl, refl), tt)
