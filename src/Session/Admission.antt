-- ===== src/Session/Admission.antt =====
-- protocol/rtmp/src/session/server_session.rs: the handlers keep the session safe.
use xiu.Prelude.{
  ℕ, [], ◌∷◌, Bool, true, false, Option, none, some, List, Outcome, ok, err, panic, stuck,
  if◌then◌else◌,
}
use xiu.Prelude.Words.{Bytes}
use xiu.Bytesio.Reader.{BytesReader}
use xiu.Amf0.Value.{
  Amf0ValueType, Properties, number, boolean, utf8_string, object, null, ecma_array,
  long_utf8_string, end,
}
use xiu.Chunk.Header.{ChunkInfo}
use xiu.Message.Define
use xiu.Chunk.Unpack.State.{update_max_chunk_size}
use xiu.Message.Define.{RtmpMessageData}
use xiu.Message.Parser.{MessageError, parse}
use xiu.Session.Url.{RtmpUrlParser, RtmpUrlParseError, parse_stream_name_with_query}
use xiu.Session.Define.{delete_stream, play}
use xiu.Session.Common.{Surroundings, on_video_data, on_audio_data, on_meta_data}
use xiu.Session.Server.{ServerSession}
use xiu.Session.Commands
use xiu.Session.Leaves.{Leaves}
use xiu.Session.Safety.{IsSafe, video-Leaves, audio-Leaves, meta-Leaves}
use xiu.Session.Steps

module _ (auth : Option (Bytes → Option Bytes → Bool → Bool)) (id : ℕ) (around : Surroundings)
    (taken : List Bytes → Bool) (insert : Bytes → Amf0ValueType → Properties → Properties)
    (gop_num : ℕ) where
  abbrev Safe : ServerSession around → Type 0
  Safe = Steps.Safe auth id around taken

  abbrev Admitted : Bool → ServerSession around → Type 0
  Admitted = Steps.Admitted auth id around taken

  abbrev Keeps :
      (ServerSession around → Type 0)
      → (ServerSession around → Type 0)
      → Steps.Step auth id around taken
      → Type 0
  Keeps = Steps.Keeps auth id around taken

  any-Keeps : Keeps Safe Safe (ok tt)
  any-Keeps = record { run = λ s h. h }

  test-Keeps :
      (b : Bool) (m k : Steps.Step auth id around taken)
      → Keeps Safe Safe m
      → Keeps Safe Safe k
      → Keeps Safe Safe (if b then m else k)
  test-Keeps true m k h l = h
  test-Keeps false m k h l = l

  connect-Keeps :
      (transaction_id : ℕ) (command_obj : Properties)
      → Keeps Safe Safe
          (Commands.on_connect around taken insert auth gop_num transaction_id command_obj)
  unfolding Commands.on_connect
  connect-Keeps transaction_id command_obj =
      Steps.seq-Keeps auth id around taken
        (Steps.note-Keeps auth id around taken insert gop_num command_obj)
        (Steps.seq-Keeps auth id around taken
          (Steps.window-Keeps auth id around taken insert gop_num Safe (λ s p. p) (λ s io p. p))
          (Steps.seq-Keeps auth id around taken
            (Steps.bandwidth-Keeps auth id around taken insert gop_num Safe (λ s p. p)
              (λ s io p. p))
            (Steps.seq-Keeps auth id around taken
              (Steps.app_name-Keeps auth id around taken insert gop_num _)
              (Steps.answer-Keeps auth id around taken insert gop_num Safe (λ s p. p) (λ s io p. p)
                transaction_id _))))

  create-Keeps :
      (transaction_id : ℕ)
      → Keeps Safe Safe (Commands.on_create_stream around taken insert auth gop_num transaction_id)
  unfolding Commands.on_create_stream
  create-Keeps transaction_id =
      Steps.net-Keeps auth id around taken Safe _ _ (λ s p. p) (λ s io p. p)

  delete-Keeps :
      (transaction_id : ℕ)
      → Keeps Safe Safe (Commands.on_delete_stream around taken insert auth gop_num transaction_id)
  unfolding Commands.on_delete_stream
  delete-Keeps transaction_id =
      Steps.seq-Keeps auth id around taken
        (Steps.unpublish-Keeps auth id around taken insert gop_num)
        (Steps.tell-Keeps auth id around taken insert gop_num Safe (λ s p. p) (λ s io p. p)
          transaction_id _ _)

  play_stream-Keeps :
      (name : Option Bytes)
      → Keeps Safe Safe (Commands.play_stream around taken insert auth gop_num name)
  unfolding Commands.play_stream
  play_stream-Keeps none = record { run = λ s h. tt }
  play_stream-Keeps (some raw) =
      Steps.seq-Keeps auth id around taken
        (Steps.stream_name-Keeps auth id around taken insert gop_num
          (parse_stream_name_with_query raw))
        (Steps.seq-Keeps auth id around taken
          (Steps.authenticate-Keeps auth id around taken insert gop_num true)
          (Steps.seq-Keeps auth id around taken
            (Steps.request_url-Keeps auth id around taken insert gop_num true raw)
            (Steps.seq-Keeps auth id around taken
              (Steps.subscribe-Keeps auth id around taken insert gop_num)
              (Steps.state-Keeps auth id around taken insert gop_num play))))

  play-Keeps :
      (transaction_id msg_stream_id : ℕ) (others : List Amf0ValueType)
      → Keeps Safe Safe
          (Commands.on_play around taken insert auth gop_num transaction_id msg_stream_id others)
  unfolding Commands.on_play
  play-Keeps transaction_id msg_stream_id others =
      Steps.seq-Keeps auth id around taken
        (Steps.begin-Keeps auth id around taken insert gop_num Safe (λ s p. p) (λ s io p. p)
          msg_stream_id)
        (Steps.seq-Keeps auth id around taken
          (Steps.tell_play-Keeps auth id around taken insert gop_num Safe (λ s p. p) (λ s io p. p)
            transaction_id)
          (Steps.seq-Keeps auth id around taken
            (Steps.record-Keeps auth id around taken insert gop_num Safe (λ s p. p) (λ s io p. p)
              msg_stream_id)
            (play_stream-Keeps _)))

  by_url-Keeps :
      (o : Outcome RtmpUrlParser RtmpUrlParseError (Unit {0}))
      → Keeps Safe Safe (Commands.name_by_url around taken insert auth gop_num o)
  by_url-Keeps (ok u url) = record { run = λ s h. h }
  by_url-Keeps (err e url) = record { run = λ s h. h }
  by_url-Keeps panic = record { run = λ s h. tt }
  by_url-Keeps stuck = record { run = λ s h. tt }

  name-Keeps :
      (name : Bytes) → Keeps Safe Safe (Commands.name_stream around taken insert auth gop_num name)
  unfolding Commands.name_stream
  name-Keeps [] = record { run = λ s h. (by_url-Keeps _).run s h }
  name-Keeps (x ∷ xs) = record { run = λ s h. h }

  text-Keeps :
      (v : Amf0ValueType)
      → Keeps
          (Admitted false)
          (Admitted false)
          (Commands.need_text around taken insert auth gop_num v)
  text-Keeps (utf8_string s) = record { run = λ s h. h }
  text-Keeps (number n) = record { run = λ s h. h.0 }
  text-Keeps (boolean b) = record { run = λ s h. h.0 }
  text-Keeps (object ps) = record { run = λ s h. h.0 }
  text-Keeps null = record { run = λ s h. h.0 }
  text-Keeps (ecma_array ps) = record { run = λ s h. h.0 }
  text-Keeps (long_utf8_string b) = record { run = λ s h. h.0 }
  text-Keeps end = record { run = λ s h. h.0 }

  publishing-Keeps :
      (transaction_id msg_stream_id : ℕ) (name : Bytes) (second : Amf0ValueType)
      (others : List Amf0ValueType)
      → Keeps Safe Safe (
          Commands.on_publish around taken insert auth gop_num transaction_id msg_stream_id
            (utf8_string name ∷ second ∷ others))
  unfolding Commands.on_publish
  publishing-Keeps transaction_id msg_stream_id name second others =
      Steps.seq-Keeps auth id around taken (name-Keeps name) (
        Steps.seq-Keeps auth id around taken
          (Steps.authenticate-Keeps auth id around taken insert gop_num false)
          (Steps.seq-Keeps auth id around taken
            (Steps.request_url-Keeps auth id around taken insert gop_num false name)
            (Steps.seq-Keeps auth id around taken (text-Keeps second) (
              Steps.seq-Keeps auth id around taken
                (Steps.begin-Keeps auth id around taken insert gop_num (Admitted false) (λ s p. p.0)
                  (λ s io p. p) msg_stream_id)
                (Steps.seq-Keeps auth id around taken
                  (Steps.tell-Keeps auth id around taken insert gop_num (Admitted false)
                    (λ s p. p.0) (λ s io p. p) transaction_id _ _)
                  (Steps.publish-Keeps auth id around taken insert gop_num))))))

  on_publish-Keeps :
      (transaction_id msg_stream_id : ℕ) (others : List Amf0ValueType)
      → Keeps Safe Safe
          (Commands.on_publish around taken insert auth gop_num transaction_id msg_stream_id others)
  unfolding Commands.on_publish
  on_publish-Keeps t m (utf8_string name ∷ second ∷ others) =
      publishing-Keeps t m name second others
  on_publish-Keeps t m _ = record { run = λ s h. h }

  delete_if-Keeps :
      (transaction_id : ℕ) (others : List Amf0ValueType)
      → Keeps Safe Safe
          (Commands.delete_if_any around taken insert auth gop_num transaction_id others)
  delete_if-Keeps transaction_id [] = any-Keeps
  delete_if-Keeps transaction_id (v ∷ vs) =
      Steps.seq-Keeps auth id around taken (delete-Keeps transaction_id)
        (Steps.state-Keeps auth id around taken insert gop_num delete_stream)

  command-Keeps :
      (msg_stream_id : ℕ) (name transaction_id command_obj : Amf0ValueType)
      (others : List Amf0ValueType)
      → Keeps Safe Safe (
          Commands.on_amf0_command_message around taken insert auth gop_num msg_stream_id name
            transaction_id command_obj others)
  unfolding Commands.on_amf0_command_message
  command-Keeps msg_stream_id name transaction_id command_obj others =
      let t = Commands.number_or_zero transaction_id in
      test-Keeps _ _ _ (connect-Keeps t (Commands.object_or_empty command_obj)) (
        test-Keeps _ _ _ (create-Keeps t) (
          test-Keeps _ _ _ (delete_if-Keeps t others) (
            test-Keeps _ _ _
              (Steps.seq-Keeps auth id around taken
                (Steps.session_type-Keeps auth id around taken insert gop_num Commands.server_pull)
                (play-Keeps t msg_stream_id others))
              (test-Keeps _ _ _
                (Steps.seq-Keeps auth id around taken
                  (Steps.session_type-Keeps auth id around taken insert gop_num
                    Commands.server_push)
                  (on_publish-Keeps t msg_stream_id others))
                any-Keeps))))

  process_messages-Safe :
      (msg : RtmpMessageData) (msg_stream_id timestamp : ℕ) (s : ServerSession around)
      → IsSafe auth id {around = around} s
      → Leaves
          (IsSafe auth id {around = around})
          (IsSafe auth id {around = around})
          (Commands.process_messages around taken insert auth gop_num msg msg_stream_id timestamp s)
  unfolding Commands.process_messages update_max_chunk_size
  process_messages-Safe (Define.amf0_command name transaction command_obj others) m t =
      (command-Keeps m name transaction command_obj others).run
  process_messages-Safe (Define.set_chunk_size n) m t = λ s h. h
  process_messages-Safe (Define.audio_data bytes) m t =
      (Steps.common-Keeps auth id around taken Safe (λ s. on_audio_data around bytes t) (λ s h. h)
        (λ s h. audio-Leaves auth id around bytes t s.common h.0)).run
  process_messages-Safe (Define.video_data bytes) m t =
      (Steps.common-Keeps auth id around taken Safe (λ s. on_video_data around bytes t) (λ s h. h)
        (λ s h. video-Leaves auth id around bytes t s.common h.0)).run
  process_messages-Safe (Define.amf_data bytes) m t =
      (Steps.common-Keeps auth id around taken Safe (λ s. on_meta_data around bytes t) (λ s h. h)
        (λ s h. meta-Leaves auth id around bytes t s.common h.0)).run
  process_messages-Safe _ m t = λ s h. h

  module _ (is_utf8 : Bytes → Bool) where
    parsed-Keeps :
        (c : ChunkInfo) (o : Outcome BytesReader MessageError (Option RtmpMessageData))
        → Keeps Safe Safe (Commands.process_parsed around taken insert auth gop_num is_utf8 c o)
    parsed-Keeps c (ok none r) = any-Keeps
    parsed-Keeps c (ok (some msg) r) = record {
      run = process_messages-Safe msg c.message_header.msg_streamd_id c.message_header.timestamp;
    }
    parsed-Keeps c (err e r) = record { run = λ s h. h }
    parsed-Keeps c panic = record { run = λ s h. tt }
    parsed-Keeps c stuck = record { run = λ s h. tt }

    chunks-Keeps :
        (cs : List ChunkInfo)
        → Keeps Safe Safe (Commands.process_chunks around taken insert auth gop_num is_utf8 cs)
    unfolding Commands.process_chunks
    chunks-Keeps [] = any-Keeps
    chunks-Keeps (c ∷ cs) =
        Steps.seq-Keeps auth id around taken (parsed-Keeps c (parse is_utf8 insert c))
          (chunks-Keeps cs)

    -- Whatever messages a session takes out of chunks, if it is safe before, it is safe after, when
    -- the method returns a value and when it returns an error: every event that it sent to the hub
    -- is about an RTMP stream whose application has no `?` and no `/`, it bears the session's id and
    -- is that of a pusher or a puller, and a stream that the session asks to publish or to subscribe
    -- was admitted by the authentication, with some query.
    pub process_chunks-Safe :
        (cs : List ChunkInfo) (s : ServerSession around)
        → IsSafe auth id {around = around} s
        → Leaves
            (IsSafe auth id {around = around})
            (IsSafe auth id {around = around})
            (Commands.process_chunks around taken insert auth gop_num is_utf8 cs s)
    process_chunks-Safe cs = (chunks-Keeps cs).run
