-- ===== src/Session/Common.antt =====
-- protocol/rtmp/src/session/common.rs: `Common`, for the events to the hub and the media of a
-- publisher. What stands at the other ends of the channels is a parameter.
use xiu.Prelude.{
  ℕ, [], ◌∷◌, ◌++◌, Bool, Option, none, some, if◌then◌else◌, List, Outcome, Method, ok, err, panic,
  stuck, ◌>>◌,
}
use xiu.Prelude.Words.{Bytes}
use xiu.Prelude.Text.{codes}
use xiu.Hub.Define.{
  rtmp, SubscriberInfo, PublisherInfo, SubscribeType, PublishType, rtmp_pull, sub_rtmp_relay,
  rtmp_push, pub_rtmp_relay, sub_frame, pub_frame, FrameData, video_frame, audio_frame, meta_data,
  StreamHubError,
}
use xiu.Session.Define.{
  SessionType, client, server, SessionError, SessionEvent, subscribe, un_subscribe, publish,
  un_publish, cache_error, recv_error, channel_error, stream_hub_event_send_err,
  send_frame_data_err,
}

-- What `await` on the receiver of a oneshot gives: no answer if its sender is gone.
pub data Answer (A : Type 0) : Type 0 where
  answered : A → Answer A
  refused : StreamHubError → Answer A
  no_answer : Answer A

-- The senders and receivers, whether a channel is open after what went into it, the answers of the
-- hub, and the cache.
pub record Surroundings : Type 1 where
  pub FrameSender : Type 0
  pub FrameReceiver : Type 0
  pub StatisticSender : Type 0
  pub Cache : Type 0
  pub event_taken : List SessionEvent → Bool
  pub frame_taken : FrameSender → List (FrameSender × FrameData) → Bool
  pub subscribe_answer : List SessionEvent → Answer (Option FrameReceiver × Option StatisticSender)
  pub publish_answer : List SessionEvent → Answer (Option FrameSender × Option StatisticSender)
  pub new_cache : ℕ → Option StatisticSender → Cache
  pub save_video_data : Bytes → ℕ → Method Cache (Unit {0}) (Unit {0})
  pub save_audio_data : Bytes → ℕ → Method Cache (Unit {0}) (Unit {0})
  pub save_metadata : Bytes → ℕ → Cache → Cache

-- `events` and `frames` are what went into the channels, with the sender that it went through. The
-- packetizer, for players, and the data for statistics are left out.
pub record Common (around : Surroundings) : Type 0 where
  pub session_id : ℕ
  pub data_receiver : around.FrameReceiver
  pub data_sender : around.FrameSender
  pub frames : List (around.FrameSender × FrameData)
  pub events : List SessionEvent
  pub session_type : SessionType
  pub remote_addr : Option Bytes
  pub request_url : Bytes
  pub cache : Option around.Cache
  pub statistic_data_sender : Option around.StatisticSender

abbrev addr_text : Option Bytes → Bytes
addr_text none = codes "unknown"
addr_text (some addr) = addr

abbrev pub sub_type_of : SessionType → SubscribeType
sub_type_of client = sub_rtmp_relay
sub_type_of server = rtmp_pull

abbrev pub pub_type_of : SessionType → PublishType
pub_type_of client = pub_rtmp_relay
pub_type_of server = rtmp_push

module _ (around : Surroundings) where
  abbrev pub Call : Type 0
  Call = Method (Common around) SessionError (Unit {0})

  unfoldable pub get_subscriber_info : Common around → SubscriberInfo
  get_subscriber_info c = record {
    id = c.session_id;
    sub_type = sub_type_of c.session_type;
    notify_info = record { request_url = c.request_url; remote_addr = addr_text c.remote_addr };
    sub_data_type = sub_frame;
  }

  unfoldable pub get_publisher_info : Common around → PublisherInfo
  get_publisher_info c = record {
    id = c.session_id;
    pub_type = pub_type_of c.session_type;
    pub_data_type = pub_frame;
    notify_info = record { request_url = c.request_url; remote_addr = addr_text c.remote_addr };
  }

  -- `self.event_producer.send(…)`, what comes next, and what a closed channel leads to.
  abbrev pub send_event : SessionEvent → Call → Call → Call
  send_event event next closed c =
      let events = c.events ++ event ∷ [] in
      if around.event_taken events then next (record c { events = events }) else closed c

  abbrev pub await : {A : Type 0} → Answer A → (A → Call) → Call
  await (answered a) f = f a
  await (refused e) f = err (channel_error e)
  await no_answer f = err recv_error

  abbrev pub receive_at : around.FrameReceiver → around.StatisticSender → Option Bytes → Call
  receive_at receiver statistics none c = panic
  receive_at receiver statistics (some addr) c =
      ok tt (record c { data_receiver = receiver; statistic_data_sender = some statistics })

  -- Without a receiver `unwrap` panics, and so it does without an address for the statistics.
  abbrev pub receive : Option around.FrameReceiver × Option around.StatisticSender → Call
  receive (none, statistics) c = panic
  receive (some receiver, none) c =
      ok tt (record c { data_receiver = receiver; statistic_data_sender = none })
  receive (some receiver, some statistics) c = receive_at receiver statistics c.remote_addr c

  unfoldable pub subscribe_from_stream_hub : Bytes → Bytes → Call
  unfolding get_subscriber_info
  subscribe_from_stream_hub app_name stream_name c =
      send_event (subscribe (rtmp app_name stream_name) (get_subscriber_info c))
        (λ d. await (around.subscribe_answer d.events) receive d) (err stream_hub_event_send_err) c

  unfoldable pub unsubscribe_from_stream_hub : Bytes → Bytes → Call
  unfolding get_subscriber_info
  unsubscribe_from_stream_hub app_name stream_name c =
      send_event (un_subscribe (rtmp app_name stream_name) (get_subscriber_info c)) (ok tt) (ok tt)
        c

  abbrev pub send_out : ℕ → Option around.FrameSender × Option around.StatisticSender → Call
  send_out gop_num (none, statistics) c = panic
  send_out gop_num (some sender, statistics) c =
      ok tt (record c { data_sender = sender; cache = some (around.new_cache gop_num statistics) })

  unfoldable pub publish_to_stream_hub : Bytes → Bytes → ℕ → Call
  unfolding get_publisher_info
  publish_to_stream_hub app_name stream_name gop_num c =
      send_event (publish (rtmp app_name stream_name) (get_publisher_info c))
        (λ d. await (around.publish_answer d.events) (send_out gop_num) d)
        (err stream_hub_event_send_err) c

  unfoldable pub unpublish_to_stream_hub : Bytes → Bytes → Call
  unfolding get_publisher_info
  unpublish_to_stream_hub app_name stream_name c =
      send_event (un_publish (rtmp app_name stream_name) (get_publisher_info c)) (ok tt)
        (err stream_hub_event_send_err) c

  -- `self.data_sender.send(…)?`
  abbrev pub send_frame : FrameData → Call
  send_frame frame c =
      let frames = c.frames ++ (c.data_sender, frame) ∷ [] in
      if around.frame_taken c.data_sender frames
      then ok tt (record c { frames = frames })
      else err send_frame_data_err c

  abbrev pub saved : Outcome around.Cache (Unit {0}) (Unit {0}) → Call
  saved (ok u after) c = ok tt (record c { cache = some after })
  saved (err e after) c = err cache_error (record c { cache = some after })
  saved panic c = panic
  saved stuck c = stuck

  -- `RtmpStreamHandler`'s lock and its cache, if there is one.
  abbrev pub save : Option around.Cache → Method around.Cache (Unit {0}) (Unit {0}) → Call
  save none m c = ok tt c
  save (some cache) m c = saved (m cache) c

  unfoldable pub on_video_data : Bytes → ℕ → Call
  on_video_data bytes timestamp = send_frame (video_frame timestamp bytes) >> λ c.
      save c.cache (around.save_video_data bytes timestamp) c

  unfoldable pub on_audio_data : Bytes → ℕ → Call
  on_audio_data bytes timestamp = send_frame (audio_frame timestamp bytes) >> λ c.
      save c.cache (around.save_audio_data bytes timestamp) c

  unfoldable pub on_meta_data : Bytes → ℕ → Call
  on_meta_data bytes timestamp = send_frame (meta_data timestamp bytes) >> λ c.
      save c.cache (λ cache. ok tt (around.save_metadata bytes timestamp cache)) c
