-- ===== src/Hub/Runs.antt =====
-- library/streamhub: examples. The world is what is in each subscriber's queue; a sender is what it
-- does; a new channel answers nothing, or is closed.
use xiu.Prelude.{
  ℕ, ◌≡◌, ◌≢◌, refl, List, [], ◌∷◌, ◌++◌, Bool, true, false, none, some, ◌==◌, if◌then◌else◌, All,
  arith, err, stuck, Ends, Succeeds, ◌+◌, Returns,
}
use xiu.Prelude.Maps.{keys}
use xiu.Hub.Platform.{Platform, Received, closed, never}
use xiu.Hub.Define.{
  StreamIdentifier, rtmp, rtsp, relay_push, SubscriberInfo, PublisherInfo, NotifyInfo, rtmp_pull,
  rtmp_push, sub_frame, pub_frame, FrameData, audio_frame, video_frame, meta_data, exists,
  identifier_eq, uuid_eq, StatisticData, audio, video,
}
use xiu.Hub.Statistics.{StatisticsStream, new_statistics}
use xiu.Hub.Events.{
  StreamHandler, unsubscribing, StreamHubEvent, subscribe, un_subscribe, publish, un_publish,
  api_kick_client, api_statistic, api_start_relay_stream, api_stop_relay_stream, Services,
}
use xiu.Hub.Transceiver.{StreamDataTransceiver, Tasks, receive_event}
use xiu.Hub.StreamsHub.{StreamsHub, new_hub, set_hls_enabled, publish_stream}
use xiu.Hub.EventLoop.{event_loop}
use xiu.Hub.Registry.{live_all, event_loop-live, publish_stream-publish_stream}
use xiu.Hub.Undo.{IsUndo, event_loop-IsUndo}
use xiu.Hub.Waits.{event_loop-push_waits, event_loop-statistic_waits}
use xiu.Hub.FanOut.{forwarded, receive_frames, receive_frames-forwarded}
use xiu.Hub.Traffic.{received, sent, receive_all, receive_all-received_sent}
use xiu.Hub.Counting.{Counted, here, receive_event-Counted}

abbrev Queues : Type 0
Queues = ℕ → List FrameData

abbrev platform : Bool → Platform
platform waits = record {
  World = Queues;
  Sender = λ T. T → Queues → Queues;
  Receiver = λ T. Unit {0};
  Broadcaster = λ T. Unit {0};
  DateTime = ℕ;
  default_time = 0;
  Value = Unit {0};
  channel = λ T w. ((λ v q. q, tt), w);
  send = λ T s v w. (true, s v w);
  recv = λ T r w. (if waits then never else closed, w);
  broadcast = λ T b v w. (false, w);
}

abbrev handler : (waits : Bool) → StreamHandler (platform waits)
handler waits = record {
  Handler = Unit {0};
  send_prior_data = λ h s t w. (true, w);
  send_information = λ h s w. w;
}

abbrev services :
    (waits : Bool)
    → Services
        (platform waits)
        (handler waits)
        (StreamDataTransceiver (platform waits) (handler waits))
services waits = record {
  Notifier = Unit {0};
  on_publish_notify = λ n m w. w;
  on_unpublish_notify = λ n m w. w;
  on_play_notify = λ n m w. w;
  on_stop_notify = λ n m w. w;
  on_hls_notify = λ n m w. w;
  run = λ t w. w;
  empty_value = tt;
  to_value = λ streams. some tt;
  error_value = λ e. tt;
}

abbrev no_frames : Queues
no_frames k = []

abbrev hub : (waits : Bool) → StreamsHub (platform waits) (handler waits) (services waits)
hub waits =
    new_hub (platform waits) (handler waits) (services waits) (some tt) (λ v q. q) tt no_frames

abbrev camera : StreamIdentifier
camera = rtmp (108 ∷ []) (97 ∷ [])

abbrev screen : StreamIdentifier
screen = rtsp (98 ∷ [])

abbrev notes : NotifyInfo
notes = record { request_url = []; remote_addr = [] }

abbrev player : SubscriberInfo
player = record { id = 7; sub_type = rtmp_pull; notify_info = notes; sub_data_type = sub_frame }

abbrev source : PublisherInfo
source = record { id = 3; pub_type = rtmp_push; pub_data_type = pub_frame; notify_info = notes }

abbrev day : List (StreamHubEvent (platform false) (handler false))
day =
    publish camera source (λ v q. q) tt
    ∷ publish screen source (λ v q. q) tt
    ∷ subscribe camera player (λ v q. q)
    ∷ un_subscribe camera player
    ∷ publish camera source (λ v q. q) tt
    ∷ api_kick_client 3
    ∷ un_publish camera source
    ∷ []

closed_answer : {T : Type 0} (r : Unit {0}) (w : Queues) → ◌≢◌ {A = Received T} closed never
closed_answer r w e = ground arith

event_loop-live_example :
    Succeeds
      (λ g.
        keys g.streams ≡ live_all (platform false) (handler false) day (keys ((hub false).streams)))
      (event_loop (platform false) (handler false) (services false) day (hub false))
event_loop-live_example =
    event_loop-live (platform false) (handler false) (services false) (λ s w. refl) closed_answer
      day (hub false) (tt, (tt, (tt, (tt, (tt, (tt, (tt, tt)))))))

publish_stream-publish_stream_example :
    Ends
      (λ g.
        publish_stream
          (platform false)
          (handler false)
          (services false)
          camera
          (record { frame_receiver = none; packet_receiver = none })
          tt
          g
        ≡ err exists g)
      (publish_stream
        (platform false)
        (handler false)
        (services false)
        camera
        (record { frame_receiver = some tt; packet_receiver = none })
        tt
        (set_hls_enabled (platform false) (handler false) (services false) true (hub false)))
publish_stream-publish_stream_example =
    publish_stream-publish_stream (platform false) (handler false) (services false) camera
      (record { frame_receiver = some tt; packet_receiver = none })
      (record { frame_receiver = none; packet_receiver = none }) tt tt
      (set_hls_enabled (platform false) (handler false) (services false) true (hub false))

event_loop-IsUndo_example :
    Succeeds
      (λ g. All (IsUndo (platform false) (handler false)) g.un_pub_sub_events)
      (event_loop (platform false) (handler false) (services false) day (hub false))
event_loop-IsUndo_example =
    event_loop-IsUndo (platform false) (handler false) (services false) closed_answer day
      (hub false) (tt, (tt, (tt, (tt, (tt, (tt, (tt, tt))))))) tt

event_loop-push_waits_example :
    (event_loop
        (platform true)
        (handler true)
        (services true)
        (api_start_relay_stream (1 ∷ []) camera (2 ∷ []) relay_push (λ v q. q) ∷ [])
        (hub true)
      ≡ stuck)
    × (event_loop
          (platform true)
          (handler true)
          (services true)
          (api_stop_relay_stream (1 ∷ []) relay_push (λ v q. q) ∷ [])
          (hub true)
        ≡ stuck)
event_loop-push_waits_example =
    event_loop-push_waits (platform true) (handler true) (services true) (1 ∷ []) camera (2 ∷ [])
      (λ v q. q) [] (hub true) (λ w. refl)

abbrev busy_hub : StreamsHub (platform true) (handler true) (services true)
busy_hub = record (hub true) { streams = (screen, (λ v q. q)) ∷ [] }

event_loop-statistic_waits_example :
    event_loop
      (platform true)
      (handler true)
      (services true)
      (api_statistic (some 3) (some camera) none (λ v q. q) ∷ [])
      busy_hub
    ≡ stuck
event_loop-statistic_waits_example =
    event_loop-statistic_waits (platform true) (handler true) (services true) (some 3) camera none
      (λ v q. q) [] busy_hub some_there refl (λ w. refl)
  where
    some_there : busy_hub.streams ≢ []
    some_there e = ground arith

-- The sender of subscriber `id`.
abbrev to_queue : ℕ → FrameData → Queues → Queues
to_queue id f q k = if id == k then q k ++ f ∷ [] else q k

abbrev tasks : Tasks (platform false)
tasks = record {
  frame_senders = (7, to_queue 7) ∷ (9, to_queue 9) ∷ [];
  packet_senders = [];
  statistics_data = record (new_statistics (platform false) camera) { subscriber_count = 2 };
  world = no_frames;
}

receive_frames-forwarded_example :
    (receive_frames
        (platform false)
        (meta_data 0 (1 ∷ []) ∷ audio_frame 0 (2 ∷ []) ∷ video_frame 40 (3 ∷ []) ∷ [])
        tasks).world
      9
    ≡ audio_frame 0 (2 ∷ []) ∷ video_frame 40 (3 ∷ []) ∷ []
unfolding forwarded
receive_frames-forwarded_example =
    receive_frames-forwarded (platform false) (λ k w. w k)
      (meta_data 0 (1 ∷ []) ∷ audio_frame 0 (2 ∷ []) ∷ video_frame 40 (3 ∷ []) ∷ []) tasks 9
      ((λ f w k. refl), ((λ f w k. refl), tt)) (refl, (refl, tt)) refl

receive_event-Counted_example :
    Succeeds
      (Counted (platform false) (handler false))
      (receive_event (platform false) (handler false) tt (λ v q. q) (unsubscribing player) tasks)
receive_event-Counted_example =
    receive_event-Counted (platform false) (handler false) tt (λ v q. q) tasks tasks
      (unsubscribing player)
      (record { counted = refl; frames_distinct = (refl, (refl, tt)); packets_distinct = tt }) here
      refl

abbrev submitted : List (StatisticData (platform false))
submitted = video none 100 1 (some true) 0 ∷ audio none 20 1 0 ∷ audio (some 7) 20 1 0 ∷ []

abbrev counters : StatisticsStream (platform false)
counters = new_statistics (platform false) (rtmp (97 ∷ []) (98 ∷ []))

receive_all-received_sent_example :
    Returns
      (λ _ s'.
        (s'.total_recv_bytes ≡ counters.total_recv_bytes + received (platform false) submitted)
        × (s'.total_send_bytes ≡ counters.total_send_bytes + sent (platform false) submitted))
      (receive_all (platform false) submitted counters)
receive_all-received_sent_example = receive_all-received_sent (platform false) submitted counters
