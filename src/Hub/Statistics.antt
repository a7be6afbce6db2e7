-- ===== src/Hub/Statistics.antt =====
-- library/streamhub/src/statistics/mod.rs and `receive_statistics_data` of lib.rs. The counters are
-- of 64 bits, and a sum that overflows is a panic.
use xiu.Prelude.{
  ℕ, ◌+◌, ◌*◌, ◌/◌, ◌^◌, List, [], ◌∷◌, Bool, true, false, Option, none, some, ltb, ◌==◌,
  if◌then◌else◌, ok, panic, Method, ◌>>=◌, ◌>>◌,
}
use xiu.Prelude.Words.{Bytes}
use xiu.Prelude.Maps.{find, insert}
use xiu.Hub.Platform.{Platform}
use xiu.Hub.Define.{
  StreamIdentifier, SubscribeType, uuid_eq, StatisticData, audio_codec, video_codec, audio, video,
  publisher, subscriber,
}

pub record VideoInfo : Type 0 where
  pub codec : ℕ
  pub profile : ℕ
  pub level : ℕ
  pub width : ℕ
  pub height : ℕ
  pub recv_bytes : ℕ
  pub bitrate : ℕ
  pub recv_frame_count : ℕ
  pub frame_rate : ℕ
  pub recv_frame_count_for_gop : ℕ
  pub gop : ℕ

pub record AudioInfo : Type 0 where
  pub sound_format : ℕ
  pub profile : ℕ
  pub samplerate : ℕ
  pub channels : ℕ
  pub recv_bytes : ℕ
  pub bitrate : ℕ

pub record StatisticPublisher (p : Platform) : Type 0 where
  pub id : ℕ
  pub identifier : StreamIdentifier
  pub start_time : p.DateTime
  pub video_info : VideoInfo
  pub audio_info : AudioInfo
  pub remote_address : Bytes
  pub recv_bytes : ℕ
  pub recv_bitrate : ℕ

pub record StatisticSubscriber (p : Platform) : Type 0 where
  pub id : ℕ
  pub start_time : p.DateTime
  pub remote_address : Bytes
  pub sub_type : SubscribeType
  pub send_bytes : ℕ
  pub send_bitrate : ℕ
  pub total_send_bytes : ℕ

pub record StatisticsStream (p : Platform) : Type 0 where
  pub stat_publisher : StatisticPublisher p
  pub subscribers : List (ℕ × StatisticSubscriber p)
  pub subscriber_count : ℕ
  pub total_recv_bytes : ℕ
  pub total_send_bytes : ℕ

module _ (p : Platform) where
  abbrev pub new_video_info : VideoInfo
  new_video_info = record {
    codec = 0;
    profile = 0;
    level = 0;
    width = 0;
    height = 0;
    recv_bytes = 0;
    bitrate = 0;
    recv_frame_count = 0;
    frame_rate = 0;
    recv_frame_count_for_gop = 0;
    gop = 0;
  }

  abbrev pub new_audio_info : AudioInfo
  new_audio_info = record {
    sound_format = 0;
    profile = 0;
    samplerate = 0;
    channels = 0;
    recv_bytes = 0;
    bitrate = 0;
  }

  abbrev pub new_publisher : StreamIdentifier → StatisticPublisher p
  new_publisher identifier = record {
    id = 0;
    identifier = identifier;
    start_time = p.default_time;
    video_info = new_video_info;
    audio_info = new_audio_info;
    remote_address = [];
    recv_bytes = 0;
    recv_bitrate = 0;
  }

  abbrev pub new_statistics : StreamIdentifier → StatisticsStream p
  new_statistics identifier = record {
    stat_publisher = new_publisher identifier;
    subscribers = [];
    subscriber_count = 0;
    total_recv_bytes = 0;
    total_send_bytes = 0;
  }

  abbrev pub get_publisher : StatisticsStream p → StatisticsStream p
  get_publisher s = record s { subscribers = [] }

  -- `retain`.
  abbrev pub retain : ℕ → List (ℕ × StatisticSubscriber p) → List (ℕ × StatisticSubscriber p)
  retain uuid [] = []
  retain uuid ((id, s) ∷ m) =
      let rest = retain uuid m in if uuid == id then (id, s) ∷ rest else rest

  abbrev pub get_subscriber : StatisticsStream p → ℕ → StatisticsStream p
  get_subscriber s uuid = record s { subscribers = retain uuid s.subscribers }

  unfoldable pub query_by_uuid : StatisticsStream p → ℕ → StatisticsStream p
  query_by_uuid s uuid =
      if uuid == s.stat_publisher.id then get_publisher s else get_subscriber s uuid

  -- `a * 8 / 5000`, on 64 bits.
  abbrev pub bitrate_of : ℕ → Method (StatisticsStream p) ⊥ ℕ
  bitrate_of n s = if ltb (n * 8) (2 ^ 64) then ok (n * 8 / 5000) s else panic

  abbrev pub add_to : ℕ → ℕ → Method (StatisticsStream p) ⊥ ℕ
  add_to a n s = if ltb (a + n) (2 ^ 64) then ok (a + n) s else panic

  abbrev pub modify :
      (StatisticsStream p → StatisticsStream p) → Method (StatisticsStream p) ⊥ (Unit {0})
  modify f s = ok tt (f s)

  abbrev pub set_video : VideoInfo → Method (StatisticsStream p) ⊥ (Unit {0})
  set_video v =
      modify λ s. record s { stat_publisher = record (s.stat_publisher) { video_info = v } }

  abbrev pub set_audio : AudioInfo → Method (StatisticsStream p) ⊥ (Unit {0})
  set_audio a =
      modify λ s. record s { stat_publisher = record (s.stat_publisher) { audio_info = a } }

  -- `get_mut` of a subscriber, with its counters changed in place.
  abbrev pub update_subscriber :
      ℕ → (StatisticSubscriber p → StatisticSubscriber p) → Method (StatisticsStream p) ⊥ (Unit {0})
  update_subscriber uid f = modify λ s. record s {
    subscribers = elim (find uid s.subscribers) [
      | none ↦ s.subscribers
      | some sub ↦ insert uid (f sub) s.subscribers
    ];
  }

  abbrev this : Method (StatisticsStream p) ⊥ (StatisticsStream p)
  this s = ok s s

  -- `if let Some(sub) = subscriber.get_mut(&uid)`.
  abbrev pub add_sent :
      ℕ → ℕ → Option (StatisticSubscriber p) → Method (StatisticsStream p) ⊥ (Unit {0})
  add_sent uid data_size none = ok tt
  add_sent uid data_size (some sub) = do
    sent ← add_to sub.send_bytes data_size
    update_subscriber uid (λ b. record b { send_bytes = sent })

  abbrev pub add_total_sent :
      ℕ → ℕ → Option (StatisticSubscriber p) → Method (StatisticsStream p) ⊥ (Unit {0})
  add_total_sent uid data_size none = ok tt
  add_total_sent uid data_size (some sub) = do
    sent ← add_to sub.total_send_bytes data_size
    update_subscriber uid (λ b. record b { total_send_bytes = sent })

  abbrev pub add_send_bytes : ℕ → ℕ → Method (StatisticsStream p) ⊥ (Unit {0})
  add_send_bytes uid data_size s = add_sent uid data_size (find uid s.subscribers) s

  abbrev pub add_total_send_bytes_of : ℕ → ℕ → Method (StatisticsStream p) ⊥ (Unit {0})
  add_total_send_bytes_of uid data_size s = add_total_sent uid data_size (find uid s.subscribers) s

  abbrev pub add_total_send_bytes : ℕ → Method (StatisticsStream p) ⊥ (Unit {0})
  add_total_send_bytes data_size = do
    s ← this
    sent ← add_to s.total_send_bytes data_size
    modify (λ t. record t { total_send_bytes = sent })

  abbrev pub add_total_recv_bytes : ℕ → Method (StatisticsStream p) ⊥ (Unit {0})
  add_total_recv_bytes data_size = do
    s ← this
    received ← add_to s.total_recv_bytes data_size
    modify (λ t. record t { total_recv_bytes = received })

  abbrev pub add_raw_audio : ℕ → Method (StatisticsStream p) ⊥ (Unit {0})
  add_raw_audio data_size = do
    s ← this
    received ← add_to s.stat_publisher.audio_info.recv_bytes data_size
    set_audio (record (s.stat_publisher.audio_info) { recv_bytes = received })

  -- AAC_RAW is 1.
  abbrev pub add_audio_bytes : ℕ → ℕ → Method (StatisticsStream p) ⊥ (Unit {0})
  add_audio_bytes aac_packet_type data_size s =
      (if aac_packet_type == 1 then add_raw_audio data_size else ok tt) s

  abbrev pub add_video_recv : ℕ → Method (StatisticsStream p) ⊥ (Unit {0})
  add_video_recv data_size = do
    s ← this
    received ← add_to s.stat_publisher.video_info.recv_bytes data_size
    set_video (record (s.stat_publisher.video_info) { recv_bytes = received })

  abbrev pub add_video_frames : ℕ → Method (StatisticsStream p) ⊥ (Unit {0})
  add_video_frames frame_count = do
    s ← this
    frames ← add_to s.stat_publisher.video_info.recv_frame_count frame_count
    set_video (record (s.stat_publisher.video_info) { recv_frame_count = frames })

  abbrev pub add_publisher_recv : ℕ → Method (StatisticsStream p) ⊥ (Unit {0})
  add_publisher_recv data_size = do
    s ← this
    received ← add_to s.stat_publisher.recv_bytes data_size
    modify (λ t. record t { stat_publisher = record (t.stat_publisher) { recv_bytes = received } })

  -- The counters of the publisher for a video frame, up to those of the group of pictures.
  abbrev pub add_video_bytes : ℕ → ℕ → Method (StatisticsStream p) ⊥ (Unit {0})
  add_video_bytes data_size frame_count = do
    add_total_recv_bytes data_size
    add_video_recv data_size
    add_video_frames frame_count
    add_publisher_recv data_size

  abbrev pub count_gop : Option Bool → ℕ → Method (StatisticsStream p) ⊥ (Unit {0})
  count_gop none frame_count = ok tt
  count_gop (some true) frame_count = do
    s ← this
    set_video (record (s.stat_publisher.video_info) {
      gop = s.stat_publisher.video_info.recv_frame_count_for_gop;
      recv_frame_count_for_gop = 1;
    })
  count_gop (some false) frame_count = do
    s ← this
    frames ← add_to s.stat_publisher.video_info.recv_frame_count_for_gop frame_count
    set_video (record (s.stat_publisher.video_info) { recv_frame_count_for_gop = frames })

  unfoldable pub receive_statistics : StatisticData p → Method (StatisticsStream p) ⊥ (Unit {0})
  receive_statistics (audio (some uid) data_size aac_packet_type duration) = do
    add_send_bytes uid data_size
    add_total_send_bytes data_size
  receive_statistics (audio none data_size aac_packet_type duration) = do
    add_audio_bytes aac_packet_type data_size
    add_total_recv_bytes data_size
  receive_statistics (video (some uid) data_size frame_count is_key_frame duration) = do
    add_send_bytes uid data_size
    add_total_send_bytes_of uid data_size
    add_total_send_bytes data_size
  receive_statistics (video none data_size frame_count is_key_frame duration) = do
    add_video_bytes data_size frame_count
    count_gop is_key_frame frame_count
  receive_statistics (audio_codec sound_format profile samplerate channels) = do
    s ← this
    set_audio (record (s.stat_publisher.audio_info) {
      sound_format = sound_format;
      profile = profile;
      samplerate = samplerate;
      channels = channels;
    })
  receive_statistics (video_codec codec profile level width height) = do
    s ← this
    set_video (record (s.stat_publisher.video_info) {
      codec = codec;
      profile = profile;
      level = level;
      width = width;
      height = height;
    })
  receive_statistics (publisher id remote_addr start_time) = modify λ s. record s {
    stat_publisher = record (s.stat_publisher) {
      id = id;
      remote_address = remote_addr;
      start_time = start_time;
    };
  }
  receive_statistics (subscriber id remote_addr sub_type start_time) = modify λ s. record s {
    subscribers =
        insert id
          (record {
            id = id;
            start_time = start_time;
            remote_address = remote_addr;
            sub_type = sub_type;
            send_bytes = 0;
            send_bitrate = 0;
            total_send_bytes = 0;
          })
          s.subscribers;
  }

  abbrev pub receive_statistics_data :
      Option (StatisticData p) → Method (StatisticsStream p) ⊥ (Unit {0})
  receive_statistics_data none = ok tt
  receive_statistics_data (some val) = receive_statistics val

  -- `caculate`: the rates of the last five seconds, and the counters set back.
  abbrev calculate_video : Method (StatisticsStream p) ⊥ (Unit {0})
  calculate_video = do
    s ← this
    rate ← bitrate_of s.stat_publisher.video_info.recv_bytes
    set_video (record (s.stat_publisher.video_info) {
      bitrate = rate;
      recv_bytes = 0;
      frame_rate = s.stat_publisher.video_info.recv_frame_count / 5;
      recv_frame_count = 0;
    })

  abbrev calculate_audio : Method (StatisticsStream p) ⊥ (Unit {0})
  calculate_audio = do
    s ← this
    rate ← bitrate_of s.stat_publisher.audio_info.recv_bytes
    set_audio (record (s.stat_publisher.audio_info) { bitrate = rate; recv_bytes = 0 })

  abbrev calculate_publisher : Method (StatisticsStream p) ⊥ (Unit {0})
  calculate_publisher = do
    s ← this
    rate ← bitrate_of s.stat_publisher.recv_bytes
    modify λ t. record t {
      stat_publisher = record (t.stat_publisher) { recv_bitrate = rate; recv_bytes = 0 };
    }

  abbrev calculate_subscribers :
      List (ℕ × StatisticSubscriber p)
      → Method (StatisticsStream p) ⊥ (List (ℕ × StatisticSubscriber p))
  calculate_subscribers [] = ok []
  calculate_subscribers ((id, sub) ∷ m) = do
    rate ← bitrate_of sub.send_bytes
    rest ← calculate_subscribers m
    ok ((id, record sub { send_bitrate = rate; send_bytes = 0 }) ∷ rest)

  unfoldable pub calculate : Method (StatisticsStream p) ⊥ (Unit {0})
  calculate = do
    calculate_video
    calculate_audio
    calculate_publisher
    s ← this
    subs ← calculate_subscribers s.subscribers
    modify (λ t. record t { subscribers = subs })
