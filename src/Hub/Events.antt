-- ===== src/Hub/Events.antt =====
-- library/streamhub/src/define.rs: what is sent between the hub, the transceivers and the sessions,
-- and the trait of a stream's handler.
use xiu.Prelude.{ℕ, List, Option, Bool}
use xiu.Prelude.Words.{Bytes}
use xiu.Hub.Platform.{Platform}
use xiu.Hub.Define.{
  StreamIdentifier, SubscribeType, SubscriberInfo, PublisherInfo, FrameData, PacketData,
  Information, RelayType, Segment, StreamHubError, StatisticData,
}
use xiu.Hub.Statistics.{StatisticsStream}

pub data DataSender (p : Platform) : Type 0 where
  frame_sender : p.Sender FrameData → DataSender p
  packet_sender : p.Sender PacketData → DataSender p

pub record DataReceiver (p : Platform) : Type 0 where
  pub frame_receiver : Option (p.Receiver FrameData)
  pub packet_receiver : Option (p.Receiver PacketData)

-- `TStreamHandler`, the part that the hub calls. Each protocol implements it.
pub record StreamHandler (p : Platform) : Type 1 where
  pub Handler : Type 0
  -- The result is `is_ok()`.
  pub send_prior_data : Handler → DataSender p → SubscribeType → p.World → Bool × p.World
  pub send_information : Handler → p.Sender Information → p.World → p.World

abbrev pub StatisticDataSender : Platform → Type 0
StatisticDataSender p = p.Sender (StatisticData p)

pub data TransceiverEvent (p : Platform) : Type 0 where
  subscribing :
      DataSender p → SubscriberInfo → p.Sender (StatisticDataSender p) → TransceiverEvent p
  unsubscribing : SubscriberInfo → TransceiverEvent p
  unpublishing : TransceiverEvent p
  asking : p.Sender (StatisticsStream p) → Option ℕ → TransceiverEvent p
  requesting : p.Sender Information → TransceiverEvent p

-- The result of a call of the hub.
pub data Result (A : Type 0) : Type 0 where
  done : A → Result A
  failed : StreamHubError → Result A

pub data BroadcastEvent (p : Platform) : Type 0 where
  cast_publish : StreamIdentifier → BroadcastEvent p
  cast_unpublish : StreamIdentifier → BroadcastEvent p
  cast_subscribe :
      Bytes
      → StreamIdentifier
      → Option Bytes
      → Option (p.Sender (Result (Unit {0})))
      → BroadcastEvent p
  cast_unsubscribe : Bytes → Option (p.Sender (Result (Unit {0}))) → BroadcastEvent p

pub data StreamHubEventMessage (p : Platform) : Type 0 where
  subscribe_message : StreamIdentifier → SubscriberInfo → StreamHubEventMessage p
  un_subscribe_message : StreamIdentifier → SubscriberInfo → StreamHubEventMessage p
  publish_message : StreamIdentifier → PublisherInfo → StreamHubEventMessage p
  un_publish_message : StreamIdentifier → PublisherInfo → StreamHubEventMessage p
  on_hls_message : StreamIdentifier → Segment → StreamHubEventMessage p
  not_support : StreamHubEventMessage p

-- The senders that a publisher gets, and what a subscriber gets.
abbrev pub Published : Platform → Type 0
Published p =
    Option (p.Sender FrameData) × Option (p.Sender PacketData) × Option (StatisticDataSender p)

abbrev pub Subscribed : Platform → Type 0
Subscribed p = DataReceiver p × Option (StatisticDataSender p)

pub data StreamHubEvent (p : Platform) (h : StreamHandler p) : Type 0 where
  subscribe :
      StreamIdentifier → SubscriberInfo → p.Sender (Result (Subscribed p)) → StreamHubEvent p h
  un_subscribe : StreamIdentifier → SubscriberInfo → StreamHubEvent p h
  publish :
      StreamIdentifier
      → PublisherInfo
      → p.Sender (Result (Published p))
      → h.Handler
      → StreamHubEvent p h
  un_publish : StreamIdentifier → PublisherInfo → StreamHubEvent p h
  api_statistic :
      Option ℕ → Option StreamIdentifier → Option ℕ → p.Sender p.Value → StreamHubEvent p h
  api_kick_client : ℕ → StreamHubEvent p h
  api_start_relay_stream :
      Bytes
      → StreamIdentifier
      → Bytes
      → RelayType
      → p.Sender (Result (Unit {0}))
      → StreamHubEvent p h
  api_stop_relay_stream : Bytes → RelayType → p.Sender (Result (Unit {0})) → StreamHubEvent p h
  request : StreamIdentifier → p.Sender Information → StreamHubEvent p h
  on_hls : StreamIdentifier → Segment → StreamHubEvent p h

module _ (p : Platform) (h : StreamHandler p) where
  abbrev pub to_message : StreamHubEvent p h → StreamHubEventMessage p
  to_message (subscribe identifier info sender) = subscribe_message identifier info
  to_message (un_subscribe identifier info) = un_subscribe_message identifier info
  to_message (publish identifier info sender handler) = publish_message identifier info
  to_message (un_publish identifier info) = un_publish_message identifier info
  to_message (on_hls identifier segment) = on_hls_message identifier segment
  to_message _ = not_support

-- What the hub uses besides channels: the `Notifier` trait, the tasks that `run` starts for a
-- transceiver, and the values of serde_json.
pub record Services (p : Platform) (h : StreamHandler p) (T : Type 0) : Type 1 where
  pub Notifier : Type 0
  pub on_publish_notify : Notifier → StreamHubEventMessage p → p.World → p.World
  pub on_unpublish_notify : Notifier → StreamHubEventMessage p → p.World → p.World
  pub on_play_notify : Notifier → StreamHubEventMessage p → p.World → p.World
  pub on_stop_notify : Notifier → StreamHubEventMessage p → p.World → p.World
  pub on_hls_notify : Notifier → StreamHubEventMessage p → p.World → p.World
  pub run : T → p.World → p.World
  -- `json!({})`, `to_value` and `json!(err.to_string())`.
  pub empty_value : p.Value
  pub to_value : List (StatisticsStream p) → Option p.Value
  pub error_value : StreamHubError → p.Value
