-- ===== src/Hub/Handling.antt =====
-- library/streamhub/src/lib.rs: the events of the hub, for any predicate on its two maps.
use xiu.Prelude.{ℕ, ◌≢◌, Option, Ends, Succeeds, after-Succeeds}
use xiu.Prelude.Maps.{insert}
use xiu.Hub.Platform.{Platform, never}
use xiu.Hub.Define.{
  StreamIdentifier, SubscriberInfo, PublisherInfo, SubDataType, sub_frame, sub_packet, PubDataType,
  pub_frame, pub_packet, pub_both, FrameData, PacketData, Information, Segment, uuid_eq,
}
use xiu.Hub.Events.{
  DataReceiver, StreamHandler, StatisticDataSender, Result, done, failed, StreamHubEventMessage,
  Published, Subscribed, subscribe, un_subscribe, publish, un_publish, api_kick_client, request,
  on_hls, to_message, Services, subscribe_message, publish_message,
}
use xiu.Hub.Transceiver.{StreamDataTransceiver}
use xiu.Hub.StreamsHub.{
  Call, notify, request_stream, kick_off_client, subscribe_stream, unsubscribe_stream,
  publish_stream, unpublish_stream,
}
use xiu.Hub.EventLoop.{
  catch, logged, publish_channels, subscribe_channels, published, subscribed, stopped, handle_event,
}
use xiu.Hub.Frames.{
  Hub, Streams, Undo, On, Frame, caught-Succeeds, notify-Succeeds, request-Frame, unsubscribe-Frame,
  kick-Frame, subscribe-Frame,
}

module _ (p : Platform) (h : StreamHandler p) (x : Services p h (StreamDataTransceiver p h)) where
  -- A call that succeeds and leaves every predicate on the maps as it is.
  abbrev Steady : {A : Type 0} → Call p h x A → Type 1
  Steady m =
      (P : Streams p h x → Undo p h x → Type 0) (hub : Hub p h x)
      → On p h x P hub
      → Succeeds (On p h x P) (m hub)

  logged-Steady : {A : Type 0} (m : Call p h x A) → Frame p h x m → Steady (logged p h x m)
  logged-Steady m k P hub q =
      after-Succeeds (On p h x P) (On p h x P) (catch p h x m hub) _
        (caught-Succeeds p h x (On p h x P) (m hub) (k P hub q)) (λ _ g r. r)

  publish_channels-Steady : (t : PubDataType) → Steady (publish_channels p h x t)
  publish_channels-Steady pub_frame P hub q = q
  publish_channels-Steady pub_packet P hub q = q
  publish_channels-Steady pub_both P hub q = q

  subscribe_channels-Steady : (t : SubDataType) → Steady (subscribe_channels p h x t)
  subscribe_channels-Steady sub_frame P hub q = q
  subscribe_channels-Steady sub_packet P hub q = q

  module _ (P : Streams p h x → Undo p h x → Type 0) where
    stopped-Succeeds :
        (message : StreamHubEventMessage p) (rv : Result (Unit {0})) (hub : Hub p h x)
        → On p h x P hub
        → Succeeds (On p h x P) (stopped p h x message rv hub)
    stopped-Succeeds message (done a) hub q = notify-Succeeds p h x x.on_stop_notify message P hub q
    stopped-Succeeds message (failed e) hub q = q

    pub un_subscribe-Handling :
        (identifier : StreamIdentifier) (info : SubscriberInfo) (hub : Hub p h x)
        → On p h x P hub
        → Succeeds (On p h x P) (handle_event p h x (un_subscribe identifier info) hub)
    unfolding handle_event
    un_subscribe-Handling identifier info hub q =
        after-Succeeds (On p h x P) (On p h x P)
          (catch p h x (unsubscribe_stream p h x identifier info) hub) _
          (caught-Succeeds p h x (On p h x P) _ (unsubscribe-Frame p h x identifier info P hub q))
          (stopped-Succeeds (to_message p h (un_subscribe identifier info)))

    pub kick-Handling :
        (id : ℕ) (hub : Hub p h x)
        → On p h x P hub
        → Succeeds (On p h x P) (handle_event p h x (api_kick_client id) hub)
    unfolding handle_event
    kick-Handling id hub q = logged-Steady (kick_off_client p h x id) (kick-Frame p h x id) P hub q

    pub request-Handling :
        (identifier : StreamIdentifier) (sender : p.Sender Information) (hub : Hub p h x)
        → On p h x P hub
        → Succeeds (On p h x P) (handle_event p h x (request identifier sender) hub)
    unfolding handle_event
    request-Handling identifier sender hub q =
        logged-Steady (request_stream p h x identifier sender)
          (request-Frame p h x identifier sender) P hub q

    pub on_hls-Handling :
        (identifier : StreamIdentifier) (segment : Segment) (hub : Hub p h x)
        → On p h x P hub
        → Succeeds (On p h x P) (handle_event p h x (on_hls identifier segment) hub)
    unfolding handle_event
    on_hls-Handling identifier segment hub q =
        notify-Succeeds p h x x.on_hls_notify (to_message p h (on_hls identifier segment)) P hub q

    module _ (identifier : StreamIdentifier) (info : SubscriberInfo)
        (kept : (m : Streams p h x) (u : Undo p h x)
          → P m u
          → P m (insert info.id (un_subscribe identifier info) u)) where
      subscribed-Succeeds :
          (message : StreamHubEventMessage p) (receiver : DataReceiver p)
          (rv : Result (StatisticDataSender p)) (hub : Hub p h x)
          → On p h x P hub
          → Succeeds (On p h x P) (subscribed p h x identifier info message receiver rv hub)
      subscribed-Succeeds message receiver (failed e) hub q = q
      subscribed-Succeeds message receiver (done s) hub q =
          after-Succeeds (On p h x P) (On p h x P) (notify p h x x.on_play_notify message hub) _
            (notify-Succeeds p h x x.on_play_notify message P hub q)
            (λ _ g r. kept g.streams g.un_pub_sub_events r)

      pub subscribe-Handling :
          (answered : (r : p.Receiver (StatisticDataSender p)) (w : p.World)
            → (p.recv (StatisticDataSender p) r w).0 ≢ never)
          (sender : p.Sender (Result (Subscribed p))) (hub : Hub p h x)
          → On p h x P hub
          → Succeeds (On p h x P) (handle_event p h x (subscribe identifier info sender) hub)
      unfolding handle_event
      subscribe-Handling answered sender hub q =
          after-Succeeds O O (subscribe_channels p h x info.sub_data_type hub) _
            (subscribe_channels-Steady info.sub_data_type P hub q)
            λ c g r.
              after-Succeeds O O (catch p h x (subscribe_stream p h x identifier info c.0) g) _
                (caught-Succeeds p h x O _
                  (subscribe-Frame p h x answered identifier info c.0 P g r))
                λ rv g₁ r₁.
                  after-Succeeds O O
                    (subscribed p h x identifier info (subscribe_message identifier info) c.1 rv g₁)
                    _ (subscribed-Succeeds (subscribe_message identifier info) c.1 rv g₁ r₁)
                    (λ _ g₂ r₂. r₂)
        where
          O : Hub p h x → Type 0
          O = On p h x P

  module _ (P Q : Streams p h x → Undo p h x → Type 0) (identifier : StreamIdentifier)
      (info : PublisherInfo) where
    pub unpublish-Handling :
        ((g : Hub p h x) → On p h x P g → Ends (On p h x Q) (unpublish_stream p h x identifier g))
        → (hub : Hub p h x) → On p h x P hub
        → Succeeds (On p h x Q) (handle_event p h x (un_publish identifier info) hub)
    unfolding handle_event
    unpublish-Handling ends hub q =
        after-Succeeds (On p h x Q) (On p h x Q)
          (logged p h x (unpublish_stream p h x identifier) hub) _
          (after-Succeeds (On p h x Q) (On p h x Q)
            (catch p h x (unpublish_stream p h x identifier) hub) _
            (caught-Succeeds p h x (On p h x Q) _ (ends hub q)) (λ _ g r. r))
          (λ _ g r. notify-Succeeds p h x x.on_unpublish_notify _ Q g r)

    module _
        (kept : (m : Streams p h x) (u : Undo p h x)
          → Q m u
          → Q m (insert info.id (un_publish identifier info) u)) where
      published-Succeeds :
          (message : StreamHubEventMessage p) (fs : Option (p.Sender FrameData))
          (ps : Option (p.Sender PacketData)) (rv : Result (StatisticDataSender p))
          (hub : Hub p h x)
          → On p h x Q hub
          → Succeeds (On p h x Q) (published p h x identifier info message fs ps rv hub)
      published-Succeeds message fs ps (failed e) hub q = q
      published-Succeeds message fs ps (done s) hub q =
          after-Succeeds (On p h x Q) (On p h x Q) (notify p h x x.on_publish_notify message hub) _
            (notify-Succeeds p h x x.on_publish_notify message Q hub q)
            (λ _ g r. kept g.streams g.un_pub_sub_events r)

      pub publish-Handling :
          (handler : h.Handler)
          → ((r : DataReceiver p) (g : Hub p h x)
              → On p h x P g
              → Ends (On p h x Q) (publish_stream p h x identifier r handler g))
          → (sender : p.Sender (Result (Published p))) (hub : Hub p h x) → On p h x P hub
          → Succeeds (On p h x Q) (handle_event p h x (publish identifier info sender handler) hub)
      unfolding handle_event
      publish-Handling handler ends sender hub q =
          after-Succeeds (On p h x P) O (publish_channels p h x info.pub_data_type hub) _
            (publish_channels-Steady info.pub_data_type P hub q)
            λ c g r.
              after-Succeeds O O (catch p h x (publish_stream p h x identifier c.2 handler) g) _
                (caught-Succeeds p h x O _ (ends c.2 g r))
                λ rv g₁ r₁.
                  after-Succeeds O O
                    (published p h x identifier info (publish_message identifier info) c.0 c.1 rv
                      g₁)
                    _ (published-Succeeds (publish_message identifier info) c.0 c.1 rv g₁ r₁)
                    (λ _ g₂ r₂. r₂)
        where
          O : Hub p h x → Type 0
          O = On p h x Q
