-- ===== src/Hub/EventLoop.antt =====
-- library/streamhub/src/lib.rs: `event_loop` of `StreamsHub`, for the events that come.
use xiu.Prelude.{ℕ, List, [], ◌∷◌, Option, none, some, Outcome, ok, err, panic, stuck, ◌>>=◌, ◌>>◌}
use xiu.Prelude.Maps.{insert}
use xiu.Hub.Platform.{Platform}
use xiu.Hub.Define.{
  StreamIdentifier, SubscriberInfo, PublisherInfo, FrameData, PacketData, SubDataType, sub_frame,
  sub_packet, PubDataType, pub_frame, pub_packet, pub_both, StreamHubError, uuid_eq,
}
use xiu.Hub.Events.{
  DataSender, frame_sender, packet_sender, DataReceiver, StreamHandler, StatisticDataSender, Result,
  done, failed, StreamHubEventMessage, Published, Subscribed, StreamHubEvent, subscribe,
  un_subscribe, publish, un_publish, api_statistic, api_kick_client, api_start_relay_stream,
  api_stop_relay_stream, request, on_hls, to_message, Services,
}
use xiu.Hub.Transceiver.{StreamDataTransceiver}
use xiu.Hub.StreamsHub.{
  StreamsHub, Call, send_logged, channel, notify, request_stream, start_relay_stream,
  stop_relay_stream, kick_off_client, subscribe_stream, unsubscribe_stream, publish_stream,
  unpublish_stream,
}
use xiu.Hub.Api.{statistic_value}

module _ (p : Platform) (h : StreamHandler p) (x : Services p h (StreamDataTransceiver p h)) where
  abbrev pub caught :
      {A : Type 0}
      → Outcome (StreamsHub p h x) StreamHubError A
      → Outcome (StreamsHub p h x) StreamHubError (Result A)
  caught (ok a hub) = ok (done a) hub
  caught (err e hub) = ok (failed e) hub
  caught panic = panic
  caught stuck = stuck

  -- A call whose error is a value.
  abbrev pub catch : {A : Type 0} → Call p h x A → Call p h x (Result A)
  catch m hub = caught (m hub)

  abbrev pub logged : {A : Type 0} → Call p h x A → Call p h x (Unit {0})
  logged m = do _ ← catch m; ok tt

  abbrev pub remember : ℕ → StreamHubEvent p h → Call p h x (Unit {0})
  remember id event hub =
      ok tt (record hub { un_pub_sub_events = insert id event hub.un_pub_sub_events })

  abbrev pub publish_channels :
      PubDataType
      → Call p h x (Option (p.Sender FrameData) × Option (p.Sender PacketData) × DataReceiver p)
  publish_channels pub_frame = do
    c ← channel p h x FrameData
    ok (some c.0, none, record { frame_receiver = some c.1; packet_receiver = none })
  publish_channels pub_packet = do
    c ← channel p h x PacketData
    ok (none, some c.0, record { frame_receiver = none; packet_receiver = some c.1 })
  publish_channels pub_both = do
    c ← channel p h x FrameData
    d ← channel p h x PacketData
    ok (some c.0, some d.0, record { frame_receiver = some c.1; packet_receiver = some d.1 })

  abbrev pub subscribe_channels : SubDataType → Call p h x (DataSender p × DataReceiver p)
  subscribe_channels sub_frame = do
    c ← channel p h x FrameData
    ok (frame_sender c.0, record { frame_receiver = some c.1; packet_receiver = none })
  subscribe_channels sub_packet = do
    c ← channel p h x PacketData
    ok (packet_sender c.0, record { frame_receiver = none; packet_receiver = some c.1 })

  -- What follows a call of `publish`, and one of `subscribe`.
  abbrev pub published :
      StreamIdentifier
      → PublisherInfo
      → StreamHubEventMessage p
      → Option (p.Sender FrameData)
      → Option (p.Sender PacketData)
      → Result (StatisticDataSender p)
      → Call p h x (Result (Published p))
  published identifier info message fs ps (failed e) = ok (failed e)
  published identifier info message fs ps (done s) = do
    notify p h x x.on_publish_notify message
    remember info.id (un_publish identifier info)
    ok (done (fs, ps, some s))

  abbrev pub subscribed :
      StreamIdentifier
      → SubscriberInfo
      → StreamHubEventMessage p
      → DataReceiver p
      → Result (StatisticDataSender p)
      → Call p h x (Result (Subscribed p))
  subscribed identifier info message receiver (failed e) = ok (failed e)
  subscribed identifier info message receiver (done s) = do
    notify p h x x.on_play_notify message
    remember info.id (un_subscribe identifier info)
    ok (done (receiver, some s))

  abbrev pub stopped : StreamHubEventMessage p → Result (Unit {0}) → Call p h x (Unit {0})
  stopped message (done a) = notify p h x x.on_stop_notify message
  stopped message (failed e) = ok tt

  abbrev pub value_of : Result p.Value → p.Value
  value_of (done v) = v
  value_of (failed e) = x.error_value e

  unfoldable pub handle_event : StreamHubEvent p h → Call p h x (Unit {0})
  handle_event (publish identifier info result_sender handler) = do
    c ← publish_channels info.pub_data_type
    rv ← catch (publish_stream p h x identifier c.2 handler)
    result ←
        published identifier info (to_message p h (publish identifier info result_sender handler))
          c.0 c.1 rv
    send_logged p h x result_sender result
  handle_event (un_publish identifier info) = do
    logged (unpublish_stream p h x identifier)
    notify p h x x.on_unpublish_notify (to_message p h (un_publish identifier info))
  handle_event (subscribe identifier info result_sender) = do
    c ← subscribe_channels info.sub_data_type
    rv ← catch (subscribe_stream p h x identifier info c.0)
    result ←
        subscribed identifier info (to_message p h (subscribe identifier info result_sender)) c.1 rv
    send_logged p h x result_sender result
  handle_event (un_subscribe identifier info) = do
    rv ← catch (unsubscribe_stream p h x identifier info)
    stopped (to_message p h (un_subscribe identifier info)) rv
  handle_event (api_statistic top_n identifier uuid result_sender) = do
    rv ← catch (statistic_value p h x top_n identifier uuid)
    send_logged p h x result_sender (value_of rv)
  handle_event (api_kick_client id) = logged (kick_off_client p h x id)
  handle_event (api_start_relay_stream id identifier server_address relay_type result_sender) = do
    rv ← catch (start_relay_stream p h x id relay_type identifier server_address)
    send_logged p h x result_sender rv
  handle_event (api_stop_relay_stream id relay_type result_sender) = do
    rv ← catch (stop_relay_stream p h x id relay_type)
    send_logged p h x result_sender rv
  handle_event (request identifier sender) = logged (request_stream p h x identifier sender)
  handle_event (on_hls identifier segment) =
      notify p h x x.on_hls_notify (to_message p h (on_hls identifier segment))

  unfoldable pub event_loop : List (StreamHubEvent p h) → Call p h x (Unit {0})
  event_loop [] = ok tt
  event_loop (e ∷ es) = do handle_event e; event_loop es
