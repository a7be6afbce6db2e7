-- ===== src/Hub/StreamsHub.antt =====
-- library/streamhub/src/lib.rs: `StreamsHub` and its event loop. The hub is a record with the world
-- of its channels; a wait that does not end is `stuck`.
use xiu.Prelude.{
  ℕ, List, [], ◌∷◌, Bool, false, ◌||◌, Option, none, some, if◌then◌else◌, Outcome, ok, err, stuck,
  Method, ◌>>=◌, ◌>>◌,
}
use xiu.Prelude.Words.{Bytes}
use xiu.Prelude.Maps.{find, insert, remove, is_in}
use xiu.Hub.Platform.{Platform, Received, item, closed, never}
use xiu.Hub.Define.{
  StreamIdentifier, SubscriberInfo, Information, RelayType, relay_pull, relay_push, StreamHubError,
  no_app_name, no_app_or_stream_name, exists, send_error, recv_error, identifier_eq, uuid_eq,
}
use xiu.Hub.Events.{
  DataSender, DataReceiver, StreamHandler, StatisticDataSender, TransceiverEvent, subscribing,
  unsubscribing, unpublishing, requesting, Result, done, failed, BroadcastEvent, cast_publish,
  cast_subscribe, cast_unsubscribe, StreamHubEventMessage, StreamHubEvent, un_subscribe, un_publish,
  Services,
}
use xiu.Hub.Transceiver.{StreamDataTransceiver, new_transceiver}

pub record StreamsHub (p : Platform) (h : StreamHandler p)
    (x : Services p h (StreamDataTransceiver p h)) : Type 0 where
  pub streams : List (StreamIdentifier × p.Sender (TransceiverEvent p))
  pub un_pub_sub_events : List (ℕ × StreamHubEvent p h)
  pub hub_event_sender : p.Sender (StreamHubEvent p h)
  pub client_event_sender : p.Broadcaster (BroadcastEvent p)
  pub rtmp_push_enabled : Bool
  pub rtmp_remuxer_enabled : Bool
  pub rtmp_pull_enabled : Bool
  pub hls_enabled : Bool
  pub notifier : Option x.Notifier
  pub world : p.World

module _ (p : Platform) (h : StreamHandler p) (x : Services p h (StreamDataTransceiver p h)) where
  abbrev pub Call : Type 0 → Type 0
  Call A = Method (StreamsHub p h x) StreamHubError A

  abbrev pub new_hub :
      Option x.Notifier
      → p.Sender (StreamHubEvent p h)
      → p.Broadcaster (BroadcastEvent p)
      → p.World
      → StreamsHub p h x
  new_hub notifier event_producer client_producer w = record {
    streams = [];
    un_pub_sub_events = [];
    hub_event_sender = event_producer;
    client_event_sender = client_producer;
    rtmp_push_enabled = false;
    rtmp_remuxer_enabled = false;
    rtmp_pull_enabled = false;
    hls_enabled = false;
    notifier = notifier;
    world = w;
  }

  abbrev pub set_rtmp_push_enabled : Bool → StreamsHub p h x → StreamsHub p h x
  set_rtmp_push_enabled enabled hub = record hub { rtmp_push_enabled = enabled }

  abbrev pub set_rtmp_pull_enabled : Bool → StreamsHub p h x → StreamsHub p h x
  set_rtmp_pull_enabled enabled hub = record hub { rtmp_pull_enabled = enabled }

  abbrev pub set_rtmp_remuxer_enabled : Bool → StreamsHub p h x → StreamsHub p h x
  set_rtmp_remuxer_enabled enabled hub = record hub { rtmp_remuxer_enabled = enabled }

  abbrev pub set_hls_enabled : Bool → StreamsHub p h x → StreamsHub p h x
  set_hls_enabled enabled hub = record hub { hls_enabled = enabled }

  -- A `send` whose error is SendError, one whose error is logged, and the other uses of the world.
  abbrev pub send_or_err : {T : Type 0} → p.Sender T → T → Call (Unit {0})
  send_or_err {T} s e hub =
      let r = p.send T s e hub.world in
      if r.0
      then ok tt (record hub { world = r.1 })
      else err send_error (record hub { world = r.1 })

  abbrev pub send_logged : {T : Type 0} → p.Sender T → T → Call (Unit {0})
  send_logged {T} s e hub = ok tt (record hub { world = (p.send T s e hub.world).1 })

  abbrev pub broadcast_or_err : BroadcastEvent p → Call (Unit {0})
  broadcast_or_err e hub =
      let r = p.broadcast (BroadcastEvent p) hub.client_event_sender e hub.world in
      if r.0
      then ok tt (record hub { world = r.1 })
      else err send_error (record hub { world = r.1 })

  abbrev pub channel : (T : Type 0) → Call (p.Sender T × p.Receiver T)
  channel T hub = let c = p.channel T hub.world in ok c.0 (record hub { world = c.1 })

  abbrev pub received :
      {T : Type 0}
      → Received T × p.World
      → StreamsHub p h x
      → Outcome (StreamsHub p h x) StreamHubError (Option T)
  received (item v, w) hub = ok (some v) (record hub { world = w })
  received (closed, w) hub = ok none (record hub { world = w })
  received (never, w) hub = stuck

  abbrev pub await : {T : Type 0} → p.Receiver T → Call (Option T)
  await {T} r hub = received (p.recv T r hub.world) hub

  abbrev pub notify :
      (x.Notifier → StreamHubEventMessage p → p.World → p.World)
      → StreamHubEventMessage p
      → Call (Unit {0})
  notify on message hub = elim hub.notifier [
    | none ↦ ok tt hub
    | some n ↦ ok tt (record hub { world = on n message hub.world })
  ]

  -- `if let Some(b) = o { f(b) } else { m }`.
  abbrev pub with_some : {A B : Type 0} → Option B → Call A → (B → Call A) → Call A
  with_some none m f = m
  with_some (some b) m f = f b

  -- `request`.
  unfoldable pub request_stream : StreamIdentifier → p.Sender Information → Call (Unit {0})
  request_stream identifier sender hub =
      with_some (find identifier hub.streams) (ok tt)
        (λ producer. send_or_err producer (requesting sender)) hub

  abbrev pub received_or : Option (Result (Unit {0})) → Call (Unit {0})
  received_or none = ok tt
  received_or (some (done a)) = ok a
  received_or (some (failed e)) = err e

  abbrev pub cast_relay : RelayType → BroadcastEvent p → Call (Unit {0})
  cast_relay relay_pull e = broadcast_or_err e
  cast_relay relay_push e = ok tt

  unfoldable pub start_relay_stream : Bytes → RelayType → StreamIdentifier → Bytes → Call (Unit {0})
  start_relay_stream id relay_type identifier server_address = do
    c ← channel (Result (Unit {0}))
    cast_relay relay_type (cast_subscribe id identifier (some server_address) (some c.0))
    message ← await c.1
    received_or message

  unfoldable pub stop_relay_stream : Bytes → RelayType → Call (Unit {0})
  stop_relay_stream id relay_type = do
    c ← channel (Result (Unit {0}))
    cast_relay relay_type (cast_unsubscribe id (some c.0))
    message ← await c.1
    received_or message

  -- The event that undoes what a client did.
  abbrev pub send_undo : StreamHubEvent p h → Call (Unit {0})
  send_undo (un_publish identifier info) hub =
      send_or_err hub.hub_event_sender (un_publish identifier info) hub
  send_undo (un_subscribe identifier info) hub =
      send_or_err hub.hub_event_sender (un_subscribe identifier info) hub
  send_undo _ hub = ok tt hub

  unfoldable pub kick_off_client : ℕ → Call (Unit {0})
  kick_off_client uid hub = with_some (find uid hub.un_pub_sub_events) (ok tt) send_undo hub

  abbrev pub await_sender : p.Receiver (StatisticDataSender p) → Call (StatisticDataSender p)
  await_sender receiver = do
    result ← await receiver
    elim result [ none ↦ err recv_error | some s ↦ ok s ]

  -- "rtmp_relay".
  abbrev rtmp_relay : Bytes
  rtmp_relay = 114 ∷ 116 ∷ 109 ∷ 112 ∷ 95 ∷ 114 ∷ 101 ∷ 108 ∷ 97 ∷ 121 ∷ []

  -- `subscribe`: for a stream that is there, and for one that is not.
  unfoldable pub subscribe_to :
      p.Sender (TransceiverEvent p) → SubscriberInfo → DataSender p → Call (StatisticDataSender p)
  subscribe_to event_sender info sender = do
    c ← channel (StatisticDataSender p)
    send_or_err event_sender (subscribing sender info c.0)
    await_sender c.1

  abbrev pub cast_pull : StreamIdentifier → Call (StatisticDataSender p)
  cast_pull identifier = do
    broadcast_or_err (cast_subscribe rtmp_relay identifier none none)
    err no_app_or_stream_name

  unfoldable pub pull_stream : StreamIdentifier → Call (StatisticDataSender p)
  pull_stream identifier hub =
      (if hub.rtmp_pull_enabled then cast_pull identifier else err no_app_or_stream_name) hub

  unfoldable pub subscribe_stream :
      StreamIdentifier → SubscriberInfo → DataSender p → Call (StatisticDataSender p)
  subscribe_stream identifier info sender hub =
      with_some (find identifier hub.streams) (pull_stream identifier)
        (λ event_sender. subscribe_to event_sender info sender) hub

  unfoldable pub unsubscribe_stream : StreamIdentifier → SubscriberInfo → Call (Unit {0})
  unsubscribe_stream identifier info hub =
      with_some (find identifier hub.streams) (err no_app_name)
        (λ producer. send_or_err producer (unsubscribing info)) hub

  abbrev pub start_transceiver :
      DataReceiver p
      → p.Receiver (TransceiverEvent p)
      → StreamIdentifier
      → h.Handler
      → Call (StatisticDataSender p)
  start_transceiver receiver event_receiver identifier handler hub =
      let t = new_transceiver p h receiver event_receiver identifier handler hub.world in
      ok t.0.statistic_data_sender (record hub { world = x.run t.0 t.1 })

  abbrev pub insert_stream : StreamIdentifier → p.Sender (TransceiverEvent p) → Call (Unit {0})
  insert_stream identifier s hub = ok tt (record hub { streams = insert identifier s hub.streams })

  abbrev pub has_clients : StreamsHub p h x → Bool
  has_clients hub = hub.rtmp_push_enabled || hub.hls_enabled || hub.rtmp_remuxer_enabled

  abbrev pub announce : StreamIdentifier → Call (Unit {0})
  announce identifier hub =
      (if has_clients hub then broadcast_or_err (cast_publish identifier) else ok tt) hub

  abbrev pub announced : StreamIdentifier → StatisticDataSender p → Call (StatisticDataSender p)
  announced identifier sender = do announce identifier; ok sender

  -- `publish` of an identifier that is not there.
  unfoldable pub publish_new :
      StreamIdentifier → DataReceiver p → h.Handler → Call (StatisticDataSender p)
  publish_new identifier receiver handler = do
    c ← channel (TransceiverEvent p)
    sender ← start_transceiver receiver c.1 identifier handler
    insert_stream identifier c.0
    announced identifier sender

  unfoldable pub publish_stream :
      StreamIdentifier → DataReceiver p → h.Handler → Call (StatisticDataSender p)
  publish_stream identifier receiver handler hub =
      (if is_in (find identifier hub.streams)
          then err exists
          else publish_new identifier receiver handler)
        hub

  abbrev pub remove_stream : StreamIdentifier → Call (Unit {0})
  remove_stream identifier hub = ok tt (record hub { streams = remove identifier hub.streams })

  unfoldable pub unpublish_stream : StreamIdentifier → Call (Unit {0})
  unpublish_stream identifier hub =
      with_some (find identifier hub.streams) (err no_app_name)
        (λ producer. do send_or_err producer unpublishing; remove_stream identifier) hub
