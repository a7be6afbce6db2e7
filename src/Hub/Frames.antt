-- ===== src/Hub/Frames.antt =====
-- library/streamhub/src/lib.rs: what the calls of the hub leave as it is.
use xiu.Prelude.{
  ℕ, ◌≢◌, refl, inl, inr, List, Bool, true, false, Option, none, some, if◌then◌else◌, Bool-cases,
  Option-cases, Outcome, ok, err, panic, stuck, after, Ends, Succeeds, after-Ends,
}
use xiu.Prelude.Maps.{find}
use xiu.Hub.Platform.{Platform, Received, item, closed, never}
use xiu.Hub.Define.{
  StreamIdentifier, SubscriberInfo, StreamHubError, recv_error, no_app_name, no_app_or_stream_name,
  Information, identifier_eq, uuid_eq,
}
use xiu.Hub.Events.{
  DataSender, StreamHandler, StatisticDataSender, TransceiverEvent, requesting, unsubscribing,
  StreamHubEventMessage, BroadcastEvent, cast_publish, StreamHubEvent, subscribe, un_subscribe,
  publish, un_publish, api_statistic, api_kick_client, api_start_relay_stream,
  api_stop_relay_stream, request, on_hls, Services,
}
use xiu.Hub.Transceiver.{StreamDataTransceiver}
use xiu.Hub.StreamsHub.{
  StreamsHub, Call, send_or_err, broadcast_or_err, notify, received, await_sender, request_stream,
  send_undo, kick_off_client, with_some, subscribe_to, pull_stream, subscribe_stream,
  unsubscribe_stream, announce, has_clients, cast_pull,
}
use xiu.Hub.EventLoop.{caught}

module _ (p : Platform) (h : StreamHandler p) (x : Services p h (StreamDataTransceiver p h)) where
  abbrev pub Hub : Type 0
  Hub = StreamsHub p h x

  abbrev pub Streams : Type 0
  Streams = List (StreamIdentifier × p.Sender (TransceiverEvent p))

  abbrev pub Undo : Type 0
  Undo = List (ℕ × StreamHubEvent p h)

  -- A predicate on the two maps of the hub.
  abbrev pub On : (Streams → Undo → Type 0) → Hub → Type 0
  On P hub = P hub.streams hub.un_pub_sub_events

  -- A call that leaves every predicate on the maps as it is.
  abbrev pub Frame : {A : Type 0} → (Hub → Outcome Hub StreamHubError A) → Type 1
  Frame m = (P : Streams → Undo → Type 0) (hub : Hub) → On P hub → Ends (On P) (m hub)

  pub send-Frame : {T : Type 0} (s : p.Sender T) (e : T) → Frame (send_or_err p h x s e)
  send-Frame {T} s e P hub q = elim (Bool-cases (p.send T s e hub.world).0) [
    | inl y ↦ rw y q
    | inr n ↦ rw n q
  ]

  pub broadcast-Frame : (e : BroadcastEvent p) → Frame (broadcast_or_err p h x e)
  broadcast-Frame e P hub q =
      elim (Bool-cases (p.broadcast (BroadcastEvent p) hub.client_event_sender e hub.world).0) [
        | inl y ↦ rw y q
        | inr n ↦ rw n q
      ]

  pub caught-Succeeds :
      {A : Type 0} (P : Hub → Type 0) (o : Outcome Hub StreamHubError A)
      → Ends P o
      → Succeeds P (caught p h x o)
  caught-Succeeds P (ok a s) q = q
  caught-Succeeds P (err e s) q = q
  caught-Succeeds P panic q = q
  caught-Succeeds P stuck q = q

  pub notify-Succeeds :
      (on : x.Notifier → StreamHubEventMessage p → p.World → p.World)
      (message : StreamHubEventMessage p) (P : Streams → Undo → Type 0) (hub : Hub)
      → On P hub
      → Succeeds (On P) (notify p h x on message hub)
  notify-Succeeds on message P hub q = elim (Option-cases hub.notifier) [
    | inl n ↦ rw n q
    | inr s ↦ rw s.1 q
  ]

  pub some-Frame :
      {A B : Type 0} (o : Option B) (m : Call p h x A) (f : B → Call p h x A)
      → Frame m
      → ((b : B) → Frame (f b))
      → Frame (with_some p h x o m f)
  some-Frame none m f j k = j
  some-Frame (some b) m f j k = k b

  pub if-Frame :
      {A : Type 0} (b : Bool) (m n : Call p h x A) → Frame m → Frame n → Frame (if b then m else n)
  if-Frame true m n j k = j
  if-Frame false m n j k = k

  pub err-Frame : (A : Type 0) (e : StreamHubError) → Frame {A = A} (err e)
  err-Frame A e P hub q = q

  pub ok-Frame : Frame {A = Unit {0}} (ok tt)
  ok-Frame P hub q = q

  pub request-Frame :
      (identifier : StreamIdentifier) (sender : p.Sender Information)
      → Frame (request_stream p h x identifier sender)
  unfolding request_stream
  request-Frame identifier sender P hub q =
      some-Frame (find identifier hub.streams) _ _ ok-Frame (λ s. send-Frame s (requesting sender))
        P hub q

  pub unsubscribe-Frame :
      (identifier : StreamIdentifier) (info : SubscriberInfo)
      → Frame (unsubscribe_stream p h x identifier info)
  unfolding unsubscribe_stream
  unsubscribe-Frame identifier info P hub q =
      some-Frame (find identifier hub.streams) _ _ (err-Frame (Unit {0}) no_app_name)
        (λ s. send-Frame s (unsubscribing info)) P hub q

  pub undo-Frame : (event : StreamHubEvent p h) → Frame (send_undo p h x event)
  undo-Frame (un_publish identifier info) P hub q =
      send-Frame hub.hub_event_sender (un_publish identifier info) P hub q
  undo-Frame (un_subscribe identifier info) P hub q =
      send-Frame hub.hub_event_sender (un_subscribe identifier info) P hub q
  undo-Frame (subscribe identifier info s) P hub q = q
  undo-Frame (publish identifier info s handler) P hub q = q
  undo-Frame (api_statistic n identifier uuid s) P hub q = q
  undo-Frame (api_kick_client id) P hub q = q
  undo-Frame (api_start_relay_stream id identifier address t s) P hub q = q
  undo-Frame (api_stop_relay_stream id t s) P hub q = q
  undo-Frame (request identifier s) P hub q = q
  undo-Frame (on_hls identifier segment) P hub q = q

  pub kick-Frame : (uid : ℕ) → Frame (kick_off_client p h x uid)
  unfolding kick_off_client
  kick-Frame uid P hub q =
      some-Frame (find uid hub.un_pub_sub_events) _ _ ok-Frame undo-Frame P hub q

  pub announce-Frame : (identifier : StreamIdentifier) → Frame (announce p h x identifier)
  announce-Frame identifier P hub q =
      if-Frame (has_clients p h x hub) (broadcast_or_err p h x (cast_publish identifier)) (ok tt)
        (broadcast-Frame (cast_publish identifier)) ok-Frame P hub q

  pub cast_pull-Frame : (identifier : StreamIdentifier) → Frame (cast_pull p h x identifier)
  cast_pull-Frame identifier P hub q =
      after-Ends {B = StatisticDataSender p} (On P) (broadcast_or_err p h x _ hub)
        (λ _. err no_app_or_stream_name) (broadcast-Frame _ P hub q) (λ _ s t. t)

  pub pull-Frame : (identifier : StreamIdentifier) → Frame (pull_stream p h x identifier)
  unfolding pull_stream
  pull-Frame identifier P hub q =
      if-Frame hub.rtmp_pull_enabled (cast_pull p h x identifier) (err no_app_or_stream_name)
        (cast_pull-Frame identifier) (err-Frame (StatisticDataSender p) no_app_or_stream_name) P hub
        q

  module _
      (answered : (r : p.Receiver (StatisticDataSender p)) (w : p.World)
        → (p.recv (StatisticDataSender p) r w).0 ≢ never) where
    pub await-Frame : (r : p.Receiver (StatisticDataSender p)) → Frame (await_sender p h x r)
    await-Frame r P hub q = go (p.recv (StatisticDataSender p) r hub.world) (answered r hub.world)
      where
        go :
            (v : Received (StatisticDataSender p) × p.World)
            → v.0 ≢ never
            → Ends (On P) (
                after
                  (received p h x v hub)
                  λ result. elim result [ none ↦ err recv_error | some s ↦ ok s ])
        go (item s, w) a = q
        go (closed, w) a = q
        go (never, w) a = absurd (a refl)

    pub subscribe_to-Frame :
        (s : p.Sender (TransceiverEvent p)) (info : SubscriberInfo) (sender : DataSender p)
        → Frame (subscribe_to p h x s info sender)
    unfolding subscribe_to
    subscribe_to-Frame s info sender P hub q =
        after-Ends (On P) _ _ (send-Frame s _ P _ q) (λ _ t r. await-Frame _ P t r)

    pub subscribe-Frame :
        (identifier : StreamIdentifier) (info : SubscriberInfo) (sender : DataSender p)
        → Frame (subscribe_stream p h x identifier info sender)
    unfolding subscribe_stream
    subscribe-Frame identifier info sender P hub q =
        some-Frame (find identifier hub.streams) _ _ (pull-Frame identifier)
          (λ s. subscribe_to-Frame s info sender) P hub q
