-- ===== src/Hub/Registry.antt =====
-- library/streamhub/src/lib.rs: which identifiers the hub has in `streams`.
use xiu.Prelude.{
  ◌≡◌, ◌≢◌, refl, sym, ap, ◌∙◌, List, [], ◌∷◌, Bool, true, false, Option, none, some, if◌then◌else◌,
  All, ok, err, ◌>>◌, Ends, Succeeds, after-Ends, after-Succeeds, Ends-mono,
}
use xiu.Prelude.Maps.{
  find, insert, remove, is_in, has, without, keys, keys-remove, find-has, without-no, eq_refl,
}
use xiu.Hub.Platform.{Platform, never}
use xiu.Hub.Define.{StreamIdentifier, exists, no_app_name, identifier_eq}
use xiu.Hub.Events.{
  DataReceiver, StreamHandler, StatisticDataSender, TransceiverEvent, unpublishing, StreamHubEvent,
  subscribe, un_subscribe, publish, un_publish, api_statistic, api_kick_client,
  api_start_relay_stream, api_stop_relay_stream, request, on_hls, Services,
}
use xiu.Hub.Transceiver.{StreamDataTransceiver}
use xiu.Hub.StreamsHub.{
  send_or_err, with_some, announced, announce, publish_new, publish_stream, unpublish_stream,
  remove_stream,
}
use xiu.Hub.EventLoop.{handle_event, event_loop}
use xiu.Hub.Frames.{Hub, Streams, Undo, On, announce-Frame}
use xiu.Hub.Handling.{
  un_subscribe-Handling, kick-Handling, request-Handling, on_hls-Handling, subscribe-Handling,
  unpublish-Handling, publish-Handling,
}

module _ (p : Platform) (h : StreamHandler p) where
  -- Which identifiers are published after an event, and after several.
  unfoldable pub live : StreamHubEvent p h → List StreamIdentifier → List StreamIdentifier
  live (publish identifier info result_sender handler) ids =
      if has identifier ids then ids else identifier ∷ ids
  live (un_publish identifier info) ids = without identifier ids
  live _ ids = ids

  unfoldable pub live_all :
      List (StreamHubEvent p h) → List StreamIdentifier → List StreamIdentifier
  live_all [] ids = ids
  live_all (e ∷ es) ids = live_all es (live e ids)

  -- The events that wait for nothing but the answer of a transceiver.
  abbrev pub IsPlain : StreamHubEvent p h → Type 0
  IsPlain (api_statistic top_n identifier uuid result_sender) = ⊥
  IsPlain (api_start_relay_stream id identifier server_address relay_type result_sender) = ⊥
  IsPlain (api_stop_relay_stream id relay_type result_sender) = ⊥
  IsPlain _ = Unit

module _ (p : Platform) (h : StreamHandler p) (x : Services p h (StreamDataTransceiver p h)) where
  abbrev pub Lives : List StreamIdentifier → Streams p h x → Undo p h x → Type 0
  Lives ids m u = keys m ≡ ids

  publish_new-Ends :
      (identifier : StreamIdentifier) (receiver : DataReceiver p) (handler : h.Handler)
      (P : Streams p h x → Undo p h x → Type 0) (hub : Hub p h x)
      → ((s : p.Sender (TransceiverEvent p))
          → P (insert identifier s hub.streams) hub.un_pub_sub_events)
      → Ends (On p h x P) (publish_new p h x identifier receiver handler hub)
  unfolding publish_new
  publish_new-Ends identifier receiver handler P hub k = go _ _ _
    where
      go :
          (s : p.Sender (TransceiverEvent p)) (sender : StatisticDataSender p) (w : p.World)
          → Ends (On p h x P) (
              announced p h x identifier sender
                (record hub { streams = insert identifier s hub.streams; world = w }))
      go s sender w =
          let hub₁ = record hub { streams = insert identifier s hub.streams; world = w } in
          after-Ends {B = StatisticDataSender p} (On p h x P) (announce p h x identifier hub₁)
            (λ _. ok sender) (announce-Frame p h x identifier P hub₁ (k s)) (λ _ g r. r)

  pub publish-Ends :
      (identifier : StreamIdentifier) (receiver : DataReceiver p) (handler : h.Handler)
      (P : Streams p h x → Undo p h x → Type 0) (hub : Hub p h x)
      → (has identifier (keys hub.streams) ≡ true → On p h x P hub)
      → (has identifier (keys hub.streams) ≡ false
          → (s : p.Sender (TransceiverEvent p))
          → P (insert identifier s hub.streams) hub.un_pub_sub_events)
      → Ends (On p h x P) (publish_stream p h x identifier receiver handler hub)
  unfolding publish_stream
  publish-Ends identifier receiver handler P hub k n =
      go (is_in (find identifier hub.streams)) (find-has identifier hub.streams)
    where
      go :
          (b : Bool)
          → b ≡ has identifier (keys hub.streams)
          → Ends
              (On p h x P)
              ((if b then err exists else publish_new p h x identifier receiver handler) hub)
      go true e = k (sym e)
      go false e = publish_new-Ends identifier receiver handler P hub (n (sym e))

  publish-Lives :
      (ids : List StreamIdentifier) (identifier : StreamIdentifier) (receiver : DataReceiver p)
      (handler : h.Handler) (hub : Hub p h x)
      → On p h x (Lives ids) hub
      → Ends
          (On p h x (Lives (if has identifier ids then ids else identifier ∷ ids)))
          (publish_stream p h x identifier receiver handler hub)
  publish-Lives ids identifier receiver handler hub q =
      publish-Ends identifier receiver handler _ hub (λ old. q ∙ sym (rw (old_in old) refl))
        (λ new s.
          ap (λ ks. identifier ∷ ks)
            (keys-remove identifier hub.streams ∙ without-no identifier (keys hub.streams) new ∙ q)
          ∙ sym (rw (old_in new) refl))
    where
      old_in : {b : Bool} → has identifier (keys hub.streams) ≡ b → has identifier ids ≡ b
      old_in e = sym (ap (has identifier) q) ∙ e

  module _
      (delivered : (s : p.Sender (TransceiverEvent p)) (w : p.World)
        → (p.send (TransceiverEvent p) s unpublishing w).0 ≡ true) where
    unpublish-Lives :
        (ids : List StreamIdentifier) (identifier : StreamIdentifier) (hub : Hub p h x)
        → On p h x (Lives ids) hub
        → Ends (On p h x (Lives (without identifier ids))) (unpublish_stream p h x identifier hub)
    unfolding unpublish_stream
    unpublish-Lives ids identifier hub q =
        go (find identifier hub.streams) (find-has identifier hub.streams)
      where
        gone : keys (remove identifier hub.streams) ≡ without identifier ids
        gone = keys-remove identifier hub.streams ∙ ap (without identifier) q

        go :
            (o : Option (p.Sender (TransceiverEvent p)))
            → is_in o ≡ has identifier (keys hub.streams)
            → Ends (On p h x (Lives (without identifier ids))) (
                with_some p h x o
                  (err no_app_name)
                  (λ producer. (do
                    send_or_err p h x producer unpublishing
                    remove_stream p h x identifier))
                  hub)
        go none e = q ∙ sym (without-no identifier ids (sym (ap (has identifier) q) ∙ sym e))
        go (some s) e = rw (delivered s hub.world) gone

    handle_event-Lives :
        (answered : (r : p.Receiver (StatisticDataSender p)) (w : p.World)
          → (p.recv (StatisticDataSender p) r w).0 ≢ never)
        (ids : List StreamIdentifier) (e : StreamHubEvent p h) (hub : Hub p h x)
        → IsPlain p h e
        → On p h x (Lives ids) hub
        → Succeeds (On p h x (Lives (live p h e ids))) (handle_event p h x e hub)
    unfolding live
    handle_event-Lives answered ids (publish identifier info sender handler) hub plain q =
        publish-Handling p h x (Lives ids) _ identifier info (λ m u r. r) handler
          (λ r g s. publish-Lives ids identifier r handler g s) sender hub q
    handle_event-Lives answered ids (un_publish identifier info) hub plain q =
        unpublish-Handling p h x (Lives ids) _ identifier info (unpublish-Lives ids identifier) hub
          q
    handle_event-Lives answered ids (subscribe identifier info sender) hub plain q =
        subscribe-Handling p h x (Lives ids) identifier info (λ m u r. r) answered sender hub q
    handle_event-Lives answered ids (un_subscribe identifier info) hub plain q =
        un_subscribe-Handling p h x (Lives ids) identifier info hub q
    handle_event-Lives answered ids (api_kick_client id) hub plain q =
        kick-Handling p h x (Lives ids) id hub q
    handle_event-Lives answered ids (request identifier sender) hub plain q =
        request-Handling p h x (Lives ids) identifier sender hub q
    handle_event-Lives answered ids (on_hls identifier segment) hub plain q =
        on_hls-Handling p h x (Lives ids) identifier segment hub q
    handle_event-Lives answered ids (api_statistic n identifier uuid sender) hub plain q =
        absurd plain
    handle_event-Lives answered ids (api_start_relay_stream id i address t sender) hub plain q =
        absurd plain
    handle_event-Lives answered ids (api_stop_relay_stream id t sender) hub plain q = absurd plain

    -- For all events but the three of the API that wait for others, if an UnPublish sent to a
    -- transceiver arrives and a transceiver answers or drops the sender of a Subscribe: the event loop
    -- handles them all, with no panic and no endless wait, and the identifiers in `streams` are
    -- those that the events say: a Publish adds one that is not there, an UnPublish takes it out.
    pub event_loop-live :
        (answered : (r : p.Receiver (StatisticDataSender p)) (w : p.World)
          → (p.recv (StatisticDataSender p) r w).0 ≢ never)
        (es : List (StreamHubEvent p h)) (hub : Hub p h x)
        → All (IsPlain p h) es
        → Succeeds
            (λ g. keys g.streams ≡ live_all p h es (keys hub.streams))
            (event_loop p h x es hub)
    unfolding live_all event_loop
    event_loop-live answered es hub plain = go es (keys hub.streams) hub plain refl
      where
        go :
            (es : List (StreamHubEvent p h)) (ids : List StreamIdentifier) (hub : Hub p h x)
            → All (IsPlain p h) es
            → keys hub.streams ≡ ids
            → Succeeds (λ g. keys g.streams ≡ live_all p h es ids) (event_loop p h x es hub)
        go [] ids hub plain q = q
        go (e ∷ es) ids hub plain q =
            after-Succeeds _ _ (handle_event p h x e hub) _
              (handle_event-Lives answered ids e hub plain.0 q)
              (λ _ g r. go es (live p h e ids) g plain.1 r)

  taken-exists :
      (identifier : StreamIdentifier) (receiver : DataReceiver p) (handler : h.Handler)
      (hub : Hub p h x)
      → has identifier (keys hub.streams) ≡ true
      → publish_stream p h x identifier receiver handler hub ≡ err exists hub
  unfolding publish_stream
  taken-exists identifier receiver handler hub q = rw (find-has identifier hub.streams ∙ q) refl

  -- A `publish`, however it ends, leaves its identifier taken: the same identifier published again
  -- is refused with Exists, and nothing changes.
  pub publish_stream-publish_stream :
      (identifier : StreamIdentifier) (receiver again : DataReceiver p) (handler other : h.Handler)
      (hub : Hub p h x)
      → Ends
          (λ g. publish_stream p h x identifier again other g ≡ err exists g)
          (publish_stream p h x identifier receiver handler hub)
  publish_stream-publish_stream identifier receiver again handler other hub =
      Ends-mono _ _ (publish_stream p h x identifier receiver handler hub)
        (publish-Ends identifier receiver handler taken hub (λ old. old)
          (λ new s. has_first (keys (remove identifier hub.streams))))
        (taken-exists identifier again other)
    where
      taken : Streams p h x → Undo p h x → Type 0
      taken m u = has identifier (keys m) ≡ true

      has_first : (ks : List StreamIdentifier) → has identifier (identifier ∷ ks) ≡ true
      has_first ks = rw (eq_refl identifier) refl
