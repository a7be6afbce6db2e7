-- ===== src/Hub/Undo.antt =====
-- library/streamhub/src/lib.rs: `un_pub_sub_events`, from which a client is kicked off.
use xiu.Prelude.{
  ℕ, ◌≡◌, ◌≢◌, refl, List, [], ◌∷◌, Option, none, some, Bool-cases, inl, inr, All, err, ◌>>◌, ◌==◌,
  Ends, Succeeds, after-Ends, after-Succeeds,
}
use xiu.Prelude.Maps.{find, remove}
use xiu.Hub.Platform.{Platform, never}
use xiu.Hub.Define.{StreamIdentifier, no_app_name, identifier_eq, uuid_eq}
use xiu.Hub.Events.{
  StreamHandler, StatisticDataSender, TransceiverEvent, unpublishing, StreamHubEvent, subscribe,
  un_subscribe, publish, un_publish, api_statistic, api_kick_client, api_start_relay_stream,
  api_stop_relay_stream, request, on_hls, Services,
}
use xiu.Hub.Transceiver.{StreamDataTransceiver}
use xiu.Hub.StreamsHub.{send_or_err, with_some, unpublish_stream, remove_stream}
use xiu.Hub.EventLoop.{handle_event, event_loop}
use xiu.Hub.Frames.{Hub, Streams, Undo, On, send-Frame}
use xiu.Hub.Handling.{
  un_subscribe-Handling, kick-Handling, request-Handling, on_hls-Handling, subscribe-Handling,
  unpublish-Handling, publish-Handling,
}
use xiu.Hub.Registry.{IsPlain, publish-Ends}

module _ (p : Platform) (h : StreamHandler p) where
  -- An UnPublish or an UnSubscribe of the client that the entry is for.
  abbrev pub IsUndo : ℕ × StreamHubEvent p h → Type 0
  IsUndo (id, un_publish identifier info) = info.id ≡ id
  IsUndo (id, un_subscribe identifier info) = info.id ≡ id
  IsUndo _ = ⊥

module _ (p : Platform) (h : StreamHandler p) (x : Services p h (StreamDataTransceiver p h)) where
  All-remove :
      (id : ℕ) (u : List (ℕ × StreamHubEvent p h))
      → All (IsUndo p h) u
      → All (IsUndo p h) (remove id u)
  All-remove id [] q = q
  All-remove id ((k, e) ∷ u) q = elim (Bool-cases (k == id)) [
    | inl y ↦ rw y (All-remove id u q.1)
    | inr n ↦ rw n (q.0, All-remove id u q.1)
  ]

  abbrev Undos : Streams p h x → Undo p h x → Type 0
  Undos m u = All (IsUndo p h) u

  unpublish-Undos :
      (identifier : StreamIdentifier) (hub : Hub p h x)
      → On p h x Undos hub
      → Ends (On p h x Undos) (unpublish_stream p h x identifier hub)
  unfolding unpublish_stream
  unpublish-Undos identifier hub q = go (find identifier hub.streams)
    where
      go :
          (o : Option (p.Sender (TransceiverEvent p)))
          → Ends (On p h x Undos) (
              with_some p h x o
                (err no_app_name)
                (λ producer. (do
                  send_or_err p h x producer unpublishing
                  remove_stream p h x identifier))
                hub)
      go none = q
      go (some s) =
          after-Ends {B = Unit {0}} (On p h x Undos) (send_or_err p h x s unpublishing hub)
            (λ _. remove_stream p h x identifier) (send-Frame p h x s unpublishing Undos hub q)
            (λ _ g r. r)

  module _
      (answered : (r : p.Receiver (StatisticDataSender p)) (w : p.World)
        → (p.recv (StatisticDataSender p) r w).0 ≢ never) where
    handle_event-Undos :
        (e : StreamHubEvent p h) (hub : Hub p h x)
        → IsPlain p h e
        → On p h x Undos hub
        → Succeeds (On p h x Undos) (handle_event p h x e hub)
    handle_event-Undos (publish identifier info sender handler) hub plain q =
        publish-Handling p h x Undos Undos identifier info (λ m u r. (refl, All-remove info.id u r))
          handler (λ r g s. publish-Ends p h x identifier r handler Undos g (λ _. s) (λ _ _. s))
          sender hub q
    handle_event-Undos (un_publish identifier info) hub plain q =
        unpublish-Handling p h x Undos Undos identifier info (unpublish-Undos identifier) hub q
    handle_event-Undos (subscribe identifier info sender) hub plain q =
        subscribe-Handling p h x Undos identifier info (λ m u r. (refl, All-remove info.id u r))
          answered sender hub q
    handle_event-Undos (un_subscribe identifier info) hub plain q =
        un_subscribe-Handling p h x Undos identifier info hub q
    handle_event-Undos (api_kick_client id) hub plain q = kick-Handling p h x Undos id hub q
    handle_event-Undos (request identifier sender) hub plain q =
        request-Handling p h x Undos identifier sender hub q
    handle_event-Undos (on_hls identifier segment) hub plain q =
        on_hls-Handling p h x Undos identifier segment hub q
    handle_event-Undos (api_statistic n identifier uuid sender) hub plain q = absurd plain
    handle_event-Undos (api_start_relay_stream id i address t sender) hub plain q = absurd plain
    handle_event-Undos (api_stop_relay_stream id t sender) hub plain q = absurd plain

    -- For all events but the three of the API that wait for others, if a transceiver answers or drops
    -- the sender of a Subscribe: if every entry of `un_pub_sub_events` is an UnPublish or an
    -- UnSubscribe of the client that it is stored for, this is so after the event loop has handled
    -- the events, which it does with no panic and no endless wait.
    pub event_loop-IsUndo :
        (es : List (StreamHubEvent p h)) (hub : Hub p h x)
        → All (IsPlain p h) es
        → All (IsUndo p h) hub.un_pub_sub_events
        → Succeeds (λ g. All (IsUndo p h) g.un_pub_sub_events) (event_loop p h x es hub)
    unfolding event_loop
    event_loop-IsUndo [] hub plain q = q
    event_loop-IsUndo (e ∷ es) hub plain q =
        after-Succeeds (On p h x Undos) _ (handle_event p h x e hub) _
          (handle_event-Undos e hub plain.0 q) (λ _ g r. event_loop-IsUndo es g plain.1 r)
