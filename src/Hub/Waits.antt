-- ===== src/Hub/Waits.antt =====
-- library/streamhub/src/lib.rs: calls of the API during which the event loop waits.
use xiu.Prelude.{
  ℕ, ◌≡◌, ◌≢◌, refl, ap, ◌∙◌, List, [], ◌∷◌, Option, none, some, ok, stuck, ◌>>=◌, after, arith,
}
use xiu.Prelude.Words.{Bytes}
use xiu.Prelude.Maps.{find}
use xiu.Hub.Platform.{Platform, Received, item, closed, never}
use xiu.Hub.Define.{StreamIdentifier, relay_push, identifier_eq}
use xiu.Hub.Statistics.{StatisticsStream}
use xiu.Hub.Events.{
  StreamHandler, Result, StreamHubEvent, TransceiverEvent, asking, api_statistic,
  api_start_relay_stream, api_stop_relay_stream, Services,
}
use xiu.Hub.Transceiver.{StreamDataTransceiver}
use xiu.Hub.StreamsHub.{received, received_or, start_relay_stream, stop_relay_stream}
use xiu.Hub.Api.{
  statistic_of, statistic_value, ask, collect, collected, statistic_unless_empty, to_value, top,
}
use xiu.Hub.EventLoop.{handle_event, event_loop}
use xiu.Hub.Frames.{Hub}

module _ (p : Platform) (h : StreamHandler p) (x : Services p h (StreamDataTransceiver p h)) where
  -- Nothing comes from a new channel whose sender is kept and was handed to no one.
  abbrev pub IsSilent : Type 0 → Type 0
  IsSilent T = (w : p.World) → (p.recv T (p.channel T w).0.1 (p.channel T w).1).0 ≡ never

  received-never :
      {T : Type 0} (v : Received T × p.World) (hub : Hub p h x)
      → v.0 ≡ never
      → received p h x v hub ≡ stuck
  received-never (item a, w) hub e = ground arith
  received-never (closed, w) hub e = ground arith
  received-never (never, w) hub e = refl

  start_relay-push :
      (id : Bytes) (identifier : StreamIdentifier) (address : Bytes) (hub : Hub p h x)
      → IsSilent (Result (Unit {0}))
      → start_relay_stream p h x id relay_push identifier address hub ≡ stuck
  unfolding start_relay_stream
  start_relay-push id identifier address hub silent =
      ap (λ o. after o (received_or p h x)) (received-never _ _ (silent hub.world))

  stop_relay-push :
      (id : Bytes) (hub : Hub p h x)
      → IsSilent (Result (Unit {0}))
      → stop_relay_stream p h x id relay_push hub ≡ stuck
  unfolding stop_relay_stream
  stop_relay-push id hub silent =
      ap (λ o. after o (received_or p h x)) (received-never _ _ (silent hub.world))

  -- If nothing comes from a new channel that was handed to no one: a request of the API to start or
  -- to stop pushing a stream to another server stops the event loop for good, and no event behind
  -- it is handled.
  pub event_loop-push_waits :
      (id : Bytes) (identifier : StreamIdentifier) (address : Bytes)
      (sender : p.Sender (Result (Unit {0}))) (es : List (StreamHubEvent p h)) (hub : Hub p h x)
      → IsSilent (Result (Unit {0}))
      → (event_loop p h x (api_start_relay_stream id identifier address relay_push sender ∷ es) hub
          ≡ stuck)
        × (event_loop p h x (api_stop_relay_stream id relay_push sender ∷ es) hub ≡ stuck)
  unfolding event_loop handle_event
  event_loop-push_waits id identifier address sender es hub silent = (
    rw (start_relay-push id identifier address hub silent) refl,
    rw (stop_relay-push id hub silent) refl,
  )

  ask-none :
      (identifier : StreamIdentifier) (event : TransceiverEvent p) (hub : Hub p h x)
      → find identifier hub.streams ≡ none
      → ask p h x (some identifier) event hub ≡ ok 1 hub
  unfolding ask
  ask-none identifier event hub n = rw n refl

  collect-waits :
      (hub : Hub p h x) (r : p.Receiver (StatisticsStream p))
      → (p.recv (StatisticsStream p) r hub.world).0 ≡ never
      → collect p h x 1 r hub ≡ stuck
  unfolding collect
  collect-waits hub r n = ap (λ o. after o (collected p h x (ok []))) (received-never _ _ n)

  statistic_of-waits :
      (top_n : Option ℕ) (identifier : StreamIdentifier) (uuid : Option ℕ) (hub : Hub p h x)
      → find identifier hub.streams ≡ none
      → IsSilent (StatisticsStream p)
      → statistic_of p h x top_n (some identifier) uuid hub ≡ stuck
  statistic_of-waits top_n identifier uuid hub n silent =
      let c = p.channel (StatisticsStream p) hub.world in
      let hub₁ = record hub { world = c.1 } in
      let finish = λ (streams : List (StatisticsStream p)). to_value p h x (top p top_n streams) in
      ap (λ o. after o (λ count. collect p h x count c.0.1 >>= finish))
        (ask-none identifier (asking c.0.0 uuid) hub₁ n)
      ∙ ap (λ o. after o finish) (collect-waits hub₁ c.0.1 (silent hub.world))

  statistic-waits :
      (top_n : Option ℕ) (identifier : StreamIdentifier) (uuid : Option ℕ)
      (m : List (StreamIdentifier × p.Sender (TransceiverEvent p))) (hub : Hub p h x)
      → m ≢ []
      → find identifier hub.streams ≡ none
      → IsSilent (StatisticsStream p)
      → statistic_unless_empty p h x m top_n (some identifier) uuid hub ≡ stuck
  statistic-waits top_n identifier uuid [] hub some_there n silent = absurd (some_there refl)
  statistic-waits top_n identifier uuid (s ∷ ss) hub some_there n silent =
      statistic_of-waits top_n identifier uuid hub n silent

  -- If nothing comes from a new channel that was handed to no one: a request of the API for the
  -- statistics of an identifier that is not in `streams`, while another one is, stops the event
  -- loop for good, and no event behind it is handled.
  pub event_loop-statistic_waits :
      (top_n : Option ℕ) (identifier : StreamIdentifier) (uuid : Option ℕ)
      (sender : p.Sender p.Value) (es : List (StreamHubEvent p h)) (hub : Hub p h x)
      → hub.streams ≢ []
      → find identifier hub.streams ≡ none
      → IsSilent (StatisticsStream p)
      → event_loop p h x (api_statistic top_n (some identifier) uuid sender ∷ es) hub ≡ stuck
  unfolding event_loop handle_event statistic_value
  event_loop-statistic_waits top_n identifier uuid sender es hub some_there n silent =
      rw (statistic-waits top_n identifier uuid hub.streams hub some_there n silent) refl
