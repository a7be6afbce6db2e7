-- ===== src/Hub/Api.antt =====
-- library/streamhub/src/lib.rs: `api_statistic`. `stuck` is a wait that does not end, and the loop
-- that spins on a closed channel.
use xiu.Prelude.{
  ℕ, zero, suc, List, [], ◌∷◌, Option, none, some, leb, if◌then◌else◌, length, take, ok, err, stuck,
  ◌>>=◌, ◌>>◌,
}
use xiu.Prelude.Maps.{find, values}
use xiu.Hub.Platform.{Platform}
use xiu.Hub.Define.{StreamIdentifier, serde_error, identifier_eq}
use xiu.Hub.Statistics.{StatisticsStream}
use xiu.Hub.Events.{StreamHandler, TransceiverEvent, asking, Services}
use xiu.Hub.Transceiver.{StreamDataTransceiver}
use xiu.Hub.StreamsHub.{Call, send_or_err, with_some, channel, await}

module _ (p : Platform) where
  -- `sort_by` with the counts in falling order. It is stable.
  abbrev pub place : StatisticsStream p → List (StatisticsStream p) → List (StatisticsStream p)
  place s [] = s ∷ []
  place s (t ∷ ts) =
      let rest = place s ts in
      if leb t.subscriber_count s.subscriber_count then s ∷ t ∷ ts else t ∷ rest

  unfoldable pub sort_streams : List (StatisticsStream p) → List (StatisticsStream p)
  sort_streams [] = []
  sort_streams (s ∷ ss) = place s (sort_streams ss)

  abbrev pub top : Option ℕ → List (StatisticsStream p) → List (StatisticsStream p)
  top none streams = streams
  top (some n) streams = take n (sort_streams streams)

module _ (p : Platform) (h : StreamHandler p) (x : Services p h (StreamDataTransceiver p h)) where
  -- One request for each stream, and whether all were sent.
  abbrev pub ask_all :
      List (p.Sender (TransceiverEvent p)) → TransceiverEvent p → Call p h x (Unit {0})
  ask_all [] event = ok tt
  ask_all (s ∷ ss) event = do send_or_err p h x s event; ask_all ss event

  -- The requests, and how many answers are awaited.
  unfoldable pub ask : Option StreamIdentifier → TransceiverEvent p → Call p h x ℕ
  ask none event hub = (do ask_all (values hub.streams) event; ok (length hub.streams)) hub
  ask (some identifier) event hub =
      with_some p h x (find identifier hub.streams) (ok 1)
        (λ event_sender. do send_or_err p h x event_sender event; ok 1) hub

  -- What an answer adds. A channel that is closed answers no more, and the loop spins.
  abbrev pub collected :
      Call p h x (List (StatisticsStream p))
      → Option (StatisticsStream p)
      → Call p h x (List (StatisticsStream p))
  collected rest none = λ _. stuck
  collected rest (some s) = do ss ← rest; ok (s ∷ ss)

  -- The loop, for the answers that are still to come. Each round takes one.
  unfoldable pub collect :
      ℕ → p.Receiver (StatisticsStream p) → Call p h x (List (StatisticsStream p))
  collect zero receiver = ok []
  collect (suc n) receiver = do answer ← await p h x receiver; collected (collect n receiver) answer

  abbrev pub to_value : List (StatisticsStream p) → Call p h x p.Value
  to_value streams hub = elim (x.to_value streams) [
    | none ↦ err serde_error hub
    | some v ↦ ok v hub
  ]

  abbrev pub statistic_of : Option ℕ → Option StreamIdentifier → Option ℕ → Call p h x p.Value
  statistic_of top_n identifier uuid = do
    c ← channel p h x (StatisticsStream p)
    count ← ask identifier (asking c.0 uuid)
    data_in ← collect count c.1
    to_value (top p top_n data_in)

  abbrev pub statistic_unless_empty :
      List (StreamIdentifier × p.Sender (TransceiverEvent p))
      → Option ℕ
      → Option StreamIdentifier
      → Option ℕ
      → Call p h x p.Value
  statistic_unless_empty [] top_n identifier uuid = ok x.empty_value
  statistic_unless_empty (s ∷ ss) top_n identifier uuid = statistic_of top_n identifier uuid

  -- `api_statistic`.
  unfoldable pub statistic_value :
      Option ℕ → Option StreamIdentifier → Option ℕ → Call p h x p.Value
  statistic_value top_n identifier uuid hub =
      statistic_unless_empty hub.streams top_n identifier uuid hub
