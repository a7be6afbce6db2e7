-- ===== src/Hub/Transceiver.antt =====
-- library/streamhub/src/lib.rs: `StreamDataTransceiver`, whose tasks share the senders of the
-- subscribers and the statistics. What the tasks receive is an argument of the handlers.
use xiu.Prelude.{
  ℕ, ◌+◌, ◌-◌, ◌^◌, List, [], ◌∷◌, Bool, true, false, Option, none, some, ltb, ◌==◌, if◌then◌else◌,
  ok, panic, Method, ◌>>=◌,
}
use xiu.Prelude.Maps.{insert, remove, values}
use xiu.Hub.Platform.{Platform}
use xiu.Hub.Define.{
  StreamIdentifier, SubscribeType, rtp_pull, whep_pull, SubscriberInfo, FrameData, audio_frame,
  video_frame, meta_data, media, PacketData, uuid_eq, StatisticData,
}
use xiu.Hub.Statistics.{StatisticsStream, new_statistics, query_by_uuid}
use xiu.Hub.Events.{
  DataSender, frame_sender, packet_sender, DataReceiver, StreamHandler, StatisticDataSender,
  TransceiverEvent, subscribing, unsubscribing, unpublishing, asking, requesting,
}

pub record StreamDataTransceiver (p : Platform) (h : StreamHandler p) : Type 0 where
  pub data_receiver : DataReceiver p
  pub event_receiver : p.Receiver (TransceiverEvent p)
  pub id_to_frame_sender : List (ℕ × p.Sender FrameData)
  pub id_to_packet_sender : List (ℕ × p.Sender PacketData)
  pub statistic_data_sender : StatisticDataSender p
  pub statistic_data_receiver : p.Receiver (StatisticData p)
  pub statistic_data : StatisticsStream p
  pub stream_handler : h.Handler

-- What the tasks share, with the world.
pub record Tasks (p : Platform) : Type 0 where
  pub frame_senders : List (ℕ × p.Sender FrameData)
  pub packet_senders : List (ℕ × p.Sender PacketData)
  pub statistics_data : StatisticsStream p
  pub world : p.World

-- Whether a loop goes on or breaks.
pub data Flow : Type 0 where
  go_on stop : Flow

module _ (p : Platform) (h : StreamHandler p) where
  unfoldable pub new_transceiver :
      DataReceiver p
      → p.Receiver (TransceiverEvent p)
      → StreamIdentifier
      → h.Handler
      → p.World
      → StreamDataTransceiver p h × p.World
  new_transceiver data_receiver event_receiver identifier handler w =
      let c = p.channel (StatisticData p) w in
      (
        record {
          data_receiver = data_receiver;
          event_receiver = event_receiver;
          id_to_frame_sender = [];
          id_to_packet_sender = [];
          statistic_data_sender = c.0.0;
          statistic_data_receiver = c.0.1;
          statistic_data = new_statistics p identifier;
          stream_handler = handler;
        },
        c.1,
      )

module _ (p : Platform) where
  -- One `send` for each sender; a failed one is only logged.
  unfoldable pub send_all : {T : Type 0} → List (p.Sender T) → T → p.World → p.World
  send_all [] x w = w
  send_all {T} (s ∷ ss) x w = send_all ss x (p.send T s x w).1

  abbrev pub send_frame : FrameData → Tasks p → Tasks p
  send_frame frame t = record t { world = send_all (values t.frame_senders) frame t.world }

  unfoldable pub receive_frame_data : Option FrameData → Tasks p → Tasks p
  receive_frame_data none t = t
  receive_frame_data (some (meta_data timestamp bytes)) t = t
  receive_frame_data (some (audio_frame timestamp bytes)) t =
      send_frame (audio_frame timestamp bytes) t
  receive_frame_data (some (video_frame timestamp bytes)) t =
      send_frame (video_frame timestamp bytes) t
  receive_frame_data (some (media info)) t = send_frame (media info) t

  unfoldable pub receive_packet_data : Option PacketData → Tasks p → Tasks p
  receive_packet_data none t = t
  receive_packet_data (some packet) t = record t {
    world = send_all (values t.packet_senders) packet t.world;
  }

module _ (p : Platform) (h : StreamHandler p) where
  abbrev pub insert_sender : DataSender p → ℕ → Tasks p → Tasks p
  insert_sender (frame_sender s) id t = record t { frame_senders = insert id s t.frame_senders }
  insert_sender (packet_sender s) id t = record t { packet_senders = insert id s t.packet_senders }

  -- Which of the two maps an UnSubscribe is about.
  abbrev pub is_packet : SubscribeType → Bool
  is_packet rtp_pull = true
  is_packet whep_pull = true
  is_packet _ = false

  abbrev pub remove_sender : SubscriberInfo → Tasks p → Tasks p
  remove_sender info t =
      if is_packet info.sub_type
      then record t { packet_senders = remove info.id t.packet_senders }
      else record t { frame_senders = remove info.id t.frame_senders }

  abbrev pub count_up : Method (Tasks p) ⊥ Flow
  count_up t =
      let n = t.statistics_data.subscriber_count in
      if ltb (n + 1) (2 ^ 64)
      then ok go_on
          (record t { statistics_data = record (t.statistics_data) { subscriber_count = n + 1 } })
      else panic

  abbrev pub count_down : Method (Tasks p) ⊥ Flow
  count_down t =
      let n = t.statistics_data.subscriber_count in
      if n == 0
      then panic
      else ok go_on
          (record t { statistics_data = record (t.statistics_data) { subscriber_count = n - 1 } })

  -- The events of `receive_event_loop`, for the handler and the `statistic_sender` of the stream.
  unfoldable pub receive_event :
      h.Handler → StatisticDataSender p → TransceiverEvent p → Method (Tasks p) ⊥ Flow
  receive_event handler statistic_sender (subscribing sender info result_sender) t =
      let prior = h.send_prior_data handler sender info.sub_type t.world in
      if prior.0
      then (let u = insert_sender sender info.id (record t { world = prior.1 }) in
          count_up (record u {
            world = (p.send (StatisticDataSender p) result_sender statistic_sender u.world).1;
          }))
      else ok stop (record t { world = prior.1 })
  receive_event handler statistic_sender (unsubscribing info) t =
      let u = remove_sender info t in
      count_down (record u {
        statistics_data = record (u.statistics_data) {
          subscribers = remove info.id u.statistics_data.subscribers;
        };
      })
  -- Sending on `exit` ends the other tasks.
  receive_event handler statistic_sender unpublishing t = ok stop t
  receive_event handler statistic_sender (asking sender none) t =
      ok go_on
        (record t { world = (p.send (StatisticsStream p) sender t.statistics_data t.world).1 })
  receive_event handler statistic_sender (asking sender (some uid)) t = ok go_on (record t {
    world = (p.send (StatisticsStream p) sender (query_by_uuid p t.statistics_data uid) t.world).1;
  })
  receive_event handler statistic_sender (requesting sender) t =
      ok go_on (record t { world = h.send_information handler sender t.world })

  -- `receive_event_loop`, for the events that come. The ones behind a `break` are not read.
  unfoldable pub receive_events :
      h.Handler → StatisticDataSender p → List (TransceiverEvent p) → Method (Tasks p) ⊥ Flow
  receive_events handler statistic_sender [] = ok go_on
  receive_events handler statistic_sender (e ∷ es) = do
    flow ← receive_event handler statistic_sender e
    let rest = receive_events handler statistic_sender es in
        elim flow [ go_on ↦ rest | stop ↦ ok stop ]
