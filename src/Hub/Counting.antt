-- ===== src/Hub/Counting.antt =====
-- library/streamhub/src/lib.rs: the senders of a transceiver and its `subscriber_count`.
use xiu.Prelude.{
  ℕ, suc, ◌+◌, ◌^◌, ◌<◌, List, ◌≡◌, refl, Bool, true, false, none, some, lt→ltb, ◌==◌,
  if◌then◌else◌, length, Outcome, ok, arith, Succeeds,
}
use mathlib.Core.Path.{subst}
use xiu.Prelude.Maps.{has, keys, insert, remove}
use xiu.Prelude.Keys.{Distinct, remove-no, Distinct-remove, length-remove}
use xiu.Hub.Platform.{Platform}
use xiu.Hub.Define.{SubscriberInfo, uuid_eq}
use xiu.Hub.Events.{
  DataSender, frame_sender, packet_sender, StreamHandler, StatisticDataSender, TransceiverEvent,
  subscribing, unsubscribing, unpublishing, asking, requesting,
}
use xiu.Hub.Transceiver.{
  Tasks, Flow, go_on, stop, insert_sender, is_packet, count_up, count_down, receive_event,
}

module _ (p : Platform) (h : StreamHandler p) where
  pub record Counted (t : Tasks p) : Type 0 where
    pub counted :
        t.statistics_data.subscriber_count ≡ length t.frame_senders + length t.packet_senders
    pub frames_distinct : Distinct (keys t.frame_senders)
    pub packets_distinct : Distinct (keys t.packet_senders)

  -- The id of a Subscribe is new, and an UnSubscribe is for a subscriber, with the map that its
  -- type is looked for in.
  abbrev pub Fits : TransceiverEvent p → Tasks p → Type 0
  Fits (subscribing sender info result_sender) t =
      (has info.id (keys t.frame_senders) ≡ false)
      × (has info.id (keys t.packet_senders) ≡ false)
      × (t.statistics_data.subscriber_count + 1 < 2 ^ 64)
  Fits (unsubscribing info) t =
      (if is_packet p h info.sub_type
        then has info.id (keys t.packet_senders)
        else has info.id (keys t.frame_senders))
      ≡ true
  Fits _ t = Unit

  -- One event that fits, after which the loop goes on.
  pub data Step (handler : h.Handler) (s : StatisticDataSender p) (t u : Tasks p) : Type 0 where
    step :
        (e : TransceiverEvent p)
        → Fits e t
        → receive_event p h handler s e t ≡ ok go_on u
        → Step handler s t u

  pub data Reach (handler : h.Handler) (s : StatisticDataSender p) (t : Tasks p)
      : Tasks p → Type 0 where
    here : Reach handler s t t
    later : {u v : Tasks p} → Reach handler s t u → Step handler s u v → Reach handler s t v

  count_up-Counted :
      (t : Tasks p)
      → suc t.statistics_data.subscriber_count ≡ length t.frame_senders + length t.packet_senders
      → Distinct (keys t.frame_senders)
      → Distinct (keys t.packet_senders)
      → t.statistics_data.subscriber_count + 1 < 2 ^ 64
      → Succeeds Counted (count_up p h t)
  count_up-Counted t c d e b =
      rw (lt→ltb (t.statistics_data.subscriber_count + 1) (2 ^ 64) b)
        record { counted = omega arith; frames_distinct = d; packets_distinct = e }

  count_down-Counted :
      (t : Tasks p)
      → t.statistics_data.subscriber_count ≡ suc (length t.frame_senders + length t.packet_senders)
      → Distinct (keys t.frame_senders)
      → Distinct (keys t.packet_senders)
      → Succeeds Counted (count_down p h t)
  count_down-Counted t c d e =
      rw (positive t.statistics_data.subscriber_count _ c)
        record { counted = omega arith; frames_distinct = d; packets_distinct = e }
    where
      positive : (n m : ℕ) → n ≡ suc m → (n == 0) ≡ false
      positive n m e = ground arith

  length-insert :
      {V : Type 0} (id : ℕ) (v : V) (m : List (ℕ × V))
      → has id (keys m) ≡ false
      → length (insert id v m) ≡ suc (length m)
  length-insert id v m n = rw (remove-no id m n) refl

  Distinct-insert :
      {V : Type 0} (id : ℕ) (v : V) (m : List (ℕ × V))
      → has id (keys m) ≡ false
      → Distinct (keys m)
      → Distinct (keys (insert id v m))
  Distinct-insert id v m n d = rw (remove-no id m n) (n, d)

  insert-Counted :
      (sender : DataSender p) (info : SubscriberInfo) (t : Tasks p) (w : p.World)
      → Counted t
      → (has info.id (keys t.frame_senders) ≡ false)
      → (has info.id (keys t.packet_senders) ≡ false)
      → (t.statistics_data.subscriber_count + 1 < 2 ^ 64)
      → Succeeds Counted (count_up p h (record (insert_sender p h sender info.id t) { world = w }))
  insert-Counted (frame_sender s) info t w c f k b =
      count_up-Counted (record (insert_sender p h (frame_sender s) info.id t) { world = w })
        (omega (arith, c.counted, length-insert info.id s t.frame_senders f))
        (Distinct-insert info.id s t.frame_senders f c.frames_distinct) c.packets_distinct b
  insert-Counted (packet_sender s) info t w c f k b =
      count_up-Counted (record (insert_sender p h (packet_sender s) info.id t) { world = w })
        (omega (arith, c.counted, length-insert info.id s t.packet_senders k)) c.frames_distinct
        (Distinct-insert info.id s t.packet_senders k c.packets_distinct) b

  if-Succeeds :
      (b : Bool) (o k : Outcome (Tasks p) ⊥ Flow)
      → Succeeds Counted o
      → Succeeds Counted k
      → Succeeds Counted (if b then o else k)
  if-Succeeds true o k q r = q
  if-Succeeds false o k q r = r

  -- `remove_sender`, for either map.
  abbrev removed : SubscriberInfo → Bool → Tasks p → Tasks p
  removed info packet t =
      if packet
      then record t { packet_senders = remove info.id t.packet_senders }
      else record t { frame_senders = remove info.id t.frame_senders }

  remove-Counted :
      (info : SubscriberInfo) (packet : Bool) (t : Tasks p)
      → Counted t
      → (if packet then has info.id (keys t.packet_senders) else has info.id (keys t.frame_senders))
        ≡ true
      → (let u = removed info packet t in
          Succeeds Counted (
            count_down p h (record u {
              statistics_data = record (u.statistics_data) {
                subscribers = remove info.id u.statistics_data.subscribers;
              };
            })))
  remove-Counted info true t c f =
      count_down-Counted _
        (omega (arith, c.counted, length-remove info.id t.packet_senders c.packets_distinct f))
        c.frames_distinct (Distinct-remove info.id t.packet_senders c.packets_distinct)
  remove-Counted info false t c f =
      count_down-Counted _
        (omega (arith, c.counted, length-remove info.id t.frame_senders c.frames_distinct f))
        (Distinct-remove info.id t.frame_senders c.frames_distinct) c.packets_distinct

  same_maps : (t : Tasks p) (w : p.World) → Counted t → Counted (record t { world = w })
  same_maps t w c = record {
    counted = c.counted;
    frames_distinct = c.frames_distinct;
    packets_distinct = c.packets_distinct;
  }

  handled_event-Counted :
      (handler : h.Handler) (s : StatisticDataSender p) (e : TransceiverEvent p) (t : Tasks p)
      → Counted t
      → Fits e t
      → Succeeds Counted (receive_event p h handler s e t)
  unfolding receive_event
  handled_event-Counted handler s (subscribing sender info result_sender) t c f =
      let prior = h.send_prior_data handler sender info.sub_type t.world in
      let t₁ = record t { world = prior.1 } in
      let u = insert_sender p h sender info.id t₁ in
      let w = (p.send (StatisticDataSender p) result_sender s u.world).1 in
      if-Succeeds prior.0 (count_up p h (record u { world = w })) (ok stop t₁)
        (insert-Counted sender info t₁ w (same_maps t prior.1 c) f.0 f.1 f.2)
        (same_maps t prior.1 c)
  handled_event-Counted handler s (unsubscribing info) t c f =
      remove-Counted info (is_packet p h info.sub_type) t c f
  handled_event-Counted handler s unpublishing t c f = c
  handled_event-Counted handler s (asking sender none) t c f = same_maps t _ c
  handled_event-Counted handler s (asking sender (some uid)) t c f = same_maps t _ c
  handled_event-Counted handler s (requesting sender) t c f = same_maps t _ c

  Reach-Counted :
      {handler : h.Handler} {s : StatisticDataSender p} {t u : Tasks p}
      → Counted t
      → Reach handler s t u
      → Counted u
  Reach-Counted c here = c
  Reach-Counted {handler} {s} c (later {u} r (step e f q)) =
      subst (Succeeds Counted) q (handled_event-Counted handler s e u (Reach-Counted c r) f)

  -- In every state that a transceiver reaches by events that fit, from one whose count is right:
  -- the next event that fits ends without a panic, and leaves `subscriber_count` the number of
  -- senders in the two maps, none of which is there twice. An event fits if a Subscribe has a new
  -- id and the count has room for it, and an UnSubscribe has the id of a sender in its map.
  pub receive_event-Counted :
      (handler : h.Handler) (s : StatisticDataSender p) (t u : Tasks p) (e : TransceiverEvent p)
      → Counted t
      → Reach handler s t u
      → Fits e u
      → Succeeds Counted (receive_event p h handler s e u)
  receive_event-Counted handler s t u e c r f =
      handled_event-Counted handler s e u (Reach-Counted c r) f
