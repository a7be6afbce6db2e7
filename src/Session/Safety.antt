-- ===== src/Session/Safety.antt =====
-- protocol/rtmp/src/session: what reaches the hub from a session, whatever messages come.
use xiu.Prelude.{
  ℕ, [], ◌∷◌, ◌++◌, Bool, true, false, Option, none, some, List, All, ◌≡◌, ap, Outcome, Method, ok,
  err, panic, stuck, after,
}
use xiu.Prelude.Words.{Bytes}
use xiu.Hub.Define.{
  StreamIdentifier, rtmp, rtmp_pull, rtmp_push, FrameData, video_frame, audio_frame, meta_data,
}
use xiu.Session.Leaves.{Leaves, test-Leaves, after-Leaves}
use xiu.Session.Url.{IsUnsplit}
use xiu.Session.Define.{
  SessionError, SessionEvent, subscribe, un_subscribe, publish, un_publish, server,
  send_frame_data_err, stream_hub_event_send_err,
}
use xiu.Session.Common.{
  Surroundings, Common, Call, Answer, answered, refused, no_answer, send_event, await, receive,
  receive_at, send_out, save, saved, send_frame, sub_type_of, pub_type_of,
  subscribe_from_stream_hub, unsubscribe_from_stream_hub, publish_to_stream_hub,
  unpublish_to_stream_hub, get_subscriber_info, get_publisher_info, on_video_data, on_audio_data,
  on_meta_data,
}
use xiu.Session.Server.{ServerSession}
use xiu.Session.Commands.{is_url_sep, admits}

module _ (auth : Option (Bytes → Option Bytes → Bool → Bool)) (id : ℕ) where
  -- `auth` admits the stream, with some query.
  abbrev IsAdmitted : Bytes → Bool → Type 0
  IsAdmitted name is_pull = (query : Option Bytes) × (admits auth name query is_pull ≡ true)

  -- An identifier of RTMP, whose application has no separator of a URL.
  abbrev IsPlain : StreamIdentifier → Type 0
  IsPlain (rtmp app name) = IsUnsplit is_url_sep app
  IsPlain _ = ⊥

  abbrev name_of : StreamIdentifier → Bytes
  name_of (rtmp app name) = name
  name_of _ = []

  -- An event of the session itself, about an RTMP stream; a new publisher or subscriber is admitted.
  abbrev pub IsAllowed : SessionEvent → Type 0
  IsAllowed (subscribe i info) =
      IsPlain i × (info.id ≡ id) × (info.sub_type ≡ rtmp_pull) × IsAdmitted (name_of i) true
  IsAllowed (un_subscribe i info) = IsPlain i × (info.id ≡ id) × (info.sub_type ≡ rtmp_pull)
  IsAllowed (publish i info) =
      IsPlain i × (info.id ≡ id) × (info.pub_type ≡ rtmp_push) × IsAdmitted (name_of i) false
  IsAllowed (un_publish i info) = IsPlain i × (info.id ≡ id) × (info.pub_type ≡ rtmp_push)

  abbrev pub IsOwn : {around : Surroundings} → Common around → Type 0
  IsOwn c = All IsAllowed c.events × (c.session_id ≡ id) × (c.session_type ≡ server)

  abbrev pub IsSafe : {around : Surroundings} → ServerSession around → Type 0
  IsSafe s = IsOwn s.common × IsUnsplit is_url_sep s.app_name

All-snoc :
    {A : Type 0} (P : A → Type 0) (xs : List A) (x : A) → All P xs → P x → All P (xs ++ x ∷ [])
All-snoc P [] x h k = (k, tt)
All-snoc P (y ∷ ys) x h k = (h.0, All-snoc P ys x h.1 k)

module _ (auth : Option (Bytes → Option Bytes → Bool → Bool)) (id : ℕ) (around : Surroundings) where
  abbrev Own : Common around → Type 0
  Own = IsOwn auth id {around = around}

  sent-Leaves :
      (event : SessionEvent) (next closed : Call around) (c : Common around)
      → IsAllowed auth id event
      → ((d : Common around) → Own d → Leaves Own Own (next d))
      → ((d : Common around) → Own d → Leaves Own Own (closed d))
      → Own c
      → Leaves Own Own (send_event around event next closed c)
  sent-Leaves event next closed c a h k own =
      test-Leaves Own Own _ _ _
        (λ _. h _ (All-snoc (IsAllowed auth id) c.events event own.0 a, own.1, own.2)) (k c own)

  await-Leaves :
      {A : Type 0} (answer : Answer A) (f : A → Call around)
      → ((a : A) (c : Common around) → Own c → Leaves Own Own (f a c))
      → (c : Common around) → Own c
      → Leaves Own Own (await around answer f c)
  await-Leaves (answered a) f h c own = h a c own
  await-Leaves (refused e) f h c own = own
  await-Leaves no_answer f h c own = own

  receive-Leaves :
      (a : Option around.FrameReceiver × Option around.StatisticSender) (c : Common around)
      → Own c
      → Leaves Own Own (receive around a c)
  receive-Leaves (none, statistics) c own = tt
  receive-Leaves (some receiver, none) c own = own
  receive-Leaves (some receiver, some statistics) c own = by_addr c.remote_addr
    where
      by_addr :
          (addr : Option Bytes) → Leaves Own Own (receive_at around receiver statistics addr c)
      by_addr none = tt
      by_addr (some addr) = own

  send_out-Leaves :
      (gop_num : ℕ) (a : Option around.FrameSender × Option around.StatisticSender)
      (c : Common around)
      → Own c
      → Leaves Own Own (send_out around gop_num a c)
  send_out-Leaves gop_num (none, statistics) c own = tt
  send_out-Leaves gop_num (some sender, statistics) c own = own

  module _ (app name : Bytes) (h : IsUnsplit is_url_sep app) (c : Common around) (own : Own c) where
    pub subscribe-Leaves :
        IsAdmitted auth id name true → Leaves Own Own (subscribe_from_stream_hub around app name c)
    unfolding subscribe_from_stream_hub get_subscriber_info
    subscribe-Leaves admitted =
        let event = subscribe (rtmp app name) (get_subscriber_info around c) in
        sent-Leaves event (λ d. await around (around.subscribe_answer d.events) (receive around) d)
          (err stream_hub_event_send_err) c (h, own.1, ap sub_type_of own.2, admitted)
          (λ d k.
            await-Leaves (around.subscribe_answer d.events) (receive around) receive-Leaves d k)
          (λ d k. k) own

    pub unsubscribe-Leaves : Leaves Own Own (unsubscribe_from_stream_hub around app name c)
    unfolding unsubscribe_from_stream_hub get_subscriber_info
    unsubscribe-Leaves =
        sent-Leaves (un_subscribe (rtmp app name) (get_subscriber_info around c)) (ok tt) (ok tt) c
          (h, own.1, ap sub_type_of own.2) (λ d k. k) (λ d k. k) own

    pub publish-Leaves :
        (gop_num : ℕ)
        → IsAdmitted auth id name false
        → Leaves Own Own (publish_to_stream_hub around app name gop_num c)
    unfolding publish_to_stream_hub get_publisher_info
    publish-Leaves gop_num admitted =
        let event = publish (rtmp app name) (get_publisher_info around c) in
        sent-Leaves event
          (λ d. await around (around.publish_answer d.events) (send_out around gop_num) d)
          (err stream_hub_event_send_err) c (h, own.1, ap pub_type_of own.2, admitted)
          (λ d k.
            await-Leaves (around.publish_answer d.events) (send_out around gop_num)
              (send_out-Leaves gop_num) d k)
          (λ d k. k) own

    pub unpublish-Leaves : Leaves Own Own (unpublish_to_stream_hub around app name c)
    unfolding unpublish_to_stream_hub get_publisher_info
    unpublish-Leaves =
        sent-Leaves (un_publish (rtmp app name) (get_publisher_info around c)) (ok tt)
          (err stream_hub_event_send_err) c (h, own.1, ap pub_type_of own.2) (λ d k. k) (λ d k. k)
          own

  save-Leaves :
      (cache : Option around.Cache) (m : Method around.Cache (Unit {0}) (Unit {0}))
      (c : Common around)
      → Own c
      → Leaves Own Own (save around cache m c)
  save-Leaves none m c own = own
  save-Leaves (some cache) m c own = by_outcome (m cache)
    where
      by_outcome :
          (o : Outcome around.Cache (Unit {0}) (Unit {0})) → Leaves Own Own (saved around o c)
      by_outcome (ok u after) = own
      by_outcome (err e after) = own
      by_outcome panic = tt
      by_outcome stuck = tt

  frame-Leaves :
      (frame : FrameData) (k : Call around) (c : Common around)
      → ((d : Common around) → Own d → Leaves Own Own (k d))
      → Own c
      → Leaves Own Own (after (send_frame around frame c) (λ _. k))
  frame-Leaves frame k c h own =
      after-Leaves Own Own Own (send_frame around frame c) (λ _. k)
        (test-Leaves {E = SessionError} {A = Unit {0}} Own Own
          (around.frame_taken c.data_sender (c.frames ++ (c.data_sender, frame) ∷ []))
          (ok tt (record c { frames = c.frames ++ (c.data_sender, frame) ∷ [] }))
          (err send_frame_data_err c) (λ _. own) own)
        (λ u d. h d)

  module _ (bytes : Bytes) (timestamp : ℕ) (c : Common around) (own : Own c) where
    pub video-Leaves : Leaves Own Own (on_video_data around bytes timestamp c)
    unfolding on_video_data
    video-Leaves =
        frame-Leaves (video_frame timestamp bytes)
          (λ d. save around d.cache (around.save_video_data bytes timestamp) d) c
          (λ d k. save-Leaves d.cache (around.save_video_data bytes timestamp) d k) own

    pub audio-Leaves : Leaves Own Own (on_audio_data around bytes timestamp c)
    unfolding on_audio_data
    audio-Leaves =
        frame-Leaves (audio_frame timestamp bytes)
          (λ d. save around d.cache (around.save_audio_data bytes timestamp) d) c
          (λ d k. save-Leaves d.cache (around.save_audio_data bytes timestamp) d k) own

    pub meta-Leaves : Leaves Own Own (on_meta_data around bytes timestamp c)
    unfolding on_meta_data
    meta-Leaves =
        frame-Leaves (meta_data timestamp bytes)
          (λ d. save around d.cache (λ cache. ok tt (around.save_metadata bytes timestamp cache)) d)
          c
          (λ d k.
            save-Leaves d.cache (λ cache. ok tt (around.save_metadata bytes timestamp cache)) d k)
          own
