-- ===== src/Hub/Traffic.antt =====
-- library/streamhub: the bytes that the statistics of a stream count in all.
use xiu.Prelude.{
  ℕ, ◌+◌, ◌^◌, ◌≡◌, refl, List, [], ◌∷◌, Bool, true, false, Option, none, some, ltb, ◌==◌,
  if◌then◌else◌, ok, panic, Method, ◌>>=◌, ◌>>◌, after, Returns, after-Returns, Returns-mono, arith,
}
use xiu.Prelude.Maps.{find}
use xiu.Hub.Platform.{Platform}
use xiu.Hub.Define.{
  uuid_eq, StatisticData, audio_codec, video_codec, audio, video, publisher, subscriber,
}
use xiu.Hub.Statistics.{
  StatisticsStream, AudioInfo, VideoInfo, StatisticSubscriber, add_to, modify, set_video, set_audio,
  update_subscriber, add_send_bytes, add_sent, add_total_sent, add_raw_audio, add_video_recv,
  add_video_frames, add_publisher_recv, add_total_send_bytes_of, add_total_send_bytes,
  add_total_recv_bytes, add_audio_bytes, add_video_bytes, count_gop, receive_statistics,
}

module _ (p : Platform) where
  -- What the publisher's data say was received, and the subscribers' that it was sent.
  abbrev pub received_of : StatisticData p → ℕ
  received_of (audio none n k d) = n
  received_of (video none n c k d) = n
  received_of _ = 0

  abbrev pub sent_of : StatisticData p → ℕ
  sent_of (audio (some uid) n k d) = n
  sent_of (video (some uid) n c k d) = n
  sent_of _ = 0

  unfoldable pub received : List (StatisticData p) → ℕ
  received [] = 0
  received (d ∷ ds) = received_of d + received ds

  unfoldable pub sent : List (StatisticData p) → ℕ
  sent [] = 0
  sent (d ∷ ds) = sent_of d + sent ds

  -- `receive_statistics_data_loop`, for the data that come.
  unfoldable pub receive_all : List (StatisticData p) → Method (StatisticsStream p) ⊥ (Unit {0})
  receive_all [] = ok tt
  receive_all (d ∷ ds) = do receive_statistics p d; receive_all ds

  record Totals (r t : ℕ) (s : StatisticsStream p) : Type 0 where
    in_all : s.total_recv_bytes ≡ r
    out_all : s.total_send_bytes ≡ t

  abbrev Keeps : {A : Type 0} → Method (StatisticsStream p) ⊥ A → Type 0
  Keeps m =
      (r t : ℕ) (s : StatisticsStream p) → Totals r t s → Returns (λ _ s'. Totals r t s') (m s)

  add_to-Keeps : (a n : ℕ) → Keeps (add_to p a n)
  add_to-Keeps a n r t s q = branches (ltb (a + n) (2 ^ 64))
    where
      branches :
          (b : Bool)
          → Returns {E = ⊥} {A = ℕ} (λ _ s'. Totals r t s') (if b then ok (a + n) s else panic)
      branches true = q
      branches false = tt

  then-Keeps :
      {A B : Type 0} (m : Method (StatisticsStream p) ⊥ A) (f : A → Method (StatisticsStream p) ⊥ B)
      → Keeps m
      → ((a : A) → Keeps (f a))
      → Keeps (m >>= f)
  then-Keeps m f j k r t s q =
      after-Returns (λ _ s'. Totals r t s') _ (m s) f (j r t s q) (λ a s' u. k a r t s' u)

  set_audio-Keeps : (a : AudioInfo) → Keeps (set_audio p a)
  set_audio-Keeps a r t s q = record { in_all = q.in_all; out_all = q.out_all }

  set_video-Keeps : (v : VideoInfo) → Keeps (set_video p v)
  set_video-Keeps v r t s q = record { in_all = q.in_all; out_all = q.out_all }

  update_subscriber-Keeps :
      (uid : ℕ) (f : StatisticSubscriber p → StatisticSubscriber p)
      → Keeps (update_subscriber p uid f)
  update_subscriber-Keeps uid f r t s q = record { in_all = q.in_all; out_all = q.out_all }

  add_sent-Keeps : (uid n : ℕ) (o : Option (StatisticSubscriber p)) → Keeps (add_sent p uid n o)
  add_sent-Keeps uid n none r t s q = q
  add_sent-Keeps uid n (some sub) r t s q =
      then-Keeps (add_to p sub.send_bytes n)
        (λ x. update_subscriber p uid (λ b. record b { send_bytes = x }))
        (add_to-Keeps sub.send_bytes n)
        (λ x. update_subscriber-Keeps uid (λ b. record b { send_bytes = x })) r t s q

  add_total_sent-Keeps :
      (uid n : ℕ) (o : Option (StatisticSubscriber p)) → Keeps (add_total_sent p uid n o)
  add_total_sent-Keeps uid n none r t s q = q
  add_total_sent-Keeps uid n (some sub) r t s q =
      then-Keeps (add_to p sub.total_send_bytes n)
        (λ x. update_subscriber p uid (λ b. record b { total_send_bytes = x }))
        (add_to-Keeps sub.total_send_bytes n)
        (λ x. update_subscriber-Keeps uid (λ b. record b { total_send_bytes = x })) r t s q

  add_total_send_bytes-Totals :
      (n r t : ℕ) (s : StatisticsStream p)
      → Totals r t s
      → Returns (λ _ s'. Totals r (t + n) s') (add_total_send_bytes p n s)
  add_total_send_bytes-Totals n r t s q = branches (ltb (s.total_send_bytes + n) (2 ^ 64))
    where
      branches :
          (b : Bool)
          → Returns {E = ⊥} {A = Unit {0}}
              (λ _ s'. Totals r (t + n) s')
              (after {A = ℕ}
                (if b then ok (s.total_send_bytes + n) s else panic)
                (λ x. modify p (λ u. record u { total_send_bytes = x })))
      branches true = record { in_all = q.in_all; out_all = omega (arith, q.out_all) }
      branches false = tt

  add_total_recv_bytes-Totals :
      (n r t : ℕ) (s : StatisticsStream p)
      → Totals r t s
      → Returns (λ _ s'. Totals (r + n) t s') (add_total_recv_bytes p n s)
  add_total_recv_bytes-Totals n r t s q = branches (ltb (s.total_recv_bytes + n) (2 ^ 64))
    where
      branches :
          (b : Bool)
          → Returns {E = ⊥} {A = Unit {0}}
              (λ _ s'. Totals (r + n) t s')
              (after {A = ℕ}
                (if b then ok (s.total_recv_bytes + n) s else panic)
                (λ x. modify p (λ u. record u { total_recv_bytes = x })))
      branches true = record { in_all = omega (arith, q.in_all); out_all = q.out_all }
      branches false = tt

  add_raw_audio-Keeps : (n : ℕ) → Keeps (add_raw_audio p n)
  add_raw_audio-Keeps n r t s q =
      let a = s.stat_publisher.audio_info in
      then-Keeps (add_to p a.recv_bytes n) (λ x. set_audio p (record a { recv_bytes = x }))
        (add_to-Keeps a.recv_bytes n) (λ x. set_audio-Keeps (record a { recv_bytes = x })) r t s q

  add_audio_bytes-Keeps : (k n : ℕ) → Keeps (add_audio_bytes p k n)
  add_audio_bytes-Keeps k n r t s q = branches (k == 1)
    where
      branches :
          (b : Bool)
          → Returns {E = ⊥} {A = Unit {0}}
              (λ _ s'. Totals r t s')
              ((if b then add_raw_audio p n else ok tt) s)
      branches true = add_raw_audio-Keeps n r t s q
      branches false = q

  add_video_recv-Keeps : (n : ℕ) → Keeps (add_video_recv p n)
  add_video_recv-Keeps n r t s q =
      let v = s.stat_publisher.video_info in
      then-Keeps (add_to p v.recv_bytes n) (λ x. set_video p (record v { recv_bytes = x }))
        (add_to-Keeps v.recv_bytes n) (λ x. set_video-Keeps (record v { recv_bytes = x })) r t s q

  add_video_frames-Keeps : (n : ℕ) → Keeps (add_video_frames p n)
  add_video_frames-Keeps n r t s q =
      let v = s.stat_publisher.video_info in
      then-Keeps (add_to p v.recv_frame_count n)
        (λ x. set_video p (record v { recv_frame_count = x })) (add_to-Keeps v.recv_frame_count n)
        (λ x. set_video-Keeps (record v { recv_frame_count = x })) r t s q

  add_publisher_recv-Keeps : (n : ℕ) → Keeps (add_publisher_recv p n)
  add_publisher_recv-Keeps n r t s q =
      then-Keeps (add_to p s.stat_publisher.recv_bytes n)
        (λ x.
          modify p
            (λ u. record u { stat_publisher = record (u.stat_publisher) { recv_bytes = x } }))
        (add_to-Keeps s.stat_publisher.recv_bytes n)
        (λ x k m u z. record { in_all = z.in_all; out_all = z.out_all }) r t s q

  counters-Keeps :
      (n c : ℕ) → Keeps (add_video_recv p n >> (add_video_frames p c >> add_publisher_recv p n))
  counters-Keeps n c =
      then-Keeps (add_video_recv p n) (λ _. add_video_frames p c >> add_publisher_recv p n)
        (add_video_recv-Keeps n)
        (λ _.
          then-Keeps (add_video_frames p c) (λ _. add_publisher_recv p n) (add_video_frames-Keeps c)
            (λ _. add_publisher_recv-Keeps n))

  add_video_bytes-Totals :
      (n c r t : ℕ) (s : StatisticsStream p)
      → Totals r t s
      → Returns (λ _ s'. Totals (r + n) t s') (add_video_bytes p n c s)
  add_video_bytes-Totals n c r t s q =
      after-Returns (λ _ s'. Totals (r + n) t s') (λ _ s'. Totals (r + n) t s')
        (add_total_recv_bytes p n s)
        (λ _. add_video_recv p n >> (add_video_frames p c >> add_publisher_recv p n))
        (add_total_recv_bytes-Totals n r t s q) (λ _ s' u. counters-Keeps n c (r + n) t s' u)

  count_gop-Keeps : (k : Option Bool) (c : ℕ) → Keeps (count_gop p k c)
  count_gop-Keeps none c r t s q = q
  count_gop-Keeps (some true) c r t s q = set_video-Keeps _ r t s q
  count_gop-Keeps (some false) c r t s q =
      then-Keeps (add_to p s.stat_publisher.video_info.recv_frame_count_for_gop c) _
        (add_to-Keeps s.stat_publisher.video_info.recv_frame_count_for_gop c)
        (λ x.
          set_video-Keeps (record (s.stat_publisher.video_info) { recv_frame_count_for_gop = x }))
        r t s q

  Totals-zero : (r t : ℕ) (s : StatisticsStream p) → Totals r t s → Totals (r + 0) (t + 0) s
  Totals-zero r t s q = record {
    in_all = omega (arith, q.in_all);
    out_all = omega (arith, q.out_all);
  }

  receive_statistics-Totals :
      (d : StatisticData p) (r t : ℕ) (s : StatisticsStream p)
      → Totals r t s
      → Returns (λ _ s'. Totals (r + received_of d) (t + sent_of d) s') (receive_statistics p d s)
  unfolding receive_statistics
  receive_statistics-Totals (audio (some uid) n k d) r t s q =
      after-Returns (λ _ s'. Totals (r + 0) t s') _ (add_send_bytes p uid n s)
        (λ _. add_total_send_bytes p n)
        (add_sent-Keeps uid n (find uid s.subscribers) (r + 0) t s
          (record { in_all = omega (arith, q.in_all); out_all = q.out_all }))
        (λ _ s' u. add_total_send_bytes-Totals n (r + 0) t s' u)
  receive_statistics-Totals (audio none n k d) r t s q =
      after-Returns (λ _ s'. Totals r (t + 0) s') _ (add_audio_bytes p k n s)
        (λ _. add_total_recv_bytes p n)
        (add_audio_bytes-Keeps k n r (t + 0) s
          (record { in_all = q.in_all; out_all = omega (arith, q.out_all) }))
        (λ _ s' u. add_total_recv_bytes-Totals n r (t + 0) s' u)
  receive_statistics-Totals (video (some uid) n c k d) r t s q =
      after-Returns (λ _ s'. Totals (r + 0) t s') _ (add_send_bytes p uid n s)
        (λ _. add_total_send_bytes_of p uid n >> add_total_send_bytes p n)
        (add_sent-Keeps uid n (find uid s.subscribers) (r + 0) t s
          (record { in_all = omega (arith, q.in_all); out_all = q.out_all }))
        (λ _ s' u.
          after-Returns (λ _ s₂. Totals (r + 0) t s₂) _ (add_total_send_bytes_of p uid n s')
            (λ _. add_total_send_bytes p n)
            (add_total_sent-Keeps uid n (find uid s'.subscribers) (r + 0) t s' u)
            (λ _ s₂ v. add_total_send_bytes-Totals n (r + 0) t s₂ v))
  receive_statistics-Totals (video none n c k d) r t s q =
      after-Returns (λ _ s'. Totals (r + n) (t + 0) s') _ (add_video_bytes p n c s)
        (λ _. count_gop p k c)
        (add_video_bytes-Totals n c r (t + 0) s
          (record { in_all = q.in_all; out_all = omega (arith, q.out_all) }))
        (λ _ s' u. count_gop-Keeps k c (r + n) (t + 0) s' u)
  receive_statistics-Totals (audio_codec f pr sr ch) r t s q =
      set_audio-Keeps _ (r + 0) (t + 0) s (Totals-zero r t s q)
  receive_statistics-Totals (video_codec c pr l w h) r t s q =
      set_video-Keeps _ (r + 0) (t + 0) s (Totals-zero r t s q)
  receive_statistics-Totals (publisher id a st) r t s q = record {
    in_all = omega (arith, q.in_all);
    out_all = omega (arith, q.out_all);
  }
  receive_statistics-Totals (subscriber id a ty st) r t s q = record {
    in_all = omega (arith, q.in_all);
    out_all = omega (arith, q.out_all);
  }

  -- Whatever data the publisher and the subscribers submit, if no counter overflows its 64 bits: the
  -- total of the bytes received grows by the sizes of the publisher's audio and video data, that
  -- of the bytes sent by those of the subscribers'.
  pub receive_all-received_sent :
      (ds : List (StatisticData p)) (s : StatisticsStream p)
      → Returns
          (λ _ s'.
            (s'.total_recv_bytes ≡ s.total_recv_bytes + received ds)
            × (s'.total_send_bytes ≡ s.total_send_bytes + sent ds))
          (receive_all ds s)
  unfolding receive_all received sent
  receive_all-received_sent [] s = (omega arith, omega arith)
  receive_all-received_sent (d ∷ ds) s =
      after-Returns
        (λ _ s'. Totals (s.total_recv_bytes + received_of d) (s.total_send_bytes + sent_of d) s') _
        (receive_statistics p d s) (λ _. receive_all ds)
        (receive_statistics-Totals d s.total_recv_bytes s.total_send_bytes s
          (record { in_all = refl; out_all = refl }))
        (λ _ s₁ q.
          Returns-mono
            (λ _ s'.
              (s'.total_recv_bytes ≡ s₁.total_recv_bytes + received ds)
              × (s'.total_send_bytes ≡ s₁.total_send_bytes + sent ds))
            _ (receive_all ds s₁) (receive_all-received_sent ds s₁)
            (λ _ s' e. (omega (arith, e.0, q.in_all), omega (arith, e.1, q.out_all))))
