-- ===== src/Hub/FanOut.antt =====
-- library/streamhub/src/lib.rs: the frames that the subscribers of a stream get.
use xiu.Prelude.{
  ℕ, ◌≡◌, refl, sym, ap, ◌∙◌, List, [], ◌∷◌, ◌++◌, append-nil, append_assoc, true, false, some, inl,
  inr, Bool-cases, All, ◌==◌, ==_iff, if◌then◌else◌, arith,
}
use xiu.Prelude.Maps.{has, keys, values}
use xiu.Prelude.Keys.{Distinct, not-has-cons}
use xiu.Hub.Platform.{Platform}
use xiu.Hub.Define.{FrameData, audio_frame, video_frame, meta_data, media, uuid_eq}
use xiu.Hub.Transceiver.{Tasks, send_all, send_frame, receive_frame_data}

-- What is handed on of a publisher's frames: all but the metadata.
unfoldable pub forwarded : List FrameData → List FrameData
forwarded [] = []
forwarded (meta_data timestamp bytes ∷ fs) = forwarded fs
forwarded (audio_frame timestamp bytes ∷ fs) = audio_frame timestamp bytes ∷ forwarded fs
forwarded (video_frame timestamp bytes ∷ fs) = video_frame timestamp bytes ∷ forwarded fs
forwarded (media info ∷ fs) = media info ∷ forwarded fs

module _ (p : Platform) where
  -- `receive_frame_data_loop`, for the frames that come.
  unfoldable pub receive_frames : List FrameData → Tasks p → Tasks p
  receive_frames [] t = t
  receive_frames (f ∷ fs) t = receive_frames fs (receive_frame_data p (some f) t)

  module _ (queue : ℕ → p.World → List FrameData) where
    -- A sender puts what is sent into the queue of its own subscriber, and no other.
    abbrev pub IsChannel : ℕ × p.Sender FrameData → Type 0
    IsChannel (id, s) =
        (f : FrameData) (w : p.World) (k : ℕ)
        → queue k (p.send FrameData s f w).1 ≡ (if id == k then queue k w ++ f ∷ [] else queue k w)

    send_all-absent :
        (k : ℕ) (f : FrameData) (m : List (ℕ × p.Sender FrameData)) (w : p.World)
        → All IsChannel m
        → has k (keys m) ≡ false
        → queue k (send_all p (values m) f w) ≡ queue k w
    unfolding send_all
    send_all-absent k f [] w c n = refl
    send_all-absent k f ((id, s) ∷ m) w c n =
        let parts = not-has-cons k id (keys m) n in
        send_all-absent k f m (p.send FrameData s f w).1 c.1 parts.1 ∙ c.0 f w k ∙ rw parts.0 refl

    send_all-present :
        (k : ℕ) (f : FrameData) (m : List (ℕ × p.Sender FrameData)) (w : p.World)
        → All IsChannel m
        → Distinct (keys m)
        → has k (keys m) ≡ true
        → queue k (send_all p (values m) f w) ≡ queue k w ++ f ∷ []
    unfolding send_all
    send_all-present k f [] w c d y = absurd (nowhere y)
      where
        nowhere : false ≡ true → ⊥
        nowhere h = ground arith
    send_all-present k f ((id, s) ∷ m) w c d y = elim (Bool-cases (id == k)) [
      | inl own ↦
          send_all-absent k f m (p.send FrameData s f w).1 c.1 (rw⁻¹ ((==_iff id k).0 own) d.0)
          ∙ c.0 f w k
          ∙ rw own refl
      | inr other ↦
          send_all-present k f m (p.send FrameData s f w).1 c.1 d.1 (sym (rw other refl) ∙ y)
          ∙ ap (λ q. q ++ f ∷ []) (c.0 f w k ∙ rw other refl)
    ]

    send_frame-queue :
        (k : ℕ) (f : FrameData) (t : Tasks p) (rest : List FrameData)
        → All IsChannel t.frame_senders
        → Distinct (keys t.frame_senders)
        → has k (keys t.frame_senders) ≡ true
        → queue k (send_frame p f t).world ++ rest ≡ queue k t.world ++ f ∷ rest
    send_frame-queue k f t rest c d y =
        ap (λ q. q ++ rest) (send_all-present k f t.frame_senders t.world c d y)
        ∙ append_assoc (queue k t.world) (f ∷ []) rest

    -- If each sender is the one of its own subscriber, and none is registered twice: whatever a
    -- publisher sends, each subscriber gets, behind what it had, the audio and video frames and the
    -- media infos, each once and in the order in which they were sent, and no metadata.
    pub receive_frames-forwarded :
        (fs : List FrameData) (t : Tasks p) (k : ℕ)
        → All IsChannel t.frame_senders
        → Distinct (keys t.frame_senders)
        → has k (keys t.frame_senders) ≡ true
        → queue k (receive_frames fs t).world ≡ queue k t.world ++ forwarded fs
    unfolding receive_frames forwarded receive_frame_data
    receive_frames-forwarded [] t k c d y = sym (append-nil (queue k t.world))
    receive_frames-forwarded (meta_data timestamp bytes ∷ fs) t k c d y =
        receive_frames-forwarded fs t k c d y
    receive_frames-forwarded (audio_frame timestamp bytes ∷ fs) t k c d y =
        let f = audio_frame timestamp bytes in
        receive_frames-forwarded fs (send_frame p f t) k c d y
        ∙ send_frame-queue k f t (forwarded fs) c d y
    receive_frames-forwarded (video_frame timestamp bytes ∷ fs) t k c d y =
        let f = video_frame timestamp bytes in
        receive_frames-forwarded fs (send_frame p f t) k c d y
        ∙ send_frame-queue k f t (forwarded fs) c d y
    receive_frames-forwarded (media info ∷ fs) t k c d y =
        let f = media info in
        receive_frames-forwarded fs (send_frame p f t) k c d y
        ∙ send_frame-queue k f t (forwarded fs) c d y
