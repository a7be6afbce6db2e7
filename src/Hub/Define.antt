-- ===== src/Hub/Define.antt =====
-- library/streamhub/src/define.rs and stream.rs: the data that goes through the hub. A string is its
-- bytes and a `Uuid` a number.
use xiu.Prelude.{ℕ, ◌≡◌, refl, ap, [], ◌∷◌, Bool, true, false, ◌&&◌, Option, ◌==◌, ==_iff, arith}
use xiu.Prelude.Words.{Bytes}
use xiu.Prelude.Maps.{Eq}
use xiu.Hub.Platform.{Platform}

pub data StreamIdentifier : Type 0 where
  unkonwn : StreamIdentifier
  rtmp : Bytes → Bytes → StreamIdentifier
  rtsp : Bytes → StreamIdentifier
  web_rtc : Bytes → Bytes → StreamIdentifier

pub data SubscribeType : Type 0 where
  rtmp_pull rtmp_remux2_http_flv rtmp_remux2_hls sub_rtmp_relay rtsp_pull rtsp_remux2_rtmp
        sub_rtsp_relay whep_pull web_rtc_remux2_rtmp whip_relay rtp_pull :
      SubscribeType

pub data PublishType : Type 0 where
  rtmp_push pub_rtmp_relay rtsp_push pub_rtsp_relay whip_push whep_relay rtp_push : PublishType

pub record NotifyInfo : Type 0 where
  pub request_url : Bytes
  pub remote_addr : Bytes

pub data SubDataType : Type 0 where
  sub_frame sub_packet : SubDataType

pub data PubDataType : Type 0 where
  pub_frame pub_packet pub_both : PubDataType

pub record SubscriberInfo : Type 0 where
  pub id : ℕ
  pub sub_type : SubscribeType
  pub notify_info : NotifyInfo
  pub sub_data_type : SubDataType

pub record PublisherInfo : Type 0 where
  pub id : ℕ
  pub pub_type : PublishType
  pub pub_data_type : PubDataType
  pub notify_info : NotifyInfo

pub data VideoCodecType : Type 0 where
  h264 h265 : VideoCodecType

pub record MediaInfo : Type 0 where
  pub audio_clock_rate : ℕ
  pub video_clock_rate : ℕ
  pub vcodec : VideoCodecType

pub data FrameData : Type 0 where
  video_frame : ℕ → Bytes → FrameData
  audio_frame : ℕ → Bytes → FrameData
  meta_data : ℕ → Bytes → FrameData
  media : MediaInfo → FrameData

pub data PacketData : Type 0 where
  video_packet : ℕ → Bytes → PacketData
  audio_packet : ℕ → Bytes → PacketData

pub data Information : Type 0 where
  sdp : Bytes → Information

pub data RelayType : Type 0 where
  relay_pull relay_push : RelayType

-- The duration, an i64, is its bits.
pub record Segment : Type 0 where
  pub duration : ℕ
  pub discontinuity : Bool
  pub name : Bytes
  pub path : Bytes
  pub is_eof : Bool

-- The variants of StreamHubErrorValue (errors.rs) that the hub returns itself; `recv_error` is the
-- one for a oneshot whose sender is gone, `serde_error` the one of serde_json.
pub data StreamHubError : Type 0 where
  no_app_name no_app_or_stream_name exists send_error recv_error serde_error : StreamHubError

-- The derived `PartialEq`s.
abbrev pub eq_bytes : Bytes → Bytes → Bool
eq_bytes [] [] = true
eq_bytes [] (y ∷ ys) = false
eq_bytes (x ∷ xs) [] = false
eq_bytes (x ∷ xs) (y ∷ ys) = x == y && eq_bytes xs ys

abbrev pub eq_identifier : StreamIdentifier → StreamIdentifier → Bool
eq_identifier unkonwn unkonwn = true
eq_identifier (rtmp a s) (rtmp b t) = eq_bytes a b && eq_bytes s t
eq_identifier (rtsp s) (rtsp t) = eq_bytes s t
eq_identifier (web_rtc a s) (web_rtc b t) = eq_bytes a b && eq_bytes s t
eq_identifier _ _ = false

and-true : (b c : Bool) → (b && c) ≡ true → (b ≡ true) × (c ≡ true)
and-true true true h = (refl, refl)
and-true true false h = (refl, h)
and-true false c h = ground arith

eq_bytes_sound : (xs ys : Bytes) → eq_bytes xs ys ≡ true → xs ≡ ys
eq_bytes_sound [] [] h = refl
eq_bytes_sound [] (y ∷ ys) h = ground arith
eq_bytes_sound (x ∷ xs) [] h = ground arith
eq_bytes_sound (x ∷ xs) (y ∷ ys) h =
    let both = and-true (x == y) (eq_bytes xs ys) h in
    rw ((==_iff x y).0 both.0, eq_bytes_sound xs ys both.1)

eq_bytes_refl : (xs : Bytes) → eq_bytes xs xs ≡ true
eq_bytes_refl [] = refl
eq_bytes_refl (x ∷ xs) = rw ((==_iff x x).1 refl, eq_bytes_refl xs)

pub eq_identifier_sound : (a b : StreamIdentifier) → eq_identifier a b ≡ true → a ≡ b
eq_identifier_sound unkonwn unkonwn h = refl
eq_identifier_sound (rtmp a s) (rtmp b t) h =
    let both = and-true (eq_bytes a b) (eq_bytes s t) h in
    rw (eq_bytes_sound a b both.0, eq_bytes_sound s t both.1)
eq_identifier_sound (rtsp s) (rtsp t) h = ap rtsp (eq_bytes_sound s t h)
eq_identifier_sound (web_rtc a s) (web_rtc b t) h =
    let both = and-true (eq_bytes a b) (eq_bytes s t) h in
    rw (eq_bytes_sound a b both.0, eq_bytes_sound s t both.1)
eq_identifier_sound unkonwn (rtmp b t) h = ground arith
eq_identifier_sound unkonwn (rtsp t) h = ground arith
eq_identifier_sound unkonwn (web_rtc b t) h = ground arith
eq_identifier_sound (rtmp a s) unkonwn h = ground arith
eq_identifier_sound (rtmp a s) (rtsp t) h = ground arith
eq_identifier_sound (rtmp a s) (web_rtc b t) h = ground arith
eq_identifier_sound (rtsp s) unkonwn h = ground arith
eq_identifier_sound (rtsp s) (rtmp b t) h = ground arith
eq_identifier_sound (rtsp s) (web_rtc b t) h = ground arith
eq_identifier_sound (web_rtc a s) unkonwn h = ground arith
eq_identifier_sound (web_rtc a s) (rtmp b t) h = ground arith
eq_identifier_sound (web_rtc a s) (rtsp t) h = ground arith

pub eq_identifier_refl : (a : StreamIdentifier) → eq_identifier a a ≡ true
eq_identifier_refl unkonwn = refl
eq_identifier_refl (rtmp a s) = rw (eq_bytes_refl a, eq_bytes_refl s)
eq_identifier_refl (rtsp s) = eq_bytes_refl s
eq_identifier_refl (web_rtc a s) = rw (eq_bytes_refl a, eq_bytes_refl s)

instance abbrev pub identifier_eq : Eq StreamIdentifier
identifier_eq = record {
  eq = eq_identifier;
  eq_iff = λ a b. (eq_identifier_sound a b, λ h. rw h (eq_identifier_refl b));
}

instance abbrev pub uuid_eq : Eq ℕ
uuid_eq = record { eq = ◌==◌; eq_iff = ==_iff }

-- What is sent to the statistics of a stream. The codecs, profiles and levels, enums of
-- container/flv, are their positions in these enums.
pub data StatisticData (p : Platform) : Type 0 where
  audio_codec : ℕ → ℕ → ℕ → ℕ → StatisticData p
  video_codec : ℕ → ℕ → ℕ → ℕ → ℕ → StatisticData p
  audio : Option ℕ → ℕ → ℕ → ℕ → StatisticData p
  video : Option ℕ → ℕ → ℕ → Option Bool → ℕ → StatisticData p
  publisher : ℕ → Bytes → p.DateTime → StatisticData p
  subscriber : ℕ → Bytes → SubscribeType → p.DateTime → StatisticData p
