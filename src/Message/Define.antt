-- ===== src/Message/Define.antt =====
-- protocol/rtmp/src/messages/define.rs: the parsed messages, and the numbers of their types.
pub mod MsgTypeId
use xiu.Prelude.{ℕ, List}
use xiu.Prelude.Words.{Bytes}
use xiu.Amf0.Value.{Amf0ValueType}

pub record SetPeerBandwidthProperties : Type 0 where
  pub window_size : ℕ
  pub limit_type : ℕ

-- A command has its name, its transaction id, its object and the other values.
pub data RtmpMessageData : Type 0 where
  amf0_command :
      Amf0ValueType → Amf0ValueType → Amf0ValueType → List Amf0ValueType → RtmpMessageData
  amf_data : Bytes → RtmpMessageData
  set_chunk_size abort_message acknowledgement window_acknowledgement_size : ℕ → RtmpMessageData
  set_peer_bandwidth : SetPeerBandwidthProperties → RtmpMessageData
  audio_data video_data : Bytes → RtmpMessageData
  set_buffer_length : ℕ → ℕ → RtmpMessageData
  stream_begin stream_is_recorded : ℕ → RtmpMessageData
  unknow : RtmpMessageData
