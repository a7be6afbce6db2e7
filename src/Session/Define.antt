-- ===== src/Session/Define.antt =====
-- protocol/rtmp/src/session/define.rs and errors.rs: constants, states and errors.
use xiu.Prelude.{ℕ}
use xiu.Prelude.Words.{Bytes}
use xiu.Prelude.Text.{codes}
use xiu.Bytesio.Writer.{WriteError}
use xiu.Hub.Define.{StreamIdentifier, SubscriberInfo, PublisherInfo, StreamHubError}
use xiu.Message.NetWriter.{NetError}
use xiu.Message.Parser.{MessageError}

abbrev pub window_acknowledgement_size : ℕ
window_acknowledgement_size = 4096

abbrev pub peer_bandwidth : ℕ
peer_bandwidth = 4096

-- `peer_bandwidth_limit_type::DYNAMIC`
abbrev pub dynamic : ℕ
dynamic = 2

abbrev pub fmsver : Bytes
fmsver = codes "FMS/3,0,1,123"

-- 31.0, 0.0 and 1.0, by their bits.
abbrev pub capabilities : ℕ
capabilities = 0x403f000000000000

abbrev pub objencoding_amf0 : ℕ
objencoding_amf0 = 0

abbrev pub stream_id : ℕ
stream_id = 0x3ff0000000000000

abbrev pub level : Bytes
level = codes "status"

pub data SessionType : Type 0 where
  client server : SessionType

pub data ServerSessionState : Type 0 where
  handshake read_chunk delete_stream play : ServerSessionState

-- The errors that the modelled calls return, `ControlMessagesError` and `EventMessagesError` by the
-- one variant that a writer has.
pub data SessionError : Type 0 where
  message_error : MessageError → SessionError
  control_messages_error event_messages_error : WriteError → SessionError
  net_connection_error net_stream_error : NetError → SessionError
  cache_error recv_error amf0_value_count_not_correct stream_hub_event_send_err send_frame_data_err
        no_app_name auth_error :
      SessionError
  channel_error : StreamHubError → SessionError

-- The events of the hub that a session sends. The sender of the answer is left out, and the handler,
-- which is the session's.
pub data SessionEvent : Type 0 where
  subscribe un_subscribe : StreamIdentifier → SubscriberInfo → SessionEvent
  publish un_publish : StreamIdentifier → PublisherInfo → SessionEvent
