-- ===== src/Message/Define/MsgTypeId.antt =====
-- protocol/rtmp/src/messages/define.rs: `msg_type_id`.
use xiu.Prelude.{ℕ}

abbrev pub audio : ℕ
audio = 8

abbrev pub video : ℕ
video = 9

abbrev pub set_chunk_size : ℕ
set_chunk_size = 1

abbrev pub abort : ℕ
abort = 2

abbrev pub acknowledgement : ℕ
acknowledgement = 3

abbrev pub user_control_event : ℕ
user_control_event = 4

abbrev pub win_acknowledgement_size : ℕ
win_acknowledgement_size = 5

abbrev pub set_peer_bandwidth : ℕ
set_peer_bandwidth = 6

abbrev pub command_amf3 : ℕ
command_amf3 = 17

abbrev pub command_amf0 : ℕ
command_amf0 = 20

abbrev pub data_amf3 : ℕ
data_amf3 = 15

abbrev pub data_amf0 : ℕ
data_amf0 = 18
