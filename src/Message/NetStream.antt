-- ===== src/Message/NetStream.antt =====
-- protocol/rtmp/src/netstream/writer.rs: `NetStreamWriter`. `insert` is the method of `IndexMap`;
-- `taken` says whether the network takes the packet.
use xiu.Prelude.{ℕ, Bool, ◌>>◌}
use xiu.Prelude.Words.{Bytes}
use xiu.Prelude.Text.{codes}
use xiu.Amf0.Value.{Amf0ValueType, object, Properties}
use xiu.Amf0.Writer.{write_string, write_number, write_null, write_bool, write_any}
use xiu.Message.NetWriter.{Net, amf, write_chunk}
use xiu.Message.NetConnection.{status_map}

unfoldable pub write_play : Bool → ℕ → Bytes → ℕ → ℕ → Bool → Net (Unit {0})
write_play taken transaction_id stream_name start duration reset = do
  amf (write_string (codes "play"))
  amf (write_number transaction_id)
  amf write_null
  amf (write_string stream_name)
  amf (write_number start)
  amf (write_number duration)
  amf (write_bool reset)
  write_chunk taken 0

unfoldable pub write_delete_stream : Bool → ℕ → ℕ → Net (Unit {0})
write_delete_stream taken transaction_id stream_id = do
  amf (write_string (codes "deleteStream"))
  amf (write_number transaction_id)
  amf write_null
  amf (write_number stream_id)
  write_chunk taken 0

unfoldable pub write_close_stream : Bool → ℕ → ℕ → Net (Unit {0})
write_close_stream taken transaction_id stream_id = do
  amf (write_string (codes "closeStream"))
  amf (write_number transaction_id)
  amf write_null
  amf (write_number stream_id)
  write_chunk taken 0

unfoldable pub write_release_stream : Bool → ℕ → Bytes → Net (Unit {0})
write_release_stream taken transaction_id stream_name = do
  amf (write_string (codes "releaseStream"))
  amf (write_number transaction_id)
  amf write_null
  amf (write_string stream_name)
  write_chunk taken 0

unfoldable pub write_fcpublish : Bool → ℕ → Bytes → Net (Unit {0})
write_fcpublish taken transaction_id stream_name = do
  amf (write_string (codes "FCPublish"))
  amf (write_number transaction_id)
  amf write_null
  amf (write_string stream_name)
  write_chunk taken 0

unfoldable pub write_receive_audio : Bool → ℕ → Bool → Net (Unit {0})
write_receive_audio taken transaction_id enable = do
  amf (write_string (codes "receiveAudio"))
  amf (write_number transaction_id)
  amf write_null
  amf (write_bool enable)
  write_chunk taken 0

unfoldable pub write_receive_video : Bool → ℕ → Bool → Net (Unit {0})
write_receive_video taken transaction_id enable = do
  amf (write_string (codes "receiveVideo"))
  amf (write_number transaction_id)
  amf write_null
  amf (write_bool enable)
  write_chunk taken 0

unfoldable pub write_publish : Bool → ℕ → Bytes → Bytes → Net (Unit {0})
write_publish taken transaction_id stream_name stream_type = do
  amf (write_string (codes "publish"))
  amf (write_number transaction_id)
  amf write_null
  amf (write_string stream_name)
  amf (write_string stream_type)
  write_chunk taken 0

unfoldable pub write_seek : Bool → ℕ → ℕ → Net (Unit {0})
write_seek taken transaction_id ms = do
  amf (write_string (codes "seek"))
  amf (write_number transaction_id)
  amf write_null
  amf (write_number ms)
  write_chunk taken 0

unfoldable pub write_pause : Bool → ℕ → Bool → ℕ → Net (Unit {0})
write_pause taken transaction_id pause ms = do
  amf (write_string (codes "pause"))
  amf (write_number transaction_id)
  amf write_null
  amf (write_bool pause)
  amf (write_number ms)
  write_chunk taken 0

unfoldable pub write_on_bw_done : Bool → ℕ → ℕ → Net (Unit {0})
write_on_bw_done taken transaction_id bandwidth = do
  amf (write_string (codes "onBWDone"))
  amf (write_number transaction_id)
  amf write_null
  amf (write_number bandwidth)
  write_chunk taken 0

-- The one command on message stream 1.
unfoldable pub write_on_status :
    (Bytes → Amf0ValueType → Properties → Properties)
    → Bool
    → ℕ
    → Bytes
    → Bytes
    → Bytes
    → Net (Unit {0})
unfolding status_map write_any
write_on_status insert taken transaction_id level code description = do
  amf (write_string (codes "onStatus"))
  amf (write_number transaction_id)
  amf write_null
  amf (write_any (object (status_map insert level code description)))
  write_chunk taken 1
