-- ===== src/Message/Command.antt =====
-- The calls of `NetConnection` and `NetStreamWriter`, with what each writes.
use xiu.Prelude.{ℕ, List, [], ◌∷◌, Bool, ◌>>◌, ◌≡◌, refl}
use xiu.Prelude.Words.{Bytes}
use xiu.Prelude.Text.{codes}
use xiu.Amf0.Value.{Amf0ValueType, number, boolean, utf8_string, object, null, Properties}
use xiu.Amf0.Writer.{write_any}
use xiu.Message.NetWriter.{Net, amf, write_chunk}
use xiu.Message.NetConnection.{
  ConnectProperties, connect_map, fms_map, status_map, write_connect_with_value, write_connect,
  write_connect_response, write_create_stream, write_create_stream_response,
  write_get_stream_length, error,
}
use xiu.Message.NetStream.{
  write_play, write_delete_stream, write_close_stream, write_release_stream, write_fcpublish,
  write_receive_audio, write_receive_video, write_publish, write_seek, write_pause,
  write_on_bw_done, write_on_status,
}

-- A call, but for its transaction id.
pub data Command : Type 0 where
  connect_with : Properties → Command
  connect : ConnectProperties → Command
  connect_response : Bytes → ℕ → Bytes → Bytes → Bytes → ℕ → Command
  create_stream : Command
  create_stream_response : ℕ → Command
  get_stream_length : Bytes → Command
  failure : Bytes → Bytes → Bytes → Command
  play : Bytes → ℕ → ℕ → Bool → Command
  delete_stream close_stream : ℕ → Command
  release_stream fc_publish : Bytes → Command
  receive_audio receive_video : Bool → Command
  publish : Bytes → Bytes → Command
  seek : ℕ → Command
  pause : Bool → ℕ → Command
  on_bw_done : ℕ → Command
  on_status : Bytes → Bytes → Bytes → Command

abbrev pub name_of : Command → Bytes
name_of (connect_with ps) = codes "connect"
name_of (connect p) = codes "connect"
name_of (connect_response f c code l d e) = codes "_result"
name_of create_stream = codes "createStream"
name_of (create_stream_response id) = codes "_result"
name_of (get_stream_length name) = codes "getStreamLength"
name_of (failure code l d) = codes "_error"
name_of (play name start duration reset) = codes "play"
name_of (delete_stream id) = codes "deleteStream"
name_of (close_stream id) = codes "closeStream"
name_of (release_stream name) = codes "releaseStream"
name_of (fc_publish name) = codes "FCPublish"
name_of (receive_audio b) = codes "receiveAudio"
name_of (receive_video b) = codes "receiveVideo"
name_of (publish name type) = codes "publish"
name_of (seek ms) = codes "seek"
name_of (pause b ms) = codes "pause"
name_of (on_bw_done n) = codes "onBWDone"
name_of (on_status l code d) = codes "onStatus"

abbrev pub stream_of : Command → ℕ
stream_of (on_status l code d) = 1
stream_of _ = 0

abbrev pub put_all : List Amf0ValueType → Net (Unit {0}) → Net (Unit {0})
put_all [] m = m
put_all (v ∷ vs) m = amf (write_any v) >> put_all vs m

module _ (insert : Bytes → Amf0ValueType → Properties → Properties) where
  unfoldable pub run : Bool → ℕ → Command → Net (Unit {0})
  unfolding write_connect_with_value write_connect write_connect_response write_create_stream
      write_create_stream_response write_get_stream_length error write_play write_delete_stream
      write_close_stream write_release_stream write_fcpublish write_receive_audio
      write_receive_video write_publish write_seek write_pause write_on_bw_done write_on_status
  run k t (connect_with ps) = write_connect_with_value k t ps
  run k t (connect p) = write_connect insert k t p
  run k t (connect_response f c code l d e) = write_connect_response insert k t f c code l d e
  run k t create_stream = write_create_stream k t
  run k t (create_stream_response id) = write_create_stream_response k t id
  run k t (get_stream_length name) = write_get_stream_length k t name
  run k t (failure code l d) = error insert k t code l d
  run k t (play name start duration reset) = write_play k t name start duration reset
  run k t (delete_stream id) = write_delete_stream k t id
  run k t (close_stream id) = write_close_stream k t id
  run k t (release_stream name) = write_release_stream k t name
  run k t (fc_publish name) = write_fcpublish k t name
  run k t (receive_audio b) = write_receive_audio k t b
  run k t (receive_video b) = write_receive_video k t b
  run k t (publish name type) = write_publish k t name type
  run k t (seek ms) = write_seek k t ms
  run k t (pause b ms) = write_pause k t b ms
  run k t (on_bw_done n) = write_on_bw_done k t n
  run k t (on_status l code d) = write_on_status insert k t l code d

  -- The command object: null for all calls but three.
  abbrev pub object_of : Command → Amf0ValueType
  object_of (connect_with ps) = object ps
  object_of (connect p) = object (connect_map insert p)
  object_of (connect_response f c code l d e) = object (fms_map insert f c)
  object_of _ = null

  abbrev pub others_of : Command → List Amf0ValueType
  others_of (connect_response f c code l d e) =
      object (insert (codes "objectEncoding") (number e) (status_map insert l code d)) ∷ []
  others_of (create_stream_response id) = number id ∷ []
  others_of (get_stream_length name) = utf8_string name ∷ []
  others_of (failure code l d) = object (status_map insert l code d) ∷ []
  others_of (play name start duration reset) =
      utf8_string name ∷ number start ∷ number duration ∷ boolean reset ∷ []
  others_of (delete_stream id) = number id ∷ []
  others_of (close_stream id) = number id ∷ []
  others_of (release_stream name) = utf8_string name ∷ []
  others_of (fc_publish name) = utf8_string name ∷ []
  others_of (receive_audio b) = boolean b ∷ []
  others_of (receive_video b) = boolean b ∷ []
  others_of (publish name type) = utf8_string name ∷ utf8_string type ∷ []
  others_of (seek ms) = number ms ∷ []
  others_of (pause b ms) = boolean b ∷ number ms ∷ []
  others_of (on_bw_done n) = number n ∷ []
  others_of (on_status l code d) = object (status_map insert l code d) ∷ []
  others_of _ = []

  abbrev pub values_of : ℕ → Command → List Amf0ValueType
  values_of t c = utf8_string (name_of c) ∷ number t ∷ object_of c ∷ others_of c

  pub run-put_all :
      (k : Bool) (t : ℕ) (c : Command)
      → run k t c ≡ put_all (values_of t c) (write_chunk k (stream_of c))
  unfolding run write_any
  run-put_all k t (connect_with ps) = refl
  run-put_all k t (connect p) = refl
  run-put_all k t (connect_response f x code l d e) = refl
  run-put_all k t create_stream = refl
  run-put_all k t (create_stream_response id) = refl
  run-put_all k t (on_status l code d) = refl
  run-put_all k t _ = refl
