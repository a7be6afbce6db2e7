-- ===== src/Session/Commands.antt =====
-- protocol/rtmp/src/session/server_session.rs: the handlers of `ServerSession`, from a parsed message
-- on. `auth` is its `Auth`, by what `authenticate` says.
use xiu.Prelude.{
  ℕ, [], ◌∷◌, ◌++◌, Bool, true, false, ◌||◌, ◌==◌, Option, none, some, if◌then◌else◌, List, Outcome,
  ok, err, panic, stuck, ◌>>◌, length,
}
use xiu.Prelude.Words.{Bytes}
use xiu.Prelude.Bits.{low_bits}
use xiu.Bytesio.Reader.{BytesReader}
use xiu.Prelude.Text.{codes}
use xiu.Amf0.Value.{Amf0ValueType, number, utf8_string, object, Properties, no_properties}
use xiu.Chunk.Header.{ChunkInfo}
use xiu.Chunk.Unpack.State.{update_max_chunk_size}
use xiu.Hub.Define.{eq_bytes}
use xiu.Message.Define.{
  RtmpMessageData, amf0_command, amf_data, set_chunk_size, audio_data, video_data,
}
use xiu.Message.Control.{write_window_acknowledgement_size, write_set_peer_bandwidth}
use xiu.Message.Event.{write_stream_begin, write_stream_is_record}
use xiu.Message.NetWriter.{Net}
use xiu.Message.NetConnection.{write_connect_response, write_create_stream_response}
use xiu.Message.NetStream.{write_on_status}
use xiu.Message.Parser.{MessageError, parse}
use xiu.Session.Url.{
  RtmpUrlParser, RtmpUrlParseError, split, first_part, parse_stream_name_with_query, parse_url,
}
use xiu.Session.Url as Url
use xiu.Session.Define.{
  ServerSessionState, fmsver, capabilities, objencoding_amf0, stream_id, level,
  window_acknowledgement_size, peer_bandwidth, dynamic, play, delete_stream, message_error,
  control_messages_error, event_messages_error, net_connection_error, net_stream_error,
  amf0_value_count_not_correct, no_app_name, auth_error,
}
use xiu.Session.Common.{
  Surroundings, subscribe_from_stream_hub, publish_to_stream_hub, unpublish_to_stream_hub,
  on_video_data, on_audio_data, on_meta_data,
}
use xiu.Session.Server.{
  Handle, parse_connect_properties, get, with_control, told, with_net, with_common,
}

abbrev pub server_push : ℕ
server_push = 4

abbrev pub server_pull : ℕ
server_pull = 8

-- The encoding that a connect command asks for.
abbrev pub encoding_of : Option Amf0ValueType → ℕ
encoding_of (some (number encoding)) = encoding
encoding_of _ = objencoding_amf0

-- The `?` and the `/` of a URL.
abbrev pub is_url_sep : ℕ → Bool
is_url_sep x = (x == 63) || (x == 47)

-- The first value of `play`, of a command with less than 256 values.
abbrev pub stream_name_of : List Amf0ValueType → Option Bytes
stream_name_of (utf8_string name ∷ others) = some name
stream_name_of _ = none

abbrev pub text_or_empty : Amf0ValueType → Bytes
text_or_empty (utf8_string s) = s
text_or_empty _ = []

abbrev pub number_or_zero : Amf0ValueType → ℕ
number_or_zero (number n) = n
number_or_zero _ = 0

abbrev pub object_or_empty : Amf0ValueType → Properties
object_or_empty (object ps) = ps
object_or_empty _ = no_properties

-- Without an `Auth` everything is admitted.
abbrev pub admits : Option (Bytes → Option Bytes → Bool → Bool) → Bytes → Option Bytes → Bool → Bool
admits none name query is_pull = true
admits (some authenticate) name query is_pull = authenticate name query is_pull

module _ (around : Surroundings) (taken : List Bytes → Bool)
    (insert : Bytes → Amf0ValueType → Properties → Properties)
    (auth : Option (Bytes → Option Bytes → Bool → Bool)) (gop_num : ℕ) where
  abbrev pub Do : Type 0
  Do = Handle around taken

  -- `if let Some(auth) = &self.auth { auth.authenticate(…)? }`
  unfoldable pub authenticate : Bool → Do
  authenticate is_pull s =
      if admits auth s.stream_name s.query is_pull then ok tt s else err auth_error s

  abbrev pub set_app_name : Option Amf0ValueType → Do
  set_app_name (some (utf8_string app)) s =
      ok tt (record s { app_name = first_part (split is_url_sep app) })
  set_app_name _ s = err no_app_name s

  unfoldable pub note_properties : Properties → Do
  unfolding parse_connect_properties
  note_properties command_obj s =
      ok tt (record s {
        connect_properties = parse_connect_properties command_obj s.connect_properties;
      })

  abbrev pub offer_window : Do
  offer_window =
      with_control around taken control_messages_error
        (λ b. write_window_acknowledgement_size b window_acknowledgement_size)

  abbrev pub offer_bandwidth : Do
  offer_bandwidth =
      with_control around taken control_messages_error
        (λ b. write_set_peer_bandwidth b peer_bandwidth dynamic)

  abbrev pub answer_connect : ℕ → ℕ → Do
  answer_connect transaction_id encoding = with_net around taken net_connection_error (
      told around taken (λ b.
        write_connect_response insert b transaction_id fmsver capabilities
          (codes "NetConnection.Connect.Success") level (codes "Connection Succeeded.") encoding))

  unfoldable pub on_connect : ℕ → Properties → Do
  unfolding note_properties
  on_connect transaction_id command_obj = do
    note_properties command_obj
    offer_window
    offer_bandwidth
    set_app_name (get (codes "app") command_obj)
    answer_connect transaction_id (encoding_of (get (codes "objectEncoding") command_obj))

  unfoldable pub on_create_stream : ℕ → Do
  on_create_stream transaction_id =
      with_net around taken net_connection_error
        (told around taken (λ b. write_create_stream_response b transaction_id stream_id))

  abbrev pub status : ℕ → Bytes → Bytes → Bool → Net (Unit {0})
  status transaction_id code description b =
      write_on_status insert b transaction_id (codes "status") code description

  abbrev pub tell : ℕ → Bytes → Bytes → Do
  tell transaction_id code description =
      with_net around taken net_stream_error
        (told around taken (status transaction_id code description))

  abbrev pub unpublish : Do
  unpublish =
      with_common around taken (λ s. unpublish_to_stream_hub around s.app_name s.stream_name)

  unfoldable pub on_delete_stream : ℕ → Do
  on_delete_stream transaction_id = do
    unpublish
    tell transaction_id (codes "NetStream.DeleteStream.Suceess") []

  abbrev pub get_request_url : Option Bytes → Bytes → Bytes → Bytes
  get_request_url none app_name raw = app_name ++ 47 ∷ raw
  get_request_url (some tc_url) app_name raw = tc_url ++ 47 ∷ raw

  abbrev pub set_request_url : Bytes → Do
  set_request_url raw s = ok tt (record s {
    common = record (s.common) {
      request_url = get_request_url s.connect_properties.tc_url s.app_name raw;
    };
  })

  abbrev pub set_state : ServerSessionState → Do
  set_state state s = ok tt (record s { state = state })

  abbrev pub set_session_type : ℕ → Do
  set_session_type n s =
      ok tt (record s { unpacketizer = record (s.unpacketizer) { session_type = n } })

  abbrev pub set_stream_name : Bytes × Option Bytes → Do
  set_stream_name named s = ok tt (record s { stream_name = named.0; query = named.1 })

  abbrev pub subscribe : Do
  subscribe =
      with_common around taken (λ s. subscribe_from_stream_hub around s.app_name s.stream_name)

  -- What `on_play` does with the name, whose absence panics.
  unfoldable pub play_stream : Option Bytes → Do
  unfolding authenticate
  play_stream none = λ s. panic
  play_stream (some raw_stream_name) = do
    set_stream_name (parse_stream_name_with_query raw_stream_name)
    authenticate true
    set_request_url raw_stream_name
    subscribe
    set_state play

  abbrev pub begin_stream : ℕ → Do
  begin_stream msg_stream_id =
      with_control around taken event_messages_error (λ b. write_stream_begin b msg_stream_id)

  abbrev pub record_stream : ℕ → Do
  record_stream msg_stream_id =
      with_control around taken event_messages_error (λ b. write_stream_is_record b msg_stream_id)

  -- By one writer of commands.
  abbrev pub tell_play : ℕ → Do
  tell_play transaction_id = with_net around taken net_stream_error (do
    told around taken (status transaction_id (codes "NetStream.Play.Reset") (codes "reset"))
    told around taken (status transaction_id (codes "NetStream.Play.Start") (codes "play start"))
    told around taken (status transaction_id (codes "NetStream.Data.Start") (codes "data start."))
    told around taken (
        status transaction_id (codes "NetStream.Play.PublishNotify")
          (codes "play publish notify.")))

  -- The number of values is a u8; of the values, the first alone is used.
  unfoldable pub on_play : ℕ → ℕ → List Amf0ValueType → Do
  unfolding play_stream
  on_play transaction_id msg_stream_id other_values = do
    begin_stream msg_stream_id
    tell_play transaction_id
    record_stream msg_stream_id
    play_stream
        (if low_bits 8 (length other_values) == 0 then none else stream_name_of other_values)

  -- A URL that cannot be parsed leaves the names.
  abbrev pub name_by_url : Outcome RtmpUrlParser RtmpUrlParseError (Unit {0}) → Do
  name_by_url (ok u url) = set_stream_name (url.stream_name, url.query)
  name_by_url (err e url) = ok tt
  name_by_url panic = λ s. panic
  name_by_url stuck = λ s. stuck

  abbrev pub or_empty : Option Bytes → Bytes
  or_empty none = []
  or_empty (some s) = s

  -- An empty name is taken from `swf_url`.
  unfoldable pub name_stream : Bytes → Do
  unfolding parse_url
  name_stream [] s = name_by_url (parse_url (Url.new (or_empty s.connect_properties.swf_url))) s
  name_stream (x ∷ xs) s = set_stream_name (parse_stream_name_with_query (x ∷ xs)) s

  abbrev pub need_text : Amf0ValueType → Do
  need_text (utf8_string type) s = ok tt s
  need_text _ s = err amf0_value_count_not_correct s

  abbrev pub publish : Do
  publish =
      with_common around taken (λ s. publish_to_stream_hub around s.app_name s.stream_name gop_num)

  unfoldable pub on_publish : ℕ → ℕ → List Amf0ValueType → Do
  unfolding name_stream authenticate
  on_publish transaction_id msg_stream_id (utf8_string name ∷ second ∷ others) = do
    name_stream name
    authenticate false
    set_request_url name
    need_text second
    begin_stream msg_stream_id
    tell transaction_id (codes "NetStream.Publish.Start") []
    publish
  on_publish transaction_id msg_stream_id _ = err amf0_value_count_not_correct

  abbrev pub delete_if_any : ℕ → List Amf0ValueType → Do
  delete_if_any transaction_id [] = ok tt
  delete_if_any transaction_id (v ∷ vs) = on_delete_stream transaction_id >> set_state delete_stream

  -- A value of another type than the source expects is an empty name, 0.0 or an empty object.
  unfoldable pub on_amf0_command_message :
      ℕ → Amf0ValueType → Amf0ValueType → Amf0ValueType → List Amf0ValueType → Do
  unfolding on_connect on_create_stream on_delete_stream on_play on_publish
  on_amf0_command_message msg_stream_id command_name transaction_id command_object others =
      let name = text_or_empty command_name in
      let transaction = number_or_zero transaction_id in
      if eq_bytes name (codes "connect")
      then on_connect transaction (object_or_empty command_object)
      else if eq_bytes name (codes "createStream")
      then on_create_stream transaction
      else if eq_bytes name (codes "deleteStream")
      then delete_if_any transaction others
      else if eq_bytes name (codes "play")
      then set_session_type server_pull >> on_play transaction msg_stream_id others
      else if eq_bytes name (codes "publish")
      then set_session_type server_push >> on_publish transaction msg_stream_id others
      else ok tt

  unfoldable pub process_messages : RtmpMessageData → ℕ → ℕ → Do
  unfolding on_amf0_command_message update_max_chunk_size
  process_messages (amf0_command name transaction command_object others) msg_stream_id timestamp =
      on_amf0_command_message msg_stream_id name transaction command_object others
  process_messages (set_chunk_size size) msg_stream_id timestamp =
      λ s. ok tt (record s { unpacketizer = update_max_chunk_size size s.unpacketizer })
  process_messages (audio_data bytes) msg_stream_id timestamp =
      with_common around taken (λ s. on_audio_data around bytes timestamp)
  process_messages (video_data bytes) msg_stream_id timestamp =
      with_common around taken (λ s. on_video_data around bytes timestamp)
  process_messages (amf_data bytes) msg_stream_id timestamp =
      with_common around taken (λ s. on_meta_data around bytes timestamp)
  process_messages _ msg_stream_id timestamp = ok tt

  module _ (is_utf8 : Bytes → Bool) where
    abbrev pub process_parsed :
        ChunkInfo → Outcome BytesReader MessageError (Option RtmpMessageData) → Do
    process_parsed c (ok none r) = ok tt
    process_parsed c (ok (some msg) r) =
        process_messages msg c.message_header.msg_streamd_id c.message_header.timestamp
    process_parsed c (err e r) = err (message_error e)
    process_parsed c panic = λ s. panic
    process_parsed c stuck = λ s. stuck

    -- The `for` of `read_parse_chunks`; an error leaves it and the method.
    unfoldable pub process_chunks : List ChunkInfo → Do
    unfolding process_messages parse
    process_chunks [] = ok tt
    process_chunks (c ∷ cs) = process_parsed c (parse is_utf8 insert c) >> process_chunks cs
