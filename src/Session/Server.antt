-- ===== src/Session/Server.antt =====
-- protocol/rtmp/src/session/server_session.rs: the state of `ServerSession`, its ways to the network
-- and to the hub, and the properties of a connect command. `taken` says whether the network takes a
-- packet, by what went to it before.
use xiu.Prelude.{ℕ, [], Bool, Option, none, some, if◌then◌else◌, List, Method, zoom}
use xiu.Prelude.Words.{Bytes}
use xiu.Prelude.Text.{codes}
use xiu.Bytesio.Writer.{WriteError, AsyncBytesWriter}
use xiu.Amf0.Value.{
  Amf0ValueType, number, boolean, utf8_string, Properties, no_properties, property,
}
use xiu.Chunk.Pack as Pack
use xiu.Chunk.Unpack.State.{ChunkUnpacketizer}
use xiu.Hub.Define.{eq_bytes}
use xiu.Message.Control.{Send}
use xiu.Message.NetWriter.{Net, NetWriter, NetError}
use xiu.Message.NetConnection.{ConnectProperties}
use xiu.Session.Define.{ServerSessionState, SessionError}
use xiu.Session.Common.{Surroundings, Common, Call}

-- The packets that went to the network stand for `io`, which all writers share. The handshaker, the
-- bytes that were read and `gop_num`, which does not change, are left out.
pub record ServerSession (around : Surroundings) : Type 0 where
  pub app_name : Bytes
  pub stream_name : Bytes
  pub query : Option Bytes
  pub io : List Bytes
  pub unpacketizer : ChunkUnpacketizer
  pub state : ServerSessionState
  pub connect_properties : ConnectProperties
  pub common : Common around

abbrev or_before : {A : Type 0} → Option A → Option A → Option A
or_before none before = before
or_before (some a) before = some a

abbrev text_of : Amf0ValueType → Option Bytes
text_of (utf8_string s) = some s
text_of _ = none

abbrev number_of : Amf0ValueType → Option ℕ
number_of (number n) = some n
number_of _ = none

abbrev flag_of : Amf0ValueType → Option Bool
flag_of (boolean b) = some b
flag_of _ = none

-- The `match` on one property: a value of another type than the property has is dropped.
unfoldable pub set_property : Bytes → Amf0ValueType → ConnectProperties → ConnectProperties
set_property key value p =
    if eq_bytes key (codes "app")
    then record p { app = or_before (text_of value) p.app }
    else if eq_bytes key (codes "flashVer")
    then record p { flash_ver = or_before (text_of value) p.flash_ver }
    else if eq_bytes key (codes "swfUrl")
    then record p { swf_url = or_before (text_of value) p.swf_url }
    else if eq_bytes key (codes "tcUrl")
    then record p { tc_url = or_before (text_of value) p.tc_url }
    else if eq_bytes key (codes "fpad")
    then record p { fpad = or_before (flag_of value) p.fpad }
    else if eq_bytes key (codes "audioCodecs")
    then record p { audio_codecs = or_before (number_of value) p.audio_codecs }
    else if eq_bytes key (codes "videoCodecs")
    then record p { video_codecs = or_before (number_of value) p.video_codecs }
    else if eq_bytes key (codes "videoFunction")
    then record p { video_function = or_before (number_of value) p.video_function }
    else if eq_bytes key (codes "pageUrl")
    then record p { page_url = or_before (text_of value) p.page_url }
    else if eq_bytes key (codes "objectEncoding")
    then record p { object_encoding = or_before (number_of value) p.object_encoding }
    else p

unfoldable pub parse_connect_properties : Properties → ConnectProperties → ConnectProperties
unfolding set_property
parse_connect_properties no_properties p = p
parse_connect_properties (property key value rest) p =
    parse_connect_properties rest (set_property key value p)

-- `IndexMap::get`
abbrev pub get : Bytes → Properties → Option Amf0ValueType
get key no_properties = none
get key (property k value rest) =
    let later = get key rest in if eq_bytes k key then some value else later

abbrev pub fresh : List Bytes → AsyncBytesWriter
fresh io = record { bytes_writer = []; sent = io }

-- `NetConnection::new` and `NetStreamWriter::new`
abbrev pub new_writer : List Bytes → NetWriter
new_writer io = record { amf0_writer = []; packetizer = record Pack.new { writer = fresh io } }

module _ (around : Surroundings) (taken : List Bytes → Bool) where
  abbrev pub Handle : Type 0
  Handle = Method (ServerSession around) SessionError (Unit {0})

  abbrev pub set_io : ServerSession around → List Bytes → ServerSession around
  set_io s io = record s { io = io }

  -- A new writer of control messages or of events, and one call.
  unfoldable pub with_control : (WriteError → SessionError) → (Bool → Send) → Handle
  with_control from write =
      zoom (λ (s : ServerSession around). fresh s.io) (λ s w. set_io s w.sent) from
        (λ w. write (taken w.sent) w)

  -- A call of a writer of commands.
  abbrev pub told : (Bool → Net (Unit {0})) → Net (Unit {0})
  told write n = write (taken n.packetizer.writer.sent) n

  -- A new writer of commands, and its calls.
  unfoldable pub with_net : (NetError → SessionError) → Net (Unit {0}) → Handle
  with_net from =
      zoom (λ (s : ServerSession around). new_writer s.io)
        (λ s n. set_io s n.packetizer.writer.sent) from

  -- `self.common.…(…)?`, on what the session holds then.
  unfoldable pub with_common : (ServerSession around → Call around) → Handle
  with_common call s =
      zoom (λ (t : ServerSession around). t.common) (λ t c. record t { common = c }) (λ e. e)
        (call s) s
