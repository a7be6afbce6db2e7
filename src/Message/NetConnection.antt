-- ===== src/Message/NetConnection.antt =====
-- protocol/rtmp/src/netconnection/writer.rs: `NetConnection`. `insert` is the method of `IndexMap`;
-- `taken` says whether the network takes the packet.
use xiu.Prelude.{ℕ, Bool, Option, none, some, ◌>>◌}
use xiu.Prelude.Words.{Bytes}
use xiu.Prelude.Text.{codes}
use xiu.Amf0.Value.{Amf0ValueType, number, boolean, utf8_string, object, Properties, no_properties}
use xiu.Amf0.Writer.{write_string, write_number, write_null, write_any}
use xiu.Message.NetWriter.{Net, amf, write_chunk}

pub record ConnectProperties : Type 0 where
  pub app : Option Bytes
  pub flash_ver : Option Bytes
  pub swf_url : Option Bytes
  pub tc_url : Option Bytes
  pub fpad : Option Bool
  pub capabilities : Option ℕ
  pub audio_codecs : Option ℕ
  pub video_codecs : Option ℕ
  pub video_function : Option ℕ
  pub object_encoding : Option ℕ
  pub page_url : Option Bytes
  pub pub_type : Option Bytes

abbrev pub new_none : ConnectProperties
new_none = record {
  app = none;
  flash_ver = none;
  swf_url = none;
  tc_url = none;
  fpad = none;
  capabilities = none;
  audio_codecs = none;
  video_codecs = none;
  video_function = none;
  object_encoding = none;
  page_url = none;
  pub_type = none;
}

unfoldable pub write_connect_with_value : Bool → ℕ → Properties → Net (Unit {0})
unfolding write_any
write_connect_with_value taken transaction_id properties = do
  amf (write_string (codes "connect"))
  amf (write_number transaction_id)
  amf (write_any (object properties))
  write_chunk taken 0

unfoldable pub write_create_stream : Bool → ℕ → Net (Unit {0})
write_create_stream taken transaction_id = do
  amf (write_string (codes "createStream"))
  amf (write_number transaction_id)
  amf write_null
  write_chunk taken 0

unfoldable pub write_create_stream_response : Bool → ℕ → ℕ → Net (Unit {0})
write_create_stream_response taken transaction_id stream_id = do
  amf (write_string (codes "_result"))
  amf (write_number transaction_id)
  amf write_null
  amf (write_number stream_id)
  write_chunk taken 0

unfoldable pub write_get_stream_length : Bool → ℕ → Bytes → Net (Unit {0})
write_get_stream_length taken transaction_id stream_name = do
  amf (write_string (codes "getStreamLength"))
  amf (write_number transaction_id)
  amf write_null
  amf (write_string stream_name)
  write_chunk taken 0

module _ (insert : Bytes → Amf0ValueType → Properties → Properties) where
  -- `if let Some(value) = … { properties_map.insert(key, …(value)) }`
  abbrev pub insert_some :
      {A : Type 0} → Bytes → (A → Amf0ValueType) → Option A → Properties → Properties
  insert_some key kind none m = m
  insert_some key kind (some value) m = insert key (kind value) m

  unfoldable pub connect_map : ConnectProperties → Properties
  connect_map p =
      let a = insert_some (codes "app") utf8_string p.app no_properties in
      let b = insert_some (codes "type") utf8_string p.pub_type a in
      let c = insert_some (codes "flashVer") utf8_string p.flash_ver b in
      let d = insert_some (codes "tcUrl") utf8_string p.tc_url c in
      let e = insert_some (codes "swfUrl") utf8_string p.swf_url d in
      let f = insert_some (codes "pageUrl") utf8_string p.page_url e in
      let g = insert_some (codes "fpad") boolean p.fpad f in
      let h = insert_some (codes "capabilities") number p.capabilities g in
      let i = insert_some (codes "audioCodecs") number p.audio_codecs h in
      let j = insert_some (codes "videoCodecs") number p.video_codecs i in
      let k = insert_some (codes "videoFunction") number p.video_function j in
      insert_some (codes "objectEncoding") number p.object_encoding k

  unfoldable pub fms_map : Bytes → ℕ → Properties
  fms_map fmsver capabilities =
      insert (codes "capabilities") (number capabilities)
        (insert (codes "fmsVer") (utf8_string fmsver) no_properties)

  -- The level, the code and the description, in `error` and in other answers.
  unfoldable pub status_map : Bytes → Bytes → Bytes → Properties
  status_map level code description = insert (codes "description") (utf8_string description) (
      insert (codes "code") (utf8_string code)
        (insert (codes "level") (utf8_string level) no_properties))

  unfoldable pub write_connect : Bool → ℕ → ConnectProperties → Net (Unit {0})
  unfolding connect_map
  write_connect taken transaction_id properties = do
    amf (write_string (codes "connect"))
    amf (write_number transaction_id)
    amf (write_any (object (connect_map properties)))
    write_chunk taken 0

  unfoldable pub write_connect_response :
      Bool → ℕ → Bytes → ℕ → Bytes → Bytes → Bytes → ℕ → Net (Unit {0})
  unfolding fms_map status_map
  write_connect_response taken transaction_id fmsver capabilities code level description encoding =
      do
        amf (write_string (codes "_result"))
        amf (write_number transaction_id)
        amf (write_any (object (fms_map fmsver capabilities)))
        amf (
            write_any (
              object (
                insert (codes "objectEncoding") (number encoding)
                  (status_map level code description))))
        write_chunk taken 0

  unfoldable pub error : Bool → ℕ → Bytes → Bytes → Bytes → Net (Unit {0})
  unfolding status_map
  error taken transaction_id code level description = do
    amf (write_string (codes "_error"))
    amf (write_number transaction_id)
    amf write_null
    amf (write_any (object (status_map level code description)))
    write_chunk taken 0
