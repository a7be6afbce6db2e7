-- ===== src/Chunk/Unpack/Message.antt =====
-- `read_message_header` and `read_extended_timestamp`. The loop over `msg_header_read_state` goes
-- forward from field to field, so each round ends in the call of the next field's reader; a call
-- that runs out of bytes leaves the state at the field to go on with.
use xiu.Prelude.{ℕ, ◌+◌, ◌%◌, ◌^◌, leb, ◌==◌, ◌&&◌, ◌||◌, if◌then◌else◌, Method, ok, ◌>>=◌, ◌>>◌}
use xiu.Prelude.Words.{big_endian, little_endian}
use xiu.Bytesio.Reader.{BytesReader, ReadError, read_u8, read_u24, read_u32, is_empty}
use xiu.Chunk.Header.{ExtendTimestampType, no_extension, format0, format12, ChunkMessageHeader}
use xiu.Chunk.Unpack.State.{
  UnpackResult, success, ChunkReadState, read_extended, read_payload, HeaderReadState,
  read_timestamp, read_msg_length, read_msg_type_id, read_msg_stream_id, Unpack, inner, set_header,
  header, format,
}

-- A field is read, stored, and the next one is named.
unfoldable pub field :
    Method BytesReader ReadError ℕ
    → (ℕ → ChunkMessageHeader → ChunkMessageHeader)
    → HeaderReadState
    → Unpack (Unit {0})
field m store next = do
  v ← inner m
  λ u. ok tt (record (set_header u (store v (header u))) { msg_header_read_state = next })

abbrev pub store_timestamp : ℕ → ChunkMessageHeader → ChunkMessageHeader
store_timestamp v h = record h { timestamp = v }

abbrev pub store_delta : ℕ → ChunkMessageHeader → ChunkMessageHeader
store_delta v h = record h { timestamp_delta = v }

abbrev pub store_length : ℕ → ChunkMessageHeader → ChunkMessageHeader
store_length v h = record h { msg_length = v }

abbrev pub store_type_id : ℕ → ChunkMessageHeader → ChunkMessageHeader
store_type_id v h = record h { msg_type_id = v }

abbrev pub store_stream_id : ℕ → ChunkMessageHeader → ChunkMessageHeader
store_stream_id v h = record h { msg_streamd_id = v }

-- The fields of a format 0 header, from the one where the last call stopped.
unfoldable pub stream_id_0 : Unpack (Unit {0})
unfolding field
stream_id_0 = field (read_u32 little_endian) store_stream_id read_timestamp

unfoldable pub type_id_0 : Unpack (Unit {0})
unfolding field stream_id_0
type_id_0 = field read_u8 store_type_id read_msg_stream_id >> stream_id_0

unfoldable pub length_0 : Unpack (Unit {0})
unfolding field type_id_0
length_0 = field (read_u24 big_endian) store_length read_msg_type_id >> type_id_0

unfoldable pub timestamp_0 : Unpack (Unit {0})
unfolding field length_0
timestamp_0 = field (read_u24 big_endian) store_timestamp read_msg_length >> length_0

unfoldable pub fields_0 : HeaderReadState → Unpack (Unit {0})
unfolding stream_id_0 type_id_0 length_0 timestamp_0
fields_0 read_timestamp = timestamp_0
fields_0 read_msg_length = length_0
fields_0 read_msg_type_id = type_id_0
fields_0 read_msg_stream_id = stream_id_0

-- The same for format 1, which has no stream id.
unfoldable pub type_id_1 : Unpack (Unit {0})
unfolding field
type_id_1 = field read_u8 store_type_id read_timestamp

unfoldable pub length_1 : Unpack (Unit {0})
unfolding field type_id_1
length_1 = field (read_u24 big_endian) store_length read_msg_type_id >> type_id_1

unfoldable pub timestamp_1 : Unpack (Unit {0})
unfolding field length_1
timestamp_1 = field (read_u24 big_endian) store_delta read_msg_length >> length_1

unfoldable pub fields_1 : HeaderReadState → Unpack (Unit {0})
unfolding type_id_1 length_1 timestamp_1
fields_1 read_timestamp = timestamp_1
fields_1 read_msg_length = length_1
fields_1 read_msg_type_id = type_id_1
fields_1 read_msg_stream_id = ok tt

-- Format 2 has the delta alone, and leaves `msg_header_read_state` as it is.
unfoldable pub delta_2 : Unpack (Unit {0})
delta_2 = do v ← inner (read_u24 big_endian); λ u. ok tt (set_header u (store_delta v (header u)))

unfoldable pub mark_0 : Unpack (Unit {0})
mark_0 u =
    if leb 0xffffff (header u).timestamp
    then ok tt (set_header u (record (header u) { extended_timestamp_type = format0 }))
    else ok tt u

unfoldable pub mark_12 : Unpack (Unit {0})
mark_12 u =
    if leb 0xffffff (header u).timestamp_delta
    then ok tt (set_header u (record (header u) { extended_timestamp_type = format12 }))
    else ok tt u

unfoldable pub header_fields : Unpack (Unit {0})
unfolding fields_0 fields_1 delta_2 mark_0 mark_12
header_fields u =
    if format u == 0
    then (fields_0 u.msg_header_read_state >> mark_0) u
    else if format u == 1
    then (fields_1 u.msg_header_read_state >> mark_12) u
    else if format u == 2
    then (delta_2 >> mark_12) u
    else ok tt u

unfoldable pub reset_extension : Unpack (Unit {0})
reset_extension u =
    if format u == 3
    then ok tt u
    else ok tt (set_header u (record (header u) { extended_timestamp_type = no_extension }))

unfoldable pub go_to : ChunkReadState → Unpack UnpackResult
go_to state u = ok success (record u { chunk_read_state = state })

unfoldable pub read_message_header : Unpack UnpackResult
unfolding reset_extension header_fields go_to
read_message_header = reset_extension >> (header_fields >> go_to read_extended)

unfoldable pub extension : ExtendTimestampType → Unpack (Unit {0})
extension no_extension = ok tt
extension format0 = do
  v ← inner (read_u32 big_endian)
  λ u. ok tt (set_header u (store_timestamp v (header u)))
extension format12 = do
  v ← inner (read_u32 big_endian)
  λ u. ok tt (set_header u (store_delta v (header u)))

-- `timestamp.overflowing_add(timestamp_delta)`: the sum without its carry.
abbrev pub absolute : ChunkMessageHeader → ChunkMessageHeader
absolute h = record h { timestamp = (h.timestamp + h.timestamp_delta) % 2 ^ 32 }

unfoldable pub add_delta : Unpack (Unit {0})
add_delta u =
    if format u == 1 || format u == 2 || (format u == 3 && is_empty u.current_chunk_info.payload)
    then ok tt (set_header u (absolute (header u)))
    else ok tt u

unfoldable pub read_extended_timestamp : Unpack UnpackResult
unfolding extension add_delta go_to
read_extended_timestamp u =
    (extension (header u).extended_timestamp_type >> (add_delta >> go_to read_payload)) u
