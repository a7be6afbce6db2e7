-- ===== src/Chunk/Unpack/Progress.antt =====
-- protocol/rtmp/src/chunk/unpacketizer.rs: the bytes that the methods leave in the reader.
use xiu.Prelude.{
  ℕ, ◌+◌, ◌≤◌, ◌≡◌, refl, ◌∙◌, inl, inr, Bool-cases, ltb, length, length-drop, Method, ◌>>=◌, ◌>>◌,
  Returns, after-Returns, Returns-mono, zoom-Returns, arith,
}
use xiu.Prelude.Words.{big_endian, little_endian, ByteOrder}
use xiu.Bytesio.Reader.{BytesReader, read_bytes, read_uint, read_u8, read_u24, read_u32}
use xiu.Chunk.Header.{ChunkMessageHeader, ExtendTimestampType, no_extension, format0, format12}
use xiu.Chunk.Unpack.State.{
  UnpackError, ChunkReadState, HeaderReadState, read_timestamp, read_msg_length, read_msg_type_id,
  read_msg_stream_id, ChunkUnpacketizer, Unpack, inner,
}
use xiu.Chunk.Unpack.Message.{
  field, fields_0, fields_1, delta_2, mark_0, mark_12, header_fields, reset_extension, stream_id_0,
  type_id_0, length_0, timestamp_0, type_id_1, length_1, timestamp_1, store_stream_id,
  store_type_id, store_length, store_timestamp, store_delta, extension, add_delta,
}

-- At most `n` bytes are left, and the state of the loop is `s`.
abbrev pub Within : ℕ → ChunkReadState → ChunkUnpacketizer → Type 0
Within n s u = (length u.reader ≤ n) × (u.chunk_read_state ≡ s)

-- A method that takes no bytes in, and leaves the state of the loop alone.
abbrev pub Shrinks {ℓ} : {A : Type ℓ} → Method ChunkUnpacketizer UnpackError A → Type 0
Shrinks m =
    (n : ℕ) (s : ChunkReadState) (u : ChunkUnpacketizer)
    → Within n s u
    → Returns (λ _ u'. Within n s u') (m u)

pub read_bytes-Returns :
    (k : ℕ) (b : BytesReader) → Returns (λ _ b'. length b' + k ≡ length b) (read_bytes k b)
unfolding read_bytes
read_bytes-Returns k b = elim (Bool-cases (ltb (length b) k)) [
  | inl short ↦ rw short tt
  | inr enough ↦ rw enough (ground (arith, length-drop k b))
]

read_uint-Returns :
    (o : ByteOrder) (k : ℕ) (b : BytesReader)
    → Returns (λ _ b'. length b' + k ≡ length b) (read_uint o k b)
unfolding read_uint
read_uint-Returns o k b = after-Returns _ _ (read_bytes k b) _ (read_bytes-Returns k b) (λ a s h. h)

pub inner-Returns :
    (o : ByteOrder) (k : ℕ) (u : ChunkUnpacketizer)
    → Returns
        (λ _ u'.
          (length u'.reader + k ≡ length u.reader) × (u'.chunk_read_state ≡ u.chunk_read_state))
        (inner (read_uint o k) u)
inner-Returns o k u =
    zoom-Returns _ _ _ _ (read_uint o k u.reader) (read_uint-Returns o k u.reader)
      (λ a b h. (h, refl))

pub inner-Shrinks : (o : ByteOrder) (k : ℕ) → Shrinks (inner (read_uint o k))
inner-Shrinks o k n s u w =
    Returns-mono _ _ (inner (read_uint o k) u) (inner-Returns o k u)
      (λ a u' h. (omega arith, h.1 ∙ w.1))

pub bind-Shrinks {ℓ κ} :
    {A : Type ℓ} {B : Type κ} (m : Method ChunkUnpacketizer UnpackError A)
    (f : A → Method ChunkUnpacketizer UnpackError B)
    → Shrinks m
    → ((a : A) → Shrinks (f a))
    → Shrinks (m >>= f)
bind-Shrinks m f hm hf n s u w = after-Returns _ _ (m u) f (hm n s u w) (λ a u' w'. hf a n s u' w')

field-Shrinks :
    (o : ByteOrder) (k : ℕ) (store : ℕ → ChunkMessageHeader → ChunkMessageHeader)
    (next : HeaderReadState)
    → Shrinks (field (read_uint o k) store next)
unfolding field
field-Shrinks o k store next =
    bind-Shrinks (inner (read_uint o k)) _ (inner-Shrinks o k) (λ v n s u w. w)

then-Shrinks {ℓ} :
    {B : Type ℓ} (m : Unpack (Unit {0})) (k : Method ChunkUnpacketizer UnpackError B)
    → Shrinks m
    → Shrinks k
    → Shrinks (m >> k)
then-Shrinks m k hm hk = bind-Shrinks m (λ _. k) hm (λ _. hk)

stream_id_0-Shrinks : Shrinks stream_id_0
unfolding stream_id_0
stream_id_0-Shrinks = field-Shrinks little_endian 4 store_stream_id read_timestamp

type_id_0-Shrinks : Shrinks type_id_0
unfolding type_id_0
type_id_0-Shrinks =
    then-Shrinks (field read_u8 store_type_id read_msg_stream_id) stream_id_0
      (field-Shrinks big_endian 1 store_type_id read_msg_stream_id) stream_id_0-Shrinks

length_0-Shrinks : Shrinks length_0
unfolding length_0
length_0-Shrinks =
    then-Shrinks (field (read_u24 big_endian) store_length read_msg_type_id) type_id_0
      (field-Shrinks big_endian 3 store_length read_msg_type_id) type_id_0-Shrinks

fields_0-Shrinks : (h : HeaderReadState) → Shrinks (fields_0 h)
unfolding fields_0 timestamp_0
fields_0-Shrinks read_timestamp =
    then-Shrinks (field (read_u24 big_endian) store_timestamp read_msg_length) length_0
      (field-Shrinks big_endian 3 store_timestamp read_msg_length) length_0-Shrinks
fields_0-Shrinks read_msg_length = length_0-Shrinks
fields_0-Shrinks read_msg_type_id = type_id_0-Shrinks
fields_0-Shrinks read_msg_stream_id = stream_id_0-Shrinks

type_id_1-Shrinks : Shrinks type_id_1
unfolding type_id_1
type_id_1-Shrinks = field-Shrinks big_endian 1 store_type_id read_timestamp

length_1-Shrinks : Shrinks length_1
unfolding length_1
length_1-Shrinks =
    then-Shrinks (field (read_u24 big_endian) store_length read_msg_type_id) type_id_1
      (field-Shrinks big_endian 3 store_length read_msg_type_id) type_id_1-Shrinks

fields_1-Shrinks : (h : HeaderReadState) → Shrinks (fields_1 h)
unfolding fields_1 timestamp_1
fields_1-Shrinks read_timestamp =
    then-Shrinks (field (read_u24 big_endian) store_delta read_msg_length) length_1
      (field-Shrinks big_endian 3 store_delta read_msg_length) length_1-Shrinks
fields_1-Shrinks read_msg_length = length_1-Shrinks
fields_1-Shrinks read_msg_type_id = type_id_1-Shrinks
fields_1-Shrinks read_msg_stream_id = λ n s u w. w

delta_2-Shrinks : Shrinks delta_2
unfolding delta_2
delta_2-Shrinks =
    bind-Shrinks (inner (read_u24 big_endian)) _ (inner-Shrinks big_endian 3) (λ v n s u w. w)

mark_0-Shrinks : Shrinks mark_0
unfolding mark_0
mark_0-Shrinks n s u w = ground arith

mark_12-Shrinks : Shrinks mark_12
unfolding mark_12
mark_12-Shrinks n s u w = ground arith

pub header_fields-Shrinks : Shrinks header_fields
unfolding header_fields
header_fields-Shrinks n s u w = ground (
  arith,
  then-Shrinks (fields_0 u.msg_header_read_state) mark_0 (fields_0-Shrinks u.msg_header_read_state)
      mark_0-Shrinks n s u w,
  then-Shrinks (fields_1 u.msg_header_read_state) mark_12 (fields_1-Shrinks u.msg_header_read_state)
      mark_12-Shrinks n s u w,
  then-Shrinks delta_2 mark_12 delta_2-Shrinks mark_12-Shrinks n s u w,
)

pub reset_extension-Shrinks : Shrinks reset_extension
unfolding reset_extension
reset_extension-Shrinks n s u w = ground arith

pub extension-Shrinks : (t : ExtendTimestampType) → Shrinks (extension t)
unfolding extension
extension-Shrinks no_extension = λ n s u w. w
extension-Shrinks format0 =
    bind-Shrinks (inner (read_u32 big_endian)) _ (inner-Shrinks big_endian 4) (λ v n s u w. w)
extension-Shrinks format12 =
    bind-Shrinks (inner (read_u32 big_endian)) _ (inner-Shrinks big_endian 4) (λ v n s u w. w)

pub add_delta-Shrinks : Shrinks add_delta
unfolding add_delta
add_delta-Shrinks n s u w = ground arith
