-- ===== src/Amf0/Reader.antt =====
-- library/container/flv/src/amf0/amf0_reader.rs: `Amf0Reader`, whose one field is its reader. An
-- object's properties take bytes from the reader in each round, so the fuel is the bytes there are.
-- `is_utf8` is the test that `String::from_utf8` makes. The warning about an array's length is left
-- out.
use xiu.Prelude.{
  ℕ, zero, suc, ◌+◌, List, [], ◌∷◌, ◌++◌, Bool, true, false, ◌==◌, if◌then◌else◌, length, Method,
  ok, err, stuck, ◌>>=◌, zoom,
}
use xiu.Prelude.Words.{Bytes, big_endian}
use xiu.Bytesio.Reader.{
  BytesReader, ReadError, read_bytes, read_u8, read_u16, read_u24, read_u32, read_f64, advance_u8,
  advance_u24, is_empty,
}
use xiu.Amf0.Value.{
  Amf0ValueType, number, boolean, utf8_string, object, null, long_utf8_string, end, Properties,
  no_properties,
}

pub data Amf0ReadError : Type 0 where
  bytes_read_error : ReadError → Amf0ReadError
  string_parse_error wrong_type : Amf0ReadError
  unknown_marker : ℕ → Amf0ReadError

abbrev pub Read : Type 0 → Type 0
Read A = Method BytesReader Amf0ReadError A

-- `self.reader.…()?`
abbrev pub inner : {A : Type 0} → Method BytesReader ReadError A → Read A
inner = zoom (λ r. r) (λ r b. b) bytes_read_error

unfoldable pub read_number : Read Amf0ValueType
read_number = do v ← inner (read_f64 big_endian); ok (number v)

unfoldable pub read_bool : Read Amf0ValueType
read_bool = do value ← inner read_u8; ok (boolean (value == 1))

abbrev pub read_null : Read Amf0ValueType
read_null = ok null

unfoldable pub is_read_object_eof : Read Bool
is_read_object_eof = do
  marker ← inner (advance_u24 big_endian)
  if marker == 9 then (do _ ← inner (read_u24 big_endian); ok true) else ok false

module _ (is_utf8 : Bytes → Bool) where
  unfoldable pub from_utf8 : Bytes → Read Bytes
  from_utf8 bytes r = if is_utf8 bytes then ok bytes r else err string_parse_error r

  unfoldable pub read_raw_string : Read Bytes
  unfolding from_utf8
  read_raw_string = do
    l ← inner (read_u16 big_endian)
    bytes ← inner (read_bytes l)
    from_utf8 bytes

  unfoldable pub read_string : Read Amf0ValueType
  unfolding read_raw_string
  read_string = do raw_string ← read_raw_string; ok (utf8_string raw_string)

  unfoldable pub read_long_string : Read Amf0ValueType
  unfolding from_utf8
  read_long_string = do
    l ← inner (read_u32 big_endian)
    buff ← inner (read_bytes l)
    val ← from_utf8 buff
    ok (long_utf8_string val)

  -- `read_object` and `read_ecma_array`, given the loop over the properties.
  unfoldable pub read_object : Read Properties → Read Amf0ValueType
  read_object loop = do properties ← loop; ok (object properties)

  unfoldable pub read_ecma_array : Read Properties → Read Amf0ValueType
  read_ecma_array loop = do
    _ ← inner (read_u32 big_endian)
    properties ← loop
    ok (object properties)

  -- The `match` of `read_any` on the marker.
  unfoldable pub read_marked : Read Properties → ℕ → Read Amf0ValueType
  unfolding read_number read_bool read_string read_object read_ecma_array read_long_string
  read_marked loop marker =
      if marker == 9
      then ok end
      else if marker == 0
      then read_number
      else if marker == 1
      then read_bool
      else if marker == 2
      then read_string
      else if marker == 3
      then read_object loop
      else if marker == 5
      then read_null
      else if marker == 8
      then read_ecma_array loop
      else if marker == 12
      then read_long_string
      else err (unknown_marker marker)

  unfoldable pub read_value : Read Properties → Read Amf0ValueType
  unfolding read_marked
  read_value loop r =
      let marked = inner read_u8 >>= read_marked loop in if is_empty r then ok end r else marked r

-- `insert` is the method of `IndexMap`.
module _ (is_utf8 : Bytes → Bool) (insert : Bytes → Amf0ValueType → Properties → Properties) where
  -- `loop { … }` over the properties, from those that it has.
  unfoldable pub read_properties : ℕ → Properties → Read Properties
  unfolding read_value read_raw_string is_read_object_eof
  read_properties zero got = λ r. stuck
  read_properties (suc fuel) got = λ r.
      let next = (do
        key ← read_raw_string is_utf8
        val ← read_value is_utf8 (read_properties fuel no_properties)
        read_properties fuel (insert key val got)) in
      (is_read_object_eof >>= λ is_eof. if is_eof then ok got else next) r

  unfoldable pub read_any : Read Amf0ValueType
  unfolding read_properties
  read_any r = read_value is_utf8 (read_properties (length r + 1) no_properties) r

  unfoldable pub read_with_type : ℕ → Read Amf0ValueType
  unfolding read_any
  read_with_type specified_marker = do
    marker ← inner advance_u8
    if marker == specified_marker then read_any else err wrong_type

  -- `read_all`, which a value from an empty reader ends; so a round takes a byte at least.
  unfoldable pub read_all_loop : ℕ → List Amf0ValueType → Read (List Amf0ValueType)
  unfolding read_any
  read_all_loop zero results = λ r. stuck
  read_all_loop (suc fuel) results = do
    result ← read_any
    elim result [ end ↦ ok results | v ↦ read_all_loop fuel (results ++ v ∷ []) ]

  unfoldable pub read_all : Read (List Amf0ValueType)
  unfolding read_all_loop
  read_all r = read_all_loop (length r + 1) [] r
