-- ===== src/Amf0/Writer.antt =====
-- library/container/flv/src/amf0/amf0_writer.rs: `Amf0Writer`, whose one field is its writer.
use xiu.Prelude.{ℕ, List, [], ◌∷◌, Bool, ltb, if◌then◌else◌, length, Method, ok, err, ◌>>◌, zoom}
use xiu.Prelude.Words.{Bytes, big_endian}
use xiu.Prelude.Bits.{low_bits}
use xiu.Bytesio.Writer.{BytesWriter, WriteError, write_u8, write_uint, write_u24, write}
use xiu.Amf0.Value.{
  Amf0ValueType, number, boolean, utf8_string, object, null, ecma_array, long_utf8_string, end,
  Properties, no_properties, property, count,
}

pub data Amf0WriteError : Type 0 where
  bytes_write_error : WriteError → Amf0WriteError
  normal_string_too_long buffer_write_error : Amf0WriteError

abbrev pub Write : Type 0
Write = Method BytesWriter Amf0WriteError (Unit {0})

-- `self.writer.…()?`
abbrev inner : Method BytesWriter WriteError (Unit {0}) → Write
inner = zoom (λ w. w) (λ w b. b) bytes_write_error

unfoldable pub write_number : ℕ → Write
write_number value = inner (write_u8 0) >> inner (write_uint big_endian 8 value)

unfoldable pub write_bool : Bool → Write
write_bool value = inner (write_u8 1) >> inner (write_u8 (if value then 1 else 0))

unfoldable pub write_string : Bytes → Write
write_string value w =
    let written =
      inner (write_u8 2)
      >> (inner (write_uint big_endian 2 (low_bits 16 (length value))) >> inner (write value)) in
    if ltb 65535 (length value) then err normal_string_too_long w else written w

unfoldable pub write_null : Write
write_null = inner (write_u8 5)

unfoldable pub write_object_eof : Write
write_object_eof = inner (write_u24 big_endian 9)

unfoldable pub write_key : Bytes → Write
write_key key = inner (write_uint big_endian 2 (low_bits 16 (length key))) >> inner (write key)

-- The objects and arrays hold their properties' values.
unfoldable mutual
  unfolding write_number write_bool write_string write_null write_object_eof write_key

  pub write_any : Amf0ValueType → Write
  write_any (number v) = write_number v
  write_any (boolean b) = write_bool b
  write_any (utf8_string s) = write_string s
  write_any (object ps) = inner (write_u8 3) >> (write_properties ps >> write_object_eof)
  write_any null = write_null
  write_any (ecma_array ps) =
      inner (write_u8 8)
      >> (inner (write_uint big_endian 4 (low_bits 32 (count ps)))
          >> (write_properties ps >> write_object_eof))
  write_any (long_utf8_string s) = ok tt
  write_any end = ok tt

  pub write_properties : Properties → Write
  write_properties no_properties = ok tt
  write_properties (property key value ps) =
      write_key key >> (write_any value >> write_properties ps)

unfoldable pub write_anys : List Amf0ValueType → Write
unfolding write_any
write_anys [] = ok tt
write_anys (v ∷ vs) = write_any v >> write_anys vs
