-- ===== src/Amf0/Layout.antt =====
-- The bytes of an AMF0 value as plain lists, and what `Amf0Writer` puts behind its writer's bytes.
use xiu.Prelude.{
  ℕ, ◌%◌, ◌^◌, ◌<◌, ◌≡◌, refl, [], ◌∷◌, ◌++◌, append-nil, append_assoc, Bool, true, false, ltb,
  if◌then◌else◌, length, ok, arith,
}
use xiu.Prelude.Words.{Bytes, big_endian, encode}
use xiu.Prelude.Bits.{low_bits}
use xiu.Bytesio.Writer.{write_uint, write_u24}
use xiu.Amf0.Value.{
  Amf0ValueType, number, boolean, utf8_string, object, null, ecma_array, long_utf8_string, end,
  Properties, no_properties, property, count,
}
use xiu.Amf0.Writer.{
  write_any, write_properties, write_number, write_bool, write_string, write_key, write_object_eof,
}

abbrev pub object_eof : Bytes
object_eof = 0 ∷ 0 ∷ 9 ∷ []

abbrev pub bit : Bool → ℕ
bit b = if b then 1 else 0

unfoldable mutual
  pub value_bytes : Amf0ValueType → Bytes
  value_bytes (number v) = 0 ∷ encode big_endian 8 v
  value_bytes (boolean b) = 1 ∷ bit b ∷ []
  value_bytes (utf8_string s) = 2 ∷ (encode big_endian 2 (length s) ++ s)
  value_bytes (object ps) = 3 ∷ (properties_bytes ps ++ object_eof)
  value_bytes null = 5 ∷ []
  value_bytes (ecma_array ps) =
      8 ∷ (encode big_endian 4 (count ps) ++ (properties_bytes ps ++ object_eof))
  value_bytes (long_utf8_string s) = []
  value_bytes end = []

  pub properties_bytes : Properties → Bytes
  properties_bytes no_properties = []
  properties_bytes (property key v ps) =
      encode big_endian 2 (length key) ++ (key ++ (value_bytes v ++ properties_bytes ps))

module _ (is_utf8 : Bytes → Bool) where
  -- What fits the fields, strings that are UTF-8, and no value that the writer skips.
  unfoldable mutual
    pub Storable : Amf0ValueType → Type 0
    Storable (number v) = v < 256 ^ 8
    Storable (boolean b) = Unit
    Storable (utf8_string s) = (length s < 256 ^ 2) × (is_utf8 s ≡ true)
    Storable (object ps) = StorableAll ps
    Storable null = Unit
    Storable (ecma_array ps) = (count ps < 256 ^ 4) × StorableAll ps
    Storable (long_utf8_string s) = ⊥
    Storable end = ⊥

    pub StorableAll : Properties → Type 0
    StorableAll no_properties = Unit
    StorableAll (property key v ps) =
        (length key < 256 ^ 2) × ((is_utf8 key ≡ true) × (Storable v × StorableAll ps))

head_bytes :
    (n : ℕ) (w : Bytes)
    → n < 256 ^ 4
    → write_uint big_endian 4 (low_bits 32 n) w ≡ ok tt (w ++ encode big_endian 4 n)
unfolding write_uint
head_bytes n w h = rw (cut n h)
  where
    cut : (n : ℕ) → n < 256 ^ 4 → n % 2 ^ 32 ≡ n
    cut n h = omega arith

eof_bytes : (w : Bytes) → write_object_eof w ≡ ok tt (w ++ object_eof)
unfolding write_object_eof write_u24 write_uint encode
eof_bytes w = refl

key_bytes :
    (key w : Bytes)
    → length key < 256 ^ 2
    → write_key key w ≡ ok tt (w ++ (encode big_endian 2 (length key) ++ key))
unfolding write_key write_uint
key_bytes key w h = rw (cut (length key) h, append_assoc w (encode big_endian 2 (length key)) key)
  where
    cut : (n : ℕ) → n < 256 ^ 2 → n % 2 ^ 16 ≡ n
    cut n h = omega arith

string_bytes :
    (s w : Bytes)
    → length s < 256 ^ 2
    → write_string s w ≡ ok tt (w ++ 2 ∷ (encode big_endian 2 (length s) ++ s))
unfolding write_string write_uint
string_bytes s w h = rw (
  short (length s) h,
  cut (length s) h,
  append_assoc (w ++ 2 ∷ []) (encode big_endian 2 (length s)) s,
  append_assoc w (2 ∷ []) (encode big_endian 2 (length s) ++ s),
)
  where
    cut : (n : ℕ) → n < 256 ^ 2 → n % 2 ^ 16 ≡ n
    cut n h = omega arith

    short : (n : ℕ) → n < 256 ^ 2 → ltb 65535 n ≡ false
    short n h = ground arith

number_bytes : (v : ℕ) (w : Bytes) → write_number v w ≡ ok tt (w ++ 0 ∷ encode big_endian 8 v)
unfolding write_number write_uint
number_bytes v w = rw (append_assoc w (0 ∷ []) (encode big_endian 8 v))

bool_bytes : (b : Bool) (w : Bytes) → write_bool b w ≡ ok tt (w ++ 1 ∷ bit b ∷ [])
unfolding write_bool
bool_bytes b w = rw (append_assoc w (1 ∷ []) (bit b ∷ []))

module _ (is_utf8 : Bytes → Bool) where
  mutual
    unfolding write_any value_bytes Storable

    pub write_any-value_bytes :
        (v : Amf0ValueType) (w : Bytes)
        → Storable is_utf8 v
        → write_any v w ≡ ok tt (w ++ value_bytes v)
    write_any-value_bytes (number v) w h = number_bytes v w
    write_any-value_bytes (boolean b) w h = bool_bytes b w
    write_any-value_bytes (utf8_string s) w (h, _) = string_bytes s w h
    write_any-value_bytes (object ps) w h = rw (
      write_properties-properties_bytes ps (w ++ 3 ∷ []) h,
      eof_bytes ((w ++ 3 ∷ []) ++ properties_bytes ps),
      append_assoc (w ++ 3 ∷ []) (properties_bytes ps) object_eof,
      append_assoc w (3 ∷ []) (properties_bytes ps ++ object_eof),
    )
    write_any-value_bytes null w h = refl
    write_any-value_bytes (ecma_array ps) w (n, h) = rw (
      head_bytes (count ps) (w ++ 8 ∷ []) n,
      write_properties-properties_bytes ps ((w ++ 8 ∷ []) ++ encode big_endian 4 (count ps)) h,
      eof_bytes (((w ++ 8 ∷ []) ++ encode big_endian 4 (count ps)) ++ properties_bytes ps),
      append_assoc ((w ++ 8 ∷ []) ++ encode big_endian 4 (count ps)) (properties_bytes ps)
          object_eof,
      append_assoc (w ++ 8 ∷ []) (encode big_endian 4 (count ps))
          (properties_bytes ps ++ object_eof),
      append_assoc w (8 ∷ [])
          (encode big_endian 4 (count ps) ++ (properties_bytes ps ++ object_eof)),
    )
    write_any-value_bytes (long_utf8_string s) w h = absurd h
    write_any-value_bytes end w h = absurd h

    pub write_properties-properties_bytes :
        (ps : Properties) (w : Bytes)
        → StorableAll is_utf8 ps
        → write_properties ps w ≡ ok tt (w ++ properties_bytes ps)
    write_properties-properties_bytes no_properties w h = rw (append-nil w)
    write_properties-properties_bytes (property key v ps) w (n, (u, (s, h))) = rw (
      key_bytes key w n,
      write_any-value_bytes v (w ++ (encode big_endian 2 (length key) ++ key)) s,
      write_properties-properties_bytes ps
          ((w ++ (encode big_endian 2 (length key) ++ key)) ++ value_bytes v) h,
      append_assoc (w ++ (encode big_endian 2 (length key) ++ key)) (value_bytes v)
          (properties_bytes ps),
      append_assoc w (encode big_endian 2 (length key) ++ key)
          (value_bytes v ++ properties_bytes ps),
      append_assoc (encode big_endian 2 (length key)) key (value_bytes v ++ properties_bytes ps),
    )
