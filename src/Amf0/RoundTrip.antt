-- ===== src/Amf0/RoundTrip.antt =====
-- What `Amf0Reader` makes of the bytes of a value.
use xiu.Prelude.{
  ℕ, zero, suc, ◌+◌, ◌*◌, ◌/◌, ◌%◌, ◌^◌, ◌≤◌, ◌<◌, ◌≡◌, refl, [], ◌∷◌, ◌++◌, append_assoc, Bool,
  true, false, ◌==◌, length, length-append, ok, arith,
}
use xiu.Prelude.Words.{Bytes, big_endian, encode, to_be, decode, from_be, length-encode}
use xiu.Bytesio.Reader.{read_u24, advance_u24, advance_uint}
use xiu.Bytesio.Reader.Laws.{
  read_uint-encode, advance_bytes_append, read_bytes-append, read_u8-cons,
}
use xiu.Amf0.Value.{
  Amf0ValueType, number, boolean, utf8_string, object, null, ecma_array, long_utf8_string, end,
  Properties, no_properties, property, count,
}
use xiu.Amf0.Reader.{
  read_value, read_marked, read_number, read_bool, read_string, read_object, read_ecma_array,
  read_raw_string, from_utf8, is_read_object_eof, read_properties, read_any, Read,
}
use xiu.Amf0.Writer.{write_any}
use xiu.Amf0.Layout.{
  write_any-value_bytes, object_eof, value_bytes, properties_bytes, Storable, StorableAll,
}

advance_three :
    (a b c : ℕ) (rest : Bytes)
    → advance_u24 big_endian (a ∷ b ∷ c ∷ rest) ≡ ok ((a * 256 + b) * 256 + c) (a ∷ b ∷ c ∷ rest)
unfolding advance_uint decode from_be
advance_three a b c rest = rw (advance_bytes_append 3 (a ∷ b ∷ c ∷ []) rest refl) (ground arith)

nine_read : (rest : Bytes) → read_u24 big_endian (0 ∷ 0 ∷ 9 ∷ rest) ≡ ok 9 rest
unfolding encode to_be
nine_read rest = read_uint-encode big_endian 3 9 rest (omega arith)

eof_read : (rest : Bytes) → is_read_object_eof (object_eof ++ rest) ≡ ok true rest
unfolding is_read_object_eof
eof_read rest = rw (advance_three 0 0 9 rest, nine_read rest)

two_bytes : (n : ℕ) → encode big_endian 2 n ≡ (n / 256 % 256) ∷ (n % 256) ∷ []
unfolding encode to_be
two_bytes n = refl

not_nine : (n c : ℕ) → 0 < n → n < 256 ^ 2 → (n / 256 % 256 * 256 + n % 256) * 256 + c == 9 ≡ false
not_nine n c h l = ground arith

zero_key : (c : ℕ) → c == 9 ≡ false → (0 * 256 + 0) * 256 + c == 9 ≡ false
zero_key c h = ground arith

-- A key and a value are no end of an object.
key_read :
    (key more : Bytes) (m : ℕ)
    → length key < 256 ^ 2
    → m == 9 ≡ false
    → (let bs = encode big_endian 2 (length key) ++ (key ++ m ∷ more) in
        is_read_object_eof bs ≡ ok false bs)
unfolding is_read_object_eof
key_read [] more m h e = unfold encode to_be in rw (advance_three 0 0 m more, zero_key m e)
key_read (c ∷ cs) more m h e = rw (
  two_bytes (suc (length cs)),
  advance_three (suc (length cs) / 256 % 256) (suc (length cs) % 256) c (cs ++ m ∷ more),
  not_nine (suc (length cs)) c (omega arith) h,
)

property-length :
    (key : Bytes) (v : Amf0ValueType) (ps : Properties)
    → length (properties_bytes (property key v ps))
      ≡ 2 + (length key + (length (value_bytes v) + length (properties_bytes ps)))
unfolding properties_bytes
property-length key v ps = omega (
  arith,
  length-append (encode big_endian 2 (length key)) (key ++ (value_bytes v ++ properties_bytes ps)),
  length-append key (value_bytes v ++ properties_bytes ps),
  length-append (value_bytes v) (properties_bytes ps),
  length-encode big_endian 2 (length key),
)

module _ (is_utf8 : Bytes → Bool) where
  raw_string_read :
      (s rest : Bytes)
      → length s < 256 ^ 2
      → is_utf8 s ≡ true
      → read_raw_string is_utf8 (encode big_endian 2 (length s) ++ (s ++ rest)) ≡ ok s rest
  unfolding read_raw_string from_utf8
  raw_string_read s rest h u =
      rw (read_uint-encode big_endian 2 (length s) (s ++ rest) h, read_bytes-append s rest, u)

  marked_read :
      (loop : Read Properties) (m : ℕ) (bs : Bytes)
      → read_value is_utf8 loop (m ∷ bs) ≡ read_marked is_utf8 loop m bs
  unfolding read_value
  marked_read loop m bs = rw (read_u8-cons m bs, nonempty (length bs))
    where
      nonempty : (n : ℕ) → suc n == 0 ≡ false
      nonempty n = ground arith

  -- A storable value has a marker, and it is not the one that ends an object.
  first_marker :
      (v : Amf0ValueType)
      → Storable is_utf8 v
      → (m : ℕ) × (more : Bytes) × (value_bytes v ≡ m ∷ more) × (m == 9 ≡ false)
  unfolding value_bytes Storable
  first_marker (number v) h = (_, _, refl, refl)
  first_marker (boolean b) h = (_, _, refl, refl)
  first_marker (utf8_string s) h = (_, _, refl, refl)
  first_marker (object ps) h = (_, _, refl, refl)
  first_marker null h = (_, _, refl, refl)
  first_marker (ecma_array ps) h = (_, _, refl, refl)
  first_marker (long_utf8_string s) h = absurd h
  first_marker end h = absurd h

  property_read :
      (key rest : Bytes) (v : Amf0ValueType)
      → length key < 256 ^ 2
      → Storable is_utf8 v
      → (let bs = encode big_endian 2 (length key) ++ (key ++ (value_bytes v ++ rest)) in
          is_read_object_eof bs ≡ ok false bs)
  property_read key rest v h s =
      let (m, more, e, n) = first_marker v s in rw e (key_read key (more ++ rest) m h n)

module _ (insert : Bytes → Amf0ValueType → Properties → Properties) where
  -- What comes back: an array as an object, and an object as what `insert` makes of its properties.
  unfoldable mutual
    pub read_back : Amf0ValueType → Amf0ValueType
    read_back (number v) = number v
    read_back (boolean b) = boolean b
    read_back (utf8_string s) = utf8_string s
    read_back (object ps) = object (collect ps no_properties)
    read_back null = null
    read_back (ecma_array ps) = object (collect ps no_properties)
    read_back (long_utf8_string s) = long_utf8_string s
    read_back end = end

    pub collect : Properties → Properties → Properties
    collect no_properties got = got
    collect (property key v ps) got = collect ps (insert key (read_back v) got)

module _ (is_utf8 : Bytes → Bool) (insert : Bytes → Amf0ValueType → Properties → Properties) where
  mutual
    unfolding read_marked read_number read_bool read_string read_object read_ecma_array
        read_properties value_bytes Storable read_back

    -- With enough fuel for its bytes, a value comes back, and nothing behind it is touched.
    pub read_value-value_bytes :
        (v : Amf0ValueType) (fuel : ℕ) (rest : Bytes)
        → length (value_bytes v) ≤ fuel
        → Storable is_utf8 v
        → read_value is_utf8
            (read_properties is_utf8 insert fuel no_properties)
            (value_bytes v ++ rest)
          ≡ ok (read_back insert v) rest
    read_value-value_bytes (number v) fuel rest l h = rw (
      marked_read is_utf8 _ 0 (encode big_endian 8 v ++ rest),
      read_uint-encode big_endian 8 v rest h,
    )
    read_value-value_bytes (boolean true) fuel rest l h = rw (
      marked_read is_utf8 (read_properties is_utf8 insert fuel no_properties) 1 (1 ∷ rest),
      read_u8-cons 1 rest,
    )
    read_value-value_bytes (boolean false) fuel rest l h = rw (
      marked_read is_utf8 (read_properties is_utf8 insert fuel no_properties) 1 (0 ∷ rest),
      read_u8-cons 0 rest,
    )
    read_value-value_bytes (utf8_string s) fuel rest l (n, u) = rw (
      append_assoc (encode big_endian 2 (length s)) s rest,
      marked_read is_utf8 (read_properties is_utf8 insert fuel no_properties) 2
          (encode big_endian 2 (length s) ++ (s ++ rest)),
      raw_string_read is_utf8 s rest n u,
    )
    read_value-value_bytes (object ps) fuel rest l h = rw (
      append_assoc (properties_bytes ps) object_eof rest,
      marked_read is_utf8 (read_properties is_utf8 insert fuel no_properties) 3
          (properties_bytes ps ++ (object_eof ++ rest)),
      read_properties-properties_bytes ps fuel no_properties rest
          (omega (arith, length-append (properties_bytes ps) object_eof)) h,
    )
    read_value-value_bytes null fuel rest l h =
        rw (marked_read is_utf8 (read_properties is_utf8 insert fuel no_properties) 5 rest)
    read_value-value_bytes (ecma_array ps) fuel rest l (n, h) = rw (
      append_assoc (encode big_endian 4 (count ps)) (properties_bytes ps ++ object_eof) rest,
      append_assoc (properties_bytes ps) object_eof rest,
      marked_read is_utf8 (read_properties is_utf8 insert fuel no_properties) 8
          (encode big_endian 4 (count ps) ++ (properties_bytes ps ++ (object_eof ++ rest))),
      read_uint-encode big_endian 4 (count ps) (properties_bytes ps ++ (object_eof ++ rest)) n,
      read_properties-properties_bytes ps fuel no_properties rest
          (omega (
            arith,
            length-append (encode big_endian 4 (count ps)) (properties_bytes ps ++ object_eof),
            length-append (properties_bytes ps) object_eof,
          ))
          h,
    )
    read_value-value_bytes (long_utf8_string s) fuel rest l h = absurd h
    read_value-value_bytes end fuel rest l h = absurd h

    pub read_properties-properties_bytes :
        (ps : Properties) (fuel : ℕ) (got : Properties) (rest : Bytes)
        → length (properties_bytes ps) < fuel
        → StorableAll is_utf8 ps
        → read_properties is_utf8 insert fuel got (properties_bytes ps ++ (object_eof ++ rest))
          ≡ ok (collect insert ps got) rest
    read_properties-properties_bytes ps zero got rest l h = absurd (omega arith)
    read_properties-properties_bytes no_properties (suc fuel) got rest l h = rw (eof_read rest)
    read_properties-properties_bytes (property key v ps) (suc fuel) got rest l (n, (u, (s, h))) =
        let more = properties_bytes ps ++ (object_eof ++ rest) in
        rw (
          append_assoc (encode big_endian 2 (length key))
              (key ++ (value_bytes v ++ properties_bytes ps)) (object_eof ++ rest),
          append_assoc key (value_bytes v ++ properties_bytes ps) (object_eof ++ rest),
          append_assoc (value_bytes v) (properties_bytes ps) (object_eof ++ rest),
          property_read is_utf8 key more v n s,
          raw_string_read is_utf8 key (value_bytes v ++ more) n u,
          read_value-value_bytes v fuel more (omega (arith, property-length key v ps)) s,
          read_properties-properties_bytes ps fuel (insert key (read_back insert v) got) rest
              (omega (arith, property-length key v ps)) h,
        )

  -- For a value whose numbers, lengths and counts fit their fields, whose strings pass the UTF-8
  -- test, and which holds no long string and no `END`: `write_any` puts its bytes behind those of the
  -- writer, and `read_any` on them, whatever follows, returns the value and leaves what follows. An
  -- array comes back as an object, and an object with its properties inserted in order. This holds for
  -- every `insert`.
  pub read_any-write_any :
      (v : Amf0ValueType) (w rest : Bytes)
      → Storable is_utf8 v
      → (bs : Bytes) × (write_any v w ≡ ok tt (w ++ bs))
        × (read_any is_utf8 insert (bs ++ rest) ≡ ok (read_back insert v) rest)
  unfolding read_any
  read_any-write_any v w rest h = (
    value_bytes v,
    write_any-value_bytes is_utf8 v w h,
    read_value-value_bytes v (length (value_bytes v ++ rest) + 1) rest
        (omega (arith, length-append (value_bytes v) rest)) h,
  )
