-- ===== src/Amf0/All.antt =====
-- A sequence of AMF0 values, read by `read_all` and `read_with_type`.
use xiu.Prelude.{
  ℕ, zero, suc, ◌+◌, ◌<◌, ◌≡◌, refl, List, [], ◌∷◌, ◌++◌, map, append-nil, append_assoc, Bool, true,
  false, ◌==◌, length, length-append, All, ok, err, arith,
}
use xiu.Prelude.Words.{Bytes, decode, from_be}
use xiu.Bytesio.Reader.{advance_u8, advance_uint}
use xiu.Bytesio.Reader.Laws.{advance_bytes_append}
use xiu.Amf0.Value.{
  Amf0ValueType, number, boolean, utf8_string, object, null, ecma_array, long_utf8_string, end,
  Properties,
}
use xiu.Amf0.Reader.{wrong_type, read_any, read_value, read_all_loop, read_all, read_with_type}
use xiu.Amf0.Layout.{value_bytes, Storable}
use xiu.Amf0.RoundTrip.{read_back, read_value-value_bytes}

abbrev pub values_bytes : List Amf0ValueType → Bytes
values_bytes [] = []
values_bytes (v ∷ vs) = value_bytes v ++ values_bytes vs

advance_u8-cons : (b : ℕ) (rest : Bytes) → advance_u8 (b ∷ rest) ≡ ok b (b ∷ rest)
unfolding advance_uint decode from_be
advance_u8-cons b rest = rw (advance_bytes_append 1 (b ∷ []) rest refl) (ground arith)

module _ (is_utf8 : Bytes → Bool) (insert : Bytes → Amf0ValueType → Properties → Properties) where
  pub read_any-value_bytes :
      (v : Amf0ValueType) (rest : Bytes)
      → Storable is_utf8 v
      → read_any is_utf8 insert (value_bytes v ++ rest) ≡ ok (read_back insert v) rest
  unfolding read_any
  read_any-value_bytes v rest h =
      read_value-value_bytes is_utf8 insert v (length (value_bytes v ++ rest) + 1) rest
        (omega (arith, length-append (value_bytes v) rest)) h

  -- A value that stands with the marker that is asked for.
  pub read_with_type-value_bytes :
      (m : ℕ) (v : Amf0ValueType) (more rest : Bytes)
      → value_bytes v ≡ m ∷ more
      → m == m ≡ true
      → Storable is_utf8 v
      → read_with_type is_utf8 insert m (value_bytes v ++ rest) ≡ ok (read_back insert v) rest
  unfolding read_with_type
  read_with_type-value_bytes m v more rest e t h = rw (marked, t) (read_any-value_bytes v rest h)
    where
      marked : advance_u8 (value_bytes v ++ rest) ≡ ok m (value_bytes v ++ rest)
      marked = rw e (advance_u8-cons m (more ++ rest))

  pub read_with_type_wrong :
      (m n : ℕ) (rest : Bytes)
      → n == m ≡ false
      → read_with_type is_utf8 insert m (n ∷ rest) ≡ err wrong_type (n ∷ rest)
  unfolding read_with_type
  read_with_type_wrong m n rest f = rw (advance_u8-cons n rest, f)

  loop_empty :
      (fuel : ℕ) (got : List Amf0ValueType)
      → read_all_loop is_utf8 insert (suc fuel) got [] ≡ ok got []
  unfolding read_all_loop read_any read_value
  loop_empty fuel got = refl

  -- A storable value takes a byte at least.
  pub value_bytes_pos : (v : Amf0ValueType) → Storable is_utf8 v → 0 < length (value_bytes v)
  unfolding value_bytes Storable
  value_bytes_pos (number v) h = omega arith
  value_bytes_pos (boolean v) h = omega arith
  value_bytes_pos (utf8_string v) h = omega arith
  value_bytes_pos (object v) h = omega arith
  value_bytes_pos null h = omega arith
  value_bytes_pos (ecma_array v) h = omega arith
  value_bytes_pos (long_utf8_string v) h = absurd h
  value_bytes_pos end h = absurd h

  loop_step :
      (fuel : ℕ) (v : Amf0ValueType) (got : List Amf0ValueType) (bs rest : Bytes)
      → Storable is_utf8 v
      → read_any is_utf8 insert bs ≡ ok (read_back insert v) rest
      → read_all_loop is_utf8 insert (suc fuel) got bs
        ≡ read_all_loop is_utf8 insert fuel (got ++ read_back insert v ∷ []) rest
  unfolding read_all_loop read_back Storable
  loop_step fuel (number v) got bs rest h e = rw e
  loop_step fuel (boolean v) got bs rest h e = rw e
  loop_step fuel (utf8_string v) got bs rest h e = rw e
  loop_step fuel (object v) got bs rest h e = rw e
  loop_step fuel null got bs rest h e = rw e
  loop_step fuel (ecma_array v) got bs rest h e = rw e
  loop_step fuel (long_utf8_string v) got bs rest h e = absurd h
  loop_step fuel end got bs rest h e = absurd h

  loop-values_bytes :
      (vs got : List Amf0ValueType) (fuel : ℕ)
      → length (values_bytes vs) < fuel
      → All (λ v. Storable is_utf8 v) vs
      → read_all_loop is_utf8 insert fuel got (values_bytes vs)
        ≡ ok (got ++ map (read_back insert) vs) []
  loop-values_bytes vs got zero l h = absurd (omega arith)
  loop-values_bytes [] got (suc fuel) l h = rw (append-nil got) (loop_empty fuel got)
  loop-values_bytes (v ∷ vs) got (suc fuel) l (h, hs) =
      rw (loop_step fuel v got _ (values_bytes vs) h (read_any-value_bytes v (values_bytes vs) h)) (
        rw (← append_assoc got (read_back insert v ∷ []) (map (read_back insert) vs)) (
          loop-values_bytes vs (got ++ read_back insert v ∷ []) fuel
            (omega (arith, length-append (value_bytes v) (values_bytes vs), value_bytes_pos v h))
            hs))

  pub read_all-values_bytes :
      (vs : List Amf0ValueType)
      → All (λ v. Storable is_utf8 v) vs
      → read_all is_utf8 insert (values_bytes vs) ≡ ok (map (read_back insert) vs) []
  unfolding read_all
  read_all-values_bytes vs h =
      loop-values_bytes vs [] (length (values_bytes vs) + 1) (omega arith) h
