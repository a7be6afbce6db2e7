-- ===== src/Amf0/Runs.antt =====
-- Runs of the AMF0 reader and writer.
use xiu.Prelude.{
  ◌≡◌, refl, [], ◌∷◌, ◌++◌, Bool, true, ◌&&◌, false, ◌==◌, if◌then◌else◌, ltb, ok, arith,
}
use xiu.Prelude.Words.{Bytes}
use xiu.Amf0.Value.{
  Amf0ValueType, number, boolean, utf8_string, object, null, ecma_array, Properties, no_properties,
  property,
}
use xiu.Amf0.Reader.{read_any}
use xiu.Amf0.Writer.{write_any}
use xiu.Amf0.Layout.{Storable}
use xiu.Amf0.RoundTrip.{read_back, read_any-write_any}

-- A test that accepts the ASCII strings.
abbrev is_ascii : Bytes → Bool
is_ascii [] = true
is_ascii (b ∷ bs) = ltb b 128 && is_ascii bs

-- An insertion: a key that is there keeps its place, a new one goes to the end.
abbrev same_key : Bytes → Bytes → Bool
same_key [] [] = true
same_key [] (b ∷ bs) = false
same_key (a ∷ xs) [] = false
same_key (a ∷ xs) (b ∷ bs) = (a == b) && same_key xs bs

abbrev insert_property : Bytes → Amf0ValueType → Properties → Properties
insert_property key value no_properties = property key value no_properties
insert_property key value (property k v ps) =
    if same_key key k then property k value ps else property k v (insert_property key value ps)

-- An object in an array, with values of each kind.
abbrev metadata : Amf0ValueType
metadata = ecma_array (
    property (102 ∷ 112 ∷ 115 ∷ []) (number 0x4039000000000000) (
      property (97 ∷ []) (object (property [] (boolean true) no_properties)) (
        property (98 ∷ []) (utf8_string (120 ∷ 105 ∷ 117 ∷ []))
          (property (99 ∷ []) null no_properties))))

metadata-Storable : Storable is_ascii metadata
unfolding Storable
metadata-Storable = (
  omega arith,
  (
    omega arith,
    (
      refl,
      (
        omega arith,
        (
          omega arith,
          (
            refl,
            (
              (omega arith, (refl, (tt, tt))),
              (omega arith, (refl, ((omega arith, refl), (omega arith, (refl, (tt, tt)))))),
            ),
          ),
        ),
      ),
    ),
  ),
)

read_any-write_any_example :
    (bs : Bytes) × (write_any metadata (1 ∷ []) ≡ ok tt ((1 ∷ []) ++ bs))
    × (read_any is_ascii insert_property (bs ++ 5 ∷ [])
        ≡ ok (read_back insert_property metadata) (5 ∷ []))
read_any-write_any_example =
    read_any-write_any is_ascii insert_property metadata (1 ∷ []) (5 ∷ []) metadata-Storable
