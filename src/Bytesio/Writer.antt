-- ===== src/Bytesio/Writer.antt =====
-- library/bytesio/src/bytes_writer.rs: `BytesWriter`, whose one field is its bytes, and the
-- flushing of an `AsyncBytesWriter`. What was sent to the network is a list of packets. A write
-- past the end of a `Vec` by an index is a panic; so is the overflow of `+=` on a byte.
use xiu.Prelude.{
  ℕ, zero, suc, ◌+◌, ◌^◌, List, [], ◌∷◌, ◌++◌, Bool, Option, none, some, ltb, lt→ltb, ◌<◌, ◌≡◌,
  refl, if◌then◌else◌, length, get_elem?, set, Method, ok, err, panic, bit_or,
}
use xiu.Prelude.Words.{Bytes, ByteOrder, encode}

abbrev pub BytesWriter : Type 0
BytesWriter = Bytes

pub data WriteError : Type 0 where
  io_error bytes_io_error timeout out_of_index : WriteError

abbrev pub write_u8 : ℕ → Method BytesWriter WriteError (Unit {0})
write_u8 byte bytes = ok tt (bytes ++ byte ∷ [])

-- `write_u16::<T>` and its like for 4 and 8 bytes, for values of that width.
unfoldable pub write_uint : ByteOrder → ℕ → ℕ → Method BytesWriter WriteError (Unit {0})
write_uint order n v bytes = ok tt (bytes ++ encode order n v)

-- `write_u24::<T>`: byteorder panics on a value that does not fit.
unfoldable pub write_u24 : ByteOrder → ℕ → Method BytesWriter WriteError (Unit {0})
unfolding write_uint
write_u24 order v bytes = if ltb v (2 ^ 24) then write_uint order 3 v bytes else panic

pub write_u24-fits :
    (order : ByteOrder) (v : ℕ) (bytes : Bytes)
    → v < 2 ^ 24
    → write_u24 order v bytes ≡ ok tt (bytes ++ encode order 3 v)
unfolding write_u24 write_uint
write_u24-fits order v bytes h = rw (lt→ltb v (2 ^ 24) h) refl

-- `self.bytes[position] = f(self.bytes[position])`, which panics out of range.
abbrev update_at : (ℕ → Option ℕ) → ℕ → Method BytesWriter WriteError (Unit {0})
update_at f position bytes = elim (get_elem? bytes position) [
  | none ↦ panic
  | some b ↦ elim (f b) [ none ↦ panic | some b' ↦ ok tt (set bytes position b') ]
]

unfoldable pub or_u8_at : ℕ → ℕ → Method BytesWriter WriteError (Unit {0})
or_u8_at position byte bytes =
    if ltb (length bytes) position
    then err out_of_index bytes
    else update_at (λ b. some (bit_or b byte)) position bytes

unfoldable pub add_u8_at : ℕ → ℕ → Method BytesWriter WriteError (Unit {0})
add_u8_at position byte bytes =
    if ltb (length bytes) position
    then err out_of_index bytes
    else update_at (λ b. if ltb (b + byte) 256 then some (b + byte) else none) position bytes

unfoldable pub write_u8_at : ℕ → ℕ → Method BytesWriter WriteError (Unit {0})
write_u8_at position byte bytes =
    if ltb (length bytes) position
    then err out_of_index bytes
    else update_at (λ b. some byte) position bytes

abbrev pub write : Bytes → Method BytesWriter WriteError (Unit {0})
write buf bytes = ok tt (bytes ++ buf)

unfoldable pub prepend : Bytes → Method BytesWriter WriteError (Unit {0})
prepend buf bytes = ok tt (([] ++ buf) ++ bytes)

abbrev pub extract_current_bytes : Method BytesWriter WriteError Bytes
extract_current_bytes bytes = ok bytes []

drop_last : Bytes → Bytes
drop_last [] = []
drop_last (b ∷ []) = []
drop_last (b ∷ c ∷ bs) = b ∷ drop_last (c ∷ bs)

unfoldable pub pop_bytes : ℕ → BytesWriter → BytesWriter
unfolding drop_last
pop_bytes zero bytes = bytes
pop_bytes (suc size) bytes = pop_bytes size (drop_last bytes)

pub record AsyncBytesWriter : Type 0 where
  pub bytes_writer : BytesWriter
  pub sent : List Bytes

-- `flush`, given whether the network takes the packet.
unfoldable pub flush : Bool → Method AsyncBytesWriter WriteError (Unit {0})
flush taken w =
    if taken
    then ok tt (record { bytes_writer = []; sent = w.sent ++ w.bytes_writer ∷ [] })
    else err bytes_io_error w
