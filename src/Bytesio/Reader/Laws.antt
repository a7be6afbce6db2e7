-- ===== src/Bytesio/Reader/Laws.antt =====
-- What the readers take from the front of the buffer.
use xiu.Prelude.{
  ℕ, ◌^◌, ◌<◌, ◌≡◌, refl, ◌++◌, [], ◌∷◌, length, length-append, take-length_append,
  drop-length_append, ok, err, arith,
}
use xiu.Prelude.Words.{Bytes, ByteOrder, encode, decode, from_be, decode-encode, length-encode}
use xiu.Bytesio.Reader.{
  not_enough_bytes, read_bytes, advance_bytes, read_uint, advance_uint, read_u8,
}

pub read_bytes-append : (xs ys : Bytes) → read_bytes (length xs) (xs ++ ys) ≡ ok xs ys
unfolding read_bytes
read_bytes-append xs ys =
    ground (arith, length-append xs ys, take-length_append xs ys, drop-length_append xs ys)

pub read_bytes_append : (n : ℕ) (xs ys : Bytes) → length xs ≡ n → read_bytes n (xs ++ ys) ≡ ok xs ys
read_bytes_append n xs ys h = rw (← h) (read_bytes-append xs ys)

pub advance_bytes_append :
    (n : ℕ) (xs ys : Bytes) → length xs ≡ n → advance_bytes n (xs ++ ys) ≡ ok xs (xs ++ ys)
unfolding advance_bytes
advance_bytes_append n xs ys h =
    rw (← h) (ground (arith, length-append xs ys, take-length_append xs ys))

pub read_bytes_short :
    (n : ℕ) (xs : Bytes) → length xs < n → read_bytes n xs ≡ err not_enough_bytes xs
unfolding read_bytes
read_bytes_short n xs h = ground arith

pub read_uint-encode :
    (o : ByteOrder) (n v : ℕ) (rest : Bytes)
    → v < 256 ^ n
    → read_uint o n (encode o n v ++ rest) ≡ ok v rest
unfolding read_uint
read_uint-encode o n v rest h =
    rw (read_bytes_append n (encode o n v) rest (length-encode o n v), decode-encode o n v h)

pub advance_uint-encode :
    (o : ByteOrder) (n v : ℕ) (rest : Bytes)
    → v < 256 ^ n
    → advance_uint o n (encode o n v ++ rest) ≡ ok v (encode o n v ++ rest)
unfolding advance_uint
advance_uint-encode o n v rest h =
    rw (advance_bytes_append n (encode o n v) rest (length-encode o n v), decode-encode o n v h)

pub read_uint_short :
    (o : ByteOrder) (n : ℕ) (xs : Bytes)
    → length xs < n
    → read_uint o n xs ≡ err not_enough_bytes xs
unfolding read_uint
read_uint_short o n xs h = rw (read_bytes_short n xs h)

pub read_u8-cons : (b : ℕ) (rest : Bytes) → read_u8 (b ∷ rest) ≡ ok b rest
unfolding read_uint read_bytes decode from_be
read_u8-cons b rest = ground arith

pub read_u8_empty : read_u8 [] ≡ err not_enough_bytes []
unfolding read_uint read_bytes
read_u8_empty = refl
