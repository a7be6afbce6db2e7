-- ===== src/Bytesio/Reader.antt =====
-- library/bytesio/src/bytes_reader.rs: `BytesReader` and `AsyncBytesReader`. The one field of a
-- `BytesReader` is its buffer. The network under an `AsyncBytesReader` is the list of the packets
-- that it is still to deliver; after the last one it answers with an error.
pub mod Laws
pub mod Stream
use xiu.Prelude.{
  ℕ, ◌+◌, List, [], ◌∷◌, ◌++◌, Bool, true, false, Option, none, some, ltb, ◌==◌, if◌then◌else◌,
  length, get_elem?, take, drop, Outcome, Method, ok, err, panic, ◌>>=◌, ◌>>◌, zoom,
}
use xiu.Prelude.Words.{Bytes, ByteOrder, decode}

abbrev pub BytesReader : Type 0
BytesReader = Bytes

pub data ReadError : Type 0 where
  not_enough_bytes empty_stream io_error index_out_of_range bytes_io_error : ReadError

unfoldable pub extend_from_slice : Bytes → BytesReader → BytesReader
extend_from_slice extend buffer = buffer ++ extend

unfoldable pub read_bytes : ℕ → Method BytesReader ReadError Bytes
read_bytes n buffer =
    if ltb (length buffer) n
    then err not_enough_bytes buffer
    else ok (take n buffer) (drop n buffer)

unfoldable pub advance_bytes : ℕ → Method BytesReader ReadError Bytes
advance_bytes n buffer =
    if ltb (length buffer) n then err not_enough_bytes buffer else ok (take n buffer) buffer

-- `read_u16::<T>` and its like: a cursor over exactly `n` bytes is read in the byte order `T`.
unfoldable pub read_uint : ByteOrder → ℕ → Method BytesReader ReadError ℕ
read_uint order n = do tmp_bytes ← read_bytes n; ok (decode order tmp_bytes)

unfoldable pub advance_uint : ByteOrder → ℕ → Method BytesReader ReadError ℕ
advance_uint order n = do tmp_bytes ← advance_bytes n; ok (decode order tmp_bytes)

abbrev pub read_u8 : Method BytesReader ReadError ℕ
read_u8 = read_uint ByteOrder.big_endian 1

abbrev pub advance_u8 : Method BytesReader ReadError ℕ
advance_u8 = advance_uint ByteOrder.big_endian 1

abbrev pub read_u16 : ByteOrder → Method BytesReader ReadError ℕ
read_u16 order = read_uint order 2

abbrev pub read_u24 : ByteOrder → Method BytesReader ReadError ℕ
read_u24 order = read_uint order 3

abbrev pub advance_u24 : ByteOrder → Method BytesReader ReadError ℕ
advance_u24 order = advance_uint order 3

abbrev pub read_u32 : ByteOrder → Method BytesReader ReadError ℕ
read_u32 order = read_uint order 4

abbrev pub read_u48 : ByteOrder → Method BytesReader ReadError ℕ
read_u48 order = read_uint order 6

-- A 64-bit float stands for itself by its 64 bits.
abbrev pub read_f64 : ByteOrder → Method BytesReader ReadError ℕ
read_f64 order = read_uint order 8

abbrev pub read_u64 : ByteOrder → Method BytesReader ReadError ℕ
read_u64 order = read_uint order 8

unfoldable pub get : ℕ → Method BytesReader ReadError ℕ
get index buffer = elim (get_elem? buffer index) [
  | none ↦ err index_out_of_range buffer
  | some b ↦ ok b buffer
]

abbrev pub is_empty : BytesReader → Bool
is_empty buffer = length buffer == 0

unfoldable pub extract_remaining_bytes : Method BytesReader ReadError Bytes
extract_remaining_bytes buffer = ok buffer []

pub record AsyncBytesReader : Type 0 where
  pub bytes_reader : BytesReader
  pub incoming : List Bytes

-- `while self.bytes_reader.len() < bytes_num { self.read().await?; }`, over the packets to come.
check_loop : ℕ → BytesReader → List Bytes → Outcome AsyncBytesReader ReadError (Unit {0})
unfolding extend_from_slice
check_loop n buffer [] =
    if ltb (length buffer) n
    then err bytes_io_error (record { bytes_reader = buffer; incoming = [] })
    else ok tt (record { bytes_reader = buffer; incoming = [] })
check_loop n buffer (packet ∷ rest) =
    let more = check_loop n (extend_from_slice packet buffer) rest in
    if ltb (length buffer) n
    then more
    else ok tt (record { bytes_reader = buffer; incoming = packet ∷ rest })

check : ℕ → Method AsyncBytesReader ReadError (Unit {0})
unfolding check_loop
check n r = check_loop n r.bytes_reader r.incoming

-- Each method of `AsyncBytesReader` is `check` and then the method of `BytesReader`.
unfoldable pub checked {ℓ} :
    {A : Type ℓ} → ℕ → Method BytesReader ReadError A → Method AsyncBytesReader ReadError A
unfolding check
checked n m = do
  check n
  zoom (λ (r : AsyncBytesReader). r.bytes_reader) (λ r b. record r { bytes_reader = b }) (λ e. e) m

unfoldable pub async_read_bytes : ℕ → Method AsyncBytesReader ReadError Bytes
unfolding checked
async_read_bytes n = checked n (read_bytes n)

unfoldable pub async_read_uint : ByteOrder → ℕ → Method AsyncBytesReader ReadError ℕ
unfolding checked
async_read_uint order n = checked n (read_uint order n)
