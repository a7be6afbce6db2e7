-- ===== src/Mpegts/Streams.antt =====
-- library/container/mpegts/src/ts.rs: the stream that `find_stream` leaves as the current one, and the
-- length of the packets of the two tables.
use xiu.Prelude.{
  ℕ, zero, suc, ◌+◌, ◌-◌, ◌≤◌, ◌<◌, ◌≡◌, refl, ap, ◌∙◌, inl, inr, List, [], ◌∷◌, ◌++◌, append_assoc,
  Bool, true, false, ◌||◌, Bool-cases, none, some, ltb, ◌==◌, ==_iff, length, length-append,
  get_elem?, ok, panic, after, ◌>>◌, append-nil, bit_or, arith,
}
use xiu.Prelude.Words.{Bytes}
use xiu.Prelude.Bits.{shr, low_bits}
use xiu.Bytesio.Writer.{BytesWriter}
use xiu.Mpegts.Tables.{Pes, Pmt}
use xiu.Mpegts.Programs.{
  TsMuxer, Search, found_at, passed, find_in_program, find_loop, find_stream, settle, cur_stream,
  write_stuffing, write_left, write_ts_header_for_pat_pmt,
}

abbrev pub has_pid : ℕ → List Pes → Bool
has_pid pid [] = false
has_pid pid (s ∷ ss) = s.pid == pid || has_pid pid ss

-- A search from a count `n` on that stops at `i`.
record Hit (pid n i : ℕ) (streams : List Pes) : Type 0 where
  place : ℕ
  stream : Pes
  counted : i ≡ n + place
  there : get_elem? streams place ≡ some stream
  right : stream.pid ≡ pid
  inside : place < length streams
  had : has_pid pid streams ≡ true

abbrev Finds : ℕ → List Pes → ℕ → Search → Type 0
Finds pid streams n (found_at i) = Hit pid n i streams
Finds pid streams n (passed i) = (i ≡ n + length streams) × (has_pid pid streams ≡ false)

find_in_program-Finds :
    (pid : ℕ) (streams : List Pes) (n : ℕ) → Finds pid streams n (find_in_program pid streams n)
unfolding find_in_program
find_in_program-Finds pid [] n = (omega arith, refl)
find_in_program-Finds pid (s ∷ ss) n = elim (Bool-cases (s.pid == pid)) [
  | inl same ↦ rw same (record {
    place = 0;
    stream = s;
    counted = omega arith;
    there = refl;
    right = (==_iff s.pid pid).0 same;
    inside = omega arith;
    had = rw same refl;
  })
  | inr other ↦
      rw other (later (find_in_program pid ss (n + 1)) (find_in_program-Finds pid ss (n + 1)) other)
]
  where
    later : (r : Search) → Finds pid ss (n + 1) r → s.pid == pid ≡ false → Finds pid (s ∷ ss) n r
    later (found_at i) f other = record {
      place = suc f.place;
      stream = f.stream;
      counted = omega (arith, f.counted);
      there = f.there;
      right = f.right;
      inside = omega (arith, f.inside);
      had = rw other f.had;
    }
    later (passed i) f other = (omega (arith, f.0), rw other f.1)

abbrev pub with_programs : List Pmt → TsMuxer → TsMuxer
with_programs pmts m = record m { pat = record (m.pat) { pmt = pmts } }

clash : {A : Type 0} (b : Bool) → b ≡ true → b ≡ false → A
clash b t f = absurd (no_both b t f)
  where
    no_both : (b : Bool) → b ≡ true → b ≡ false → ⊥
    no_both b t f = ground arith

-- With one program, for a pid that one of its streams has: after `find_stream` the current stream has
-- this pid, and nothing but the two indices has changed.
pub find_stream-cur_stream :
    (pid : ℕ) (pmt : Pmt) (m : TsMuxer)
    → has_pid pid pmt.streams ≡ true
    → (s : Pes) × (i : ℕ) × ((find_stream pid >> cur_stream) (with_programs (pmt ∷ []) m)
        ≡ ok s (record (with_programs (pmt ∷ []) m) { cur_pmt_index = 0; cur_stream_index = i }))
      × (s.pid ≡ pid)
unfolding find_stream find_loop cur_stream
find_stream-cur_stream pid pmt m h =
    at (find_in_program pid pmt.streams 0) (find_in_program-Finds pid pmt.streams 0)
  where
    at :
        (r : Search)
        → Finds pid pmt.streams 0 r
        → (s : Pes) × (i : ℕ) × (after
              (settle 0
                (with_programs (pmt ∷ []) m)
                (λ n. find_loop pid [] 1 n (with_programs (pmt ∷ []) m))
                r)
              (λ _. cur_stream)
            ≡ ok s
                (record (with_programs (pmt ∷ []) m) { cur_pmt_index = 0; cur_stream_index = i }))
          × (s.pid ≡ pid)
    at (found_at i) f =
        let e : i ≡ f.place = omega (arith, f.counted) in
        (f.stream, i, rw (ap (get_elem? pmt.streams) e ∙ f.there) refl, f.right)
    at (passed i) f = clash (has_pid pid pmt.streams) h f.1

no_elem : (ss : List Pes) (i : ℕ) → length ss ≤ i → get_elem? ss i ≡ none
no_elem [] i h = refl
no_elem (s ∷ ss) zero h = absurd (omega arith)
no_elem (s ∷ ss) (suc i) h = no_elem ss i (omega arith)

-- With two programs, for a pid that only the second one has, when the first has at least as many
-- streams as the second: what `write` does first, `find_stream` and taking the current stream, is a
-- panic.
pub find_stream-cur_stream_second :
    (pid : ℕ) (fst_pmt snd_pmt : Pmt) (m : TsMuxer)
    → has_pid pid fst_pmt.streams ≡ false
    → has_pid pid snd_pmt.streams ≡ true
    → length snd_pmt.streams ≤ length fst_pmt.streams
    → (find_stream pid >> cur_stream) (with_programs (fst_pmt ∷ snd_pmt ∷ []) m) ≡ panic
unfolding find_stream find_loop cur_stream
find_stream-cur_stream_second pid fst_pmt snd_pmt m n h few =
    first (find_in_program pid fst_pmt.streams 0) (find_in_program-Finds pid fst_pmt.streams 0)
  where
    both : TsMuxer
    both = with_programs (fst_pmt ∷ snd_pmt ∷ []) m

    second :
        (k : ℕ) (r : Search)
        → length fst_pmt.streams ≤ k
        → Finds pid snd_pmt.streams k r
        → after (settle 1 both (λ j. find_loop pid [] 2 j both) r) (λ _. cur_stream) ≡ panic
    second k (found_at i) l f = rw (no_elem snd_pmt.streams i (omega (arith, f.counted))) refl
    second k (passed i) l f = clash (has_pid pid snd_pmt.streams) h f.1

    first :
        (r : Search)
        → Finds pid fst_pmt.streams 0 r
        → after (settle 0 both (λ k. find_loop pid (snd_pmt ∷ []) 1 k both) r) (λ _. cur_stream)
          ≡ panic
    first (found_at i) f = clash (has_pid pid fst_pmt.streams) f.had n
    first (passed i) f =
        second i (find_in_program pid snd_pmt.streams i) (omega (arith, f.0))
          (find_in_program-Finds pid snd_pmt.streams i)

stuffing : (n : ℕ) → Bytes
stuffing zero = []
stuffing (suc n) = 0xff ∷ stuffing n

length-stuffing : (n : ℕ) → length (stuffing n) ≡ n
unfolding stuffing
length-stuffing zero = refl
length-stuffing (suc n) = omega (arith, length-stuffing n)

write_stuffing_lem : (n : ℕ) (w : BytesWriter) → write_stuffing n w ≡ ok tt (w ++ stuffing n)
unfolding stuffing
write_stuffing_lem zero w = rw (append-nil w) refl
write_stuffing_lem (suc n) w =
    write_stuffing_lem n (w ++ 0xff ∷ []) ∙ rw (append_assoc w (0xff ∷ []) (stuffing n)) refl

-- The packet of a table section of up to 183 bytes is appended, with the sync byte, the flag of its
-- start, the 13 bits of the pid, the counter, the section and stuffing, and has 188 bytes.
pub write_ts_header_for_pat_pmt-length :
    (pid : ℕ) (payload : Bytes) (continuity_counter : ℕ) (w : BytesWriter)
    → length payload ≤ 183
    → (packet rest : Bytes) × (write_ts_header_for_pat_pmt pid payload continuity_counter w
        ≡ ok tt (w ++ packet))
      × (length packet ≡ 188)
      × (packet
          ≡ 0x47
              ∷ bit_or 0x40 (low_bits 5 (low_bits 8 (shr pid 8)))
              ∷ low_bits 8 pid
              ∷ bit_or 0x10 continuity_counter
              ∷ 0
              ∷ payload
            ++ rest)
unfolding write_ts_header_for_pat_pmt
write_ts_header_for_pat_pmt-length pid payload continuity_counter w fits =
    let rest = stuffing (183 - length payload) in
    let packet =
      0x47
        ∷ bit_or 0x40 (low_bits 5 (low_bits 8 (shr pid 8)))
        ∷ low_bits 8 pid
        ∷ bit_or 0x10 continuity_counter
        ∷ 0
        ∷ payload
      ++ rest in
    (
      packet,
      rest,
      left (length payload) _ fits ∙ ap (ok tt) (simp append_assoc),
      omega (arith, length-append payload rest, length-stuffing (183 - length payload)),
      refl,
    )
  where
    room : (n : ℕ) → n ≤ 183 → (ltb 183 (low_bits 8 n) ≡ false) × (low_bits 8 n ≡ n)
    room n h = (ground arith, omega arith)

    left : (n : ℕ) (v : BytesWriter) → n ≤ 183 → write_left n v ≡ ok tt (v ++ stuffing (183 - n))
    left n v h = let r = room n h in rw (r.0, r.1) (write_stuffing_lem (183 - n) v)
