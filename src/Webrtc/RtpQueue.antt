-- ===== src/Webrtc/RtpQueue.antt =====
-- protocol/webrtc/src/rtp_queue.rs. A packet is of any type, with its sequence number of 16 bits.
use xiu.Prelude.{
  ℕ, ◌+◌, ◌-◌, ◌%◌, ◌^◌, List, [], ◌∷◌, ◌++◌, ◌||◌, Option, none, some, ltb, leb, ◌==◌,
  if◌then◌else◌, length, ok, panic, Method, ◌>>◌,
}

pub record RtpQueue (A : Type 0) : Type 0 where
  pub cycles : ℕ
  pub bad_seq : ℕ
  pub probation : ℕ
  pub first_ordered_seq : ℕ
  pub max_cache_size : ℕ
  pub cache : List A
  pub bad_cache : List A

abbrev pub min_sequential : ℕ
min_sequential = 2

abbrev pub rtp_seq_mod : ℕ
rtp_seq_mod = 65536

abbrev pub max_dropout : ℕ
max_dropout = 3000

abbrev pub max_misorder : ℕ
max_misorder = 100

-- `wrapping_add` and `wrapping_sub` of `u16`.
abbrev pub wrapping_add : ℕ → ℕ → ℕ
wrapping_add a b = (a + b) % 65536

abbrev pub wrapping_sub : ℕ → ℕ → ℕ
wrapping_sub a b = (a + (65536 - b)) % 65536

-- `cache.iter_mut().rev()`.
abbrev pub reverse_onto : {A : Type 0} → List A → List A → List A
reverse_onto [] ys = ys
reverse_onto (x ∷ xs) ys = reverse_onto xs (x ∷ ys)

module _ {A : Type 0} (seq : A → ℕ) where
  abbrev pub new_queue : ℕ → RtpQueue A
  new_queue max_cache_size = record {
    cycles = 0;
    bad_seq = 0;
    probation = min_sequential;
    first_ordered_seq = 0;
    max_cache_size = max_cache_size;
    cache = [];
    bad_cache = [];
  }

  abbrev pub front_seq : List A → ℕ
  front_seq [] = 0
  front_seq (x ∷ xs) = seq x

  abbrev pub back_seq : List A → ℕ
  back_seq [] = 0
  back_seq (x ∷ []) = seq x
  back_seq (x ∷ y ∷ ys) = back_seq (y ∷ ys)

  abbrev pub clear_cache : RtpQueue A → RtpQueue A
  clear_cache q = record q { cache = []; probation = min_sequential }

  abbrev pub clear_bad_cache : RtpQueue A → RtpQueue A
  clear_bad_cache q = record q { bad_cache = []; bad_seq = 0 }

  -- The loop of `insert`, from the back: behind the first item that is older.
  abbrev pub insert_behind : A → List A → List A
  insert_behind packet [] = []
  insert_behind packet (item ∷ items) =
      let rest = insert_behind packet items in
      let delta = wrapping_sub (seq packet) (seq item) in
      if delta == 0
      then item ∷ items
      else if ltb delta 32768
      then packet ∷ item ∷ items
      else item ∷ rest

  unfoldable pub insert : A → RtpQueue A → RtpQueue A
  insert packet q = record q {
    cache = reverse_onto (insert_behind packet (reverse_onto q.cache [])) [];
  }

  abbrev pub push : A → RtpQueue A → RtpQueue A
  push packet q = record q { cache = q.cache ++ packet ∷ [] }

  -- The packet that ends the probation makes the front the first one to go out.
  abbrev pub end_probation : RtpQueue A → RtpQueue A
  end_probation q =
      if q.probation == 0 then record q { first_ordered_seq = front_seq q.cache } else q

  abbrev pub count_probation : RtpQueue A → RtpQueue A
  count_probation q = end_probation (record q { probation = q.probation - 1 })

  unfoldable pub write_on_probation : A → RtpQueue A → RtpQueue A
  write_on_probation packet q =
      if length q.cache == 0
      then push packet q
      else push packet (
          if seq packet == wrapping_add (back_seq q.cache) 1
          then count_probation q
          else clear_cache q)

  -- `cycles` has 32 bits.
  abbrev pub count_cycle : A → Method (RtpQueue A) ⊥ (Unit {0})
  count_cycle packet q =
      if ltb (seq packet) (back_seq q.cache)
      then if ltb (q.cycles + rtp_seq_mod) (2 ^ 32)
        then ok tt (record q { cycles = q.cycles + rtp_seq_mod })
        else panic
      else ok tt q

  abbrev pub save_bad : A → RtpQueue A → RtpQueue A
  save_bad packet q =
      if length q.bad_cache == 0 || seq packet == q.bad_seq
      then record q {
        bad_cache = q.bad_cache ++ packet ∷ [];
        bad_seq = wrapping_add (seq packet) 1;
      }
      else clear_bad_cache q

  abbrev pub resync : RtpQueue A → RtpQueue A
  resync q =
      if leb min_sequential (length q.bad_cache)
      then clear_bad_cache (record q { cache = q.cache ++ q.bad_cache })
      else q

  abbrev pub write_next : A → Method (RtpQueue A) ⊥ (Unit {0})
  write_next packet = do count_cycle packet; λ q. ok tt (clear_bad_cache (push packet q))

  -- `write_queue` after the probation.
  unfoldable pub write_ordered : A → Method (RtpQueue A) ⊥ (Unit {0})
  write_ordered packet q =
      let cur = seq packet in
      let back = back_seq q.cache in
      let front = front_seq q.cache in
      let delta = wrapping_sub cur back in
      if delta == 0
      then ok tt q
      else if ltb delta max_dropout
      then write_next packet q
      else if ltb (wrapping_sub back cur) (wrapping_sub back front)
      then ok tt (clear_bad_cache (insert packet q))
      else if ltb (wrapping_sub front cur) max_misorder
      then ok tt q
      else ok tt (resync (save_bad packet q))

  unfoldable pub write_queue : A → Method (RtpQueue A) ⊥ (Unit {0})
  write_queue packet q =
      if q.probation == 0 then write_ordered packet q else ok tt (write_on_probation packet q)

  -- What `read_queue` returns and leaves, for the front and what is behind it.
  abbrev pub read_front : A → List A → RtpQueue A → Option A × RtpQueue A
  read_front first rest q =
      if q.first_ordered_seq == seq first
      then (
        some first,
        record q { first_ordered_seq = wrapping_add q.first_ordered_seq 1; cache = rest },
      )
      else if ltb (length q.cache) q.max_cache_size
      then (none, q)
      else (some first, record q { first_ordered_seq = wrapping_add (seq first) 1; cache = rest })

  abbrev pub read_cache : List A → RtpQueue A → Option A × RtpQueue A
  read_cache [] q = (none, q)
  read_cache (first ∷ rest) q = if ltb 0 q.probation then (none, q) else read_front first rest q

  unfoldable pub read_queue : RtpQueue A → Option A × RtpQueue A
  read_queue q = read_cache q.cache q
