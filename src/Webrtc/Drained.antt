-- ===== src/Webrtc/Drained.antt =====
-- protocol/webrtc/src/rtp_queue.rs: a queue from which all packets were read, and what holds of any
-- queue between two calls.
use xiu.Prelude.{
  ℕ, ◌+◌, ◌-◌, ◌^◌, ◌≤◌, ◌<◌, ◌≡◌, refl, none, ◌⊎◌, inl, inr, [], ◌∷◌, ◌++◌, Bool, true, false,
  ◌||◌, Bool-cases, ltb, leb, ◌==◌, if◌then◌else◌, length, ok, panic, Succeeds, if-Succeeds,
  after-Succeeds, arith,
}
use xiu.Webrtc.RtpQueue.{
  RtpQueue, wrapping_add, wrapping_sub, back_seq, front_seq, push, insert, clear_bad_cache,
  count_cycle, save_bad, resync, write_next, write_ordered, clear_cache, write_on_probation,
  write_queue, read_queue,
}

module _ {A : Type 0} (seq : A → ℕ) where
  from_zero-lost :
      (n : ℕ)
      → (n ≡ 0) ⊎ ((65436 < n) × (n < 65536))
      → (wrapping_sub n 0 == 0 ≡ true)
        ⊎ ((wrapping_sub n 0 == 0 ≡ false)
            × (ltb (wrapping_sub n 0) 3000 ≡ false)
            × (ltb (wrapping_sub 0 n) (wrapping_sub 0 0) ≡ false)
            × (ltb (wrapping_sub 0 n) 100 ≡ true))
  from_zero-lost n (inl z) = inl (ground arith)
  from_zero-lost n (inr (a, b)) = inr (ground arith, ground arith, ground arith, ground arith)

  from_zero-held :
      (n : ℕ)
      → 3000 ≤ n
      → n ≤ 65436
      → (wrapping_sub n 0 == 0 ≡ false)
        × (ltb (wrapping_sub n 0) 3000 ≡ false)
        × (ltb (wrapping_sub 0 n) (wrapping_sub 0 0) ≡ false)
        × (ltb (wrapping_sub 0 n) 100 ≡ false)
  from_zero-held n a b = (ground arith, ground arith, ground arith, ground arith)

  abbrev pub drained : RtpQueue A → RtpQueue A
  drained q = record q { probation = 0; cache = [] }

  -- A queue whose probation is over and from which everything was read drops a packet with the
  -- sequence number 0 or one from 65437 to 65535, and is left as it was.
  pub write_queue-drained_lost :
      (x : A) (q : RtpQueue A)
      → (seq x ≡ 0) ⊎ ((65436 < seq x) × (seq x < 65536))
      → write_queue seq x (drained q) ≡ ok tt (drained q)
  unfolding write_queue write_ordered
  write_queue-drained_lost x q h = elim (from_zero-lost (seq x) h) [
    | inl z ↦ rw z refl
    | inr t ↦ rw (t.0, t.1, t.2, t.3) refl
  ]

  -- A queue whose probation is over and from which everything was read, with no packet put aside:
  -- a packet with a sequence number from 3000 to 65436 is put aside, and the cache stays empty, so
  -- that the next read returns nothing.
  pub write_queue-drained_held :
      (x : A) (q : RtpQueue A)
      → 3000 ≤ seq x
      → seq x ≤ 65436
      → write_queue seq x (record (drained q) { bad_cache = [] })
          ≡ ok tt (record (drained q) { bad_cache = x ∷ []; bad_seq = wrapping_add (seq x) 1 })
        × (read_queue seq
            (record (drained q) { bad_cache = x ∷ []; bad_seq = wrapping_add (seq x) 1 })).0
          ≡ none
  unfolding write_queue write_ordered read_queue
  write_queue-drained_held x q a b =
      let t = from_zero-held (seq x) a b in (rw (t.0, t.1, t.2, t.3) refl, refl)

  -- What the queue keeps between two calls.
  pub record Valid (q : RtpQueue A) : Type 0 where
    pub on_probation : q.probation ≤ 2
    pub one_bad : length q.bad_cache < 2

  cleared : (q : RtpQueue A) → q.probation ≤ 2 → Valid (clear_bad_cache seq q)
  cleared q b = record { on_probation = b; one_bad = omega arith }

  resync-Valid : (q : RtpQueue A) → q.probation ≤ 2 → Valid (resync seq q)
  resync-Valid q b = elim (Bool-cases (leb 2 (length q.bad_cache))) [
    | inl full ↦ rw full (cleared (record q { cache = q.cache ++ q.bad_cache }) b)
    | inr few ↦ rw few (record { on_probation = b; one_bad = below (length q.bad_cache) few })
  ]
    where
      below : (n : ℕ) → leb 2 n ≡ false → n < 2
      below n h = ground arith

  save_bad-probation : (x : A) (q : RtpQueue A) → (save_bad seq x q).probation ≡ q.probation
  save_bad-probation x q = elim (Bool-cases (length q.bad_cache == 0 || seq x == q.bad_seq)) [
    | inl y ↦ rw y refl
    | inr n ↦ rw n refl
  ]

  count_cycle-Valid :
      (x : A) (q : RtpQueue A)
      → Valid q
      → q.cycles + 65536 < 2 ^ 32
      → Succeeds Valid (count_cycle seq x q)
  count_cycle-Valid x q v b =
      if-Succeeds Valid (ltb (seq x) (back_seq seq q.cache)) _ (ok tt q)
        (λ wraps.
          if-Succeeds Valid (ltb (q.cycles + 65536) (2 ^ 32)) _ panic
            (λ room. record { on_probation = v.on_probation; one_bad = v.one_bad })
            (λ full. absurd (no_room q.cycles b full)))
        (λ goes_on. v)
    where
      no_room : (n : ℕ) → n + 65536 < 2 ^ 32 → ltb (n + 65536) (2 ^ 32) ≡ false → ⊥
      no_room n h full = ground arith

  write_next-Valid :
      (x : A) (q : RtpQueue A)
      → Valid q
      → q.cycles + 65536 < 2 ^ 32
      → Succeeds Valid (write_next seq x q)
  write_next-Valid x q v b =
      after-Succeeds Valid Valid (count_cycle seq x q)
        (λ _ g. ok tt (clear_bad_cache seq (push seq x g))) (count_cycle-Valid x q v b)
        (λ _ g w. cleared (push seq x g) w.on_probation)

  write_ordered-Valid :
      (x : A) (q : RtpQueue A)
      → Valid q
      → q.cycles + 65536 < 2 ^ 32
      → Succeeds Valid (write_ordered seq x q)
  unfolding write_ordered insert
  write_ordered-Valid x q v b = branches _ _ _ _
    where
      branches :
          (same near older late : Bool)
          → Succeeds Valid (
              if same
              then ok tt q
              else if near
              then write_next seq x q
              else if older
              then ok tt (clear_bad_cache seq (insert seq x q))
              else if late
              then ok tt q
              else ok tt (resync seq (save_bad seq x q)))
      branches true near older late = v
      branches false true older late = write_next-Valid x q v b
      branches false false true late = cleared (insert seq x q) v.on_probation
      branches false false false true = v
      branches false false false false =
          resync-Valid (save_bad seq x q) (rw (save_bad-probation x q) v.on_probation)

  write_on_probation-Valid : (x : A) (q : RtpQueue A) → Valid q → Valid (write_on_probation seq x q)
  unfolding write_on_probation
  write_on_probation-Valid x q v =
      branches (length q.cache == 0) (seq x == wrapping_add (back_seq seq q.cache) 1)
        (q.probation - 1 == 0)
    where
      counted : (n : ℕ) → n ≤ 2 → n - 1 ≤ 2
      counted n h = omega arith

      branches :
          (empty next over : Bool)
          → Valid (
              if empty
              then push seq x q
              else push seq x (
                  if next
                  then (let r = record q { probation = q.probation - 1 } in
                      if over then record r { first_ordered_seq = front_seq seq r.cache } else r)
                  else clear_cache seq q))
      branches true next over = record { on_probation = v.on_probation; one_bad = v.one_bad }
      branches false true true = record {
        on_probation = counted q.probation v.on_probation;
        one_bad = v.one_bad;
      }
      branches false true false = record {
        on_probation = counted q.probation v.on_probation;
        one_bad = v.one_bad;
      }
      branches false false over = record { on_probation = omega arith; one_bad = v.one_bad }

  -- Every packet, written to any queue that has at most one packet put aside and is at most two
  -- packets from the end of its probation, and whose count of cycles has room for one more: the
  -- write ends without a panic and leaves such a queue.
  pub write_queue-Valid :
      (x : A) (q : RtpQueue A)
      → Valid q
      → q.cycles + 65536 < 2 ^ 32
      → Succeeds Valid (write_queue seq x q)
  unfolding write_queue
  write_queue-Valid x q v b =
      if-Succeeds Valid (q.probation == 0) (write_ordered seq x q)
        (ok tt (write_on_probation seq x q)) (λ over. write_ordered-Valid x q v b)
        (λ on. write_on_probation-Valid x q v)
