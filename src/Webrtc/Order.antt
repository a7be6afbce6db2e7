-- ===== src/Webrtc/Order.antt =====
-- protocol/webrtc/src/rtp_queue.rs: packets that come in order.
use xiu.Prelude.{
  ℕ, zero, suc, ◌+◌, ◌*◌, ◌%◌, ◌^◌, ◌≤◌, ◌<◌, ◌≡◌, refl, sym, ap, ◌∙◌, List, [], ◌∷◌, ◌++◌,
  append_assoc, true, false, Option, some, ltb, ◌==◌, length, map, ok, panic, Method, ◌>>◌,
  Succeeds, after-Succeeds, if-Succeeds, Succeeds-mono, append-nil, arith,
}
use xiu.Webrtc.RtpQueue.{
  RtpQueue, wrapping_sub, new_queue, back_seq, push, clear_bad_cache, count_cycle, write_ordered,
  write_on_probation, write_queue, read_cache, read_queue,
}

module _ {A : Type 0} (seq : A → ℕ) where
  -- The sequence numbers count up from `n`, on 16 bits.
  abbrev pub Contiguous : ℕ → List A → Type 0
  Contiguous n [] = Unit
  Contiguous n (x ∷ xs) = (seq x ≡ n) × Contiguous ((n + 1) % 65536) xs

  unfoldable pub write_all : List A → Method (RtpQueue A) ⊥ (Unit {0})
  write_all [] = ok tt
  write_all (x ∷ xs) = do write_queue seq x; write_all xs

  -- What `n` calls of `read_queue` return.
  unfoldable pub read_all : ℕ → RtpQueue A → List (Option A)
  read_all zero q = []
  read_all (suc n) q = let r = read_queue seq q in r.0 ∷ read_all n r.1

  record Running (first : ℕ) (c : List A) (cycles : ℕ) (q : RtpQueue A) : Type 0 where
    cached : q.cache ≡ c
    trusted : q.probation ≡ 0
    ordered : q.first_ordered_seq ≡ first
    counted : q.cycles ≤ cycles

  one_behind : (b c : ℕ) → b < 65536 → c ≡ (b + 1) % 65536 → wrapping_sub c b ≡ 1
  one_behind b c h e = omega arith

  count_cycle-Running :
      (x : A) (first : ℕ) (c : List A) (cycles : ℕ) (q : RtpQueue A)
      → cycles + 65536 < 2 ^ 32
      → Running first c cycles q
      → Succeeds (Running first c (cycles + 65536)) (count_cycle seq x q)
  count_cycle-Running x first c cycles q b r =
      if-Succeeds (Running first c (cycles + 65536)) (ltb (seq x) (back_seq seq q.cache)) _
        (ok tt q)
        (λ wraps.
          if-Succeeds (Running first c (cycles + 65536)) (ltb (q.cycles + 65536) (2 ^ 32)) _ panic
            (λ room. record {
              cached = r.cached;
              trusted = r.trusted;
              ordered = r.ordered;
              counted = more r.counted;
            })
            (λ full. absurd (no_room q.cycles r.counted full)))
        (λ goes_on. record {
          cached = r.cached;
          trusted = r.trusted;
          ordered = r.ordered;
          counted = less r.counted;
        })
    where
      more : {n : ℕ} → n ≤ cycles → n + 65536 ≤ cycles + 65536
      more h = omega arith

      less : {n : ℕ} → n ≤ cycles → n ≤ cycles + 65536
      less h = omega arith

      no_room : (n : ℕ) → n ≤ cycles → ltb (n + 65536) (2 ^ 32) ≡ false → ⊥
      no_room n h full = ground arith

  write_queue-Running :
      (x : A) (first : ℕ) (c : List A) (cycles : ℕ) (q : RtpQueue A)
      → back_seq seq c < 65536
      → seq x ≡ (back_seq seq c + 1) % 65536
      → cycles + 65536 < 2 ^ 32
      → Running first c cycles q
      → Succeeds (Running first (c ++ x ∷ []) (cycles + 65536)) (write_queue seq x q)
  unfolding write_queue write_ordered
  write_queue-Running x first c cycles q small next b r =
      rw
        (
          zero_test q.probation r.trusted,
          ap (λ d. wrapping_sub (seq x) (back_seq seq d)) r.cached
              ∙ one_behind (back_seq seq c) (seq x) small next,
        )
        (after-Succeeds (Running first c (cycles + 65536))
          (Running first (c ++ x ∷ []) (cycles + 65536)) (count_cycle seq x q)
          (λ _ q. ok tt (clear_bad_cache seq (push seq x q)))
          (count_cycle-Running x first c cycles q b r) (λ _ g s. pushed g s))
    where
      zero_test : (n : ℕ) → n ≡ 0 → (n == 0) ≡ true
      zero_test n e = ground arith

      pushed :
          (g : RtpQueue A)
          → Running first c (cycles + 65536) g
          → Running first (c ++ x ∷ []) (cycles + 65536) (clear_bad_cache seq (push seq x g))
      pushed g s = record {
        cached = ap (λ d. d ++ x ∷ []) s.cached;
        trusted = s.trusted;
        ordered = s.ordered;
        counted = s.counted;
      }

  back_seq-append : (c : List A) (x : A) → back_seq seq (c ++ x ∷ []) ≡ seq x
  back_seq-append [] x = refl
  back_seq-append (y ∷ []) x = refl
  back_seq-append (y ∷ z ∷ c) x = back_seq-append (z ∷ c) x

  Running-le :
      (first : ℕ) (c : List A) (m n : ℕ) (q : RtpQueue A)
      → m ≤ n
      → Running first c m q
      → Running first c n q
  Running-le first c m n q h r = record {
    cached = r.cached;
    trusted = r.trusted;
    ordered = r.ordered;
    counted = omega (arith, r.counted);
  }

  write_all-Running :
      (xs : List A) (first : ℕ) (c : List A) (cycles : ℕ) (q : RtpQueue A)
      → back_seq seq c < 65536
      → Contiguous ((back_seq seq c + 1) % 65536) xs
      → cycles + 65536 * length xs < 2 ^ 32
      → Running first c cycles q
      → Succeeds (Running first (c ++ xs) (cycles + 65536 * length xs)) (write_all xs q)
  unfolding write_all
  write_all-Running [] first c cycles q small t b r =
      rw (append-nil c) (Running-le first c cycles _ q (omega arith) r)
  write_all-Running (x ∷ xs) first c cycles q small t b r =
      after-Succeeds (Running first (c ++ x ∷ []) (cycles + 65536)) _ (write_queue seq x q) _
        (write_queue-Running x first c cycles q small t.0 (omega arith) r)
        λ _ g s.
          Succeeds-mono _ _ (write_all xs g)
            (write_all-Running xs first (c ++ x ∷ []) (cycles + 65536) g
              (rw (back_seq-append c x) (omega (arith, t.0))) (rw (back_seq-append c x, t.0) t.1)
              (omega arith) s)
            (λ k u.
              Running-le first (c ++ x ∷ xs) (cycles + 65536 + 65536 * length xs)
                (cycles + 65536 * length (x ∷ xs)) k (omega arith)
                (rw⁻¹ (append_assoc c (x ∷ []) xs) u))

  write_all-start :
      (x y z : A) (xs : List A) (max_cache_size : ℕ)
      → seq x < 65536
      → Contiguous (seq x) (x ∷ y ∷ z ∷ xs)
      → length xs < 65536
      → Succeeds
          (Running (seq x) (x ∷ y ∷ z ∷ xs) (0 + 65536 * length xs))
          (write_all (x ∷ y ∷ z ∷ xs) (new_queue seq max_cache_size))
  unfolding write_all write_queue write_on_probation
  write_all-start x y z xs max_cache_size small t few =
      rw (test (seq y) _ t.1.0, test (seq z) _ (t.1.1.0 ∙ ap (λ n. (n + 1) % 65536) (sym t.1.0)))
        (write_all-Running xs (seq x) (x ∷ y ∷ z ∷ []) 0 _ (omega (arith, t.1.1.0))
          (rw t.1.1.0 t.1.1.1) (omega arith)
          (record { cached = refl; trusted = refl; ordered = refl; counted = omega arith }))
    where
      test : (m n : ℕ) → m ≡ n → (m == n) ≡ true
      test m n e = ground arith

  read_queue-Running :
      (x : A) (xs : List A) (cycles : ℕ) (q : RtpQueue A)
      → Running (seq x) (x ∷ xs) cycles q
      → ((read_queue seq q).0 ≡ some x)
        × Running ((seq x + 1) % 65536) xs cycles (read_queue seq q).1
  unfolding read_queue
  read_queue-Running x xs cycles q r = front q.cache r.cached
    where
      tests : (n m : ℕ) → n ≡ 0 → m ≡ seq x → (ltb 0 n ≡ false) × ((m == seq x) ≡ true)
      tests n m e f = ground arith

      read_it :
          (read_cache seq (x ∷ xs) q).0 ≡ some x
          × Running ((seq x + 1) % 65536) xs cycles (read_cache seq (x ∷ xs) q).1
      read_it =
          let t = tests q.probation q.first_ordered_seq r.trusted r.ordered in
          rw (t.0, t.1)
            (
              refl,
              record {
                cached = refl;
                trusted = r.trusted;
                ordered = ap (λ n. (n + 1) % 65536) r.ordered;
                counted = r.counted;
              },
            )

      front :
          (d : List A)
          → d ≡ x ∷ xs
          → ((read_cache seq d q).0 ≡ some x)
            × Running ((seq x + 1) % 65536) xs cycles (read_cache seq d q).1
      front d e = rw e read_it

  read_all-Running :
      (c : List A) (first cycles : ℕ) (q : RtpQueue A)
      → Contiguous first c
      → Running first c cycles q
      → read_all (length c) q ≡ map some c
  unfolding read_all
  read_all-Running [] first cycles q t r = refl
  read_all-Running (x ∷ xs) first cycles q t r =
      let s = read_queue-Running x xs cycles q (rw t.0 r) in
      rw s.0 (
        ap (λ os. some x ∷ os)
          (read_all-Running xs ((first + 1) % 65536) cycles (read_queue seq q).1 t.1
            (rw⁻¹ t.0 s.1)))

  -- At least three packets whose sequence numbers follow each other, with the wrap-around of 16
  -- bits, and no more than 65538, written to a new queue and then read out as often as there are
  -- packets: each comes out once, in order.
  pub read_all-write_all :
      (x y z : A) (xs : List A) (max_cache_size : ℕ)
      → seq x < 65536
      → Contiguous (seq x) (x ∷ y ∷ z ∷ xs)
      → length xs < 65536
      → Succeeds
          (λ q. read_all (length (x ∷ y ∷ z ∷ xs)) q ≡ map some (x ∷ y ∷ z ∷ xs))
          (write_all (x ∷ y ∷ z ∷ xs) (new_queue seq max_cache_size))
  read_all-write_all x y z xs max_cache_size small t few =
      Succeeds-mono _ _ (write_all (x ∷ y ∷ z ∷ xs) (new_queue seq max_cache_size))
        (write_all-start x y z xs max_cache_size small t few)
        (λ q r. read_all-Running (x ∷ y ∷ z ∷ xs) (seq x) (0 + 65536 * length xs) q t r)
