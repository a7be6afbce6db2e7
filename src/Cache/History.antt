-- ===== src/Cache/History.antt =====
-- protocol/rtmp/src/cache/gop.rs: the cache against the whole history of a stream.
use xiu.Prelude.{
  ℕ, zero, suc, ◌+◌, ◌-◌, ◌<◌, ◌≡◌, refl, sym, ap, ◌∙◌, List, [], ◌∷◌, ◌++◌, Bool, true, false,
  Bool-cases, inl, inr, ◌==◌, ltb, if◌then◌else◌, length, length-append, length-drop, drop,
  drop-append_le, arith,
}
use xiu.Cache.Gop.{save_in_gop, update_back, pop_front, Gops, new, open_gop, save_frame_data}

module _ {A : Type 0} where
  -- All groups of a stream: one before the first key frame, and one from each key frame on.
  unfoldable pub groups : List (List A) → List (A × Bool) → List (List A)
  groups gs [] = gs
  groups gs ((d, true) ∷ fs) = groups (gs ++ (d ∷ []) ∷ []) fs
  groups gs ((d, false) ∷ fs) = groups (update_back (save_in_gop d) gs) fs

  -- The cache after a sequence of frames, each with whether it is a key frame.
  unfoldable pub save_all : Gops A → List (A × Bool) → Gops A
  save_all g [] = g
  save_all g ((d, key) ∷ fs) = save_all (save_frame_data d key g) fs

  abbrev pub last_groups : ℕ → List (List A) → List (List A)
  last_groups n gs = drop (length gs - n) gs

  update_back-append :
      (f : List A → List A) (gs : List (List A)) (g : List A)
      → update_back f (gs ++ g ∷ []) ≡ gs ++ f g ∷ []
  update_back-append f [] g = refl
  update_back-append f (h ∷ []) g = refl
  update_back-append f (h ∷ i ∷ gs) g = ap (λ xs. h ∷ xs) (update_back-append f (i ∷ gs) g)

  length-update_back :
      (f : List A → List A) (gs : List (List A)) → length (update_back f gs) ≡ length gs
  length-update_back f [] = refl
  length-update_back f (g ∷ []) = refl
  length-update_back f (g ∷ h ∷ gs) = ap suc (length-update_back f (h ∷ gs))

  update_back-drop :
      (f : List A → List A) (n : ℕ) (gs : List (List A))
      → n < length gs
      → update_back f (drop n gs) ≡ drop n (update_back f gs)
  update_back-drop f zero gs h = refl
  update_back-drop f (suc n) [] h = absurd (omega arith)
  update_back-drop f (suc n) (g ∷ []) h = absurd (omega arith)
  update_back-drop f (suc n) (g ∷ i ∷ gs) h = update_back-drop f n (i ∷ gs) (omega arith)

  pop_front-drop : (n : ℕ) (gs : List (List A)) → pop_front (drop n gs) ≡ drop (suc n) gs
  pop_front-drop zero [] = refl
  pop_front-drop zero (g ∷ gs) = refl
  pop_front-drop (suc n) [] = refl
  pop_front-drop (suc n) (g ∷ gs) = pop_front-drop n gs

  front :
      (size : ℕ) (gs : List (List A))
      → 0 < size
      → (let kept = last_groups size gs in
          (if length kept == size then pop_front kept else kept) ≡ drop (suc (length gs) - size) gs)
  front size gs h = elim (Bool-cases (ltb (length gs) size)) [
    | inl room ↦ rw (
      none_out (length gs) size room,
      no_room (length gs) size room,
      zero_out (length gs) size room,
    )
    | inr full ↦
        rw
          (
            length-drop (length gs - size) gs,
            all_in (length gs) size full,
            one_more (length gs) size full,
          )
          (pop_front-drop (length gs - size) gs)
  ]
    where
      none_out : (n k : ℕ) → ltb n k ≡ true → n - k ≡ 0
      none_out n k e = ground arith

      no_room : (n k : ℕ) → ltb n k ≡ true → n == k ≡ false
      no_room n k e = ground arith

      zero_out : (n k : ℕ) → ltb n k ≡ true → suc n - k ≡ 0
      zero_out n k e = ground arith

      all_in : (n k : ℕ) → ltb n k ≡ false → n - (n - k) == k ≡ true
      all_in n k e = ground arith

      one_more : (n k : ℕ) → ltb n k ≡ false → suc n - k ≡ suc (n - k)
      one_more n k e = ground arith

  -- A key frame opens a group.
  key_step :
      (size : ℕ) (d : A) (gs : List (List A))
      → 0 < size
      → update_back (save_in_gop d) (open_gop size (last_groups size gs))
        ≡ last_groups size (gs ++ (d ∷ []) ∷ [])
  key_step size d gs h = rw (front size gs h) (
      update_back-append (save_in_gop d) (drop (suc (length gs) - size) gs) []
      ∙ rw (
        length-append gs ((d ∷ []) ∷ []),
        one (length gs),
        drop-append_le (suc (length gs) - size) gs ((d ∷ []) ∷ []) (omega arith),
      ))
    where
      one : (n : ℕ) → n + 1 ≡ suc n
      one n = omega arith

  other_step :
      (size : ℕ) (d : A) (gs : List (List A))
      → 0 < size
      → 0 < length gs
      → update_back (save_in_gop d) (last_groups size gs)
        ≡ last_groups size (update_back (save_in_gop d) gs)
  other_step size d gs h k =
      rw (length-update_back (save_in_gop d) gs)
        (update_back-drop (save_in_gop d) (length gs - size) gs (omega arith))

  nonempty-groups : (d : A) (gs : List (List A)) → 0 < length (gs ++ (d ∷ []) ∷ [])
  nonempty-groups d gs = omega (arith, length-append gs ((d ∷ []) ∷ []))

  abbrev running : (size : ℕ) (gs : List (List A)) → Gops A
  running size gs = record { gops = last_groups size gs; size = size }

  save_all-running :
      (size : ℕ) (gs : List (List A)) (fs : List (A × Bool))
      → 0 < size
      → 0 < length gs
      → save_all (running size gs) fs ≡ running size (groups gs fs)
  unfolding save_all groups save_frame_data
  save_all-running size gs [] h k = refl
  save_all-running size gs ((d, true) ∷ fs) h k =
      rw (positive size h, key_step size d gs h)
        (save_all-running size (gs ++ (d ∷ []) ∷ []) fs h (nonempty-groups d gs))
    where
      positive : (n : ℕ) → 0 < n → n == 0 ≡ false
      positive n h = ground arith
  save_all-running size gs ((d, false) ∷ fs) h k =
      rw (positive size h, other_step size d gs h k)
        (save_all-running size (update_back (save_in_gop d) gs) fs h
          (omega (arith, length-update_back (save_in_gop d) gs)))
    where
      positive : (n : ℕ) → 0 < n → n == 0 ≡ false
      positive n h = ground arith

  -- After any sequence of frames, a cache that was new with a size above 0 holds exactly the last
  -- `size` groups of the stream, or all of them where there are fewer: each group whole, in order, and with every
  -- frame since its key frame.
  pub save_all-last_groups :
      (size : ℕ) (fs : List (A × Bool))
      → 0 < size
      → (save_all (new size) fs).gops ≡ last_groups size (groups ([] ∷ []) fs)
  save_all-last_groups size fs h =
      rw (sym (start size h))
        (ap (λ g. g.gops) (save_all-running size ([] ∷ []) fs h (omega arith)))
    where
      start : (n : ℕ) → 0 < n → running n ([] ∷ []) ≡ new n
      start n h = rw (small n h)
        where
          small : (n : ℕ) → 0 < n → 1 - n ≡ 0
          small n h = omega arith

  -- A cache of size 0 keeps nothing of any frame.
  pub save_all-size_zero : (fs : List (A × Bool)) → (save_all (new 0) fs).gops ≡ [] ∷ []
  unfolding save_all save_frame_data
  save_all-size_zero [] = refl
  save_all-size_zero ((d, key) ∷ fs) = save_all-size_zero fs
