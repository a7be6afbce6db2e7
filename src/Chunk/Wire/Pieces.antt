-- ===== src/Chunk/Wire/Pieces.antt =====
-- A payload cut in chunks, and how long it then is.
use xiu.Prelude.{
  ℕ, zero, suc, ◌≤◌, ◌<◌, ◌≡◌, sym, inl, inr, [], ◌∷◌, ◌++◌, append-nil, Bool-cases, false, ltb,
  ltb→lt, length, length-append, take, drop, length-take, length-drop, take-length_append, arith,
}
use xiu.Prelude.Words.{Bytes}
use xiu.Chunk.Wire.{share, pieces}

take_all : (n : ℕ) (xs : Bytes) → length xs ≡ n → take n xs ≡ xs
take_all n xs e = rw (← e) (rw append-nil at (take-length_append xs []))

module _ (max n : ℕ) (sep : Bytes) (x : ℕ) (xs : Bytes) where
  pub pieces-last : share max (x ∷ xs) ≡ length (x ∷ xs) → pieces max sep (suc n) (x ∷ xs) ≡ x ∷ xs
  unfolding pieces
  pieces-last e = ground (
    arith,
    take_all (share max (x ∷ xs)) (x ∷ xs) (sym e),
    length-drop (share max (x ∷ xs)) (x ∷ xs),
    append-nil (x ∷ xs),
  )

  pub pieces-inner :
      share max (x ∷ xs) < length (x ∷ xs)
      → let k = share max (x ∷ xs) in
        pieces max sep (suc n) (x ∷ xs)
        ≡ take k (x ∷ xs) ++ (sep ++ pieces max sep n (drop k (x ∷ xs)))
  unfolding pieces
  pieces-inner e = ground (arith, length-drop (share max (x ∷ xs)) (x ∷ xs))

pub length-pieces :
    (max n : ℕ) (sep payload : Bytes)
    → length payload ≤ n
    → 0 < max
    → length payload ≤ length (pieces max sep n payload)
length-pieces max n sep [] l m = omega arith
length-pieces max zero sep (x ∷ xs) l m = absurd (omega arith)
length-pieces max (suc n) sep (x ∷ xs) l m =
    elim (Bool-cases (ltb (share max payload) (length payload))) [
      | inl more ↦ rw (pieces-inner max n sep x xs (ltb→lt _ _ more)) (
          omega (
            arith,
            length-append part (sep ++ others),
            length-append sep others,
            length-take (share max payload) payload,
            length-drop (share max payload) payload,
            length-pieces max n sep (drop (share max payload) payload)
                (omega (arith, length-drop (share max payload) payload, share-pos)) m,
            share_le,
          ))
      | inr last ↦ rw (pieces-last max n sep x xs (share_all last)) (omega arith)
    ]
  where
    payload : Bytes
    payload = x ∷ xs

    part : Bytes
    part = take (share max payload) payload

    others : Bytes
    others = pieces max sep n (drop (share max payload) payload)

    share_all :
        ltb (share max payload) (length payload) ≡ false → share max payload ≡ length payload
    share_all h = ground arith

    share-pos : 0 < share max payload
    share-pos = ground arith

    share_le : share max payload ≤ length payload
    share_le = ground arith
