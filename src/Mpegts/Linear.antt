-- ===== src/Mpegts/Linear.antt =====
-- Sums of polynomials over two elements, and the remainder of a sum.
use xiu.Prelude.{
  ℕ, zero, suc, ◌≤◌, ◌≡◌, refl, sym, ap, ◌∙◌, List, [], ◌∷◌, ◌++◌, Bool, true, false, length,
  append_assoc, append-nil, length-append, arith,
}
use xiu.Mpegts.Polynomial.{xor, add, generator, shift, shifts}
use xiu.Mpegts.Table.{zeros}

xor_comm : (a b : Bool) → xor a b ≡ xor b a
xor_comm true true = refl
xor_comm true false = refl
xor_comm false true = refl
xor_comm false false = refl

xor_assoc : (a b c : Bool) → xor (xor a b) c ≡ xor a (xor b c)
xor_assoc true true true = refl
xor_assoc true true false = refl
xor_assoc true false c = refl
xor_assoc false b c = refl

xor_twice : (a b : Bool) → xor a (xor a b) ≡ b
xor_twice true true = refl
xor_twice true false = refl
xor_twice false b = refl

add-nil : (xs : List Bool) → add xs [] ≡ xs
add-nil [] = refl
add-nil (x ∷ xs) = refl

pub add_comm : (xs ys : List Bool) → add xs ys ≡ add ys xs
add_comm [] [] = refl
add_comm [] (y ∷ ys) = refl
add_comm (x ∷ xs) [] = refl
add_comm (x ∷ xs) (y ∷ ys) = rw (xor_comm x y, add_comm xs ys) refl

add_assoc : (xs ys zs : List Bool) → add (add xs ys) zs ≡ add xs (add ys zs)
add_assoc [] ys zs = refl
add_assoc (x ∷ xs) [] zs = refl
add_assoc (x ∷ xs) (y ∷ ys) [] = refl
add_assoc (x ∷ xs) (y ∷ ys) (z ∷ zs) = rw (xor_assoc x y z, add_assoc xs ys zs) refl

add_left_comm : (xs ys zs : List Bool) → add xs (add ys zs) ≡ add ys (add xs zs)
add_left_comm xs ys zs =
    sym (add_assoc xs ys zs) ∙ ap (λ t. add t zs) (add_comm xs ys) ∙ add_assoc ys xs zs

-- A sum with the same polynomial twice.
add_twice : (xs ys : List Bool) → length xs ≤ length ys → add xs (add xs ys) ≡ ys
add_twice [] ys h = refl
add_twice (x ∷ xs) [] h = absurd (omega arith)
add_twice (x ∷ xs) (y ∷ ys) h = rw (xor_twice x y, add_twice xs ys (omega arith)) refl

length-add : (xs ys : List Bool) → length xs ≤ length ys → length (add xs ys) ≡ length ys
length-add [] ys h = refl
length-add (x ∷ xs) [] h = absurd (omega arith)
length-add (x ∷ xs) (y ∷ ys) h = omega (arith, length-add xs ys (omega arith))

pub add-append :
    (xs ys us vs : List Bool)
    → length xs ≡ length ys
    → add (xs ++ us) (ys ++ vs) ≡ add xs ys ++ add us vs
add-append [] [] us vs h = refl
add-append [] (y ∷ ys) us vs h = absurd (omega arith)
add-append (x ∷ xs) [] us vs h = absurd (omega arith)
add-append (x ∷ xs) (y ∷ ys) us vs h = rw (add-append xs ys us vs (omega arith)) refl

pub add-zeros : (xs : List Bool) → add xs (zeros (length xs)) ≡ xs
add-zeros [] = refl
add-zeros (true ∷ xs) = rw (add-zeros xs) refl
add-zeros (false ∷ xs) = rw (add-zeros xs) refl

pub zeros-add : (n : ℕ) (xs : List Bool) → n ≤ length xs → add (zeros n) xs ≡ xs
zeros-add zero xs h = refl
zeros-add (suc n) [] h = absurd (omega arith)
zeros-add (suc n) (x ∷ xs) h = rw (zeros-add n xs (omega arith)) refl

length-snoc : (xs : List Bool) (b : Bool) → length (xs ++ b ∷ []) ≡ suc (length xs)
length-snoc xs b = omega (arith, length-append xs (b ∷ []))

length-shift : (xs : List Bool) → length xs ≡ 32 → length (shift xs) ≡ 32
length-shift [] h = h
length-shift (true ∷ xs) h = omega (
  arith,
  length-add generator (xs ++ false ∷ []) (omega (arith, length-snoc xs false)),
  length-snoc xs false,
)
length-shift (false ∷ xs) h = omega (arith, length-snoc xs false)

module _ (g xs ys : List Bool) where
  -- Of two sums, the same polynomial goes out.
  both : length g ≤ length (add xs ys) → add (add g xs) (add g ys) ≡ add xs ys
  both h =
      add_assoc g xs (add g ys) ∙ ap (add g) (add_left_comm xs g ys) ∙ add_twice g (add xs ys) h

shift-add :
    (xs ys : List Bool)
    → length xs ≡ 32
    → length ys ≡ 32
    → shift (add xs ys) ≡ add (shift xs) (shift ys)
shift-add [] ys h k = absurd (omega arith)
shift-add (x ∷ xs) [] h k = absurd (omega arith)
shift-add (x ∷ xs) (y ∷ ys) h k = by_tops x y
  where
    next : add (xs ++ false ∷ []) (ys ++ false ∷ []) ≡ add xs ys ++ false ∷ []
    next = add-append xs ys (false ∷ []) (false ∷ []) (omega arith)

    long : length generator ≤ length (add (xs ++ false ∷ []) (ys ++ false ∷ []))
    long = omega (
      arith,
      length-add (xs ++ false ∷ []) (ys ++ false ∷ [])
          (omega (arith, length-snoc xs false, length-snoc ys false)),
      length-snoc ys false,
    )

    by_tops : (a b : Bool) → shift (add (a ∷ xs) (b ∷ ys)) ≡ add (shift (a ∷ xs)) (shift (b ∷ ys))
    by_tops true true = sym next ∙ sym (both generator (xs ++ false ∷ []) (ys ++ false ∷ []) long)
    by_tops true false =
        ap (add generator) (sym next)
        ∙ sym (add_assoc generator (xs ++ false ∷ []) (ys ++ false ∷ []))
    by_tops false true =
        ap (add generator) (sym next)
        ∙ add_left_comm generator (xs ++ false ∷ []) (ys ++ false ∷ [])
    by_tops false false = sym next

pub shifts-add :
    (k : ℕ) (xs ys : List Bool)
    → length xs ≡ 32
    → length ys ≡ 32
    → shifts k (add xs ys) ≡ add (shifts k xs) (shifts k ys)
shifts-add zero xs ys h j = refl
shifts-add (suc k) xs ys h j =
    ap (shifts k) (shift-add xs ys h j)
    ∙ shifts-add k (shift xs) (shift ys) (length-shift xs h) (length-shift ys j)

-- Nothing is taken modulo the generator as long as zeros go out.
pub shifts-zeros : (k : ℕ) (xs : List Bool) → shifts k (zeros k ++ xs) ≡ xs ++ zeros k
shifts-zeros zero xs = sym (append-nil xs)
shifts-zeros (suc k) xs =
    ap (shifts k) (append_assoc (zeros k) xs (false ∷ []))
    ∙ shifts-zeros k (xs ++ false ∷ [])
    ∙ append_assoc xs (false ∷ []) (zeros k)
