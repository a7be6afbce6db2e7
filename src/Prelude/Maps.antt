-- ===== src/Prelude/Maps.antt =====
-- `HashMap` as the list of its entries, with one entry for a key, and equality of keys.
use mathlib.Core.Path.{◌≡◌, refl, sym, ap, ◌∙◌}
use mathlib.Core.Logic.{◌↔◌, inl, inr}
use mathlib.Core.Bool.{Bool, true, false, ◌||◌}
use mathlib.Core.Option.{Option, none, some}
use mathlib.Core.List.{List, [], ◌∷◌}
use native.Mathlib.Omega.{arith}
use xiu.Prelude.Tests.{Bool-cases, if◌then◌else◌}

-- `Eq` of a type of keys.
pub record Eq (K : Type 0) : Type 0 where
  pub eq : K → K → Bool
  pub eq_iff : (a b : K) → (eq a b ≡ true) ↔ (a ≡ b)

module _ {K : Type 0} ⦃e : Eq K⦄ where
  pub eq_refl : (a : K) → e.eq a a ≡ true
  eq_refl a = (e.eq_iff a a).1 refl

  pub eq-no : (a b c : K) → e.eq a b ≡ true → e.eq a c ≡ false → e.eq b c ≡ false
  eq-no a b c h k = rw (sym ((e.eq_iff a b).0 h)) k

  -- Keys alone: `has` finds one, `without` takes it out.
  abbrev pub has : K → List K → Bool
  has k [] = false
  has k (x ∷ xs) = e.eq x k || has k xs

  abbrev pub without : K → List K → List K
  without k [] = []
  without k (x ∷ xs) = let rest = without k xs in if e.eq x k then rest else x ∷ rest

module _ {K V : Type 0} ⦃e : Eq K⦄ where
  abbrev pub find : K → List (K × V) → Option V
  find k [] = none
  find k ((x, v) ∷ m) = let rest = find k m in if e.eq x k then some v else rest

  abbrev pub remove : K → List (K × V) → List (K × V)
  remove k [] = []
  remove k ((x, v) ∷ m) = let rest = remove k m in if e.eq x k then rest else (x, v) ∷ rest

  abbrev pub insert : K → V → List (K × V) → List (K × V)
  insert k v m = (k, v) ∷ remove k m

abbrev pub is_in : {V : Type 0} → Option V → Bool
is_in none = false
is_in (some v) = true

abbrev pub keys : {K V : Type 0} → List (K × V) → List K
keys [] = []
keys ((k, v) ∷ m) = k ∷ keys m

abbrev pub values : {K V : Type 0} → List (K × V) → List V
values [] = []
values ((k, v) ∷ m) = v ∷ values m

module _ {K V : Type 0} ⦃e : Eq K⦄ where
  pub keys-remove : (k : K) (m : List (K × V)) → keys (remove k m) ≡ without k (keys m)
  keys-remove k [] = refl
  keys-remove k ((x, v) ∷ m) = elim (Bool-cases (e.eq x k)) [
    | inl h ↦ rw h (keys-remove k m)
    | inr h ↦ rw h (ap (λ xs. x ∷ xs) (keys-remove k m))
  ]

  pub find-has : (k : K) (m : List (K × V)) → is_in (find k m) ≡ has k (keys m)
  find-has k [] = refl
  find-has k ((x, v) ∷ m) = elim (Bool-cases (e.eq x k)) [
    | inl h ↦ rw h
    | inr h ↦ rw h (find-has k m)
  ]

module _ {K : Type 0} ⦃e : Eq K⦄ where
  pub without-no : (k : K) (xs : List K) → has k xs ≡ false → without k xs ≡ xs
  without-no k [] h = refl
  without-no k (x ∷ xs) h = elim (Bool-cases (e.eq x k)) [
    | inl y ↦ absurd (clash (e.eq x k) (has k xs) y h)
    | inr n ↦ rw n (ap (λ ys. x ∷ ys) (without-no k xs (later x k xs n h)))
  ]
    where
      clash : (b c : Bool) → b ≡ true → (b || c) ≡ false → ⊥
      clash b c y h = ground arith

      later :
          (x k : K) (xs : List K)
          → e.eq x k ≡ false
          → (e.eq x k || has k xs) ≡ false
          → has k xs ≡ false
      later x k xs n h = sym (rw n refl) ∙ h

  pub has-without : (k : K) (xs : List K) → has k (without k xs) ≡ false
  has-without k [] = refl
  has-without k (x ∷ xs) = elim (Bool-cases (e.eq x k)) [
    | inl y ↦ rw y (has-without k xs)
    | inr n ↦ rw (n, n) (has-without k xs)
  ]

module _ {K V : Type 0} ⦃e : Eq K⦄ where
  pub find-insert : (k : K) (v : V) (m : List (K × V)) → find k (insert k v m) ≡ some v
  find-insert k v m = rw (eq_refl k)
