-- ===== src/Prelude/Keys.antt =====
-- Lists of entries in which no key is twice.
use Prim.Native.Nat.{suc}
use mathlib.Core.Path.{◌≡◌, refl, sym, ap, ◌∙◌}
use mathlib.Core.Logic.{inl, inr}
use mathlib.Core.Bool.{Bool, true, false, ◌||◌}
use mathlib.Core.List.{List, [], ◌∷◌}
use native.Mathlib.Omega.{arith}
use xiu.Prelude.Tests.{Bool-cases}
use xiu.Prelude.Lists.{length}
use xiu.Prelude.Maps.{Eq, has, remove, keys}

or-false : (b c : Bool) → (b || c) ≡ false → (b ≡ false) × (c ≡ false)
or-false b c h = ground arith

module _ {K : Type 0} ⦃e : Eq K⦄ where
  abbrev pub Distinct : List K → Type 0
  Distinct [] = Unit
  Distinct (k ∷ ks) = (has k ks ≡ false) × Distinct ks

  pub not-has-cons :
      (j k : K) (ks : List K) → has j (k ∷ ks) ≡ false → (e.eq k j ≡ false) × (has j ks ≡ false)
  not-has-cons j k ks h = or-false (e.eq k j) (has j ks) h

module _ {K V : Type 0} ⦃e : Eq K⦄ where
  pub remove-no : (k : K) (m : List (K × V)) → has k (keys m) ≡ false → remove k m ≡ m
  remove-no k [] h = refl
  remove-no k ((j, v) ∷ m) h =
      let parts = not-has-cons k j (keys m) h in
      rw parts.0 (ap (λ n. (j, v) ∷ n) (remove-no k m parts.1))

  pub has-remove :
      (j k : K) (m : List (K × V)) → has j (keys m) ≡ false → has j (keys (remove k m)) ≡ false
  has-remove j k [] h = refl
  has-remove j k ((i, v) ∷ m) h =
      let parts = not-has-cons j i (keys m) h in
      elim (Bool-cases (e.eq i k)) [
        | inl y ↦ rw y (has-remove j k m parts.1)
        | inr n ↦ rw (n, parts.0) (has-remove j k m parts.1)
      ]

  pub Distinct-remove :
      (k : K) (m : List (K × V)) → Distinct (keys m) → Distinct (keys (remove k m))
  Distinct-remove k [] d = tt
  Distinct-remove k ((i, v) ∷ m) d = elim (Bool-cases (e.eq i k)) [
    | inl y ↦ rw y (Distinct-remove k m d.1)
    | inr n ↦ rw n (has-remove i k m d.0, Distinct-remove k m d.1)
  ]

  pub length-remove :
      (k : K) (m : List (K × V))
      → Distinct (keys m)
      → has k (keys m) ≡ true
      → suc (length (remove k m)) ≡ length m
  length-remove k [] d h = absurd (clash h)
    where
      clash : false ≡ true → ⊥
      clash h = ground arith
  length-remove k ((i, v) ∷ m) d h = elim (Bool-cases (e.eq i k)) [
    | inl y ↦ rw y (ap (λ l. suc (length l)) (remove-no k m (rw⁻¹ ((e.eq_iff i k).0 y) d.0)))
    | inr n ↦ rw n (ap suc (length-remove k m d.1 (sym (rw n refl) ∙ h)))
  ]
