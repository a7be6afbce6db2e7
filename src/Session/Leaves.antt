-- ===== src/Session/Leaves.antt =====
-- What holds of the object behind a call, and its lemmas on the ways to put calls together.
use xiu.Prelude.{
  Bool, true, false, ◌≡◌, refl, Outcome, Method, ok, err, panic, stuck, if◌then◌else◌, after,
  zoom_outcome,
}

module _ {S E A : Type 0} where
  -- What holds of the state after a value, and after an error.
  abbrev pub Leaves : (S → Type 0) → (S → Type 0) → Outcome S E A → Type 0
  Leaves P Q (ok a s) = P s
  Leaves P Q (err e s) = Q s
  Leaves P Q panic = Unit
  Leaves P Q stuck = Unit

  pub any-Leaves : (o : Outcome S E A) → Leaves (λ s. Unit) (λ s. Unit) o
  any-Leaves (ok a s) = tt
  any-Leaves (err e s) = tt
  any-Leaves panic = tt
  any-Leaves stuck = tt

module _ {S E A : Type 0} (P Q : S → Type 0) where
  pub test-Leaves :
      (b : Bool) (o p : Outcome S E A)
      → (b ≡ true → Leaves P Q o)
      → Leaves P Q p
      → Leaves P Q (if b then o else p)
  test-Leaves true o p h k = h refl
  test-Leaves false o p h k = k

module _ {S E A B : Type 0} (P Q R : S → Type 0) where
  pub after-Leaves :
      (o : Outcome S E A) (f : A → Method S E B)
      → Leaves P Q o
      → ((a : A) (s : S) → P s → Leaves R Q (f a s))
      → Leaves R Q (after o f)
  after-Leaves (ok a s) f h k = k a s h
  after-Leaves (err e s) f h k = h
  after-Leaves panic f h k = tt
  after-Leaves stuck f h k = tt

module _ {S T E F A : Type 0} (P Q : S → Type 0) (R U : T → Type 0) (put : S → T)
    (from : E → F) where
  pub zoom-Leaves :
      (o : Outcome S E A)
      → Leaves P Q o
      → ((s : S) → P s → R (put s))
      → ((s : S) → Q s → U (put s))
      → Leaves R U (zoom_outcome put from o)
  zoom-Leaves (ok a s) h k l = k s h
  zoom-Leaves (err e s) h k l = l s h
  zoom-Leaves panic h k l = tt
  zoom-Leaves stuck h k l = tt
