-- ===== src/Prelude/Outcomes.antt =====
-- What a Rust method returns: a value or an error, both with the state of the object after the
-- call, since an early return keeps what was already changed; or a panic. `stuck` is no Rust
-- result: a loop of the model ran out of its fuel, or a wait does not end.
use mathlib.Core.Path.{◌≡◌, refl}
use mathlib.Core.Bool.{Bool, true, false}
use xiu.Prelude.Tests.{if◌then◌else◌}

pub data Outcome {ℓ κ μ} (S : Type ℓ) (E : Type κ) (A : Type μ) : Type (ℓ ⊔ κ ⊔ μ) where
  ok : A → S → Outcome S E A
  err : E → S → Outcome S E A
  panic : Outcome S E A
  stuck : Outcome S E A

-- A method: from the object before the call to its outcome.
abbrev pub Method {ℓ κ μ} : Type ℓ → Type κ → Type μ → Type (ℓ ⊔ κ ⊔ μ)
Method S E A = S → Outcome S E A

module _ {ℓ κ μ ν} {S : Type ℓ} {E : Type κ} {A : Type μ} {B : Type ν} where
  abbrev pub after : Outcome S E A → (A → Method S E B) → Outcome S E B
  after (ok a s) f = f a s
  after (err e s) f = err e s
  after panic f = panic
  after stuck f = stuck

infixl 5 ◌>>=◌ ◌>>◌
-- `let a = m?; …`
abbrev pub ◌>>=◌ {ℓ κ μ ν} :
    {S : Type ℓ} {E : Type κ} {A : Type μ} {B : Type ν}
    → Method S E A
    → (A → Method S E B)
    → Method S E B
◌>>=◌ m f s = after (m s) f

abbrev pub ◌>>◌ {ℓ κ ν} :
    {S : Type ℓ} {E : Type κ} {B : Type ν} → Method S E (Unit {0}) → Method S E B → Method S E B
◌>>◌ m k s = after (m s) (λ _. k)

module _ {ℓ κ μ ν ξ} {S : Type ℓ} {T : Type ν} {E : Type κ} {F : Type ξ} {A : Type μ} (put : S → T)
    (from : E → F) where
  abbrev pub zoom_outcome : Outcome S E A → Outcome T F A
  zoom_outcome (ok a s) = ok a (put s)
  zoom_outcome (err e s) = err (from e) (put s)
  zoom_outcome panic = panic
  zoom_outcome stuck = stuck

-- A call of a field's method, with the error converted by `From`.
abbrev pub zoom {ℓ κ μ ν ξ} :
    {S : Type ℓ} {T : Type ν} {E : Type κ} {F : Type ξ} {A : Type μ}
    → (T → S)
    → (T → S → T)
    → (E → F)
    → Method S E A
    → Method T F A
zoom get put from m t = zoom_outcome (put t) from (m (get t))

-- What holds of the value and the state wherever a method returns a value. An error and a panic
-- meet it, a loop without fuel does not.
abbrev pub Returns {ℓ κ μ} :
    {S : Type ℓ} {E : Type κ} {A : Type μ} → (A → S → Type 0) → Outcome S E A → Type 0
Returns Q (ok a s) = Q a s
Returns Q (err e s) = Unit
Returns Q panic = Unit
Returns Q stuck = ⊥

pub after-Returns {ℓ κ μ ν} :
    {S : Type ℓ} {E : Type κ} {A : Type μ} {B : Type ν} (P : A → S → Type 0) (Q : B → S → Type 0)
    (o : Outcome S E A) (f : A → Method S E B)
    → Returns P o
    → ((a : A) (s : S) → P a s → Returns Q (f a s))
    → Returns Q (after o f)
after-Returns P Q (ok a s) f h k = k a s h
after-Returns P Q (err e s) f h k = tt
after-Returns P Q panic f h k = tt
after-Returns P Q stuck f h k = absurd h

pub Returns-mono {ℓ κ μ} :
    {S : Type ℓ} {E : Type κ} {A : Type μ} (P Q : A → S → Type 0) (o : Outcome S E A)
    → Returns P o
    → ((a : A) (s : S) → P a s → Q a s)
    → Returns Q o
Returns-mono P Q (ok a s) h k = k a s h
Returns-mono P Q (err e s) h k = tt
Returns-mono P Q panic h k = tt
Returns-mono P Q stuck h k = h

pub zoom-Returns {ℓ κ μ ν ξ} :
    {S : Type ℓ} {T : Type ν} {E : Type κ} {F : Type ξ} {A : Type μ} (put : S → T) (from : E → F)
    (P : A → S → Type 0) (Q : A → T → Type 0) (o : Outcome S E A)
    → Returns P o
    → ((a : A) (s : S) → P a s → Q a (put s))
    → Returns Q (zoom_outcome put from o)
zoom-Returns put from P Q (ok a s) h k = k a s h
zoom-Returns put from P Q (err e s) h k = tt
zoom-Returns put from P Q panic h k = tt
zoom-Returns put from P Q stuck h k = h

module _ {S E A : Type 0} where
  -- The call ends, with a value or an error, in a state where `P` holds.
  abbrev pub Ends : (S → Type 0) → Outcome S E A → Type 0
  Ends P (ok a s) = P s
  Ends P (err e s) = P s
  Ends P panic = ⊥
  Ends P stuck = ⊥

  -- The same, and with a value.
  abbrev pub Succeeds : (S → Type 0) → Outcome S E A → Type 0
  Succeeds P (ok a s) = P s
  Succeeds P (err e s) = ⊥
  Succeeds P panic = ⊥
  Succeeds P stuck = ⊥

module _ {S E A : Type 0} where
  pub Ends-mono :
      (P Q : S → Type 0) (o : Outcome S E A) → Ends P o → ((s : S) → P s → Q s) → Ends Q o
  Ends-mono P Q (ok a s) h k = k s h
  Ends-mono P Q (err e s) h k = k s h
  Ends-mono P Q panic h k = h
  Ends-mono P Q stuck h k = h

module _ {S E A B : Type 0} where
  pub after-Ends :
      (P : S → Type 0) (o : Outcome S E A) (f : A → S → Outcome S E B)
      → Ends P o
      → ((a : A) (s : S) → P s → Ends P (f a s))
      → Ends P (after o f)
  after-Ends P (ok a s) f h k = k a s h
  after-Ends P (err e s) f h k = h
  after-Ends P panic f h k = h
  after-Ends P stuck f h k = h

  pub after-Succeeds :
      (P Q : S → Type 0) (o : Outcome S E A) (f : A → S → Outcome S E B)
      → Succeeds P o
      → ((a : A) (s : S) → P s → Succeeds Q (f a s))
      → Succeeds Q (after o f)
  after-Succeeds P Q (ok a s) f h k = k a s h
  after-Succeeds P Q (err e s) f h k = absurd h
  after-Succeeds P Q panic f h k = absurd h
  after-Succeeds P Q stuck f h k = absurd h

module _ {S E A : Type 0} where
  -- Both branches of a test, under its result.
  pub if-Succeeds :
      (P : S → Type 0) (b : Bool) (o k : Outcome S E A)
      → (b ≡ true → Succeeds P o)
      → (b ≡ false → Succeeds P k)
      → Succeeds P (if b then o else k)
  if-Succeeds P true o k q r = q refl
  if-Succeeds P false o k q r = r refl

  pub Succeeds-mono :
      (P Q : S → Type 0) (o : Outcome S E A) → Succeeds P o → ((s : S) → P s → Q s) → Succeeds Q o
  Succeeds-mono P Q (ok a s) h k = k s h
  Succeeds-mono P Q (err e s) h k = h
  Succeeds-mono P Q panic h k = h
  Succeeds-mono P Q stuck h k = h
