-- ===== src/Prelude/Checked.antt =====
-- A test over all numbers below a bound, by evaluation.
use Prim.Native.Nat.{ℕ, zero, suc, ◌<◌}
use mathlib.Core.Path.{◌≡◌, refl}
use mathlib.Core.Bool.{Bool, true, false, not}
use mathlib.Core.Option.{Option, none, some}
use native.Mathlib.Omega.{arith}
use xiu.Prelude.Tests.{if◌then◌else◌}

-- What is expected of a test and what it gives.
unfoldable pub expected : Bool → Bool → Bool
expected true given = given
expected false given = not given

expected_lem : (answer given : Bool) → expected answer given ≡ true → given ≡ answer
unfolding expected
expected_lem true given h = h
expected_lem false true h = cc
expected_lem false false h = refl

-- The largest number below a bound at which a test does not give the expected answer.
unfoldable pub exception : (ℕ → Bool) → Bool → ℕ → Option ℕ
exception test answer zero = none
exception test answer (suc m) = if expected answer (test m) then exception test answer m else some m

pub no_exception :
    (test : ℕ → Bool) (answer : Bool) (bound byte : ℕ)
    → exception test answer bound ≡ none
    → byte < bound
    → test byte ≡ answer
unfolding exception
no_exception test answer zero byte clean below = absurd (omega arith)
no_exception test answer (suc m) byte clean below =
    ground (arith, no_exception test answer m byte, expected_lem answer (test m))
