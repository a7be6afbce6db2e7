-- ===== src/Rtp/H264/AnnexB.antt =====
-- Units between start codes, cut apart by `split_annexb_and_process`.
use xiu.Prelude.{
  ℕ, zero, suc, ◌+◌, ◌≤◌, ◌<◌, ◌≡◌, refl, sym, ap, ◌∙◌, List, [], ◌∷◌, ◌++◌, append-nil,
  append_assoc, Bool, true, false, ◌==◌, ◌&&◌, ltb, if◌then◌else◌, Option, none, some, get_elem?,
  length, length-append, take-length_append, drop-length_append, All, Outcome, err, panic, stuck,
  after, Method, ok, ◌>>◌, arith,
}
use xiu.Prelude.Words.{Bytes}
use xiu.Rtp.H264.{
  is_code, next_position, find_start_code, skip_zeros, second_position, cut_at, split_loop,
  split_annexb_and_process,
}

-- A start code of three or of four bytes.
abbrev pub code : Bool → Bytes
code true = 0 ∷ 0 ∷ 0 ∷ 1 ∷ []
code false = 0 ∷ 0 ∷ 1 ∷ []

unfoldable pub annexb : List (Bool × Bytes) → Bytes
annexb [] = []
annexb ((long, unit) ∷ units) = code long ++ (unit ++ annexb units)

abbrev pub EndsNonzero : Bytes → Type 0
EndsNonzero [] = ⊥
EndsNonzero (b ∷ []) = b == 0 ≡ false
EndsNonzero (b ∷ c ∷ bs) = EndsNonzero (c ∷ bs)

-- No start code inside, and no 0 at the end.
abbrev pub IsSeparable : Bool × Bytes → Type 0
IsSeparable (long, unit) = (find_start_code unit ≡ none) × EndsNonzero unit

abbrev extra : Bool → ℕ
extra long = if long then 1 else 0

find_code : (long : Bool) (rest : Bytes) → find_start_code (code long ++ rest) ≡ some (extra long)
unfolding find_start_code
find_code true rest = refl
find_code false rest = refl

not_code : (b : Bool) → b && false ≡ false
not_code true = refl
not_code false = refl

skip_one :
    (x : Bool) (o : Option ℕ)
    → (if x then some 0 else next_position o) ≡ none
    → (x ≡ false) × (o ≡ none)
skip_one true o h = cc
skip_one false none h = (refl, refl)
skip_one false (some n) h = cc

find-append :
    (unit : Bytes) (long : Bool) (rest : Bytes)
    → find_start_code unit ≡ none
    → find_start_code (unit ++ (code long ++ rest)) ≡ some (length unit + extra long)
unfolding find_start_code
find-append [] long rest h =
    let e : extra long ≡ 0 + extra long = omega arith in find_code long rest ∙ ap (λ n. some n) e
find-append (b ∷ []) true rest h = rw (not_code (b == 0))
find-append (b ∷ []) false rest h = rw (not_code (b == 0))
find-append (b ∷ c ∷ []) true rest h = rw (not_code (c == 0), not_code (b == 0))
find-append (b ∷ c ∷ []) false rest h = rw (not_code (c == 0), not_code (b == 0))
find-append (b ∷ c ∷ d ∷ bs) long rest h =
    let (x, o) = skip_one (is_code (b ∷ c ∷ d ∷ bs)) (find_start_code (c ∷ d ∷ bs)) h in
    let e : suc (length (c ∷ d ∷ bs) + extra long) ≡ length (b ∷ c ∷ d ∷ bs) + extra long =
      omega arith in
    rw (x, find-append (c ∷ d ∷ bs) long rest o) (ap (λ n. some n) e)

-- A byte that is not 0 stops the walk back over zeros.
stops :
    (n b : ℕ) (bs : Bytes)
    → get_elem? bs n ≡ some b
    → b == 0 ≡ false
    → skip_zeros (suc n) bs ≡ some (suc n)
unfolding skip_zeros
stops n b bs e z = rw (e, z)

walks :
    (n b : ℕ) (bs : Bytes)
    → get_elem? bs n ≡ some b
    → b == 0 ≡ true
    → skip_zeros (suc n) bs ≡ skip_zeros n bs
unfolding skip_zeros
walks n b bs e z = rw (e, z)

last_of :
    (unit rest : Bytes)
    → EndsNonzero unit
    → (n b : ℕ) × (length unit ≡ suc n) × (get_elem? (unit ++ rest) n ≡ some b) × (b == 0 ≡ false)
last_of [] rest h = absurd h
last_of (b ∷ []) rest h = (0, b, refl, refl, h)
last_of (b ∷ c ∷ bs) rest h =
    let (n, x, e, g, z) = last_of (c ∷ bs) rest h in (suc n, x, ap suc e, g, z)

get_behind : (xs : Bytes) (b : ℕ) (ys : Bytes) → get_elem? (xs ++ b ∷ ys) (length xs) ≡ some b
get_behind [] b ys = refl
get_behind (x ∷ xs) b ys = get_behind xs b ys

-- From the next start code back to the end of the unit.
skip-append :
    (unit : Bytes) (long : Bool) (rest : Bytes)
    → EndsNonzero unit
    → skip_zeros (length unit + extra long) (unit ++ (code long ++ rest)) ≡ some (length unit)
skip-append unit true rest h =
    let (n, b, e, g, z) = last_of unit (code true ++ rest) h in
    let one : length unit + 1 ≡ suc (length unit) = omega arith in
    rw (one, walks (length unit) 0 _ (get_behind unit 0 (0 ∷ 0 ∷ 1 ∷ rest)) refl, e)
      (stops n b _ g z)
skip-append unit false rest h =
    let (n, b, e, g, z) = last_of unit (code false ++ rest) h in
    let same : length unit + 0 ≡ suc n = omega (arith, e) in
    rw same (stops n b _ g z ∙ ap (λ k. some k) (sym e))

EndsNonzero-code : (long : Bool) (unit : Bytes) → EndsNonzero unit → EndsNonzero (code long ++ unit)
EndsNonzero-code long [] h = absurd h
EndsNonzero-code true (b ∷ bs) h = h
EndsNonzero-code false (b ∷ bs) h = h

-- Where the unit behind a start code ends: at the end of all, or before the next start code.
second_position_lem :
    (long : Bool) (unit : Bytes) (units : List (Bool × Bytes))
    → IsSeparable (long, unit)
    → second_position
        (extra long)
        (code long ++ (unit ++ annexb units))
        (find_start_code (unit ++ annexb units))
      ≡ some (length (code long ++ unit))
unfolding annexb
second_position_lem long unit [] (f, e) = rw (append-nil unit, f)
second_position_lem long unit ((next, u) ∷ units) (f, e) =
    rw
      (
        find-append unit next (u ++ annexb units) f,
        ← append_assoc (code long) unit (code next ++ (u ++ annexb units)),
        place,
      )
      (skip-append (code long ++ unit) next (u ++ annexb units) (EndsNonzero-code long unit e))
  where
    start : (b : Bool) → extra b + 3 ≡ length (code b)
    start true = refl
    start false = refl

    place : extra long + 3 + (length unit + extra next) ≡ length (code long ++ unit) + extra next
    place = omega (arith, start long, length-append (code long) unit)

code_pos : (long : Bool) → 0 < length (code long)
code_pos true = omega arith
code_pos false = omega arith

four : (n : ℕ) → ltb (suc (suc (suc (suc n)))) 4 ≡ false
four n = ground arith

three : (n : ℕ) → ltb (suc (suc (suc n))) 3 ≡ false
three n = ground arith

module _ {S E : Type 0} (f : Bytes → Method S E (Unit {0})) where
  cut_lem :
      (next : Bytes → Method S E (Unit {0})) (long : Bool) (unit rest : Bytes) (s : S)
      → cut_at f next
          (extra long)
          (code long ++ (unit ++ rest))
          (some (length (code long ++ unit)))
          s
        ≡ (f unit >> next rest) s
  unfolding cut_at
  cut_lem next true unit rest s =
      rw (four (length unit), take-length_append unit rest, drop-length_append unit rest)
  cut_lem next false unit rest s =
      rw (three (length unit), take-length_append unit rest, drop-length_append unit rest)

  -- The calls for the units, one after the other.
  abbrev pub each : List (Bool × Bytes) → Method S E (Unit {0})
  each [] = ok tt
  each ((long, unit) ∷ units) = f unit >> each units

  loop_lem :
      (fuel : ℕ) (long : Bool) (unit : Bytes) (units : List (Bool × Bytes)) (s : S)
      → IsSeparable (long, unit)
      → split_loop f (suc fuel) (code long ++ (unit ++ annexb units)) s
        ≡ (f unit >> split_loop f fuel (annexb units)) s
  unfolding split_loop
  loop_lem fuel true unit units s h =
      rw (second_position_lem true unit units h)
        (cut_lem (split_loop f fuel) true unit (annexb units) s)
  loop_lem fuel false unit units s h =
      rw (second_position_lem false unit units h)
        (cut_lem (split_loop f fuel) false unit (annexb units) s)

  split_loop-annexb :
      (units : List (Bool × Bytes)) (fuel : ℕ) (s : S)
      → All IsSeparable units
      → length (annexb units) ≤ fuel
      → split_loop f fuel (annexb units) s ≡ each units s
  unfolding annexb
  split_loop-annexb [] zero s h l = unfold split_loop in refl
  split_loop-annexb [] (suc fuel) s h l = unfold split_loop in refl
  split_loop-annexb ((long, unit) ∷ units) zero s h l =
      absurd (omega (arith, length-append (code long) (unit ++ annexb units), code_pos long))
  split_loop-annexb ((long, unit) ∷ units) (suc fuel) s (h, hs) l =
      loop_lem fuel long unit units s h
      ∙ under (f unit s) (λ s'. split_loop-annexb units fuel s' hs (
          omega (
            arith,
            length-append (code long) (unit ++ annexb units),
            length-append unit (annexb units),
            code_pos long,
          )))
    where
      under :
          (o : Outcome S E (Unit {0}))
          → ((s' : S) → split_loop f fuel (annexb units) s' ≡ each units s')
          → after o (λ _. split_loop f fuel (annexb units)) ≡ after o (λ _. each units)
      under (ok a s') g = g s'
      under (err e s') g = refl
      under panic g = refl
      under stuck g = refl

  -- Units between start codes of three or four bytes, none of which holds a start code or ends in a
  -- 0, are handed to `pack_nalu` one after the other, in order.
  pub split_annexb_and_process-annexb :
      (units : List (Bool × Bytes)) (s : S)
      → All IsSeparable units
      → split_annexb_and_process f (annexb units) s ≡ each units s
  unfolding split_annexb_and_process
  split_annexb_and_process-annexb units s h =
      split_loop-annexb units (length (annexb units)) s h (omega arith)
