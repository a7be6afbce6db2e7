-- ===== src/Mpegts/Receiver.antt =====
-- ITU-T H.222.0, 2.4.4: what a receiver makes of a section, of a program association and of a program
-- map. It knows no descriptors of a single stream.
use xiu.Prelude.{
  ℕ, zero, suc, ◌+◌, ◌-◌, ◌*◌, ◌/◌, ◌%◌, List, [], ◌∷◌, Bool, true, not, ◌&&◌, ◌==◌, leb,
  if◌then◌else◌, Option, none, some, length, take, drop,
}
use xiu.Prelude.Words.{Bytes}
use xiu.Mpegts.Polynomial.{remainder}

-- The register of a new section.
abbrev pub ones : ℕ → List Bool
ones zero = []
ones (suc n) = true ∷ ones n

abbrev pub is_empty : List Bool → Bool
is_empty [] = true
is_empty (b ∷ bs) = not b && is_empty bs

-- The checksum at the end of a section leaves nothing.
unfoldable pub is_intact : Bytes → Bool
is_intact bytes = is_empty (remainder bytes (ones 32))

-- `table_id`, the syntax indicator with its reserved bits, `section_length`, and the checksum. The result has no checksum any more.
abbrev pub read_section : ℕ → Bytes → Option Bytes
read_section table_id (t ∷ a ∷ b ∷ rest) =
    if (t == table_id)
      && ((a / 16 == 11) && ((a % 16 * 256 + b == length rest) && is_intact (t ∷ a ∷ b ∷ rest)))
    then some (take (length rest - 4) rest)
    else none
read_section table_id _ = none

abbrev pub and_then : {A B : Type 0} → Option A → (A → Option B) → Option B
and_then none f = none
and_then (some a) f = f a

abbrev pub also : {A : Type 0} → A → Option (List A) → Option (List A)
also x none = none
also x (some xs) = some (x ∷ xs)

-- Two reserved bits, `version_number` and `current_next_indicator`, and the one section of its table.
abbrev pub read_version : ℕ → ℕ → ℕ → Option ℕ
read_version v number last =
    if (v / 64 == 3) && ((v % 2 == 1) && ((number == 0) && (last == 0)))
    then some (v / 2 % 32)
    else none

pub record Association : Type 0 where
  pub transport_stream_id : ℕ
  pub version : ℕ
  pub programs : List (ℕ × ℕ)

-- Each program number with its PID behind three reserved bits.
abbrev pub read_programs : Bytes → Option (List (ℕ × ℕ))
read_programs [] = some []
read_programs (a ∷ b ∷ c ∷ d ∷ rest) =
    let more = read_programs rest in
    if c / 32 == 7 then also (a * 256 + b, c % 32 * 256 + d) more else none
read_programs _ = none

abbrev pub read_association : Bytes → Option Association
read_association (a ∷ b ∷ v ∷ number ∷ last ∷ rest) =
    and_then (read_version v number last) λ version. and_then (read_programs rest) λ programs.
      some (record { transport_stream_id = a * 256 + b; version = version; programs = programs })
read_association _ = none

abbrev pub read_pat : Bytes → Option Association
read_pat bytes = and_then (read_section 0 bytes) read_association

pub record ProgramMap : Type 0 where
  pub program_number : ℕ
  pub version : ℕ
  pub pcr_pid : ℕ
  pub program_info : Bytes
  pub streams : List (ℕ × ℕ)

-- Each stream type with the PID, and no descriptors.
abbrev pub read_streams : Bytes → Option (List (ℕ × ℕ))
read_streams [] = some []
read_streams (t ∷ c ∷ d ∷ e ∷ f ∷ rest) =
    let more = read_streams rest in
    if (c / 32 == 7) && ((e == 0xf0) && (f == 0)) then also (t, c % 32 * 256 + d) more else none
read_streams _ = none

abbrev pub read_map : Bytes → Option ProgramMap
read_map (a ∷ b ∷ v ∷ number ∷ last ∷ c ∷ d ∷ e ∷ f ∷ rest) =
    and_then (read_version v number last) λ version.
      let n = e % 16 * 256 + f in
      if (c / 32 == 7) && ((e / 16 == 15) && leb n (length rest))
      then and_then (read_streams (drop n rest)) (λ streams. some (record {
        program_number = a * 256 + b;
        version = version;
        pcr_pid = c % 32 * 256 + d;
        program_info = take n rest;
        streams = streams;
      }))
      else none
read_map _ = none

abbrev pub read_pmt : Bytes → Option ProgramMap
read_pmt bytes = and_then (read_section 2 bytes) read_map
