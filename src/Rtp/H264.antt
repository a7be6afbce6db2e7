-- ===== src/Rtp/H264.antt =====
-- protocol/rtsp/src/rtp/define.rs and utils.rs: what the packers and unpackers of video share.
pub mod Packer
pub mod Unpacker
pub mod Fields
pub mod Sending
pub mod Fragments
pub mod Loop
pub mod Delivery
pub mod AnnexB
pub mod RoundTrip
pub mod Aggregates
mod Runs
use xiu.Prelude.{
  ℕ, zero, suc, ◌+◌, ◌-◌, List, [], ◌∷◌, Bool, true, false, ltb, ◌==◌, ◌&&◌, if◌then◌else◌, bit_and,
  Option, none, some, get_elem?, length, take, drop, Method, ok, panic, stuck, ◌>>◌,
}
use xiu.Prelude.Words.{Bytes}

abbrev pub annexb_nalu_start_code : Bytes
annexb_nalu_start_code = 0 ∷ 0 ∷ 0 ∷ 1 ∷ []

abbrev pub stap_a : ℕ
stap_a = 24

abbrev pub stap_b : ℕ
stap_b = 25

abbrev pub mtap_16 : ℕ
mtap_16 = 26

abbrev pub mtap_24 : ℕ
mtap_24 = 27

abbrev pub fu_a : ℕ
fu_a = 28

abbrev pub fu_b : ℕ
fu_b = 29

abbrev pub fu_start : ℕ
fu_start = 0x80

abbrev pub fu_end : ℕ
fu_end = 0x40

abbrev pub rtp_fixed_header_len : ℕ
rtp_fixed_header_len = 12

unfoldable pub is_fu_start : ℕ → Bool
is_fu_start fu_header = ltb 0 (bit_and fu_header fu_start)

unfoldable pub is_fu_end : ℕ → Bool
is_fu_end fu_header = ltb 0 (bit_and fu_header fu_end)

-- `w == pattern` for a window of three bytes.
abbrev pub is_code : Bytes → Bool
is_code (a ∷ b ∷ c ∷ bs) = (a == 0) && ((b == 0) && (c == 1))
is_code _ = false

abbrev pub next_position : Option ℕ → Option ℕ
next_position none = none
next_position (some n) = some (suc n)

unfoldable pub find_start_code : Bytes → Option ℕ
find_start_code [] = none
find_start_code (b ∷ bs) =
    let later = next_position (find_start_code bs) in if is_code (b ∷ bs) then some 0 else later

-- The byte in front of `second_pos`, with what the loop then gives.
abbrev pub back_over : Option ℕ → ℕ → Option ℕ → Option ℕ
back_over none second_pos rest = none
back_over (some b) second_pos rest = if b == 0 then rest else some second_pos

-- `while second_pos > 0 && nalus[second_pos - 1] == 0 { second_pos -= 1 }`; out of range is a panic.
unfoldable pub skip_zeros : ℕ → Bytes → Option ℕ
skip_zeros zero nalus = some 0
skip_zeros (suc n) nalus = back_over (get_elem? nalus n) (suc n) (skip_zeros n nalus)

-- Where the first unit ends, whose start code is at `first_pos`.
abbrev pub second_position : ℕ → Bytes → Option ℕ → Option ℕ
second_position first_pos nalus none = some (length nalus)
second_position first_pos nalus (some distance) = skip_zeros (first_pos + 3 + distance) nalus

module _ {S E : Type 0} (pack_nalu : Bytes → Method S E (Unit {0})) where
  -- `split_to(second_pos)`, with `split_off(first_pos + 3)` of what it gives, then the rest.
  unfoldable pub cut_at :
      (Bytes → Method S E (Unit {0})) → ℕ → Bytes → Option ℕ → Method S E (Unit {0})
  cut_at rest first_pos nalus none = λ s. panic
  cut_at rest first_pos nalus (some second_pos) =
      if ltb second_pos (first_pos + 3)
      then (λ s. panic)
      else pack_nalu (drop (first_pos + 3) (take second_pos nalus)) >> rest (drop second_pos nalus)

  abbrev pub process : (Bytes → Method S E (Unit {0})) → Bytes → Option ℕ → Method S E (Unit {0})
  process rest nalus none = ok tt
  process rest nalus (some first_pos) =
      cut_at rest first_pos nalus
        (second_position first_pos nalus (find_start_code (drop (first_pos + 3) nalus)))

  -- `while !nalus.is_empty() { … }`; a round takes three bytes at least.
  unfoldable pub split_loop : ℕ → Bytes → Method S E (Unit {0})
  unfolding cut_at find_start_code
  split_loop fuel [] = ok tt
  split_loop zero (b ∷ bs) = λ s. stuck
  split_loop (suc fuel) (b ∷ bs) = process (split_loop fuel) (b ∷ bs) (find_start_code (b ∷ bs))

  unfoldable pub split_annexb_and_process : Bytes → Method S E (Unit {0})
  unfolding split_loop
  split_annexb_and_process nalus = split_loop (length nalus) nalus
