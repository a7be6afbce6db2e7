-- ===== src/Session/Url.antt =====
-- protocol/rtmp/src/utils/mod.rs: `RtmpUrlParser`, without `append_port`. A string is its bytes; the
-- pairs that a query is taken apart into are dropped by the source.
use xiu.Prelude.{
  ℕ, [], ◌∷◌, Bool, true, false, Option, none, some, ◌==◌, if◌then◌else◌, List, All, ◌≡◌, refl,
  Method, ok, err,
}
use xiu.Prelude.Words.{Bytes}
use xiu.Prelude.Text.{codes}

abbrev in_front : ℕ → List Bytes → List Bytes
in_front x [] = (x ∷ []) ∷ []
in_front x (part ∷ parts) = (x ∷ part) ∷ parts

-- `split` at every character of a kind.
abbrev pub split : (ℕ → Bool) → Bytes → List Bytes
split is_sep [] = [] ∷ []
split is_sep (x ∷ xs) =
    let parts = split is_sep xs in if is_sep x then [] ∷ parts else in_front x parts

-- `split(…).next().unwrap_or(…)`
abbrev pub first_part : List Bytes → Bytes
first_part [] = []
first_part (part ∷ parts) = part

abbrev second_part : List Bytes → Option Bytes
second_part (a ∷ b ∷ parts) = some b
second_part _ = none

-- `parse_stream_name_with_query`
unfoldable pub parse_stream_name_with_query : Bytes → Bytes × Option Bytes
parse_stream_name_with_query name =
    let parts = split (λ x. x == 63) name in (first_part parts, second_part parts)

pub record RtmpUrlParser : Type 0 where
  pub url : Bytes
  pub host_with_port : Bytes
  pub host : Bytes
  pub port : Option Bytes
  pub app_name : Bytes
  pub stream_name_with_query : Bytes
  pub stream_name : Bytes
  pub query : Option Bytes

abbrev pub new : Bytes → RtmpUrlParser
new url = record {
  url = url;
  host_with_port = [];
  host = [];
  port = none;
  app_name = [];
  stream_name_with_query = [];
  stream_name = [];
  query = none;
}

pub data RtmpUrlParseError : Type 0 where
  notvalid : RtmpUrlParseError

abbrev strip_prefix : Bytes → Bytes → Option Bytes
strip_prefix [] xs = some xs
strip_prefix (p ∷ ps) [] = none
strip_prefix (p ∷ ps) (x ∷ xs) = let rest = strip_prefix ps xs in if x == p then rest else none

abbrev or_else : Option Bytes → Option Bytes → Option Bytes
or_else none other = other
or_else (some xs) other = some xs

-- What stands behind the first occurrence.
abbrev behind : Bytes → Bytes → Option Bytes
behind pattern [] = strip_prefix pattern []
behind pattern (x ∷ xs) = or_else (strip_prefix pattern (x ∷ xs)) (behind pattern xs)

abbrev parse_host_with_port : RtmpUrlParser → RtmpUrlParser
parse_host_with_port u =
    let parts = split (λ x. x == 58) u.host_with_port in
    elim (second_part parts) [
      | none ↦ record u { host = first_part parts }
      | some port ↦ record u { host = first_part parts; port = some port }
    ]

abbrev take_parts : List Bytes → Method RtmpUrlParser RtmpUrlParseError (Unit {0})
take_parts (host ∷ app ∷ stream ∷ []) u =
    let named = parse_stream_name_with_query stream in
    ok tt (record (parse_host_with_port (record u { host_with_port = host })) {
      app_name = app;
      stream_name_with_query = stream;
      stream_name = named.0;
      query = named.1;
    })
take_parts _ u = err notvalid u

-- `parse_url`
unfoldable pub parse_url : Method RtmpUrlParser RtmpUrlParseError (Unit {0})
parse_url u = elim (behind (codes "rtmp://") u.url) [
  | none ↦ err notvalid u
  | some left ↦ take_parts (split (λ x. x == 47) left) u
]

module _ (is_sep : ℕ → Bool) where
  abbrev pub IsUnsplit : Bytes → Type 0
  IsUnsplit = All (λ x. is_sep x ≡ false)

  in_front-IsUnsplit :
      (x : ℕ) (parts : List Bytes)
      → is_sep x ≡ false
      → IsUnsplit (first_part parts)
      → IsUnsplit (first_part (in_front x parts))
  in_front-IsUnsplit x [] h k = (h, tt)
  in_front-IsUnsplit x (part ∷ parts) h k = (h, k)

  pub first_part-IsUnsplit : (xs : Bytes) → IsUnsplit (first_part (split is_sep xs))
  first_part-IsUnsplit [] = tt
  first_part-IsUnsplit (x ∷ xs) = by_test (first_part-IsUnsplit xs) (is_sep x) refl
    where
      by_test :
          IsUnsplit (first_part (split is_sep xs))
          → (b : Bool) → is_sep x ≡ b
          → IsUnsplit
              (first_part (if b then [] ∷ split is_sep xs else in_front x (split is_sep xs)))
      by_test rest true h = tt
      by_test rest false h = in_front-IsUnsplit x (split is_sep xs) h rest
