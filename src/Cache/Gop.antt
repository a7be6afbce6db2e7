-- ===== src/Cache/Gop.antt =====
-- protocol/rtmp/src/cache/gop.rs: `Gop` and `Gops`. A `Gop` is the list of its frames, and the frames
-- are of any type. The log line of a deque without a back is left out: nothing else happens then.
use xiu.Prelude.{ℕ, List, [], ◌∷◌, ◌++◌, Bool, not, ◌==◌, if◌then◌else◌, length}

module _ {A : Type 0} where
  -- `Gop::save_frame_data`, by `push`.
  abbrev pub save_in_gop : A → List A → List A
  save_in_gop data_in gop = gop ++ data_in ∷ []

  -- What `back_mut` gives access to is changed in place.
  abbrev pub update_back : (List A → List A) → List (List A) → List (List A)
  update_back f [] = []
  update_back f (g ∷ []) = f g ∷ []
  update_back f (g ∷ h ∷ gs) = g ∷ update_back f (h ∷ gs)

  abbrev pub pop_front : List (List A) → List (List A)
  pop_front [] = []
  pop_front (g ∷ gs) = gs

pub record Gops (A : Type 0) : Type 0 where
  pub gops : List (List A)
  pub size : ℕ

module _ {A : Type 0} where
  abbrev pub new : ℕ → Gops A
  new size = record { gops = [] ∷ []; size = size }

  -- The new group behind a key frame, in place of the oldest one when the cache is full.
  abbrev pub open_gop : ℕ → List (List A) → List (List A)
  open_gop size gops = (if length gops == size then pop_front gops else gops) ++ [] ∷ []

  unfoldable pub save_frame_data : A → Bool → Gops A → Gops A
  save_frame_data data_in is_key_frame g = if g.size == 0 then g else record g {
    gops =
        update_back (save_in_gop data_in) (if is_key_frame then open_gop g.size g.gops else g.gops);
  }

  abbrev pub setted : Gops A → Bool
  setted g = not (g.size == 0)
