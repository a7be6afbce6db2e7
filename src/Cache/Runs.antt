-- ===== src/Cache/Runs.antt =====
-- Runs of the cache.
use xiu.Prelude.{ℕ, ◌≡◌, List, [], ◌∷◌, Bool, true, false, arith}
use xiu.Cache.Gop.{new}
use xiu.Cache.History.{groups, save_all, last_groups, save_all-last_groups}

-- Frames of three groups, behind two that come before the first key frame.
abbrev frames : List (ℕ × Bool)
frames = (1, false) ∷ (2, false) ∷ (3, true) ∷ (4, false) ∷ (5, true) ∷ (6, true) ∷ (7, false) ∷ []

save_all-last_groups_example :
    (save_all (new 2) frames).gops ≡ last_groups 2 (groups ([] ∷ []) frames)
save_all-last_groups_example = save_all-last_groups 2 frames (omega arith)
