-- ===== src/Hub/Seen/Tests.antt =====
-- A cache with a window of 30.
use talkeqidea.Common.{ℕ, ◌≡◌, refl, List, [], ◌∷◌, Text, codes, false, text_eq, holds}
use talkeqidea.Hub.Seen.{SeenCache, seen_before, record_id, rotate}
use talkeqidea.Hub.Seen.Memory.{run}

abbrev start : SeenCache
start = record { window = 30; current = []; previous = []; rotate_at = 30 }

abbrev between : List (ℕ × Text)
between = (35, codes "b") ∷ (49, codes "c") ∷ []

forgotten_after_two_rotations :
    (seen_before
      (run (seen_before start 0 (codes "a")).0 ((31, codes "b") ∷ (62, codes "c") ∷ []))
      63
      (codes "a")).1
    ≡ false
unfolding run seen_before record_id rotate holds text_eq
forgotten_after_two_rotations = refl
