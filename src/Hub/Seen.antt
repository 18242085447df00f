-- ===== src/Hub/Seen.antt =====
-- The seen cache of hub/router.go. Times are nanoseconds on the hub's clock.
pub mod Memory
mod Tests
use talkeqidea.Common.{
  holds, is_empty, ℕ, ◌+◌, ◌≡◌, Bool, true, false, List, [], ◌∷◌, Text, ltb, ◌||◌, text_eq,
  if◌then◌else◌,
}

-- The two maps hold keys alone.
pub record SeenCache : Type 0 where
  pub window : ℕ
  pub current : List Text
  pub previous : List Text
  pub rotate_at : ℕ

unfoldable pub new_seen_cache : ℕ → ℕ → SeenCache
new_seen_cache window now = record {
  window = window;
  current = [];
  previous = [];
  rotate_at = now + window;
}

unfoldable pub rotate : SeenCache → ℕ → SeenCache
rotate s now =
    if ltb s.rotate_at now
    then record s { previous = s.current; current = []; rotate_at = now + s.window }
    else s

unfoldable pub record_id : SeenCache → Text → SeenCache × Bool
record_id s id =
    if holds id s.current
    then (s, true)
    else if holds id s.previous
    then (s, true)
    else (record s { current = id ∷ s.current }, false)

unfoldable pub seen_before : SeenCache → ℕ → Text → SeenCache × Bool
seen_before s now id = if is_empty id then (s, false) else record_id (rotate s now) id
