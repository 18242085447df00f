-- ===== src/Guard/Window/Tests.antt =====
-- Three calls in a period of 60, at most two at once.
use talkeqidea.Common.{ℕ, ◌≡◌, ◌≤◌, refl, List, [], ◌∷◌, length, keep, arith}
use talkeqidea.Guard.Window.{new_window, is_recent, allow}
use talkeqidea.Guard.Window.Rolling.{admitted, rolling_limit}

abbrev times : List ℕ
times = 10 ∷ 20 ∷ 30 ∷ 75 ∷ []

third_refused : admitted (new_window 60) 2 times ≡ 10 ∷ 20 ∷ 75 ∷ []
unfolding admitted allow new_window
third_refused = refl

rolling_limit_example : length (keep (is_recent 60 79) (admitted (new_window 60) 2 times)) ≤ 2
rolling_limit_example = rolling_limit 60 2 0 79 times (omega arith) (omega arith) (omega arith)
