-- ===== src/Guard/Window.antt =====
-- The rolling window of guard/limiter.go. Times are nanoseconds.
pub mod Rolling
mod Tests
use talkeqidea.Common.{
  ℕ, ◌+◌, ◌-◌, ◌≡◌, Bool, true, false, List, [], ◌∷◌, ◌++◌, length, is_empty, ltb, leb,
  if◌then◌else◌,
}

pub record Window : Type 0 where
  pub period : ℕ
  pub events : List ℕ

unfoldable pub new_window : ℕ → Window
new_window period = record { period = period; events = [] }

-- An event is kept if it is after `now - period`. The difference may be negative in the source, so
-- the period stands on the other side here.
abbrev pub is_recent : ℕ → ℕ → ℕ → Bool
is_recent period now event = ltb now (event + period)

-- The loop of `trim`: the events before the first recent one go.
unfoldable pub trim_events : ℕ → ℕ → List ℕ → List ℕ
trim_events period now [] = []
trim_events period now (event ∷ events) =
    let later = trim_events period now events in
    if is_recent period now event then event ∷ events else later

unfoldable pub trim : Window → ℕ → Window
unfolding trim_events
trim w now = record w { events = trim_events w.period now w.events }

unfoldable pub admit : Window → ℕ → ℕ → Window × Bool
admit w now limit =
    if leb limit (length w.events)
    then (w, false)
    else (record w { events = w.events ++ now ∷ [] }, true)

unfoldable pub allow : Window → ℕ → ℕ → Window × Bool
unfolding trim admit
allow w now limit = admit (trim w now) now limit

-- `-` stops at 0, as the source does for a negative rest.
unfoldable pub retry_after : Window → ℕ → ℕ
retry_after w now = after w.events
  where
    after : List ℕ → ℕ
    after [] = 0
    after (event ∷ _) = event + w.period - now

unfoldable pub is_idle : Window → ℕ → Window × Bool
unfolding trim
is_idle w now = (trim w now, is_empty (trim w now).events)
