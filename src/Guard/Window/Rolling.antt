-- ===== src/Guard/Window/Rolling.antt =====
-- The rolling window over any sequence of calls.
use mathlib.Core.List.{append_assoc}
use talkeqidea.Common.{
  ℕ, ◌+◌, ◌≤◌, ◌≡◌, inl, inr, Bool-cases, refl, sym, ap, ◌∙◌, Bool, false, List, [], ◌∷◌, ◌++◌,
  append-nil, arith, All, All-append, All-imp, length, length-append, keep, length-keep-le, leb,
  if◌then◌else◌,
}
use talkeqidea.Guard.Window.{Window, new_window, is_recent, trim_events, trim, allow}

-- The times of a list do not go back, from a first time on.
abbrev pub IsOrdered : ℕ → List ℕ → Type 0
IsOrdered from [] = Unit
IsOrdered from (t ∷ ts) = (from ≤ t) × IsOrdered t ts

-- Calls of `allow` with one limit, and the times of those that passed.
unfoldable pub admitted : Window → ℕ → List ℕ → List ℕ
admitted w limit [] = []
admitted w limit (now ∷ times) =
    let (w', passed) = allow w now limit in
    let rest = admitted w' limit times in if passed then now ∷ rest else rest

-- Events that no later call needs to count.
abbrev IsOver : ℕ → ℕ → ℕ → Type 0
IsOver period now event = event + period ≤ now

-- `trim` drops events that are over.
trimmed :
    (period now : ℕ) (events : List ℕ)
    → (gone : List ℕ) × (gone ++ trim_events period now events ≡ events)
      × All (IsOver period now) gone
unfolding trim_events
trimmed period now [] = ([], refl, tt)
trimmed period now (event ∷ events) =
    let (gone, e, over) = trimmed period now events in
    elim (Bool-cases (is_recent period now event)) [
      | inl h ↦ ([], rw h, tt)
      | inr h ↦ (event ∷ gone, rw h (ap (λ (t : List ℕ). event ∷ t) e), (ground arith, over))
    ]

recent_of_over :
    (period now later : ℕ) (gone : List ℕ)
    → now ≤ later
    → All (IsOver period now) gone
    → keep (is_recent period later) gone ≡ []
recent_of_over period now later [] h a = refl
recent_of_over period now later (event ∷ gone) h (o, a) =
    ground (arith, recent_of_over period now later gone h a)

keep-append : (p : ℕ → Bool) (xs ys : List ℕ) → keep p (xs ++ ys) ≡ keep p xs ++ keep p ys
keep-append p [] ys = refl
keep-append p (x ∷ xs) ys = ground (arith, keep-append p xs ys)

-- The window holds all of the past that is not over, and no more than the limit.
record Covers (past : List ℕ) (now limit : ℕ) (w : Window) : Type 0 where
  gone : List ℕ
  split : gone ++ w.events ≡ past
  over : All (IsOver w.period now) gone
  few : length w.events ≤ limit

trim-Covers :
    (past : List ℕ) (before now limit : ℕ) (w : Window)
    → before ≤ now
    → Covers past before limit w
    → Covers past now limit (trim w now)
unfolding trim
trim-Covers past before now limit w h c =
    let (more, e, o) = trimmed w.period now w.events in
    record {
      gone = c.gone ++ more;
      split = append_assoc c.gone more _ ∙ ap (λ (t : List ℕ). c.gone ++ t) e ∙ c.split;
      over =
          All-append (IsOver w.period now) c.gone more
            (All-imp (IsOver w.period before) (IsOver w.period now) c.gone (λ x k. omega arith)
              c.over)
            o;
      few =
          omega (arith, c.few, ap length e, length-append more (trim_events w.period now w.events));
    }

admit_passed-Covers :
    (past : List ℕ) (now limit : ℕ) (w : Window)
    → leb limit (length w.events) ≡ false
    → Covers past now limit w
    → Covers (past ++ now ∷ []) now limit (record w { events = w.events ++ now ∷ [] })
admit_passed-Covers past now limit w h c = record {
  gone = c.gone;
  split =
      sym (append_assoc c.gone w.events (now ∷ [])) ∙ ap (λ (t : List ℕ). t ++ now ∷ []) c.split;
  over = c.over;
  few = ground (arith, length-append w.events (now ∷ []));
}

Covers-recent :
    (past : List ℕ) (now limit later : ℕ) (w : Window)
    → now ≤ later
    → Covers past now limit w
    → length (keep (is_recent w.period later) past) ≤ limit
Covers-recent past now limit later w h c =
    rw
      (
        ← c.split,
        keep-append (is_recent w.period later) c.gone w.events,
        recent_of_over w.period now later c.gone h c.over,
      )
      (omega (arith, c.few, length-keep-le (is_recent w.period later) w.events))

recent_admitted :
    (limit later : ℕ) (times : List ℕ) (past : List ℕ) (now : ℕ) (w : Window)
    → IsOrdered now times
    → All (λ t. t ≤ later) times
    → now ≤ later
    → Covers past now limit w
    → length (keep (is_recent w.period later) (past ++ admitted w limit times)) ≤ limit
unfolding admitted allow
recent_admitted limit later [] past now w o b n c =
    rw append-nil (Covers-recent past now limit later w n c)
recent_admitted limit later (t ∷ times) past now w (h, o) (b, bs) n c =
    let c' = trim-Covers past now t limit w h c in
    let refused = recent_admitted limit later times past t (trim w t) o bs b in
    let passed =
      recent_admitted limit later times (past ++ t ∷ []) t
        (record (trim w t) { events = (trim w t).events ++ t ∷ [] }) o bs b in
    elim (Bool-cases (leb limit (length (trim w t).events))) [
      | inl full ↦ rw full (refused c')
      | inr room ↦ rw room (
          rw (append_assoc past (t ∷ [])) at
            (passed (admit_passed-Covers past t limit (trim w t) room c')))
    ]

-- At no time have more than the limit been admitted within the last period, for calls at any times
-- that do not go back.
pub rolling_limit :
    (period limit start later : ℕ) (times : List ℕ)
    → IsOrdered start times
    → All (λ t. t ≤ later) times
    → start ≤ later
    → length (keep (is_recent period later) (admitted (new_window period) limit times)) ≤ limit
unfolding new_window
rolling_limit period limit start later times o b n =
    recent_admitted limit later times [] start (record { period = period; events = [] }) o b n
      (record { gone = []; split = refl; over = tt; few = omega arith })
