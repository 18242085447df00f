-- ===== src/Agent/Reconnect/Backoff.antt =====
-- The wait between two attempts.
use native.Mathlib.Nat.{pow-suc}
use talkeqidea.Common.{
  ℕ, zero, suc, ◌*◌, ◌^◌, ◌≤◌, ◌<◌, ◌≡◌, refl, ap, ◌∙◌, Bool, true, false, Bool-cases, inl, inr,
  List, [], ◌∷◌, arith, length, ltb, if◌then◌else◌,
}
use talkeqidea.Agent.Link.{Agent}
use talkeqidea.Agent.Reconnect.{min_backoff, max_backoff, session_over, next_backoff, rounds, loop}

abbrev pub at_most_a_minute : ℕ → ℕ
at_most_a_minute wait = if ltb max_backoff wait then max_backoff else wait

next_backoff-session_over :
    (a : Agent) (backoff : ℕ) (b : Bool)
    → next_backoff (session_over a b) backoff ≡ at_most_a_minute (backoff * 2)
unfolding next_backoff session_over
next_backoff-session_over a backoff true = refl
next_backoff-session_over a backoff false = refl

pow-pos : (k : ℕ) → 0 < 2 ^ k
pow-pos zero = omega arith
pow-pos (suc k) = rw (pow-suc 2 k) (omega (arith, pow-pos k))

at_most_a_minute_idem :
    (wait factor : ℕ)
    → 0 < factor
    → at_most_a_minute (at_most_a_minute wait * factor) ≡ at_most_a_minute (wait * factor)
at_most_a_minute_idem wait factor p = elim (Bool-cases (ltb max_backoff wait)) [
  | inl long ↦ rw long (grind arith)
  | inr short ↦ rw short refl
]

rounds_doubled :
    (sessions : List Bool) (a : Agent) (backoff : ℕ)
    → backoff ≤ max_backoff
    → rounds a backoff sessions ≡ at_most_a_minute (backoff * 2 ^ length sessions)
unfolding rounds
rounds_doubled [] a backoff h = ground arith
rounds_doubled (b ∷ rest) a backoff h =
    let wait = at_most_a_minute (backoff * 2) in
    let n = length rest in
    let step : backoff * 2 * 2 ^ n ≡ backoff * 2 ^ suc n = rw (pow-suc 2 n) (omega arith) in
    rw (next_backoff-session_over a backoff b) (
      rounds_doubled rest (session_over a b) wait (ground arith)
      ∙ at_most_a_minute_idem (backoff * 2) (2 ^ n) (pow-pos n)
      ∙ ap at_most_a_minute step)

-- The wait after some rounds is two seconds doubled once for each, up to a minute, whether or not
-- the sessions connected: a session that connected does not start it anew.
pub loop_doubled :
    (a : Agent) (sessions : List Bool)
    → loop a sessions ≡ at_most_a_minute (min_backoff * 2 ^ length sessions)
unfolding loop
loop_doubled a sessions = rounds_doubled sessions a min_backoff (omega arith)
