-- ===== src/Guard/Limiter.antt =====
-- guard/limiter.go: the token bucket of an agent's messages. The arithmetic of floats is a
-- parameter.
pub mod Calls
use talkeqidea.Common.{
  ℕ, ◌+◌, ◌-◌, ◌≡◌, Bool, true, false, List, [], ◌∷◌, if◌then◌else◌, ℤ, pos, lt_nat,
}

-- What the bucket asks of `float64`. `refill tokens elapsed rate` is the tokens after an elapsed
-- time in nanoseconds.
pub record Floats : Type 1 where
  pub F : Type 0
  pub of_int : ℤ → F
  pub is_positive : F → Bool
  pub refill : F → ℕ → F → F
  pub exceeds : F → F → Bool
  pub is_below_one : F → Bool
  pub minus_one : F → F

pub record Limiter (F : Type 0) : Type 0 where
  pub rate_per_second : F
  pub burst : F
  pub tokens : F
  pub last : ℕ
  pub dropped : ℕ

module _ (f : Floats) where
  open f use {F, of_int, is_positive, refill, exceeds, is_below_one, minus_one}

  unfoldable pub new_limiter : F → ℤ → ℕ → Limiter F
  new_limiter rate burst now =
      let at_least_one = if lt_nat burst 1 then pos 1 else burst in
      record {
        rate_per_second = rate;
        burst = of_int at_least_one;
        tokens = of_int at_least_one;
        last = now;
        dropped = 0;
      }

  -- The tokens after the elapsed time, up to the burst.
  unfoldable pub filled : Limiter F → ℕ → F
  filled l now =
      let tokens = refill l.tokens (now - l.last) l.rate_per_second in
      if exceeds tokens l.burst then l.burst else tokens

  unfoldable pub allow : Limiter F → ℕ → Limiter F × Bool
  allow l now =
      let tokens = filled l now in
      if is_positive l.rate_per_second
      then (if is_below_one tokens
          then (record l { last = now; tokens = tokens; dropped = l.dropped + 1 }, false)
          else (record l { last = now; tokens = minus_one tokens }, true))
      else (l, true)
