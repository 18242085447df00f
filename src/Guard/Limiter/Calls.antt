-- ===== src/Guard/Limiter/Calls.antt =====
-- The calls of a limiter, one after the other.
use talkeqidea.Common.{
  ℕ, ◌+◌, ◌≡◌, inl, inr, refl, true, Bool-cases, List, [], ◌∷◌, arith, length, if◌then◌else◌,
}
use talkeqidea.Guard.Limiter.{Floats, Limiter, filled, allow}

module _ (f : Floats) where
  open f use {F, is_positive, is_below_one}

  -- The limiter after calls at some times, and how many of them passed.
  allow_all : Limiter F → List ℕ → Limiter F × ℕ
  allow_all l [] = (l, 0)
  allow_all l (now ∷ times) =
      let call = allow f l now in
      let later = allow_all call.0 times in (later.0, later.1 + (if call.1 then 1 else 0))

  allow-counted :
      (l : Limiter F) (now : ℕ)
      → is_positive l.rate_per_second ≡ true
      → ((allow f l now).0.rate_per_second ≡ l.rate_per_second)
        × ((allow f l now).0.dropped + (if (allow f l now).1 then 1 else 0) ≡ l.dropped + 1)
  unfolding allow
  allow-counted l now h = elim (Bool-cases (is_below_one (filled f l now))) [
    | inl empty ↦ rw (h, empty) (refl, omega arith)
    | inr some_left ↦ rw (h, some_left) (refl, omega arith)
  ]

  -- With a rate, every call either passes or is counted as dropped.
  allow_all-counted :
      (l : Limiter F) (times : List ℕ)
      → is_positive l.rate_per_second ≡ true
      → (allow_all l times).0.dropped + (allow_all l times).1 ≡ l.dropped + length times
  unfolding allow_all
  allow_all-counted l [] h = refl
  allow_all-counted l (now ∷ times) h =
      let call = allow f l now in
      let (same, one) = allow-counted l now h in
      let rest = allow_all-counted call.0 times (rw same h) in omega (arith, rest, one)
