-- ===== src/Common/Results.antt =====
-- A Go pair of a value and an `error`, of which one is nil.
use mathlib.Core.Bool.{Bool, true, false}
use mathlib.Core.Option.{Option, none, some}
use mathlib.Core.Path.{◌≡◌, refl}

pub data Result {ℓ κ} (E : Type ℓ) (A : Type κ) : Type (ℓ ⊔ κ) where
  ok : A → Result E A
  err : E → Result E A

infixl 5 ◌>>=◌ ◌>>◌
abbrev pub ◌>>=◌ {ℓ κ μ} :
    {E : Type ℓ} {A : Type κ} {B : Type μ} → Result E A → (A → Result E B) → Result E B
ok a >>= f = f a
err e >>= f = err e

abbrev pub ◌>>◌ {ℓ μ} : {E : Type ℓ} {B : Type μ} → Result E (Unit {0}) → Result E B → Result E B
m >> k = m >>= λ _. k

-- `if b { return e }`.
abbrev pub refuse_if {ℓ} : {E : Type ℓ} → Bool → E → Result E (Unit {0})
refuse_if true e = err e
refuse_if false e = ok tt

abbrev pub is_ok {ℓ κ} : {E : Type ℓ} {A : Type κ} → Result E A → Bool
is_ok (ok a) = true
is_ok (err e) = false

-- `v, err := f()` where only the error's being nil matters.
abbrev pub or_refuse {ℓ κ} : {E : Type ℓ} {A : Type κ} → Option A → E → Result E A
or_refuse none e = err e
or_refuse (some a) e = ok a

-- A chain that succeeds passed a value on: what the rest made of it, and where it is from.
pub >>=-eq-ok {ℓ κ μ} :
    {E : Type ℓ} {A : Type κ} {B : Type μ} (step : A → Result E B) (first : Result E A) {last : B}
    → (first >>= step) ≡ ok last
    → (mid : A) × (step mid ≡ ok last) × (first ≡ ok mid)
>>=-eq-ok step (err e) ended = absurd (cc)
>>=-eq-ok step (ok mid) ended = (mid, ended, refl)

pub refuse_if-eq-ok {ℓ μ} :
    {E : Type ℓ} {B : Type μ} (b : Bool) (e : E) (k : Unit {0} → Result E B) {r : B}
    → (refuse_if b e >>= k) ≡ ok r
    → (b ≡ false) × (k tt ≡ ok r)
refuse_if-eq-ok true e k h = absurd (cc)
refuse_if-eq-ok false e k h = (refl, h)

pub ok-injective {ℓ κ} :
    {E : Type ℓ} {A : Type κ} {a b : A} → ◌≡◌ {A = Result E A} (ok a) (ok b) → a ≡ b
ok-injective h = cc
