-- ===== src/Common/Map.antt =====
-- A Go map with string keys, as an association list with one entry for each key.
use Prim.Native.Nat.{◌+◌, ◌≤◌}
use mathlib.Core.Path.{◌≡◌}
use mathlib.Core.Bool.{Bool, true}
use mathlib.Core.Option.{Option, none, some}
use mathlib.Core.List.{List, [], ◌∷◌}
use native.Mathlib.Omega.{arith}
use talkeqidea.Common.Tests.{if◌then◌else◌}
use talkeqidea.Common.Texts.{Text, text_eq, text_eq_iff, text_eq_refl}
use talkeqidea.Common.Lists.{length}

module _ {ℓ} (V : Type ℓ) where
  abbrev pub TextMap : Type ℓ
  TextMap = List (Text × V)

module _ {ℓ} {V : Type ℓ} where
  unfoldable pub lookup : Text → TextMap V → Option V
  lookup key [] = none
  lookup key ((at, found) ∷ rest) = if text_eq at key then some found else lookup key rest

  -- `m[key] = new`: in place where the key is there, at the end where it is not.
  unfoldable pub insert : Text → V → TextMap V → TextMap V
  insert key new [] = (key, new) ∷ []
  insert key new ((at, old) ∷ rest) =
      let kept = (at, old) ∷ insert key new rest in
      if text_eq at key then (at, new) ∷ rest else kept

  -- `delete(m, key)`.
  unfoldable pub erase : Text → TextMap V → TextMap V
  erase key [] = []
  erase key ((at, old) ∷ rest) =
      let others = erase key rest in if text_eq at key then others else (at, old) ∷ others

  -- `for k, v := range m { if !p(v) { delete(m, k) } }`.
  unfoldable pub retain : (V → Bool) → TextMap V → TextMap V
  retain p [] = []
  retain p ((at, v) ∷ rest) = let others = retain p rest in if p v then (at, v) ∷ others else others

  pub lookup-insert :
      (key asked : Text) (new : V) (m : TextMap V)
      → lookup asked (insert key new m) ≡ (if text_eq key asked then some new else lookup asked m)
  unfolding lookup insert
  lookup-insert key asked new [] = ground arith
  lookup-insert key asked new ((at, old) ∷ rest) = ground (
    arith,
    lookup-insert key asked new rest,
    text_eq_iff at key,
    text_eq_iff at asked,
    text_eq_iff key asked,
  )

  pub lookup-erase :
      (key asked : Text) (m : TextMap V)
      → lookup asked (erase key m) ≡ (if text_eq key asked then none else lookup asked m)
  unfolding lookup erase
  lookup-erase key asked [] = ground arith
  lookup-erase key asked ((at, old) ∷ rest) = ground (
    arith,
    lookup-erase key asked rest,
    text_eq_iff at key,
    text_eq_iff at asked,
    text_eq_iff key asked,
  )

  pub length-insert-le :
      (key : Text) (new : V) (m : TextMap V) → length (insert key new m) ≤ length m + 1
  unfolding insert
  length-insert-le key new [] = omega arith
  length-insert-le key new ((at, old) ∷ rest) = ground (arith, length-insert-le key new rest)

  pub length-erase-le : (key : Text) (m : TextMap V) → length (erase key m) ≤ length m
  unfolding erase
  length-erase-le key [] = omega arith
  length-erase-le key ((at, old) ∷ rest) = ground (arith, length-erase-le key rest)

  pub length-retain-le : (p : V → Bool) (m : TextMap V) → length (retain p m) ≤ length m
  unfolding retain
  length-retain-le p [] = omega arith
  length-retain-le p ((at, v) ∷ rest) = ground (arith, length-retain-le p rest)

  pub lookup-insert_self :
      (key : Text) (new : V) (m : TextMap V) → lookup key (insert key new m) ≡ some new
  lookup-insert_self key new m = simp (lookup-insert, text_eq_refl)

  pub lookup-retain :
      (p : V → Bool) (key : Text) (v : V) (m : TextMap V)
      → lookup key m ≡ some v
      → p v ≡ true
      → lookup key (retain p m) ≡ some v
  unfolding lookup retain
  lookup-retain p key v [] h k = cc
  lookup-retain p key v ((at, w) ∷ rest) h k = ground (arith, lookup-retain p key v rest)
