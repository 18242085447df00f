-- ===== src/Hub/Store/Files.antt =====
-- The values of a map, and what is found in it.
use mathlib.Core.List.{Memᴰ}
use mathlib.Core.Path.{subst}
use talkeqidea.Common.{
  ◌≡◌, false, [], ◌∷◌, some, arith, All, Text, text_eq, Bool-cases, inl, inr, TextMap, lookup,
  erase, lookup-erase, mem-cases,
}
use talkeqidea.Hub.Store.{values}

module _ {E : Type 0} where
  pub lookup-mem : (key : Text) (e : E) (m : TextMap E) → lookup key m ≡ some e → Memᴰ e (values m)
  unfolding lookup
  lookup-mem key e [] h = cc
  lookup-mem key e ((at, f) ∷ m) h = elim (Bool-cases (text_eq at key)) [
    | inl here ↦ Memᴰ.head (ground arith)
    | inr there ↦ Memᴰ.tail (lookup-mem key e m (ground arith))
  ]

  pub mem-erase :
      (key : Text) (e : E) (m : TextMap E) → Memᴰ e (values (erase key m)) → Memᴰ e (values m)
  unfolding erase
  mem-erase key e [] h = h
  mem-erase key e ((at, f) ∷ m) h = elim (Bool-cases (text_eq at key)) [
    | inl here ↦ Memᴰ.tail (mem-erase key e m (rw here at h))
    | inr there ↦ elim (mem-cases (rw there at h)) [
      | inl same ↦ Memᴰ.head same
      | inr m' ↦ Memᴰ.tail (mem-erase key e m m')
    ]
  ]

  -- What is found under another key is still there.
  pub mem-erase_ne :
      (key k : Text) (e : E) (m : TextMap E)
      → lookup k m ≡ some e
      → text_eq key k ≡ false
      → Memᴰ e (values (erase key m))
  mem-erase_ne key k e m h n = lookup-mem k e (erase key m) (rw (lookup-erase key k m, n) h)

  pub All-erase :
      (P : E → Type 0) (key : Text) (m : TextMap E)
      → All P (values m)
      → All P (values (erase key m))
  unfolding erase
  All-erase P key [] h = tt
  All-erase P key ((at, f) ∷ m) (h, hs) = elim (Bool-cases (text_eq at key)) [
    | inl here ↦ rw here (All-erase P key m hs)
    | inr there ↦ rw there (h, All-erase P key m hs)
  ]

  pub All-lookup :
      (P : E → Type 0) (key : Text) (e : E) (m : TextMap E)
      → All P (values m)
      → lookup key m ≡ some e
      → P e
  unfolding lookup
  All-lookup P key e [] a h = absurd (cc)
  All-lookup P key e ((at, f) ∷ m) (p, ps) h = elim (Bool-cases (text_eq at key)) [
    | inl here ↦ let same : f ≡ e = ground arith in subst P same p
    | inr there ↦ All-lookup P key e m ps (rw there at h)
  ]
