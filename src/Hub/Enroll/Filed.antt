-- ===== src/Hub/Enroll/Filed.antt =====
-- The codes in the store's map, and what the loops do to them.
use mathlib.Core.List.{Memᴰ}
use talkeqidea.Common.{
  ◌≡◌, inl, inr, ap, ◌∙◌, sym, Bool, true, false, Bool-cases, mem-cases, [], ◌∷◌, some, arith, All,
  Text, text_eq, TextMap, retain, erase,
}
use talkeqidea.Hub.Store.{values}
use talkeqidea.Hub.Enroll.{EnrollEntry, find_code, charge}

module _ (verify : Text → Text → Bool) (code : Text) where
  pub find_code_sound :
      (P : Text × EnrollEntry → Type 0) (m : TextMap EnrollEntry) (id : Text) (e : EnrollEntry)
      → All P m
      → find_code verify code m ≡ some (id, e)
      → P (id, e) × Memᴰ e (values m) × (verify code e.code_hash ≡ true)
  unfolding find_code
  find_code_sound P [] id e a h = absurd (cc)
  find_code_sound P ((at, f) ∷ m) id e (p, ps) h = elim (Bool-cases (verify code f.code_hash)) [
    | inl fits ↦
        let same_id : at ≡ id = ground arith in
        let same : f ≡ e = ground arith in
        (rw (sym same_id, sym same) p, Memᴰ.head (sym same), rw (sym same) fits)
    | inr other ↦
        let (q, m', v) = find_code_sound P m id e ps (rw other at h) in (q, Memᴰ.tail m', v)
  ]

-- Every code stands under its own identifier.
abbrev pub IsFiled : TextMap EnrollEntry → Type 0
IsFiled = All (λ (p : Text × EnrollEntry). p.0 ≡ p.1.id)

-- No code stands under this identifier.
abbrev pub IsSpent : Text → TextMap EnrollEntry → Type 0
IsSpent id = All (λ (p : Text × EnrollEntry). text_eq p.0 id ≡ false)

pub erase-IsSpent : (id : Text) (m : TextMap EnrollEntry) → IsSpent id (erase id m)
unfolding erase
erase-IsSpent id [] = tt
erase-IsSpent id ((at, e) ∷ m) = elim (Bool-cases (text_eq at id)) [
  | inl here ↦ rw here (erase-IsSpent id m)
  | inr there ↦ rw there (there, erase-IsSpent id m)
]

module _ (P : Text × EnrollEntry → Type 0) where
  pub erase-All : (id : Text) (m : TextMap EnrollEntry) → All P m → All P (erase id m)
  unfolding erase
  erase-All id [] h = tt
  erase-All id ((at, e) ∷ m) (h, hs) = elim (Bool-cases (text_eq at id)) [
    | inl here ↦ rw here (erase-All id m hs)
    | inr there ↦ rw there (h, erase-All id m hs)
  ]

  pub retain-All : (p : EnrollEntry → Bool) (m : TextMap EnrollEntry) → All P m → All P (retain p m)
  unfolding retain
  retain-All p [] h = tt
  retain-All p ((at, e) ∷ m) (h, hs) = elim (Bool-cases (p e)) [
    | inl kept ↦ rw kept (h, retain-All p m hs)
    | inr gone ↦ rw gone (retain-All p m hs)
  ]

pub All-tt : (m : TextMap EnrollEntry) → All (λ (p : Text × EnrollEntry). Unit {0}) m
All-tt [] = tt
All-tt (p ∷ m) = (tt, All-tt m)

pub charge-IsSpent : (id : Text) (m : TextMap EnrollEntry) → IsSpent id m → IsSpent id (charge m)
unfolding charge
charge-IsSpent id [] h = tt
charge-IsSpent id ((at, e) ∷ m) (h, hs) = (h, charge-IsSpent id m hs)

pub charge-IsFiled : (m : TextMap EnrollEntry) → IsFiled m → IsFiled (charge m)
unfolding charge
charge-IsFiled [] h = tt
charge-IsFiled ((at, e) ∷ m) (h, hs) = (h, charge-IsFiled m hs)

pub mem-retain :
    (p : EnrollEntry → Bool) (e : EnrollEntry) (m : TextMap EnrollEntry)
    → Memᴰ e (values (retain p m))
    → Memᴰ e (values m) × (p e ≡ true)
unfolding retain
mem-retain p e [] h = elim h [ ]
mem-retain p e ((at, f) ∷ m) h = elim (Bool-cases (p f)) [
  | inl kept ↦ elim (mem-cases (rw kept at h)) [
    | inl same ↦ (Memᴰ.head same, ap p same ∙ kept)
    | inr later ↦ let (m', q) = mem-retain p e m later in (Memᴰ.tail m', q)
  ]
  | inr gone ↦ let (m', q) = mem-retain p e m (rw gone at h) in (Memᴰ.tail m', q)
]
