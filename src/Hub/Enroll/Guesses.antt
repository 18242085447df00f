-- ===== src/Hub/Enroll/Guesses.antt =====
-- Attempts to redeem codes that are not recognized.
use talkeqidea.Common.{
  ℕ, ◌+◌, ◌≤◌, ◌<◌, ◌≡◌, inl, inr, refl, Bool, true, false, not, Bool-cases, List, [], ◌∷◌, Option,
  none, some, arith, All, All-imp, Text, length, ◌==◌, TextMap, retain, err,
}
use talkeqidea.Golang.Strings.{Unicode}
use talkeqidea.Relay.EnrollCode.{enroll_code_length, normalize_enroll_code}
use talkeqidea.Hub.Store.{
  SaveOutcome, save_failed, saved, saved_unseen, refresh, refresh_from, save,
}
use talkeqidea.Hub.Enroll.{
  EnrollEntry, EnrollStore, not_recognized, id_of, by_created, is_expired, max_enroll_attempts,
  prune, current, find_code, charge, redeemed, redeem_found, redeem,
}

-- The file is as the store last read or wrote it.
abbrev pub IsHeld : EnrollStore → Type 0
IsHeld s =
    (m : TextMap EnrollEntry) → refresh id_of (record s { entries = m }) ≡ record s { entries = m }

-- A write whose modification time can be read, or that fails.
abbrev pub is_seen : SaveOutcome → Bool
is_seen save_failed = true
is_seen (saved _) = true
is_seen (saved_unseen _) = false

pub save-IsHeld :
    (s : EnrollStore) (outcome : SaveOutcome)
    → IsHeld s
    → is_seen outcome ≡ true
    → IsHeld (save by_created s outcome).0
unfolding save refresh refresh_from
save-IsHeld s save_failed h k = h
save-IsHeld s (saved t) h k = λ m. ground arith
save-IsHeld s (saved_unseen t) h k = absurd (cc)

pub save-entries :
    (s : EnrollStore) (outcome : SaveOutcome) → (save by_created s outcome).0.entries ≡ s.entries
unfolding save
save-entries s save_failed = refl
save-entries s (saved t) = refl
save-entries s (saved_unseen t) = refl

-- Every code was charged at least `k` times.
abbrev IsCharged : ℕ → TextMap EnrollEntry → Type 0
IsCharged k = All (λ (p : Text × EnrollEntry). k ≤ p.1.attempts)

abbrev IsLive : TextMap EnrollEntry → Type 0
IsLive = All (λ (p : Text × EnrollEntry). p.1.attempts < max_enroll_attempts)

charge-IsCharged : (k : ℕ) (m : TextMap EnrollEntry) → IsCharged k m → IsCharged (k + 1) (charge m)
unfolding charge
charge-IsCharged k [] h = tt
charge-IsCharged k ((id, e) ∷ m) (h, hs) = (omega arith, charge-IsCharged k m hs)

retain-IsCharged :
    (p : EnrollEntry → Bool) (k : ℕ) (m : TextMap EnrollEntry)
    → IsCharged k m
    → IsCharged k (retain p m)
unfolding retain
retain-IsCharged p k [] h = tt
retain-IsCharged p k ((id, e) ∷ m) (h, hs) = elim (Bool-cases (p e)) [
  | inl kept ↦ rw kept (h, retain-IsCharged p k m hs)
  | inr gone ↦ rw gone (retain-IsCharged p k m hs)
]

kept_live :
    (now : ℕ) (e : EnrollEntry) → not (is_expired now e) ≡ true → e.attempts < max_enroll_attempts
unfolding is_expired
kept_live now e h = ground arith

retain-IsLive :
    (now : ℕ) (m : TextMap EnrollEntry) → IsLive (retain (λ e. not (is_expired now e)) m)
unfolding retain
retain-IsLive now [] = tt
retain-IsLive now ((id, e) ∷ m) = elim (Bool-cases (not (is_expired now e))) [
  | inl kept ↦ rw kept (kept_live now e kept, retain-IsLive now m)
  | inr gone ↦ rw gone (retain-IsLive now m)
]

uncharged : (m : TextMap EnrollEntry) → IsCharged 0 m
uncharged [] = tt
uncharged ((id, e) ∷ m) = (omega arith, uncharged m)

none_left : (m : TextMap EnrollEntry) → IsCharged max_enroll_attempts m → IsLive m → m ≡ []
none_left [] h k = refl
none_left ((id, e) ∷ m) (h, hs) (k, ks) = absurd (omega arith)

-- An attempt to redeem a code: when, how the write ends, and what is presented.
pub record Guess : Type 0 where
  pub now : ℕ
  pub outcome : SaveOutcome
  pub code : Text

module _ (u : Unicode) (verify : Text → Text → Bool) where
  unfoldable pub redeem_all : EnrollStore → List Guess → EnrollStore
  redeem_all s [] = s
  redeem_all s (g ∷ gs) = redeem_all (redeem u verify s g.now g.outcome g.code).0 gs

  -- Each attempt is answered by the error for a code that is not recognized, and each write is
  -- seen.
  unfoldable pub IsRefused : EnrollStore → List Guess → Type 0
  IsRefused s [] = Unit
  IsRefused s (g ∷ gs) =
      (is_seen g.outcome ≡ true)
      × ((redeem u verify s g.now g.outcome g.code).1 ≡ err not_recognized)
      × IsRefused (redeem u verify s g.now g.outcome g.code).0 gs

  charged : EnrollStore → ℕ → SaveOutcome → EnrollStore
  charged s now outcome =
      (save by_created (prune now (record s { entries = charge s.entries })) outcome).0

  refused_found :
      (s : EnrollStore) (now : ℕ) (outcome : SaveOutcome) (found : Option (Text × EnrollEntry))
      → (redeem_found s now outcome found).1 ≡ err not_recognized
      → (redeem_found s now outcome found).0 ≡ charged s now outcome
  unfolding redeem_found redeemed save charged
  refused_found s now outcome none r = refl
  refused_found s now save_failed (some (id, e)) r = absurd (ground arith)
  refused_found s now (saved t) (some (id, e)) r = absurd (ground arith)
  refused_found s now (saved_unseen t) (some (id, e)) r = absurd (ground arith)

  -- What a refused attempt leaves.
  refused_lem :
      (s : EnrollStore) (now : ℕ) (outcome : SaveOutcome) (code : Text)
      → IsHeld s
      → (redeem u verify s now outcome code).1 ≡ err not_recognized
      → (redeem u verify s now outcome code).0 ≡ charged (prune now s) now outcome
  unfolding redeem current
  refused_lem s now outcome code h r =
      let same : refresh id_of s ≡ s = h s.entries in
      elim (Bool-cases (length (normalize_enroll_code u code) == enroll_code_length)) [
        | inl whole ↦
            rw (whole, same)
              (refused_found (prune now s) now outcome
                (find_code verify (normalize_enroll_code u code) (prune now s).entries)
                (rw (whole, same) at r))
        | inr cut ↦ absurd (cc (rw cut at r))
      ]

  charged-IsHeld :
      (s : EnrollStore) (now : ℕ) (outcome : SaveOutcome)
      → IsHeld s
      → is_seen outcome ≡ true
      → IsHeld (charged (prune now s) now outcome)
  unfolding charged prune
  charged-IsHeld s now outcome h o =
      save-IsHeld (prune now (record s { entries = charge (prune now s).entries })) outcome h o

  charged-IsCharged :
      (k : ℕ) (s : EnrollStore) (now : ℕ) (outcome : SaveOutcome)
      → IsCharged k s.entries
      → IsCharged (k + 1) (charged (prune now s) now outcome).entries
  unfolding charged prune
  charged-IsCharged k s now outcome h = rw save-entries (
      retain-IsCharged (λ e. not (is_expired now e)) (k + 1) (charge (prune now s).entries)
        (charge-IsCharged k (prune now s).entries
          (retain-IsCharged (λ e. not (is_expired now e)) k s.entries h)))

  charged-IsLive :
      (s : EnrollStore) (now : ℕ) (outcome : SaveOutcome) → IsLive (charged s now outcome).entries
  unfolding charged prune
  charged-IsLive s now outcome = rw save-entries (retain-IsLive now (charge s.entries))

  redeem_all-IsCharged :
      (gs : List Guess) (n k : ℕ) (s : EnrollStore)
      → n ≤ k + length gs
      → IsHeld s
      → IsCharged k s.entries
      → IsLive s.entries
      → IsRefused s gs
      → IsCharged n (redeem_all s gs).entries × IsLive (redeem_all s gs).entries
  unfolding redeem_all IsRefused
  redeem_all-IsCharged [] n k s b h c l r = (
    All-imp (λ (p : Text × EnrollEntry). k ≤ p.1.attempts)
        (λ (p : Text × EnrollEntry). n ≤ p.1.attempts) s.entries (λ p i. omega (arith, b, i)) c,
    l,
  )
  redeem_all-IsCharged (g ∷ gs) n k s b h c l (o, refused, rest) =
      let after = refused_lem s g.now g.outcome g.code h refused in
      redeem_all-IsCharged gs n (k + 1) (redeem u verify s g.now g.outcome g.code).0
        (omega (arith, b)) (rw after (charged-IsHeld s g.now g.outcome h o))
        (rw after (charged-IsCharged k s g.now g.outcome c))
        (rw after (charged-IsLive (prune g.now s) g.now g.outcome)) rest

  -- After five presentations in a row that are not recognized no code is outstanding any more,
  -- provided no other process writes the file and no write goes unseen.
  pub guesses_burn :
      (s : EnrollStore) (g : Guess) (gs : List Guess)
      → IsHeld s
      → IsRefused s (g ∷ gs)
      → max_enroll_attempts ≤ length (g ∷ gs)
      → (redeem_all s (g ∷ gs)).entries ≡ []
  unfolding redeem_all IsRefused
  guesses_burn s g gs h (o, refused, rest) l =
      let after = refused_lem s g.now g.outcome g.code h refused in
      let (c, live) =
        redeem_all-IsCharged gs max_enroll_attempts 1 (redeem u verify s g.now g.outcome g.code).0
          (omega (arith, l)) (rw after (charged-IsHeld s g.now g.outcome h o))
          (rw after (charged-IsCharged 0 s g.now g.outcome (uncharged s.entries)))
          (rw after (charged-IsLive (prune g.now s) g.now g.outcome)) rest in
      none_left (redeem_all s (g ∷ gs)).entries c live
