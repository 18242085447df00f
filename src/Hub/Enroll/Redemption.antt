-- ===== src/Hub/Enroll/Redemption.antt =====
-- The redemption of a code, and the attempts that follow it.
use mathlib.Core.List.{Memᴰ}
use talkeqidea.Common.{
  ℕ, ◌≡◌, inl, inr, refl, ap, sym, Bool, true, false, not, Bool-cases, List, [], ◌∷◌, Option, none,
  some, arith, All, Text, length, text_eq, ◌==◌, ==_iff, erase, Result, ok, err,
}
use talkeqidea.Golang.Strings.{Unicode}
use talkeqidea.Relay.EnrollCode.{enroll_code_length, normalize_enroll_code}
use talkeqidea.Hub.Store.{StoreError, SaveOutcome, refresh, save, values}
use talkeqidea.Hub.Enroll.{
  EnrollEntry, EnrollStore, id_of, by_created, is_expired, prune, current, find_code, charge,
  redeemed, redeem_found, redeem,
}
use talkeqidea.Hub.Enroll.Guesses.{IsHeld, is_seen, save-IsHeld, save-entries, Guess, redeem_all}
use talkeqidea.Hub.Enroll.Filed.{
  find_code_sound, erase-IsSpent, erase-All, retain-All, All-tt, charge-IsSpent, charge-IsFiled,
  mem-retain, IsFiled, IsSpent,
}

redeemed-state :
    (e : EnrollEntry) (x : EnrollStore × Result StoreError (Unit {0})) → (redeemed e x).0 ≡ x.0
unfolding redeemed
redeemed-state e (s, ok _) = refl
redeemed-state e (s, err _) = refl

redeemed-eq-ok :
    (e f : EnrollEntry) (x : EnrollStore × Result StoreError (Unit {0}))
    → (redeemed e x).1 ≡ ok f
    → e ≡ f
unfolding redeemed
redeemed-eq-ok e f (s, ok _) h = ground arith
redeemed-eq-ok e f (s, err _) h = absurd (cc)

without : EnrollStore → Text → SaveOutcome → EnrollStore
without s id outcome = (save by_created (record s { entries = erase id s.entries }) outcome).0

redeem_found-eq-ok :
    (s : EnrollStore) (now : ℕ) (outcome : SaveOutcome) (found : Option (Text × EnrollEntry))
    → (e : EnrollEntry) → (redeem_found s now outcome found).1 ≡ ok e
    → (id : Text) × (found ≡ some (id, e))
      × (is_expired now e ≡ false)
      × ((redeem_found s now outcome found).0 ≡ without s id outcome)
unfolding redeem_found without
redeem_found-eq-ok s now outcome none e h = absurd (cc)
redeem_found-eq-ok s now outcome (some (id, f)) e h = elim (Bool-cases (is_expired now f)) [
  | inl late ↦ absurd (cc (rw late at h))
  | inr live ↦
      let wrote = save by_created (record s { entries = erase id s.entries }) outcome in
      let same = redeemed-eq-ok f e wrote (rw live at h) in
      (
        id,
        ap (λ (g : EnrollEntry). some (id, g)) same,
        rw (sym same) live,
        rw live (redeemed-state f wrote),
      )
]

redeem_found_state :
    (s : EnrollStore) (now : ℕ) (outcome : SaveOutcome) (id : Text) (f : EnrollEntry)
    → (redeem_found s now outcome (some (id, f))).0 ≡ without s id outcome
unfolding redeem_found without
redeem_found_state s now outcome id f = elim (Bool-cases (is_expired now f)) [
  | inl late ↦ rw late refl
  | inr live ↦
      rw live
        (redeemed-state f (save by_created (record s { entries = erase id s.entries }) outcome))
]

module _ (u : Unicode) (verify : Text → Text → Bool) where
  -- A code that is redeemed is one that was outstanding: its hash verifies, it has twelve
  -- characters, and it is neither too old nor charged too often.
  pub redeem_sound :
      (s : EnrollStore) (now : ℕ) (outcome : SaveOutcome) (code : Text) (e : EnrollEntry)
      → (redeem u verify s now outcome code).1 ≡ ok e
      → Memᴰ e (values (refresh id_of s).entries)
        × (verify (normalize_enroll_code u code) e.code_hash ≡ true)
        × (length (normalize_enroll_code u code) ≡ enroll_code_length)
        × (is_expired now e ≡ false)
  unfolding redeem current prune
  redeem_sound s now outcome code e h =
      let normal = normalize_enroll_code u code in
      let s' = prune now (refresh id_of s) in
      elim (Bool-cases (length normal == enroll_code_length)) [
        | inl whole ↦
            let (id, found, live, _) =
              redeem_found-eq-ok s' now outcome (find_code verify normal s'.entries) e
                (rw whole at h) in
            let (_, m, v) =
              find_code_sound verify normal (λ p. Unit) s'.entries id e (All-tt s'.entries) found in
            (
              (mem-retain (λ e. not (is_expired now e)) e (refresh id_of s).entries m).0,
              v,
              (==_iff (length normal) enroll_code_length).0 whole,
              live,
            )
        | inr cut ↦ absurd (cc (rw cut at h))
      ]

  -- Every redemption leaves the file held, the codes filed and what is spent spent.
  record Spent (id : Text) (s : EnrollStore) : Type 0 where
    held : IsHeld s
    filed : IsFiled s.entries
    spent : IsSpent id s.entries

  prune-Spent : (id : Text) (s : EnrollStore) (now : ℕ) → Spent id s → Spent id (prune now s)
  unfolding prune
  prune-Spent id s now h = record {
    held = h.held;
    filed = retain-All (λ p. p.0 ≡ p.1.id) (λ e. not (is_expired now e)) s.entries h.filed;
    spent =
        retain-All (λ p. text_eq p.0 id ≡ false) (λ e. not (is_expired now e)) s.entries h.spent;
  }

  save-Spent :
      (id : Text) (s : EnrollStore) (outcome : SaveOutcome)
      → is_seen outcome ≡ true
      → Spent id s
      → Spent id (save by_created s outcome).0
  save-Spent id s outcome o h = record {
    held = save-IsHeld s outcome h.held o;
    filed = rw save-entries h.filed;
    spent = rw save-entries h.spent;
  }

  redeem_found-Spent :
      (id : Text) (s : EnrollStore) (now : ℕ) (outcome : SaveOutcome)
      → (found : Option (Text × EnrollEntry)) → is_seen outcome ≡ true
      → Spent id s
      → Spent id (redeem_found s now outcome found).0
  unfolding redeem_found without
  redeem_found-Spent id s now outcome none o h =
      save-Spent id (prune now (record s { entries = charge s.entries })) outcome o (
        prune-Spent id (record s { entries = charge s.entries }) now
          (record {
            held = h.held;
            filed = charge-IsFiled s.entries h.filed;
            spent = charge-IsSpent id s.entries h.spent;
          }))
  redeem_found-Spent id s now outcome (some (at, e)) o h =
      rw (redeem_found_state s now outcome at e) (
        save-Spent id (record s { entries = erase at s.entries }) outcome o
          (record {
            held = h.held;
            filed = erase-All (λ p. p.0 ≡ p.1.id) at s.entries h.filed;
            spent = erase-All (λ p. text_eq p.0 id ≡ false) at s.entries h.spent;
          }))

  redeem-Spent :
      (id : Text) (s : EnrollStore) (g : Guess)
      → is_seen g.outcome ≡ true
      → Spent id s
      → Spent id (redeem u verify s g.now g.outcome g.code).0
  unfolding redeem current
  redeem-Spent id s g o h =
      let normal = normalize_enroll_code u g.code in
      let same : refresh id_of s ≡ s = h.held s.entries in
      elim (Bool-cases (length normal == enroll_code_length)) [
        | inl whole ↦
            rw (whole, same)
              (redeem_found-Spent id (prune g.now s) g.now g.outcome
                (find_code verify normal (prune g.now s).entries) o (prune-Spent id s g.now h))
        | inr cut ↦ rw cut h
      ]

  redeem_all-Spent :
      (id : Text) (s : EnrollStore) (gs : List Guess)
      → All (λ g. is_seen g.outcome ≡ true) gs
      → Spent id s
      → Spent id (redeem_all u verify s gs)
  unfolding redeem_all
  redeem_all-Spent id s [] os h = h
  redeem_all-Spent id s (g ∷ gs) (o, os) h =
      redeem_all-Spent id (redeem u verify s g.now g.outcome g.code).0 gs os
        (redeem-Spent id s g o h)

  redeem-eq-ok :
      (s : EnrollStore) (now : ℕ) (outcome : SaveOutcome) (code : Text) (e : EnrollEntry)
      → IsHeld s
      → (redeem u verify s now outcome code).1 ≡ ok e
      → (id : Text) × (find_code verify (normalize_enroll_code u code) (prune now s).entries
          ≡ some (id, e))
        × ((redeem u verify s now outcome code).0 ≡ without (prune now s) id outcome)
  unfolding redeem current
  redeem-eq-ok s now outcome code e held h =
      let normal = normalize_enroll_code u code in
      let same : refresh id_of s ≡ s = held s.entries in
      elim (Bool-cases (length normal == enroll_code_length)) [
        | inl whole ↦
            let (id, found, _, after) =
              redeem_found-eq-ok (prune now s) now outcome
                (find_code verify normal (prune now s).entries) e (rw (whole, same) at h) in
            (id, found, rw (whole, same) after)
        | inr cut ↦ absurd (cc (rw cut at h))
      ]

  redeem-eq-ok_Spent :
      (s : EnrollStore) (g : Guess) (e : EnrollEntry)
      → IsHeld s
      → IsFiled s.entries
      → is_seen g.outcome ≡ true
      → (redeem u verify s g.now g.outcome g.code).1 ≡ ok e
      → Spent e.id (redeem u verify s g.now g.outcome g.code).0
  unfolding without prune
  redeem-eq-ok_Spent s g e held filed o h =
      let (id, found, after) = redeem-eq-ok s g.now g.outcome g.code e held h in
      let filed' : IsFiled (prune g.now s).entries =
        retain-All (λ p. p.0 ≡ p.1.id) (λ e. not (is_expired g.now e)) s.entries filed in
      let (own, _, _) =
        find_code_sound verify (normalize_enroll_code u g.code) (λ p. p.0 ≡ p.1.id)
          (prune g.now s).entries id e filed' found in
      rw (after, sym own)
        (save-Spent id (record (prune g.now s) { entries = erase id (prune g.now s).entries })
          g.outcome o
          (record {
            held = held;
            filed = erase-All (λ p. p.0 ≡ p.1.id) id (prune g.now s).entries filed';
            spent = erase-IsSpent id (prune g.now s).entries;
          }))

  -- A code that was redeemed is redeemed by no later attempt, whatever attempts come between,
  -- provided no other process writes the file and no write goes unseen.
  pub redeem_once :
      (s : EnrollStore) (g : Guess) (gs : List Guess) (last : Guess) (e f : EnrollEntry)
      → IsHeld s
      → IsFiled s.entries
      → is_seen g.outcome ≡ true
      → All (λ h. is_seen h.outcome ≡ true) gs
      → (redeem u verify s g.now g.outcome g.code).1 ≡ ok e
      → (redeem u verify (redeem_all u verify s (g ∷ gs)) last.now last.outcome last.code).1 ≡ ok f
      → text_eq f.id e.id ≡ false
  unfolding redeem_all prune
  redeem_once s g gs last e f held filed o os h k =
      let s' = redeem_all u verify s (g ∷ gs) in
      let after : Spent e.id s' =
        redeem_all-Spent e.id (redeem u verify s g.now g.outcome g.code).0 gs os
          (redeem-eq-ok_Spent s g e held filed o h) in
      let pruned = prune-Spent e.id s' last.now after in
      let (id, found, _) = redeem-eq-ok s' last.now last.outcome last.code f after.held k in
      let normal = normalize_enroll_code u last.code in
      let (own, _, _) =
        find_code_sound verify normal (λ p. p.0 ≡ p.1.id) (prune last.now s').entries id f
          pruned.filed found in
      let (other, _, _) =
        find_code_sound verify normal (λ p. text_eq p.0 e.id ≡ false) (prune last.now s').entries id
          f pruned.spent found in
      rw (sym own) other
