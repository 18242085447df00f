-- ===== src/Hub/Seen/Memory.antt =====
-- How long an identifier is remembered.
use mathlib.Core.List.{Memᴰ}
use talkeqidea.Common.{
  holds, holds-cons, ℕ, ◌+◌, ◌≤◌, ◌≡◌, ◌≢◌, ◌⊎◌, inl, inr, refl, sym, map, ◌∙◌, Bool, true, false,
  ◌||◌, List, [], ◌∷◌, arith, Text, All, text_eq_iff, text_eq_refl,
}
use talkeqidea.Hub.Seen.{SeenCache, new_seen_cache, rotate, record_id, seen_before}

-- Calls of `seenBefore`, each with its time.
unfoldable pub run : SeenCache → List (ℕ × Text) → SeenCache
run s [] = s
run s ((now, id) ∷ calls) = run (seen_before s now id).0 calls

-- The identifier will be found until its window is over: it is in the current generation, or in the
-- previous one, which is kept until after that time.
abbrev IsRemembered : Text → ℕ → SeenCache → Type 0
IsRemembered id until s =
    (holds id s.current ≡ true) ⊎ ((holds id s.previous ≡ true) × (until ≤ s.rotate_at))

rotate-IsRemembered :
    (s : SeenCache) (now until : ℕ) (id : Text)
    → until ≤ now + s.window
    → now ≤ until
    → IsRemembered id until s
    → IsRemembered id until (rotate s now)
unfolding rotate
rotate-IsRemembered s now until id k n (inl h) = ground arith
rotate-IsRemembered s now until id k n (inr h) = ground arith

record_id-IsRemembered :
    (s : SeenCache) (until : ℕ) (id other : Text)
    → IsRemembered id until s
    → IsRemembered id until (record_id s other).0
unfolding record_id
record_id-IsRemembered s until id other h = ground (arith, holds-cons id other s.current)

seen_before-IsRemembered :
    (s : SeenCache) (now until : ℕ) (id other : Text)
    → until ≤ now + s.window
    → now ≤ until
    → IsRemembered id until s
    → IsRemembered id until (seen_before s now other).0
unfolding seen_before
seen_before-IsRemembered s now until id [] k n h = h
seen_before-IsRemembered s now until id (c ∷ other) k n h =
    record_id-IsRemembered (rotate s now) until id (c ∷ other)
      (rotate-IsRemembered s now until id k n h)

window-rotate : (s : SeenCache) (now : ℕ) → (rotate s now).window ≡ s.window
unfolding rotate
window-rotate s now = ground arith

window-record_id : (s : SeenCache) (id : Text) → (record_id s id).0.window ≡ s.window
unfolding record_id
window-record_id s id = ground arith

window-seen_before :
    (s : SeenCache) (now : ℕ) (id : Text) → (seen_before s now id).0.window ≡ s.window
unfolding seen_before
window-seen_before s now [] = refl
window-seen_before s now (c ∷ id) = window-record_id (rotate s now) (c ∷ id) ∙ window-rotate s now

run-IsRemembered :
    (s : SeenCache) (now : ℕ) (id : Text) (calls : List (ℕ × Text))
    → All (λ c. (now ≤ c.0) × (c.0 ≤ now + s.window)) calls
    → IsRemembered id (now + s.window) s
    → IsRemembered id (now + s.window) (run s calls) × ((run s calls).window ≡ s.window)
unfolding run
run-IsRemembered s now id [] c h = (h, refl)
run-IsRemembered s now id ((t, other) ∷ calls) ((lo, hi), c) h =
    let w = window-seen_before s t other in
    let (r, e) =
      run-IsRemembered (seen_before s t other).0 now id calls (rw w c)
        (rw w (seen_before-IsRemembered s t (now + s.window) id other (omega arith) hi h)) in
    (rw w at r, e ∙ w)

record_id_fresh :
    (s : SeenCache) (id : Text)
    → (record_id s id).1 ≡ false
    → holds id (record_id s id).0.current ≡ true
unfolding record_id
record_id_fresh s id h = ground (arith, holds-cons id id s.current, text_eq_refl id)

record_id_again :
    (s : SeenCache) (until : ℕ) (id : Text) → IsRemembered id until s → (record_id s id).1 ≡ true
unfolding record_id
record_id_again s until id h = ground arith

-- An identifier that is accepted at some time, not having been seen, is reported as a duplicate by
-- every call that comes within the window of that time, whatever calls come between them, as long
-- as no time goes back before it or past the window.
pub seen_again :
    (s : SeenCache) (now : ℕ) (id : Text) (calls : List (ℕ × Text)) (later : ℕ)
    → (seen_before s now id).1 ≡ false
    → id ≢ []
    → All (λ c. (now ≤ c.0) × (c.0 ≤ now + s.window)) calls
    → now ≤ later
    → later ≤ now + s.window
    → (seen_before (run (seen_before s now id).0 calls) later id).1 ≡ true
unfolding seen_before
seen_again s now [] calls later h n c k m = absurd (n refl)
seen_again s now (b ∷ id) calls later h n c k m =
    let s' = (record_id (rotate s now) (b ∷ id)).0 in
    let w = window-record_id (rotate s now) (b ∷ id) ∙ window-rotate s now in
    let (r, e) =
      run-IsRemembered s' now (b ∷ id) calls (rw w c)
        (inl (record_id_fresh (rotate s now) (b ∷ id) h)) in
    record_id_again (rotate (run s' calls) later) (now + s.window) (b ∷ id) (
      rotate-IsRemembered (run s' calls) later (now + s.window) (b ∷ id) (omega (arith, e, w)) m
        (rw w at r))

abbrev held : Text → SeenCache → Bool
held id s = holds id s.current || holds id s.previous

held-rotate :
    (s : SeenCache) (now : ℕ) (id : Text) → held id (rotate s now) ≡ true → held id s ≡ true
unfolding rotate holds
held-rotate s now id h = ground arith

held-record_id :
    (s : SeenCache) (id other : Text)
    → held id (record_id s other).0 ≡ true
    → (held id s ≡ true) ⊎ (other ≡ id)
unfolding record_id
held-record_id s id other h = ground (arith, holds-cons id other s.current, text_eq_iff other id)

held-seen_before :
    (s : SeenCache) (now : ℕ) (id other : Text)
    → held id (seen_before s now other).0 ≡ true
    → (held id s ≡ true) ⊎ (other ≡ id)
unfolding seen_before
held-seen_before s now id [] h = inl h
held-seen_before s now id (c ∷ other) h = elim (held-record_id (rotate s now) id (c ∷ other) h) [
  | inl k ↦ inl (held-rotate s now id k)
  | inr e ↦ inr e
]

held-run :
    (s : SeenCache) (id : Text) (calls : List (ℕ × Text))
    → held id (run s calls) ≡ true
    → (held id s ≡ true) ⊎ Memᴰ id (map (λ c. c.1) calls)
unfolding run
held-run s id [] h = inl h
held-run s id ((now, other) ∷ calls) h = elim (held-run (seen_before s now other).0 id calls h) [
  | inr m ↦ inr (Memᴰ.tail m)
  | inl k ↦ elim (held-seen_before s now id other k) [
    | inl k' ↦ inl k'
    | inr e ↦ inr (Memᴰ.head (sym e))
  ]
]

record_id-held : (s : SeenCache) (id : Text) → (record_id s id).1 ≡ true → held id s ≡ true
unfolding record_id
record_id-held s id h = ground arith

seen_before-held :
    (s : SeenCache) (now : ℕ) (id : Text) → (seen_before s now id).1 ≡ true → held id s ≡ true
unfolding seen_before
seen_before-held s now [] h = cc
seen_before-held s now (c ∷ id) h =
    held-rotate s now (c ∷ id) (record_id-held (rotate s now) (c ∷ id) h)

-- Only an identifier that some earlier call presented is reported as a duplicate, for a cache that
-- began empty and any calls at any times.
pub seen_sound :
    (window start : ℕ) (calls : List (ℕ × Text)) (now : ℕ) (id : Text)
    → (seen_before (run (new_seen_cache window start) calls) now id).1 ≡ true
    → Memᴰ id (map (λ c. c.1) calls)
unfolding new_seen_cache holds
seen_sound window start calls now id h =
    elim (held-run (new_seen_cache window start) id calls (seen_before-held _ now id h)) [
      | inl k ↦ cc
      | inr m ↦ m
    ]
