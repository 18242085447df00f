-- ===== src/Hub/Roster/Identity.antt =====
-- How a token is resolved to an agent of the roster.
use mathlib.Core.List.{Memᴰ}
use talkeqidea.Common.{
  ◌≡◌, ◌≢◌, ◌⊎◌, inl, inr, refl, sym, ap, ◌∙◌, Bool, true, false, mem-cases, Bool-cases,
  Option-cases, List, [], ◌∷◌, some, arith, All, Text, is_empty, text_eq, text_eq_iff, TextMap,
  lookup, ok,
}
use talkeqidea.Golang.Strings.{Unicode}
use talkeqidea.Sanitize.{server_key}
use talkeqidea.Hub.Store.{values}
use talkeqidea.Hub.Store.Files.{lookup-mem, mem-erase, mem-erase_ne, All-erase, All-lookup}
use talkeqidea.Hub.Roster.{
  RosterEntry, Roster, reread, claimed_first, candidates, find_token, authenticate,
}

module _ (verify : Text → Text → Bool) (token : Text) where
  -- The entries whose hash the token verifies are all the same one.
  abbrev pub IsOnlyHolder : RosterEntry → List RosterEntry → Type 0
  IsOnlyHolder e = All (λ f. (f ≡ e) ⊎ (verify token f.token_hash ≡ false))

  find_token_holder :
      (e : RosterEntry) (es : List RosterEntry)
      → IsOnlyHolder e es
      → verify token e.token_hash ≡ true
      → e.is_disabled ≡ false
      → Memᴰ e es
      → find_token verify token es ≡ ok e
  unfolding find_token
  find_token_holder e [] only v d m = elim m [ ]
  find_token_holder e (f ∷ es) (inl same, only) v d m = ground arith
  find_token_holder e (f ∷ es) (inr other, only) v d m = elim (mem-cases m) [
    | inl same ↦ absurd (cc (ap (λ (g : RosterEntry). verify token g.token_hash) same))
    | inr later ↦ rw other (find_token_holder e es only v d later)
  ]

  find_token_sound :
      (e : RosterEntry) (es : List RosterEntry)
      → find_token verify token es ≡ ok e
      → Memᴰ e es × (verify token e.token_hash ≡ true) × (e.is_disabled ≡ false)
  unfolding find_token
  find_token_sound e [] h = cc
  find_token_sound e (f ∷ es) h = elim (Bool-cases (verify token f.token_hash)) [
    | inl fits ↦ elim (Bool-cases f.is_disabled) [
      | inl off ↦ absurd (cc (rw (fits, off) at h))
      | inr on ↦
          let same : f ≡ e = ground arith in
          (
            Memᴰ.head (sym same),
            ap (λ (g : RosterEntry). verify token g.token_hash) (sym same) ∙ fits,
            ap (λ (g : RosterEntry). g.is_disabled) (sym same) ∙ on,
          )
    ]
    | inr other ↦ let (m, v, d) = find_token_sound e es (rw other at h) in (Memᴰ.tail m, v, d)
  ]

candidates-sound :
    (key : Text) (m : TextMap RosterEntry) (e : RosterEntry)
    → Memᴰ e (candidates key m)
    → Memᴰ e (values m)
unfolding candidates claimed_first
candidates-sound key m e h = elim (Option-cases (lookup key m)) [
  | inl missing ↦ mem-erase key e m (rw missing at h)
  | inr (f, found) ↦ elim (mem-cases (rw found at h)) [
    | inl same ↦ rw same (lookup-mem key f m found)
    | inr later ↦ mem-erase key e m later
  ]
]

candidates-complete :
    (key k : Text) (m : TextMap RosterEntry) (e : RosterEntry)
    → lookup k m ≡ some e
    → Memᴰ e (candidates key m)
unfolding candidates claimed_first
candidates-complete key k m e h = elim (Bool-cases (text_eq key k)) [
  | inl same ↦ rw ((text_eq_iff key k).0 same, h) (Memᴰ.head refl)
  | inr other ↦ elim (Option-cases (lookup key m)) [
    | inl missing ↦ rw missing (mem-erase_ne key k e m h other)
    | inr (f, found) ↦ rw found (Memᴰ.tail (mem-erase_ne key k e m h other))
  ]
]

All-candidates :
    (P : RosterEntry → Type 0) (key : Text) (m : TextMap RosterEntry)
    → All P (values m)
    → All P (candidates key m)
unfolding candidates claimed_first
All-candidates P key m h = elim (Option-cases (lookup key m)) [
  | inl missing ↦ rw missing (All-erase P key m h)
  | inr (f, found) ↦ rw found (All-lookup P key f m h found, All-erase P key m h)
]

module _ (u : Unicode) (verify : Text → Text → Bool) (r : Roster) (claimed token : Text) where
  -- An agent is let in only as an entry of the roster that is enabled and whose hash its token
  -- verifies, whatever key it claims.
  pub authenticate_sound :
      (e : RosterEntry)
      → (authenticate u verify r claimed token).1 ≡ ok e
      → Memᴰ e (values (reread r).entries)
        × (verify token e.token_hash ≡ true)
        × (e.is_disabled ≡ false)
  unfolding authenticate
  authenticate_sound e h = elim (Bool-cases (is_empty token)) [
    | inl none_given ↦ absurd (cc (rw none_given at h))
    | inr given ↦
        let (m, v, d) =
          find_token_sound verify token e (candidates (server_key u claimed) (reread r).entries)
            (rw given at h) in
        (candidates-sound (server_key u claimed) (reread r).entries e m, v, d)
  ]

  -- The enabled entry that alone holds the token's hash is the one that is let in, whatever key the
  -- agent claims.
  pub authenticate_holder :
      (key : Text) (e : RosterEntry)
      → token ≢ []
      → lookup key (reread r).entries ≡ some e
      → verify token e.token_hash ≡ true
      → e.is_disabled ≡ false
      → IsOnlyHolder verify token e (values (reread r).entries)
      → (authenticate u verify r claimed token).1 ≡ ok e
  unfolding authenticate
  authenticate_holder key e given found v d only =
      let m = (reread r).entries in
      let c = server_key u claimed in
      let some_token : is_empty token ≡ false = ground arith in
      rw some_token (
        find_token_holder verify token e (candidates c m)
          (All-candidates (λ f. (f ≡ e) ⊎ (verify token f.token_hash ≡ false)) c m only) v d
          (candidates-complete c key m e found))
