-- ===== src/Hub/Roster/Removal.antt =====
-- An agent that was removed.
use mathlib.Core.List.{Memᴰ}
use talkeqidea.Common.{
  ℕ, ◌≡◌, inl, inr, refl, ap, sym, Bool, true, false, Bool-cases, mem-cases, List, [], ◌∷◌, none,
  some, arith, All, Text, is_empty, text_eq, text_eq_iff, text_eq_refl, ◌==◌, TextMap, insert,
  erase, ok,
}
use talkeqidea.Golang.Strings.{Unicode}
use talkeqidea.Sanitize.{server_key}
use talkeqidea.Hub.Store.{
  Disk, missing, unstatable, present, saved, refresh, refresh_from, load, load_from, or_stale,
  index, save, values,
}
use talkeqidea.Hub.Roster.{
  RosterEntry, Roster, reread, key_of, remove, remove_found, saved_anyway, authenticate,
}
use talkeqidea.Hub.Roster.Identity.{authenticate_sound}

-- Every entry stands under its own key.
abbrev pub IsKeyed : TextMap RosterEntry → Type 0
IsKeyed = All (λ (p : Text × RosterEntry). text_eq p.0 (key_of p.1) ≡ true)

insert-IsKeyed :
    (e : RosterEntry) (m : TextMap RosterEntry) → IsKeyed m → IsKeyed (insert (key_of e) e m)
unfolding insert
insert-IsKeyed e [] h = (text_eq_refl (key_of e), tt)
insert-IsKeyed e ((at, f) ∷ m) (h, hs) = elim (Bool-cases (text_eq at (key_of e))) [
  | inl here ↦ rw here (here, hs)
  | inr there ↦ rw there (h, insert-IsKeyed e m hs)
]

index-IsKeyed :
    (es : List RosterEntry) (m : TextMap RosterEntry) → IsKeyed m → IsKeyed (index key_of m es)
unfolding index
index-IsKeyed [] m h = h
index-IsKeyed (e ∷ es) m h = elim (Bool-cases (is_empty (key_of e))) [
  | inl no_key ↦ rw no_key (index-IsKeyed es m h)
  | inr has_key ↦ rw has_key (index-IsKeyed es (insert (key_of e) e m) (insert-IsKeyed e m h))
]

reread-IsKeyed_on :
    (d : Disk RosterEntry) (r : Roster)
    → r.disk ≡ d
    → IsKeyed r.entries
    → IsKeyed (reread r).entries
unfolding refresh refresh_from load load_from or_stale
reread-IsKeyed_on missing r d h = rw d h
reread-IsKeyed_on unstatable r d h = rw d h
reread-IsKeyed_on (present t none) r d h = elim (Bool-cases (t == r.loaded_mod_time)) [
  | inl same ↦ rw (d, same) h
  | inr newer ↦ rw (d, newer) h
]
reread-IsKeyed_on (present t (some es)) r d h = elim (Bool-cases (t == r.loaded_mod_time)) [
  | inl same ↦ rw (d, same) h
  | inr newer ↦ rw (d, newer) (index-IsKeyed es [] tt)
]

pub reread-IsKeyed : (r : Roster) → IsKeyed r.entries → IsKeyed (reread r).entries
reread-IsKeyed r = reread-IsKeyed_on r.disk r refl

erased_keys :
    (key : Text) (e : RosterEntry) (m : TextMap RosterEntry)
    → IsKeyed m
    → Memᴰ e (values (erase key m))
    → text_eq (key_of e) key ≡ false
unfolding erase
erased_keys key e [] k h = elim h [ ]
erased_keys key e ((at, f) ∷ m) (k, ks) h = elim (Bool-cases (text_eq at key)) [
  | inl here ↦ erased_keys key e m ks (rw here at h)
  | inr there ↦ elim (mem-cases (rw there at h)) [
    | inl same ↦ rw (ap key_of same, sym ((text_eq_iff at (key_of f)).0 k)) there
    | inr later ↦ erased_keys key e m ks later
  ]
]

module _ (u : Unicode) (r : Roster) (raw : Text) (time : ℕ) where
  removed_entries :
      (remove u r raw (saved time)).1 ≡ ok tt
      → (reread (remove u r raw (saved time)).0).entries
        ≡ erase (server_key u raw) (reread r).entries
  unfolding remove remove_found saved_anyway save refresh refresh_from
  removed_entries h = ground arith

  -- Once an agent was removed and the roster saved, no token is let in as that agent while the file
  -- stays as it was written.
  pub remove-authenticate :
      (verify : Text → Text → Bool) (claimed token : Text) (e : RosterEntry)
      → IsKeyed r.entries
      → (remove u r raw (saved time)).1 ≡ ok tt
      → (authenticate u verify (remove u r raw (saved time)).0 claimed token).1 ≡ ok e
      → text_eq (key_of e) (server_key u raw) ≡ false
  remove-authenticate verify claimed token e k done h =
      let (m, _, _) =
        authenticate_sound u verify (remove u r raw (saved time)).0 claimed token e h in
      erased_keys (server_key u raw) e (reread r).entries (reread-IsKeyed r k)
        (rw (removed_entries done) at m)
