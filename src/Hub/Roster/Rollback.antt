-- ===== src/Hub/Roster/Rollback.antt =====
-- What a change of the roster leaves behind when it fails.
use talkeqidea.Common.{
  ℕ, ◌≡◌, inl, inr, refl, ap, ◌∙◌, Bool-cases, Option, none, some, arith, Text, is_empty, text_eq,
  lookup, err,
}
use talkeqidea.Golang.Strings.{Unicode}
use talkeqidea.Sanitize.{server_key}
use talkeqidea.Relay.Event.{origin_discord}
use talkeqidea.Hub.Store.{
  Disk, missing, unstatable, present, SaveOutcome, save_failed, saved, saved_unseen, refresh,
  refresh_from, load, load_from, or_stale, save,
}
use talkeqidea.Hub.Roster.{
  RosterEntry, Roster, RosterError, Minted, reread, saved_or, add_minted, add_if_new, add,
  rotate_found, rotate,
}

refresh_idem_on : (d : Disk RosterEntry) (r : Roster) → r.disk ≡ d → reread (reread r) ≡ reread r
unfolding refresh refresh_from load load_from or_stale
refresh_idem_on missing r h = ground arith
refresh_idem_on unstatable r h = ground arith
refresh_idem_on (present t none) r h = ground arith
refresh_idem_on (present t (some es)) r h = ground arith

pub refresh_idem : (r : Roster) → reread (reread r) ≡ reread r
refresh_idem r = refresh_idem_on r.disk r refl

module _ (u : Unicode) where
  add_minted_failed :
      (r : Roster) (key short_name : Text) (now : ℕ) (outcome : SaveOutcome) (minted : Minted)
      → (e : RosterError) → (add_minted u r key short_name now outcome minted).1 ≡ err e
      → (add_minted u r key short_name now outcome minted).0 ≡ r
  unfolding add_minted saved_or save
  add_minted_failed r key short_name now outcome none e h = refl
  add_minted_failed r key short_name now save_failed (some (token, hash)) e h = refl
  add_minted_failed r key short_name now (saved t) (some (token, hash)) e h = absurd (cc)
  add_minted_failed r key short_name now (saved_unseen t) (some (token, hash)) e h = absurd (cc)

  add_if_new_failed :
      (r : Roster) (key short_name : Text) (now : ℕ) (outcome : SaveOutcome) (minted : Minted)
      → (found : Option RosterEntry) (e : RosterError)
      → (add_if_new u r key short_name now outcome minted found).1 ≡ err e
      → (add_if_new u r key short_name now outcome minted found).0 ≡ r
  unfolding add_if_new
  add_if_new_failed r key short_name now outcome minted (some f) e h = refl
  add_if_new_failed r key short_name now outcome minted none e h =
      add_minted_failed r key short_name now outcome minted e h

  -- What the next reader finds after a refused addition is what it would have found without it,
  -- however the write ended.
  pub add_failed :
      (r : Roster) (raw short_name : Text) (now : ℕ) (outcome : SaveOutcome) (minted : Minted)
      → (e : RosterError) → (add u r raw short_name now outcome minted).1 ≡ err e
      → reread (add u r raw short_name now outcome minted).0 ≡ reread r
  unfolding add
  add_failed r raw short_name now outcome minted e h =
      let key = server_key u raw in
      elim (Bool-cases (is_empty key)) [
        | inl no_key ↦ rw no_key refl
        | inr has_key ↦ elim (Bool-cases (text_eq key origin_discord)) [
          | inl taken ↦ rw (has_key, taken) refl
          | inr free ↦
              rw (has_key, free)
                (ap reread (
                    add_if_new_failed (reread r) key short_name now outcome minted
                      (lookup key (reread r).entries) e (rw (has_key, free) at h))
                  ∙ refresh_idem r)
        ]
      ]

  rotate_found_failed :
      (r : Roster) (key : Text) (outcome : SaveOutcome) (minted : Minted)
      → (found : Option RosterEntry) (e : RosterError)
      → (rotate_found u r key outcome minted found).1 ≡ err e
      → (rotate_found u r key outcome minted found).0 ≡ r
  unfolding rotate_found saved_or save
  rotate_found_failed r key outcome minted none e h = refl
  rotate_found_failed r key outcome none (some f) e h = refl
  rotate_found_failed r key save_failed (some (token, hash)) (some f) e h = refl
  rotate_found_failed r key (saved t) (some (token, hash)) (some f) e h = absurd (cc)
  rotate_found_failed r key (saved_unseen t) (some (token, hash)) (some f) e h = absurd (cc)

  -- What the next reader finds after a refused rotation is what it would have found without it,
  -- however the write ended.
  pub rotate_failed :
      (r : Roster) (raw : Text) (outcome : SaveOutcome) (minted : Minted) (e : RosterError)
      → (rotate u r raw outcome minted).1 ≡ err e
      → reread (rotate u r raw outcome minted).0 ≡ reread r
  unfolding rotate
  rotate_failed r raw outcome minted e h =
      ap reread (
        rotate_found_failed (reread r) (server_key u raw) outcome minted
          (lookup (server_key u raw) (reread r).entries) e h)
      ∙ refresh_idem r
