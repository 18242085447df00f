-- ===== src/Hub/Enrollment/Rollback.antt =====
-- A token that did not reach its agent.
use talkeqidea.Common.{
  ℕ, ◌/◌, ◌≡◌, inl, inr, refl, Bool, true, false, Bool-cases, Option-cases, Option, none, some,
  arith, Text, text_eq_refl, ◌==◌, lookup, erase, lookup-erase, Result, ok, err,
}
use talkeqidea.Golang.Strings.{Unicode}
use talkeqidea.Sanitize.{server_key}
use talkeqidea.Relay.Event.{protocol_version}
use talkeqidea.Guard.Core.{Netip}
use talkeqidea.Hub.Store.{saved, refresh, refresh_from, save}
use talkeqidea.Hub.Roster.{
  Roster, RosterEntry, RosterError, Minted, reread, remove, remove_found, saved_anyway, add,
}
use talkeqidea.Hub.Roster.Rollback.{refresh_idem}
use talkeqidea.Hub.Enroll.{EnrollEntry, EnrollStore, EnrollError, second, redeem}
use talkeqidea.Hub.Enrollment.{
  Enroll, Front, Writes, undelivered, deliver_token, enroll_redeemed, handle_enroll,
}

remove_found_done :
    (u : Unicode) (r : Roster) (key : Text) (time : ℕ) (e : RosterEntry)
    → (reread (remove_found u r key (saved time) (some e)).0).entries ≡ erase key r.entries
unfolding remove_found saved_anyway save refresh refresh_from
remove_found_done u r key time e = ground arith

remove_found_missing :
    (u : Unicode) (r : Roster) (key : Text) (time : ℕ)
    → (remove_found u r key (saved time) none).0 ≡ r
unfolding remove_found
remove_found_missing u r key time = refl

lookup-remove :
    (u : Unicode) (r : Roster) (raw : Text) (time : ℕ)
    → lookup (server_key u raw) (reread (remove u r raw (saved time)).0).entries ≡ none
unfolding remove
lookup-remove u r raw time =
    let key = server_key u raw in
    elim (Option-cases (lookup key (reread r).entries)) [
      | inl missing ↦
          rw (missing, remove_found_missing u (reread r) key time, refresh_idem r) missing
      | inr (e, found) ↦
          rw
            (
              found,
              remove_found_done u (reread r) key time e,
              lookup-erase key key (reread r).entries,
              text_eq_refl key,
            )
            refl
    ]

module _ (n : Netip) (u : Unicode) (verify : Text → Text → Bool) where
  open n use {Prefix}

  deliver_token_undelivered :
      (f : Front Prefix) (writes : Writes) (is_encoded is_delivered : Bool) (e : EnrollEntry)
      → (x : Roster × Result RosterError Text) (key : Text) (time : ℕ) → writes.removed ≡ saved time
      → (deliver_token n u verify f writes is_encoded is_delivered e x).1 ≡ undelivered key
      → lookup
          (server_key u key)
          (reread (deliver_token n u verify f writes is_encoded is_delivered e x).0.roster).entries
        ≡ none
  unfolding deliver_token
  deliver_token_undelivered f writes is_encoded is_delivered e (r, err _) key time w h = absurd (cc)
  deliver_token_undelivered f writes false is_delivered e (r, ok token) key time w h = absurd (cc)
  deliver_token_undelivered f writes true true e (r, ok token) key time w h = absurd (cc)
  deliver_token_undelivered f writes true false e (r, ok token) key time w h =
      let same : e.server_key ≡ key = ground arith in rw (w, same) (lookup-remove u r key time)

  enroll_redeemed_undelivered :
      (f : Front Prefix) (now : ℕ) (remote : Text) (writes : Writes) (minted : Minted)
      → (is_encoded is_delivered : Bool) (x : EnrollStore × Result EnrollError EnrollEntry)
      → (key : Text) (time : ℕ) → writes.removed ≡ saved time
      → (enroll_redeemed n u verify f now remote writes minted is_encoded is_delivered x).1
        ≡ undelivered key
      → lookup
          (server_key u key)
          (reread
            (enroll_redeemed n u verify f now remote writes minted is_encoded is_delivered
              x).0.roster).entries
        ≡ none
  unfolding enroll_redeemed
  enroll_redeemed_undelivered f now remote writes minted enc del (s, err _) key time w h =
      absurd (cc)
  enroll_redeemed_undelivered f now remote writes minted enc del (s, ok e) key time w h =
      deliver_token_undelivered (record f { enroll = s }) writes enc del e
        (add u f.roster e.server_key e.short_name (now / second) writes.added minted) key time w h

  -- A server whose new token could not be delivered is not in the roster afterwards, where the write
  -- that takes it out succeeds, so that the operator can issue a code for it again.
  pub undelivered_removed :
      (f : Front Prefix) (now : ℕ) (remote : Text) (writes : Writes) (minted : Minted)
      → (is_encoded is_delivered : Bool) (req : Option Enroll) (key : Text) (time : ℕ)
      → writes.removed ≡ saved time
      → (handle_enroll n u verify f now remote writes minted is_encoded is_delivered req).1
        ≡ undelivered key
      → lookup
          (server_key u key)
          (reread
            (handle_enroll n u verify f now remote writes minted is_encoded is_delivered
              req).0.roster).entries
        ≡ none
  unfolding handle_enroll
  undelivered_removed f now remote writes minted enc del none key time w h = absurd (cc)
  undelivered_removed f now remote writes minted enc del (some req) key time w h =
      elim (Bool-cases (req.protocol_version == protocol_version)) [
        | inl spoken ↦ rw spoken (
            enroll_redeemed_undelivered f now remote writes minted enc del
              (redeem u verify f.enroll now writes.redeemed req.code) key time w (rw spoken at h))
        | inr unspoken ↦ absurd (cc (rw unspoken at h))
      ]
