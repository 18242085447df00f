-- ===== src/Hub/Control/Names.antt =====
-- A server's name in the roster and in its session.
use mathlib.Core.Option
use talkeqidea.Common.{
  ◌≡◌, inl, inr, refl, false, Bool-cases, Option, none, some, Text, is_empty, lookup,
  lookup-insert_self, Result, ok, err,
}
use talkeqidea.Golang.Strings.{Unicode, LowersAscii}
use talkeqidea.Sanitize.{server_key, telnet_line}
use talkeqidea.Sanitize.Names.{server_key_idem}
use talkeqidea.Relay.Frame.{Frame}
use talkeqidea.Hub.Store.{SaveOutcome, save_failed, saved, saved_unseen, save}
use talkeqidea.Hub.Roster.{
  Roster, RosterEntry, RosterError, reread, rename, rename_found, saved_rename,
}
use talkeqidea.Hub.Session.{Session}
use talkeqidea.Hub.Core.{Hub}
use talkeqidea.Hub.Admission.{Server}
use talkeqidea.Hub.Control.{rename_session, settle_rename, rename_agent}

-- The entry under a key has a name.
unfoldable pub IsCalled : Roster → Text → Text → Type 0
IsCalled r key name = (e : RosterEntry) × (lookup key r.entries ≡ some e) × (e.short_name ≡ name)

module _ (u : Unicode) where
  rename_found-IsCalled :
      (r : Roster) (key name : Text) (o : SaveOutcome) (known : Option RosterEntry)
      → (rename_found u r key name o known).1 ≡ ok tt
      → IsCalled (rename_found u r key name o known).0 key name
  unfolding rename_found saved_rename save IsCalled
  rename_found-IsCalled r key name o none h = absurd (cc)
  rename_found-IsCalled r key name save_failed (some e) h = absurd (cc)
  rename_found-IsCalled r key name (saved t) (some e) h =
      (record e { short_name = name }, lookup-insert_self key _ r.entries, refl)
  rename_found-IsCalled r key name (saved_unseen t) (some e) h =
      (record e { short_name = name }, lookup-insert_self key _ r.entries, refl)

  rename-IsCalled :
      (r : Roster) (raw key name : Text) (o : SaveOutcome)
      → server_key u raw ≡ key
      → (rename u r raw name o).1 ≡ ok tt
      → IsCalled (rename u r raw name o).0 key name
  unfolding rename
  rename-IsCalled r raw key name o at h = rw (← at) (
      rename_found-IsCalled (reread r) (server_key u raw) name o
        (lookup (server_key u raw) (reread r).entries) h)

lookup-rename_session :
    {F : Type 0} (h : Hub F) (key name : Text) (x : Option (Session F))
    → lookup key h.sessions ≡ x
    → lookup key (rename_session h key x name).sessions
      ≡ Option.map (λ (s : Session F). record s { short_name = name }) x
unfolding rename_session
lookup-rename_session h key name none e = e
lookup-rename_session h key name (some s) e = lookup-insert_self key _ h.sessions

module _ (u : Unicode) {P : Type 0} where
  settle_rename-ok :
      (s : Server P) (key name : Text) (x : Roster × Result RosterError (Unit {0}))
      → (settle_rename s key name x).1 ≡ ok tt
      → (x.1 ≡ ok tt)
        × ((settle_rename s key name x).0.front.roster ≡ x.0)
        × ((settle_rename s key name x).0.hub
            ≡ rename_session s.hub key (lookup key s.hub.sessions) name)
  unfolding settle_rename
  settle_rename-ok s key name (r, err e) h = absurd (cc)
  settle_rename-ok s key name (r, ok _) h = (refl, refl, refl)

  -- A server that was renamed is called by the cleaned name, which is not empty, in the roster and
  -- in its session if it has one, of which nothing else is changed, where the library lowers ASCII
  -- letters as documented.
  pub rename_agent-both :
      (s : Server P) (raw short_name : Text) (o : SaveOutcome)
      → LowersAscii u
      → (rename_agent u s raw short_name o).1 ≡ ok tt
      → let key = server_key u raw in
        let name = telnet_line u short_name 64 in
        let t = (rename_agent u s raw short_name o).0 in
        (is_empty name ≡ false)
        × IsCalled t.front.roster key name
        × (lookup key t.hub.sessions
            ≡ Option.map
                (λ (x : Session Frame). record x { short_name = name })
                (lookup key s.hub.sessions))
  unfolding rename_agent
  rename_agent-both s raw short_name o lowers h =
      let key = server_key u raw in
      let name = telnet_line u short_name 64 in
      elim (Bool-cases (is_empty name)) [
        | inl nothing ↦ absurd (cc (rw nothing at h))
        | inr something ↦
            let (renamed, r, hub) =
              settle_rename-ok s key name (rename u s.front.roster key name o)
                (rw something at h) in
            rw something (
              refl,
              rw r (
                  rename-IsCalled u s.front.roster key key name o (server_key_idem u raw lowers)
                    renamed),
              rw hub (lookup-rename_session s.hub key name (lookup key s.hub.sessions) refl),
            )
      ]
