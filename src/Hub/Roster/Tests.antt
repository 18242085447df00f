-- ===== src/Hub/Roster/Tests.antt =====
-- A roster of two agents, after hub/roster_test.go, with a hash that is the token itself.
use mathlib.Core.List.{Memᴰ}
use talkeqidea.Common.{
  ◌≡◌, refl, true, false, [], ◌∷◌, some, Text, codes, text_eq, lookup, erase, ok, err,
}
use talkeqidea.Golang.Tables.{ascii_tables}
use talkeqidea.Sanitize.{server_key}
use talkeqidea.Hub.Store.{not_saved, present, save_failed, refresh, refresh_from, save, values}
use talkeqidea.Hub.Roster.{
  RosterEntry, Roster, store_error, reread, key_of, remove, remove_found, saved_anyway,
  authenticate, find_token, candidates, claimed_first, lift,
}
use talkeqidea.Hub.Roster.Identity.{authenticate_sound}
use talkeqidea.Hub.Roster.Removal.{remove-authenticate}

abbrev agent : Text → Text → RosterEntry
agent key token = record {
  server_key = key;
  short_name = key;
  token_hash = token;
  is_disabled = false;
  created_at = 1;
  last_seen_at = 0;
}

abbrev pub east : RosterEntry
east = agent (codes "east") (codes "t1")

abbrev west : RosterEntry
west = agent (codes "west") (codes "t2")

abbrev pub roster : Roster
roster = record {
  entries = (codes "east", east) ∷ (codes "west", west) ∷ [];
  loaded_mod_time = 7;
  disk = present 7 (some (east ∷ west ∷ []));
}

let_in : (authenticate ascii_tables text_eq roster (codes "west") (codes "t1")).1 ≡ ok east
unfolding authenticate find_token candidates claimed_first server_key refresh refresh_from lookup
    erase text_eq
let_in = refl

authenticate_sound_example :
    Memᴰ east (values (reread roster).entries)
    × (text_eq (codes "t1") east.token_hash ≡ true)
    × (east.is_disabled ≡ false)
authenticate_sound_example =
    authenticate_sound ascii_tables text_eq roster (codes "west") (codes "t1") east let_in

abbrev minted : Text × Text
minted = (codes "t3", codes "t3")

-- A removal whose write failed is in force in memory all the same.
removed_unsaved :
    ((remove ascii_tables roster (codes "east") save_failed).1 ≡ err (store_error not_saved))
    × ((remove ascii_tables roster (codes "east") save_failed).0.entries
        ≡ (codes "west", west) ∷ [])
unfolding remove remove_found saved_anyway save server_key refresh refresh_from lookup erase text_eq
    lift
removed_unsaved = (refl, refl)

remove-authenticate_example : text_eq (key_of west) (server_key ascii_tables (codes "east")) ≡ false
unfolding authenticate find_token candidates claimed_first remove remove_found saved_anyway save
    server_key refresh refresh_from lookup erase text_eq key_of lift
remove-authenticate_example =
    remove-authenticate ascii_tables roster (codes "east") 8 text_eq (codes "east") (codes "t2")
      west (refl, (refl, tt)) refl refl
