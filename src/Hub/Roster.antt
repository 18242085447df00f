-- ===== src/Hub/Roster.antt =====
-- hub/roster.go: which agents may connect.
pub mod Identity
pub mod Rollback
pub mod Removal
pub mod Tests
use talkeqidea.Common.{
  ℕ, ◌≡◌, Bool, true, false, not, ◌&&◌, ◌||◌, List, [], ◌∷◌, ◌++◌, Option, none, some, Text, codes,
  is_empty, text_eq, text_lt, ◌==◌, if◌then◌else◌, TextMap, lookup, insert, erase, Result, ok, err,
  refuse_if, or_refuse, ◌>>=◌, ◌>>◌,
}
use talkeqidea.Golang.Strings.{Unicode}
use talkeqidea.Sanitize.{server_key}
use talkeqidea.Relay.Event.{origin_discord}
use talkeqidea.Hub.Store.{
  Store, StoreError, SaveOutcome, Disk, missing, load, refresh, save, sort_slice, values,
}

pub record RosterEntry : Type 0 where
  pub server_key : Text
  pub short_name : Text
  pub token_hash : Text
  pub is_disabled : Bool
  pub created_at : ℕ
  pub last_seen_at : ℕ

abbrev pub Roster : Type 0
Roster = Store RosterEntry

pub data RosterError : Type 0 where
  empty_key reserved_key already_exists not_found no_token_made : RosterError
  no_token_supplied is_disabled not_recognized : RosterError
  store_error : StoreError → RosterError

unfoldable pub key_of : RosterEntry → Text
key_of e = e.server_key

unfoldable pub by_key : RosterEntry → RosterEntry → Bool
by_key a b = text_lt a.server_key b.server_key

unfoldable pub lift : {A : Type 0} → Result StoreError A → Result RosterError A
lift (ok a) = ok a
lift (err e) = err (store_error e)

-- A new file is written at once where there was none; the loaded time is then still the zero time.
unfoldable pub created : SaveOutcome → Roster → Result StoreError Roster
created outcome r =
    let wrote = save by_key r outcome in
    if r.loaded_mod_time == 0 then (do wrote.1; ok wrote.0) else ok r

unfoldable pub new_roster : Disk RosterEntry → SaveOutcome → Result StoreError Roster
new_roster disk outcome = do
  r ← load key_of (record { entries = []; loaded_mod_time = 0; disk = disk })
  created outcome r

abbrev pub reread : Roster → Roster
reread = refresh key_of

-- A new token and its hash, when both can be made.
abbrev pub Minted : Type 0
Minted = Option (Text × Text)

-- A write that failed puts the old map back.
unfoldable pub saved_or :
    Roster → Text → Roster × Result StoreError (Unit {0}) → Roster × Result RosterError Text
saved_or old token (r, ok _) = (r, ok token)
saved_or old token (r, err e) = (record r { entries = old.entries }, err (store_error e))

-- The claimed agent's entry comes first, then the others.
unfoldable pub claimed_first : Option RosterEntry → List RosterEntry → List RosterEntry
claimed_first none others = others
claimed_first (some e) others = e ∷ others

unfoldable pub candidates : Text → TextMap RosterEntry → List RosterEntry
candidates key m = claimed_first (lookup key m) (values (erase key m))

-- The loop of `Authenticate`.
unfoldable pub find_token :
    (Text → Text → Bool) → Text → List RosterEntry → Result RosterError RosterEntry
find_token verify token [] = err not_recognized
find_token verify token (e ∷ es) =
    let rest = find_token verify token es in
    if verify token e.token_hash then (if e.is_disabled then err is_disabled else ok e) else rest

module _ (u : Unicode) where
  unfoldable pub add_minted :
      Roster → Text → Text → ℕ → SaveOutcome → Minted → Roster × Result RosterError Text
  add_minted r key short_name now outcome none = (r, err no_token_made)
  add_minted r key short_name now outcome (some (token, hash)) =
      let entry : RosterEntry = record {
        server_key = key;
        short_name = if is_empty short_name then key else short_name;
        token_hash = hash;
        is_disabled = false;
        created_at = now;
        last_seen_at = 0;
      } in
      saved_or r token (save by_key (record r { entries = insert key entry r.entries }) outcome)

  unfoldable pub add_if_new :
      Roster
      → Text
      → Text
      → ℕ
      → SaveOutcome
      → Minted
      → Option RosterEntry
      → Roster × Result RosterError Text
  add_if_new r key short_name now outcome minted (some _) = (r, err already_exists)
  add_if_new r key short_name now outcome minted none =
      add_minted r key short_name now outcome minted

  unfoldable pub add :
      Roster → Text → Text → ℕ → SaveOutcome → Minted → Roster × Result RosterError Text
  add r raw short_name now outcome minted =
      let key = server_key u raw in
      let r' = reread r in
      if is_empty key
      then (r, err empty_key)
      else if text_eq key origin_discord
      then (r, err reserved_key)
      else add_if_new r' key short_name now outcome minted (lookup key r'.entries)

  unfoldable pub rotate_found :
      Roster → Text → SaveOutcome → Minted → Option RosterEntry → Roster × Result RosterError Text
  rotate_found r key outcome minted none = (r, err not_found)
  rotate_found r key outcome none (some entry) = (r, err no_token_made)
  rotate_found r key outcome (some (token, hash)) (some entry) = saved_or r token (
      save by_key (record r { entries = insert key (record entry { token_hash = hash }) r.entries })
        outcome)

  unfoldable pub rotate : Roster → Text → SaveOutcome → Minted → Roster × Result RosterError Text
  rotate r raw outcome minted =
      let key = server_key u raw in
      let r' = reread r in rotate_found r' key outcome minted (lookup key r'.entries)

  -- `Remove` and `SetEnabled` return what saving returns, and undo nothing.
  unfoldable pub saved_anyway :
      Roster × Result StoreError (Unit {0}) → Roster × Result RosterError (Unit {0})
  saved_anyway (r, e) = (r, lift e)

  unfoldable pub remove_found :
      Roster → Text → SaveOutcome → Option RosterEntry → Roster × Result RosterError (Unit {0})
  remove_found r key outcome none = (r, err not_found)
  remove_found r key outcome (some _) =
      saved_anyway (save by_key (record r { entries = erase key r.entries }) outcome)

  unfoldable pub remove : Roster → Text → SaveOutcome → Roster × Result RosterError (Unit {0})
  remove r raw outcome =
      let key = server_key u raw in
      let r' = reread r in remove_found r' key outcome (lookup key r'.entries)

  unfoldable pub enable_found :
      Roster
      → Text
      → Bool
      → SaveOutcome
      → Option RosterEntry
      → Roster × Result RosterError (Unit {0})
  enable_found r key is_enabled outcome none = (r, err not_found)
  enable_found r key is_enabled outcome (some entry) = saved_anyway (
      save by_key
        (record r {
          entries = insert key (record entry { is_disabled = not is_enabled }) r.entries;
        })
        outcome)

  unfoldable pub set_enabled :
      Roster → Text → Bool → SaveOutcome → Roster × Result RosterError (Unit {0})
  set_enabled r raw is_enabled outcome =
      let key = server_key u raw in
      let r' = reread r in enable_found r' key is_enabled outcome (lookup key r'.entries)

  unfoldable pub saved_rename :
      Roster → Roster × Result StoreError (Unit {0}) → Roster × Result RosterError (Unit {0})
  saved_rename old (r, ok _) = (r, ok tt)
  saved_rename old (r, err e) = (record r { entries = old.entries }, err (store_error e))

  unfoldable pub rename_found :
      Roster
      → Text
      → Text
      → SaveOutcome
      → Option RosterEntry
      → Roster × Result RosterError (Unit {0})
  rename_found r key short_name outcome none = (r, err not_found)
  rename_found r key short_name outcome (some entry) = saved_rename r (
      save by_key
        (record r { entries = insert key (record entry { short_name = short_name }) r.entries })
        outcome)

  unfoldable pub rename :
      Roster → Text → Text → SaveOutcome → Roster × Result RosterError (Unit {0})
  rename r raw short_name outcome =
      let key = server_key u raw in
      let r' = reread r in rename_found r' key short_name outcome (lookup key r'.entries)

  -- `verify` is argon2id, a token against a hash.
  unfoldable pub authenticate :
      (Text → Text → Bool) → Roster → Text → Text → Roster × Result RosterError RosterEntry
  authenticate verify r claimed token =
      let r' = reread r in
      if is_empty token
      then (r, err no_token_supplied)
      else (r', find_token verify token (candidates (server_key u claimed) r'.entries))

  unfoldable pub entry : Roster → Text → Roster × Option RosterEntry
  entry r raw = let r' = reread r in (r', lookup (server_key u raw) r'.entries)

unfoldable pub entries_sorted : Roster → Roster × List RosterEntry
entries_sorted r = let r' = reread r in (r', sort_slice by_key (values r'.entries))

unfoldable pub mark_found : Roster → Text → ℕ → SaveOutcome → Option RosterEntry → Roster
mark_found r key now outcome none = r
mark_found r key now outcome (some e) =
    (save by_key (record r { entries = insert key (record e { last_seen_at = now }) r.entries })
      outcome).0

unfoldable pub mark_seen : Roster → Text → ℕ → SaveOutcome → Roster
mark_seen r key now outcome =
    let r' = reread r in mark_found r' key now outcome (lookup key r'.entries)
