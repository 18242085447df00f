-- ===== src/Hub/Enroll.antt =====
-- hub/enroll.go: the outstanding enrollment codes. The clock is in nanoseconds, what an entry
-- keeps of it is in seconds.
pub mod Filed
pub mod Redemption
pub mod Guesses
mod Tests
use talkeqidea.Common.{
  ℕ, ◌+◌, ◌*◌, ◌/◌, ◌≡◌, Bool, true, false, not, ◌||◌, List, [], ◌∷◌, Option, none, some, Text,
  is_empty, length, text_eq, ltb, leb, ◌==◌, if◌then◌else◌, TextMap, lookup, insert, erase, retain,
  Result, ok, err,
}
use talkeqidea.Golang.Strings.{Unicode}
use talkeqidea.Sanitize.{server_key}
use talkeqidea.Relay.Event.{origin_discord}
use talkeqidea.Relay.EnrollCode.{enroll_code_length, normalize_enroll_code}
use talkeqidea.Hub.Store.{
  Store, StoreError, SaveOutcome, Disk, load, refresh, save, sort_slice, values,
}

pub record EnrollEntry : Type 0 where
  pub id : Text
  pub code_hash : Text
  pub server_key : Text
  pub short_name : Text
  pub expires_at : ℕ
  pub created_at : ℕ
  pub attempts : ℕ

abbrev pub EnrollStore : Type 0
EnrollStore = Store EnrollEntry

pub data EnrollError : Type 0 where
  empty_key reserved_key no_code_made malformed code_expired not_recognized not_pending :
      EnrollError
  store_error : StoreError → EnrollError

abbrev pub second : ℕ
second = 1000000000

abbrev pub default_enroll_ttl : ℕ
default_enroll_ttl = 15 * (60 * second)

abbrev pub max_enroll_attempts : ℕ
max_enroll_attempts = 5

unfoldable pub id_of : EnrollEntry → Text
id_of e = e.id

unfoldable pub by_created : EnrollEntry → EnrollEntry → Bool
by_created a b = ltb a.created_at b.created_at

unfoldable pub is_expired : ℕ → EnrollEntry → Bool
is_expired now e = ltb e.expires_at (now / second) || leb max_enroll_attempts e.attempts

unfoldable pub new_enroll_store : Disk EnrollEntry → Result StoreError EnrollStore
new_enroll_store disk = load id_of (record { entries = []; loaded_mod_time = 0; disk = disk })

unfoldable pub prune : ℕ → EnrollStore → EnrollStore
prune now s = record s { entries = retain (λ e. not (is_expired now e)) s.entries }

-- The store as every operation but `Revoke` begins with it.
unfoldable pub current : ℕ → EnrollStore → EnrollStore
current now s = prune now (refresh id_of s)

-- A write that failed takes the new entry out again.
unfoldable pub saved_code :
    Text → Text → EnrollStore × Result StoreError (Unit {0}) → EnrollStore × Result EnrollError Text
saved_code id code (s, ok _) = (s, ok code)
saved_code id code (s, err e) = (record s { entries = erase id s.entries }, err (store_error e))

-- `id` is a new identifier; `made` is a new code and the hash of its normal form, when both can be
-- made.
module _ (u : Unicode) where
  unfoldable pub create_made :
      EnrollStore
      → Text
      → Text
      → ℕ
      → ℕ
      → SaveOutcome
      → Text
      → Option (Text × Text)
      → EnrollStore × Result EnrollError Text
  create_made s key short_name ttl now outcome id none = (s, err no_code_made)
  create_made s key short_name ttl now outcome id (some (code, hash)) =
      let s' = current now s in
      let entry : EnrollEntry = record {
        id = id;
        code_hash = hash;
        server_key = key;
        short_name = if is_empty short_name then key else short_name;
        expires_at = (now + (if ttl == 0 then default_enroll_ttl else ttl)) / second;
        created_at = now / second;
        attempts = 0;
      } in
      saved_code id code
        (save by_created (record s' { entries = insert id entry s'.entries }) outcome)

  unfoldable pub create :
      EnrollStore
      → Text
      → Text
      → ℕ
      → ℕ
      → SaveOutcome
      → Text
      → Option (Text × Text)
      → EnrollStore × Result EnrollError Text
  create s raw short_name ttl now outcome id made =
      let key = server_key u raw in
      if is_empty key
      then (s, err empty_key)
      else if text_eq key origin_discord
      then (s, err reserved_key)
      else create_made s key short_name ttl now outcome id made

-- The loop of `Redeem`: the first entry whose hash the code verifies, with the key it stands under.
unfoldable pub find_code :
    (Text → Text → Bool) → Text → TextMap EnrollEntry → Option (Text × EnrollEntry)
find_code verify code [] = none
find_code verify code ((id, e) ∷ m) =
    let rest = find_code verify code m in if verify code e.code_hash then some (id, e) else rest

-- The loop that charges an attempt against every code.
unfoldable pub charge : TextMap EnrollEntry → TextMap EnrollEntry
charge [] = []
charge ((id, e) ∷ m) = (id, record e { attempts = e.attempts + 1 }) ∷ charge m

unfoldable pub redeemed :
    EnrollEntry
    → EnrollStore × Result StoreError (Unit {0})
    → EnrollStore × Result EnrollError EnrollEntry
redeemed e (s, ok _) = (s, ok e)
redeemed e (s, err x) = (s, err (store_error x))

unfoldable pub redeem_found :
    EnrollStore
    → ℕ
    → SaveOutcome
    → Option (Text × EnrollEntry)
    → EnrollStore × Result EnrollError EnrollEntry
redeem_found s now outcome none = (
  (save by_created (prune now (record s { entries = charge s.entries })) outcome).0,
  err not_recognized,
)
redeem_found s now outcome (some (id, e)) =
    let without = save by_created (record s { entries = erase id s.entries }) outcome in
    if is_expired now e then (without.0, err code_expired) else redeemed e without

-- `verify` is argon2id, a normalized code against a hash.
unfoldable pub redeem :
    Unicode
    → (Text → Text → Bool)
    → EnrollStore
    → ℕ
    → SaveOutcome
    → Text
    → EnrollStore × Result EnrollError EnrollEntry
redeem u verify s now outcome code =
    let normalized = normalize_enroll_code u code in
    let s' = current now s in
    if length normalized == enroll_code_length
    then redeem_found s' now outcome (find_code verify normalized s'.entries)
    else (s, err malformed)

unfoldable pub pending : EnrollStore → ℕ → EnrollStore × List EnrollEntry
pending s now = let s' = current now s in (s', sort_slice by_created (values s'.entries))

-- `Revoke` returns what saving returns, and undoes nothing.
unfoldable pub revoked :
    EnrollStore × Result StoreError (Unit {0}) → EnrollStore × Result EnrollError (Unit {0})
revoked (s, ok _) = (s, ok tt)
revoked (s, err e) = (s, err (store_error e))

unfoldable pub revoke_found :
    EnrollStore
    → Text
    → SaveOutcome
    → Option EnrollEntry
    → EnrollStore × Result EnrollError (Unit {0})
revoke_found s id outcome none = (s, err not_pending)
revoke_found s id outcome (some _) =
    revoked (save by_created (record s { entries = erase id s.entries }) outcome)

unfoldable pub revoke :
    EnrollStore → Text → SaveOutcome → EnrollStore × Result EnrollError (Unit {0})
revoke s id outcome = let s' = refresh id_of s in revoke_found s' id outcome (lookup id s'.entries)
