-- ===== src/Hub/Store.antt =====
-- What roster.go and enroll.go of package hub have in common: a map that is held in memory and in a
-- file, read again whenever another process has written the file.
pub mod Files
use talkeqidea.Common.{
  ℕ, ◌≡◌, Bool, true, false, List, [], ◌∷◌, Option, none, some, Text, is_empty, ◌==◌, if◌then◌else◌,
  TextMap, insert, Result, ok, err,
}

-- The file: its modification time and the entries in it, if they can be read.
pub data Disk (E : Type 0) : Type 0 where
  missing : Disk E
  unstatable : Disk E
  present : ℕ → Option (List E) → Disk E

-- The mutex-guarded fields; a loaded time of 0 is the zero time.
pub record Store (E : Type 0) : Type 0 where
  pub entries : TextMap E
  pub loaded_mod_time : ℕ
  pub disk : Disk E

pub data StoreError : Type 0 where
  stat_failed unreadable not_saved : StoreError

-- How an attempt to write the file ends: the new modification time, which may fail to be read back.
pub data SaveOutcome : Type 0 where
  save_failed : SaveOutcome
  saved : ℕ → SaveOutcome
  saved_unseen : ℕ → SaveOutcome

module _ {E : Type 0} where
  -- Insertion sort, for `sort.Slice`.
  unfoldable pub insert_sorted : (E → E → Bool) → E → List E → List E
  insert_sorted before e [] = e ∷ []
  insert_sorted before e (f ∷ fs) =
      let later = f ∷ insert_sorted before e fs in if before e f then e ∷ f ∷ fs else later

  unfoldable pub sort_slice : (E → E → Bool) → List E → List E
  sort_slice before [] = []
  sort_slice before (e ∷ es) = insert_sorted before e (sort_slice before es)

  abbrev pub values : TextMap E → List E
  values [] = []
  values ((k, e) ∷ m) = e ∷ values m

  -- The loop of `loadLocked`: an entry with no key is left out.
  unfoldable pub index : (E → Text) → TextMap E → List E → TextMap E
  index key m [] = m
  index key m (e ∷ es) = index key (if is_empty (key e) then m else insert (key e) e m) es

  unfoldable pub load_from : (E → Text) → Store E → Disk E → Result StoreError (Store E)
  load_from key s missing = ok s
  load_from key s unstatable = err stat_failed
  load_from key s (present time none) = err unreadable
  load_from key s (present time (some es)) =
      ok (record s { entries = index key [] es; loaded_mod_time = time })

  unfoldable pub load : (E → Text) → Store E → Result StoreError (Store E)
  unfolding load_from
  load key s = load_from key s s.disk

  -- A file that cannot be reloaded leaves the map as it was.
  unfoldable pub or_stale : Store E → Result StoreError (Store E) → Store E
  or_stale s (ok t) = t
  or_stale s (err _) = s

  unfoldable pub refresh_from : (E → Text) → Store E → Disk E → Store E
  refresh_from key s missing = s
  refresh_from key s unstatable = s
  refresh_from key s (present time es) =
      if time == s.loaded_mod_time then s else or_stale s (load key s)

  unfoldable pub refresh : (E → Text) → Store E → Store E
  unfolding refresh_from or_stale load index
  refresh key s = refresh_from key s s.disk

  unfoldable pub save :
      (E → E → Bool) → Store E → SaveOutcome → Store E × Result StoreError (Unit {0})
  save before s save_failed = (s, err not_saved)
  save before s (saved time) = (
    record s {
      loaded_mod_time = time;
      disk = present time (some (sort_slice before (values s.entries)));
    },
    ok tt,
  )
  save before s (saved_unseen time) =
      (record s { disk = present time (some (sort_slice before (values s.entries))) }, ok tt)
