-- ===== src/Config/Migrate.antt =====
-- config/migrate.go: an installation under the old names is moved to the new ones. The disk is the
-- regular files with what they hold; what was done before an error is left out; paths are taken apart by a parameter, `path/filepath`.
pub mod Steps
pub mod Kept
mod Tests
use talkeqidea.Common.{
  ℕ, ◌≡◌, Bool, true, false, not, ◌&&◌, ◌||◌, List, [], ◌∷◌, ◌++◌, Option, none, some, Text, codes,
  is_empty, text_eq, if◌then◌else◌, TextMap, lookup, insert, erase, Result, ok, err,
}

abbrev pub Disk : Type 0
Disk = TextMap Text

pub record Paths : Type 0 where
  pub dir : Text → Text
  pub base : Text → Text
  pub join : Text → Text → Text
  pub is_abs : Text → Bool
  -- The order in which a map is ranged over.
  pub range : TextMap Text → TextMap Text

pub data MigrateError : Type 0 where
  not_renamed not_loaded not_saved : MigrateError

-- What was done, for the operator.
pub data Action : Type 0 where
  renamed : Text → Text → Action
  updated_paths : Action

abbrev pub legacy_config_names : List Text
legacy_config_names = codes "talkeq.conf" ∷ []

abbrev pub legacy_data_names : TextMap Text
legacy_data_names =
    (codes "talkeq_agents.json", codes "modern-eq-chat-agents.json")
    ∷ (codes "talkeq_enroll.json", codes "modern-eq-chat-enroll.json")
    ∷ (codes "talkeq_users.txt", codes "modern-eq-chat-users.txt")
    ∷ (codes "talkeq_guilds.txt", codes "modern-eq-chat-guilds.txt")
    ∷ (codes "talkeq_register.toml", codes "modern-eq-chat-register.toml")
    ∷ (codes "talkeq_hub_cert.pem", codes "modern-eq-chat-cert.pem")
    ∷ (codes "talkeq_hub_key.pem", codes "modern-eq-chat-key.pem")
    ∷ []

abbrev pub is_there : Option Text → Bool
is_there none = false
is_there (some content) = true

-- `fileExists` and `Exists`.
unfoldable pub file_exists : Disk → Text → Bool
file_exists d path = is_there (lookup path d)

unfoldable pub moved : Disk → Text → Text → Option Text → Disk
moved d old new none = d
moved d old new (some content) = insert new content (erase old d)

-- `os.Rename` on files, where it works.
unfoldable pub rename : Disk → Text → Text → Disk
rename d old new = moved d old new (lookup old d)

-- `can_rename` is whether the system lets a file be renamed.
module _ (p : Paths) (can_rename : Text → Text → Bool) where
  unfoldable pub try_rename : Disk → Text → Text → Disk × Bool
  try_rename d old new = if can_rename old new then (rename d old new, true) else (d, false)

  -- The old configuration, the first that is there.
  unfoldable pub migrate_config :
      Text → Text → Disk → List Text → Disk × Result MigrateError (List Action)
  migrate_config dir path d [] = (d, ok [])
  migrate_config dir path d (legacy ∷ rest) =
      let later = migrate_config dir path d rest in
      let (d', done) = try_rename d (p.join dir legacy) path in
      if not (file_exists d (p.join dir legacy))
      then later
      else (d', if done then ok (renamed legacy (p.base path) ∷ []) else err not_renamed)

  unfoldable pub within : Text → Text → Text
  within dir path = if p.is_abs path then path else p.join dir path

  -- The new value keeps the directory of the old one.
  unfoldable pub new_value : Text → Text → Text
  new_value value current =
      let parent = p.dir value in
      if not (text_eq parent (codes ".")) && not (is_empty parent)
      then p.join parent current
      else current

  unfoldable pub migrate_known : Text → Text → Disk → Option Text → Disk × Result MigrateError Text
  migrate_known dir value d none = (d, ok value)
  migrate_known dir value d (some current) =
      let old_path = within dir value in
      let new_path = within dir (new_value value current) in
      let (d', done) = try_rename d old_path new_path in
      if file_exists d old_path && not (file_exists d new_path)
      then (d', if done then ok (new_value value current) else err not_renamed)
      else (d, ok (new_value value current))

  -- `migrateDataFile`: the empty text where the field names nothing.
  unfoldable pub migrate_data_file : Text → Text → Disk → Disk × Result MigrateError Text
  migrate_data_file dir value d =
      if is_empty value
      then (d, ok [])
      else migrate_known dir value d (lookup (p.base value) legacy_data_names)

  -- An empty answer leaves the field alone.
  unfoldable pub field_of : Text → Text → Text
  field_of value made = if is_empty made then value else made

  unfoldable pub after_field :
      Text → Disk × Result MigrateError (List Text) → Disk × Result MigrateError (List Text)
  after_field value (d, err why) = (d, err why)
  after_field value (d, ok rest) = (d, ok (value ∷ rest))

  unfoldable pub field_made :
      Text
      → Disk
      → Result MigrateError Text
      → Disk × Result MigrateError (List Text)
      → Disk × Result MigrateError (List Text)
  field_made value d (err why) later = (d, err why)
  field_made value d (ok made) later = after_field (field_of value made) later

  -- The loop over the fields of the configuration that name files.
  unfoldable pub migrate_fields : Text → Disk → List Text → Disk × Result MigrateError (List Text)
  migrate_fields dir d [] = (d, ok [])
  migrate_fields dir d (value ∷ rest) =
      let (d', made) = migrate_data_file dir value d in
      field_made value d' made (migrate_fields dir d' rest)

  unfoldable pub after_file :
      Action → Disk × Result MigrateError (List Action) → Disk × Result MigrateError (List Action)
  after_file a (d, err why) = (d, err why)
  after_file a (d, ok rest) = (d, ok (a ∷ rest))

  -- The files under an old name that no field names.
  unfoldable pub migrate_files :
      Text → Disk → TextMap Text → Disk × Result MigrateError (List Action)
  migrate_files dir d [] = (d, ok [])
  migrate_files dir d ((legacy, current) ∷ rest) =
      let old_path = p.join dir legacy in
      let new_path = p.join dir current in
      let skipped = migrate_files dir d rest in
      let (d', done) = try_rename d old_path new_path in
      let later = after_file (renamed legacy current) (migrate_files dir d' rest) in
      if not (file_exists d old_path) || file_exists d new_path
      then skipped
      else if done
      then later
      else (d', err not_renamed)

unfoldable pub texts_eq : List Text → List Text → Bool
texts_eq [] [] = true
texts_eq [] (y ∷ ys) = false
texts_eq (x ∷ xs) [] = false
texts_eq (x ∷ xs) (y ∷ ys) = text_eq x y && texts_eq xs ys

-- A configuration of some type: `load` reads TOML, `encode` writes it, and `fields` are those that
-- name files.
pub record ConfigFile (C : Type 0) : Type 0 where
  pub load : Text → Option C
  pub encode : C → Option Text
  pub fields : C → List Text
  pub with_fields : C → List Text → C

module _ {C : Type 0} (p : Paths) (can_rename : Text → Text → Bool) (f : ConfigFile C) where
  -- `Save` renames a temporary file into place.
  unfoldable pub save_made :
      Text → Disk → List Action → Option Text → Disk × Result MigrateError (List Action)
  save_made path d actions none = (d, err not_saved)
  save_made path d actions (some content) =
      (insert path content d, ok (actions ++ updated_paths ∷ []))

  unfoldable pub save_changed :
      Text → Disk → List Action → C → List Text → Disk × Result MigrateError (List Action)
  save_changed path d actions cfg fields =
      if texts_eq (f.fields cfg) fields
      then (d, ok actions)
      else save_made path d actions (f.encode (f.with_fields cfg fields))

  unfoldable pub files_done :
      Text
      → List Action
      → C
      → List Text
      → Disk × Result MigrateError (List Action)
      → Disk × Result MigrateError (List Action)
  files_done path actions cfg fields (d, err why) = (d, err why)
  files_done path actions cfg fields (d, ok more) = save_changed path d (actions ++ more) cfg fields

  unfoldable pub fields_done :
      Text
      → List Action
      → C
      → Disk × Result MigrateError (List Text)
      → Disk × Result MigrateError (List Action)
  fields_done path actions cfg (d, err why) = (d, err why)
  fields_done path actions cfg (d, ok fields) =
      files_done path actions cfg fields
        (migrate_files p can_rename (p.dir path) d (p.range legacy_data_names))

  unfoldable pub migrate_loaded :
      Text → List Action → Disk → Option C → Disk × Result MigrateError (List Action)
  migrate_loaded path actions d none = (d, err not_loaded)
  migrate_loaded path actions d (some cfg) =
      fields_done path actions cfg (migrate_fields p can_rename (p.dir path) d (f.fields cfg))

  unfoldable pub load_from :
      Text → List Action → Disk → Option Text → Disk × Result MigrateError (List Action)
  load_from path actions d none = (d, ok actions)
  load_from path actions d (some content) = migrate_loaded path actions d (f.load content)

  unfoldable pub config_done :
      Text → Disk × Result MigrateError (List Action) → Disk × Result MigrateError (List Action)
  config_done path (d, err why) = (d, err why)
  config_done path (d, ok actions) = load_from path actions d (lookup path d)

  unfoldable pub migrate_at : Text → Disk → Disk × Result MigrateError (List Action)
  migrate_at path d = config_done path (
      if file_exists d path
      then (d, ok [])
      else migrate_config p can_rename (p.dir path) path d legacy_config_names)

  unfoldable pub migrate : Text → Disk → Disk × Result MigrateError (List Action)
  migrate path d = migrate_at (if is_empty path then codes "modern-eq-chat.conf" else path) d
