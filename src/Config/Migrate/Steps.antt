-- ===== src/Config/Migrate/Steps.antt =====
-- What each step of a migration leaves alone: config/migrate.go.
use talkeqidea.Common.{
  ◌≡◌, inl, inr, Bool, true, false, not, ◌||◌, List, [], ◌∷◌, Option, none, some, Bool-cases, Text,
  codes, is_empty, text_eq, text_eq_iff, TextMap, All, lookup, erase, lookup-insert, lookup-erase,
  Result, ok, err, if◌then◌else◌, refl, ap, ◌∙◌,
}
use mathlib.Core.List.{Permᴰ}
use talkeqidea.Config.Migrate.{
  Disk, Paths, MigrateError, Action, legacy_data_names, is_there, file_exists, moved, rename,
  try_rename, migrate_config, within, new_value, migrate_known, migrate_data_file, after_field,
  field_made, migrate_fields, after_file, migrate_files,
}

-- A name that this program used to use.
unfoldable pub is_legacy : Text → Bool
is_legacy name = text_eq name (codes "talkeq.conf") || is_there (lookup name legacy_data_names)

-- What `filepath.Base` does with these names: one without a directory is its own base, and a
-- directory before it is cut off. Ranging over a map gives its entries in some order.
pub record KeepsBase (p : Paths) : Type 0 where
  pub plain : (name : Text) → is_legacy name ≡ true → p.base name ≡ name
  pub joined :
      (dir name : Text) → is_legacy (p.base name) ≡ true → p.base (p.join dir name) ≡ p.base name
  pub ranged : Permᴰ (p.range legacy_data_names) legacy_data_names

module _ (asked content : Text) where
  abbrev pub Holds : Disk → Type 0
  Holds d = lookup asked d ≡ some content

  moved_keeps :
      (d : Disk) (old new : Text) (found : Option Text)
      → file_exists d new ≡ false
      → text_eq old asked ≡ false
      → Holds d
      → Holds (moved d old new found)
  unfolding moved file_exists
  moved_keeps d old new none free other held = held
  moved_keeps d old new (some c) free other held = elim (Bool-cases (text_eq new asked)) [
    | inl same ↦ absurd (
        let here : new ≡ asked = (text_eq_iff new asked).0 same in
        let there : lookup new d ≡ some content = ap (λ k. lookup k d) here ∙ held in
        let taken : is_there (lookup new d) ≡ true = ap is_there there in cc)
    | inr apart ↦
        lookup-insert new asked c (erase old d)
        ∙ rw (apart) (lookup-erase old asked d ∙ rw (other) held)
  ]

  module _ (p : Paths) (can_rename : Text → Text → Bool) where
    try_rename_keeps :
        (d : Disk) (old new : Text)
        → file_exists d new ≡ false
        → text_eq old asked ≡ false
        → Holds d
        → Holds (try_rename p can_rename d old new).0
    unfolding try_rename rename
    try_rename_keeps d old new free other held = elim (Bool-cases (can_rename old new)) [
      | inl can ↦ rw can (moved_keeps d old new (lookup old d) free other held)
      | inr cannot ↦ rw cannot held
    ]

    module _ (laws : KeepsBase p) (is_new : is_legacy (p.base asked) ≡ false) where
      old_other : (name : Text) → is_legacy (p.base name) ≡ true → text_eq name asked ≡ false
      old_other name old = elim (Bool-cases (text_eq name asked)) [
        | inl same ↦ absurd (
            let here : is_legacy (p.base name) ≡ is_legacy (p.base asked) =
              ap (λ k. is_legacy (p.base k)) ((text_eq_iff name asked).0 same) in
            cc)
        | inr apart ↦ apart
      ]

      joined_other :
          (dir name : Text)
          → is_legacy (p.base name) ≡ true
          → text_eq (p.join dir name) asked ≡ false
      joined_other dir name old =
          old_other (p.join dir name) (ap is_legacy (laws.joined dir name old) ∙ old)

      within_other :
          (dir name : Text)
          → is_legacy (p.base name) ≡ true
          → text_eq (within p can_rename dir name) asked ≡ false
      unfolding within
      within_other dir name old = elim (Bool-cases (p.is_abs name)) [
        | inl abs ↦ rw abs (old_other name old)
        | inr rel ↦ rw rel (joined_other dir name old)
      ]

      legacy_data :
          (name current : Text)
          → lookup name legacy_data_names ≡ some current
          → is_legacy name ≡ true
      unfolding is_legacy
      legacy_data name current h = elim (Bool-cases (text_eq name (codes "talkeq.conf"))) [
        | inl conf ↦ rw conf
        | inr other ↦ rw (other, h)
      ]

      abbrev pub AreOld : List Text → Type 0
      AreOld = All (λ name. is_legacy (p.base name) ≡ true)

      pub migrate_config_keeps :
          (dir path : Text) (d : Disk) (names : List Text)
          → AreOld names
          → file_exists d path ≡ false
          → Holds d
          → Holds (migrate_config p can_rename dir path d names).0
      unfolding migrate_config
      migrate_config_keeps dir path d [] old free held = held
      migrate_config_keeps dir path d (legacy ∷ rest) (o, old) free held =
          elim (Bool-cases (file_exists d (p.join dir legacy))) [
            | inl there ↦
                rw there (
                  try_rename_keeps d (p.join dir legacy) path free (joined_other dir legacy o) held)
            | inr away ↦ rw away (migrate_config_keeps dir path d rest old free held)
          ]

      migrate_known_keeps :
          (dir value : Text) (d : Disk) (found : Option Text)
          → lookup (p.base value) legacy_data_names ≡ found
          → Holds d
          → Holds (migrate_known p can_rename dir value d found).0
      unfolding migrate_known
      migrate_known_keeps dir value d none h held = held
      migrate_known_keeps dir value d (some current) h held =
          let new_path = within p can_rename dir (new_value p can_rename value current) in
          let other = within_other dir value (legacy_data (p.base value) current h) in
          elim (Bool-cases (file_exists d (within p can_rename dir value))) [
            | inl there ↦ elim (Bool-cases (file_exists d new_path)) [
              | inl taken ↦ rw (there, taken) held
              | inr free ↦
                  rw (there, free)
                    (try_rename_keeps d (within p can_rename dir value) new_path free other held)
            ]
            | inr away ↦ rw away held
          ]

      migrate_data_file_keeps :
          (dir value : Text) (d : Disk)
          → Holds d
          → Holds (migrate_data_file p can_rename dir value d).0
      unfolding migrate_data_file
      migrate_data_file_keeps dir value d held = elim (Bool-cases (is_empty value)) [
        | inl nothing ↦ rw nothing held
        | inr given ↦
            rw given
              (migrate_known_keeps dir value d (lookup (p.base value) legacy_data_names) refl held)
      ]

      field_made_keeps :
          (value : Text) (d : Disk) (made : Result MigrateError Text)
          (later : Disk × Result MigrateError (List Text))
          → Holds d
          → Holds later.0
          → Holds (field_made p can_rename value d made later).0
      unfolding field_made after_field
      field_made_keeps value d (err why) later held after = held
      field_made_keeps value d (ok made) (d', err why) held after = after
      field_made_keeps value d (ok made) (d', ok rest) held after = after

      pub migrate_fields_keeps :
          (dir : Text) (values : List Text) (d : Disk)
          → Holds d
          → Holds (migrate_fields p can_rename dir d values).0
      unfolding migrate_fields
      migrate_fields_keeps dir [] d held = held
      migrate_fields_keeps dir (value ∷ rest) d held =
          let after = migrate_data_file_keeps dir value d held in
          field_made_keeps value _ _ _ after
            (migrate_fields_keeps dir rest (migrate_data_file p can_rename dir value d).0 after)

      after_file_keeps :
          (a : Action) (later : Disk × Result MigrateError (List Action))
          → Holds later.0
          → Holds (after_file p can_rename a later).0
      unfolding after_file
      after_file_keeps a (d, err why) held = held
      after_file_keeps a (d, ok rest) held = held

      pub first-if :
          {A : Type 0} (b : Bool) (x y : Disk × A)
          → Holds x.0
          → Holds y.0
          → Holds (if b then x else y).0
      first-if true x y hx hy = hx
      first-if false x y hx hy = hy

      pub migrate_files_keeps :
          (dir : Text) (names : TextMap Text) (d : Disk)
          → All (λ (q : Text × Text). is_legacy (p.base q.0) ≡ true) names
          → Holds d
          → Holds (migrate_files p can_rename dir d names).0
      unfolding migrate_files
      migrate_files_keeps dir [] d old held = held
      migrate_files_keeps dir ((legacy, current) ∷ rest) d (o, old) held =
          let skipped = migrate_files_keeps dir rest d old held in
          elim (Bool-cases (file_exists d (p.join dir current))) [
            | inl taken ↦ elim (Bool-cases (file_exists d (p.join dir legacy))) [
              | inl there ↦ rw (there, taken) skipped
              | inr away ↦ rw (away) skipped
            ]
            | inr free ↦
                (let tried = try_rename p can_rename d (p.join dir legacy) (p.join dir current) in
                  let after =
                    try_rename_keeps d (p.join dir legacy) (p.join dir current) free
                      (joined_other dir legacy o) held in
                  let made =
                    after_file p can_rename (Action.renamed legacy current)
                      (migrate_files p can_rename dir tried.0 rest) in
                  let failed : Disk × Result MigrateError (List Action) =
                    (tried.0, err MigrateError.not_renamed) in
                  let finished =
                    after_file_keeps (Action.renamed legacy current)
                      (migrate_files p can_rename dir tried.0 rest)
                      (migrate_files_keeps dir rest tried.0 old after) in
                  first-if
                    (not (file_exists d (p.join dir legacy)) || file_exists d (p.join dir current))
                    (migrate_files p can_rename dir d rest) (if tried.1 then made else failed)
                    skipped (first-if tried.1 made failed finished after))
          ]
