-- ===== src/Config/Migrate/Kept.antt =====
-- What a whole migration leaves alone: config/migrate.go.
use talkeqidea.Common.{
  ◌≡◌, inl, inr, Bool, true, false, List, ◌++◌, Option, none, some, Bool-cases, Text, codes,
  is_empty, text_eq, All, lookup, lookup-insert, Result, ok, err, refl, sym, ap, ◌∙◌, TextMap,
}
use mathlib.Core.Path.{subst}
use mathlib.Core.List.{Permᴰ}
use mathlib.Core.List.Permᴰ.{nil, cons, swap, trans}
use talkeqidea.Config.Migrate.{
  texts_eq, Disk, Paths, MigrateError, Action, legacy_config_names, legacy_data_names, file_exists,
  migrate_files, ConfigFile, save_made, save_changed, files_done, fields_done, migrate_loaded,
  load_from, config_done, migrate_at, migrate,
}
use talkeqidea.Config.Migrate.Steps.{
  is_legacy, KeepsBase, Holds, AreOld, first-if, migrate_config_keeps, migrate_fields_keeps,
  migrate_files_keeps,
}

-- What holds of every element holds in every order.
All-Perm : (Q : Text × Text → Type 0) {xs ys : TextMap Text} → Permᴰ xs ys → All Q ys → All Q xs
All-Perm Q nil h = tt
All-Perm Q (cons same r) (h, hs) = (subst Q (sym same) h, All-Perm Q r hs)
All-Perm Q (swap e e') (h, (k, hs)) = (subst Q (sym e) k, (subst Q (sym e') h, hs))
All-Perm Q (trans r s) h = All-Perm Q r (All-Perm Q s h)

module _ (asked content : Text) (p : Paths) (can_rename : Text → Text → Bool) (laws : KeepsBase p)
    (is_new : is_legacy (p.base asked) ≡ false) where
  names_old : All (λ (q : Text × Text). is_legacy (p.base q.0) ≡ true) legacy_data_names
  unfolding is_legacy lookup text_eq
  names_old =
      let old =
        (λ (name : Text) (h : is_legacy name ≡ true). ap is_legacy (laws.plain name h) ∙ h) in
      (
        old (codes "talkeq_agents.json") refl,
        (
          old (codes "talkeq_enroll.json") refl,
          (
            old (codes "talkeq_users.txt") refl,
            (
              old (codes "talkeq_guilds.txt") refl,
              (
                old (codes "talkeq_register.toml") refl,
                (
                  old (codes "talkeq_hub_cert.pem") refl,
                  (old (codes "talkeq_hub_key.pem") refl, tt),
                ),
              ),
            ),
          ),
        ),
      )

  ranged_old : All (λ (q : Text × Text). is_legacy (p.base q.0) ≡ true) (p.range legacy_data_names)
  ranged_old = All-Perm (λ q. is_legacy (p.base q.0) ≡ true) laws.ranged names_old

  config_old : AreOld asked content p can_rename laws is_new legacy_config_names
  unfolding is_legacy lookup text_eq
  config_old = (ap is_legacy (laws.plain (codes "talkeq.conf") refl), tt)

  module _ {C : Type 0} (f : ConfigFile C) (path : Text) (apart : text_eq path asked ≡ false) where
    save_made_keeps :
        (d : Disk) (actions : List Action) (written : Option Text)
        → Holds asked content d
        → Holds asked content (save_made p can_rename f path d actions written).0
    unfolding save_made
    save_made_keeps d actions none held = held
    save_made_keeps d actions (some new) held = lookup-insert path asked new d ∙ rw apart held

    files_done_keeps :
        (actions : List Action) (cfg : C) (fields : List Text)
        (made : Disk × Result MigrateError (List Action))
        → Holds asked content made.0
        → Holds asked content (files_done p can_rename f path actions cfg fields made).0
    unfolding files_done save_changed
    files_done_keeps actions cfg fields (d, err why) held = held
    files_done_keeps actions cfg fields (d, ok more) held =
        first-if asked content p can_rename laws is_new (texts_eq (f.fields cfg) fields)
          (d, ok (actions ++ more))
          (save_made p can_rename f path d (actions ++ more) (f.encode (f.with_fields cfg fields)))
          held (save_made_keeps d (actions ++ more) (f.encode (f.with_fields cfg fields)) held)

    fields_done_keeps :
        (actions : List Action) (cfg : C) (made : Disk × Result MigrateError (List Text))
        → Holds asked content made.0
        → Holds asked content (fields_done p can_rename f path actions cfg made).0
    unfolding fields_done
    fields_done_keeps actions cfg (d, err why) held = held
    fields_done_keeps actions cfg (d, ok fields) held =
        files_done_keeps actions cfg fields
          (migrate_files p can_rename (p.dir path) d (p.range legacy_data_names))
          (migrate_files_keeps asked content p can_rename laws is_new (p.dir path)
            (p.range legacy_data_names) d ranged_old held)

    loaded_keeps :
        (actions : List Action) (d : Disk) (cfg : Option C)
        → Holds asked content d
        → Holds asked content (migrate_loaded p can_rename f path actions d cfg).0
    unfolding migrate_loaded
    loaded_keeps actions d none held = held
    loaded_keeps actions d (some cfg) held = fields_done_keeps actions cfg _ (
        migrate_fields_keeps asked content p can_rename laws is_new (p.dir path) (f.fields cfg) d
          held)

    load_from_keeps :
        (actions : List Action) (d : Disk) (found : Option Text)
        → Holds asked content d
        → Holds asked content (load_from p can_rename f path actions d found).0
    unfolding load_from
    load_from_keeps actions d none held = held
    load_from_keeps actions d (some new) held = loaded_keeps actions d (f.load new) held

    config_done_keeps :
        (made : Disk × Result MigrateError (List Action))
        → Holds asked content made.0
        → Holds asked content (config_done p can_rename f path made).0
    unfolding config_done
    config_done_keeps (d, err why) held = held
    config_done_keeps (d, ok actions) held = load_from_keeps actions d (lookup path d) held

    migrate_at_keeps :
        (d : Disk)
        → Holds asked content d
        → Holds asked content (migrate_at p can_rename f path d).0
    unfolding migrate_at
    migrate_at_keeps d held = config_done_keeps _ (elim (Bool-cases (file_exists d path)) [
      | inl there ↦ rw there held
      | inr away ↦ rw away (
          migrate_config_keeps asked content p can_rename laws is_new (p.dir path) path d
            legacy_config_names config_old away held)
    ])

-- Where the base of an old name is that name, with or without a directory before it, and the old
-- names are ranged over in some order, a file whose
-- name is not an old one and that is not the configuration itself still holds after a migration what
-- it held before, whether or not the migration ends with an error.
pub migrate_keeps :
    {C : Type 0} (p : Paths) (can_rename : Text → Text → Bool) (f : ConfigFile C)
    (path asked content : Text) (d : Disk)
    → KeepsBase p
    → is_legacy (p.base asked) ≡ false
    → is_empty path ≡ false
    → text_eq path asked ≡ false
    → lookup asked d ≡ some content
    → lookup asked (migrate p can_rename f path d).0 ≡ some content
unfolding migrate
migrate_keeps p can_rename f path asked content d laws is_new given apart held =
    rw given (migrate_at_keeps asked content p can_rename laws is_new f path apart d held)
